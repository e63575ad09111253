-- ===== src/Tss/Lifecycle/Messages.antt =====
-- Messages from the network start operations and lose none.
use dknet.Base.{
  ℕ, Bool, true, false, Option, none, some, Result, ok, wrapping, or_error, external, contains,
  errorf, str, [], ◌∷◌, ◌==◌, if◌then◌else◌,
}
use dknet.P2p.Types.{Message}
use dknet.Tss.Types.{OperationType, keygen, signing, resharing, operation_sync, unknown_type}
use dknet.Tss.Env.{Env}
use dknet.Tss.Service.{Service, find, find_party}
use dknet.Tss.Handle.{
  create_synced, handle_operation_sync, handle_session_message, handle_message_body, handle_message,
  get_session,
}
use dknet.Tss.Lifecycle.{WellFormed, Keeps, Good}
use dknet.Tss.Lifecycle.Rules.{bind-Good, result-Good, fail-Good, if-Good, option-Good, deref-Good}
use dknet.Tss.Lifecycle.Starts.{synced_keygen-Good}
use dknet.Tss.Lifecycle.Signings.{synced_signing-Good}
use dknet.Tss.Lifecycle.Resharings.{synced_resharing-Good}

module _ {D : Type 0} (env : Env D) where
  create_synced-Good : (t : OperationType) (msg : Message) → Good env (create_synced env t msg)
  unfolding create_synced
  create_synced-Good keygen msg = synced_keygen-Good env msg
  create_synced-Good signing msg = synced_signing-Good env msg
  create_synced-Good resharing msg = synced_resharing-Good env msg
  create_synced-Good operation_sync msg = fail-Good env _
  create_synced-Good (unknown_type t) msg = fail-Good env _

  abbrev Fine : Service D → Result (Unit {0}) × Service D → Type 0
  Fine s x = WellFormed env x.1 × Keeps env s x.1

  if-Fine :
      (b : Bool) (s : Service D) (x y : Result (Unit {0}) × Service D)
      → Fine s x
      → Fine s y
      → Fine s (if b then x else y)
  if-Fine true s x y f g = f
  if-Fine false s x y f g = g

  -- an announcement of an operation that is active, or not
  active-Fine :
      (found : Option ℕ) (s : Service D) (x : Result (Unit {0}) × Service D)
      → WellFormed env s
      → Fine s x
      → Fine s
          (elim found as (λ _. Result (Unit {0}) × Service D) [ some p ↦ (ok tt, s) | none ↦ x ])
  active-Fine (some p) s x w f = (w, λ j known. known)
  active-Fine none s x w f = f

  sync-Good : (msg : Message) → Good env (handle_operation_sync env msg)
  unfolding handle_operation_sync
  sync-Good msg =
      bind-Good env _ _
        (result-Good env (
          wrapping "failed to unmarshal operation sync data"
            (or_error (env.json.unmarshal_base msg.payload) (external "json"))))
        (λ base. record {
          keeps = λ s w.
              if-Fine (contains base.participants env.node_id) s _ _
                (active-Fine (find base.operation_id s) s _ w
                  ((create_synced-Good base.operation_type msg).keeps s w))
                (w, λ j known. known);
        })

  session-Good : (p : ℕ) (msg : Message) → Good env (handle_session_message env p msg)
  unfolding handle_session_message
  session-Good p msg = if-Good env (msg.from == env.node_id) _ _ (result-Good env (ok tt)) (
      deref-Good env p _ (λ o s w e.
        (bind-Good env _ _
            (result-Good env (
              or_error (find_party msg.from o.participants)
                (errorf "unknown sender: %s" (str msg.from ∷ []))))
            (λ from_party. record { keeps = λ s w. (w, λ j known. known) })).keeps
          s w))

  body-Good : (views : ℕ → Service D) (msg : Message) → Good env (handle_message_body env views msg)
  unfolding handle_message_body
  body-Good views msg = if-Good env (msg.type == "operation_sync") _ _ (sync-Good msg) (
      option-Good env (get_session msg.session_id views) _ _ (fail-Good env _)
        (λ p. session-Good p msg))

  pub handle_message-Good :
      (views : ℕ → Service D) (msg : Message) → Good env (handle_message env views msg)
  unfolding handle_message
  handle_message-Good views msg = record { keeps = (body-Good views msg).keeps }
