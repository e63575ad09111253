-- ===== src/Tss/Lifecycle/Goroutines.antt =====
-- Every goroutine of the service keeps the operations known, and so does every step.
use dknet.Base
use dknet.Base.{
  ℕ, String, List, [], ◌∷◌, Option, none, some, Result, ok, err, Error, M, refl, ◌≡◌, ◌⊎◌, inl, inr,
  ◌>>=◌, ◌>>◌, wrapping, pure, ◌++◌, or_error, external, errorf, lift, gets, modify, fail, true,
  false, lookup, if◌then◌else◌,
}
use dknet.P2p.Types.{Bytes, Message}
use dknet.Tss.Types.{
  Operation, EndValue, error_value, SyncData, Task, watch_operation, run_operation, start_party,
  outgoing_messages, broadcast_sync, update_party, PartyId, Party, in_progress, Update,
}
use dknet.Tss.Env.{Env, StorageLaws}
use dknet.Tss.Service.{Service, spawn}
use dknet.Tss.Broadcast.{sync_operation, unless_empty, send}
use dknet.Tss.Watch.{Event, run}
use dknet.Tss.Handle.{
  OutMessage, to_participants, handle_outgoing_message, handle_outgoing_messages, offer,
  offer_update, call_party, deliver, skips,
}
use dknet.Tss.Tasks.{
  safe_go, offer_result, party_start, start_operation_party, send_outgoing, announce, perform, Step,
  Steps, here, later,
}
use dknet.Tss.Lifecycle.{WellFormed, Keeps, Good}
use dknet.Tss.Lifecycle.Rules.{
  bind-Good, result-Good, gets-Good, fail-Good, read-Good, update-Good, assign-WellFormed,
  deref-Good,
}
use dknet.Tss.Lifecycle.Starts.{start_keygen-Good}
use dknet.Tss.Lifecycle.Signings.{start_signing-Good}
use dknet.Tss.Lifecycle.Resharings.{start_resharing-Good}
use dknet.Tss.Lifecycle.Messages.{handle_message-Good}
use dknet.Tss.Lifecycle.Watching.{watch-Good, set_status-Good}

module _ {D : Type 0} (env : Env D) (laws : StorageLaws env.storage) where
  offer-Good : (p : ℕ) (v : EndValue) → Good env (offer env p v)
  offer-Good p v = update-Good env p (λ o. record o { end_ch = o.end_ch ++ v ∷ [] }) (λ o. refl)

  offer_result-Good : (p : ℕ) (r : Result (Unit {0})) → Good env (offer_result env p r)
  offer_result-Good p (ok u) = record { keeps = λ s w. (w, λ j known. known) }
  offer_result-Good p (err e) = record { keeps = (offer-Good p (error_value e)).keeps }
  offer_result-Good p Result.panics = record {
    keeps = (offer-Good p (error_value (external "runtime"))).keeps;
  }

  safe_go-Good : (p : ℕ) (f : M (Service D) (Unit {0})) → Good env f → Good env (safe_go env p f)
  unfolding safe_go
  safe_go-Good p f good = record {
    keeps = λ s w.
        let (v, k) = good.keeps s w in
        let (u, l) = (offer_result-Good p (f s).0).keeps (f s).1 v in
        (u, λ j known. l j (k j known));
  }

  spawn-Good : (t : Task) → Good env (modify (spawn {D = D} t))
  spawn-Good t = record { keeps = λ s w. (w, λ j known. known) }

  run-Good : (p : ℕ) → Good env (run env p)
  unfolding run
  run-Good p =
      bind-Good env _ _ (set_status-Good env laws p in_progress) (λ _.
        bind-Good env _ _ (spawn-Good (start_party p)) (λ _. spawn-Good (outgoing_messages p)))

  start-Good : (p : ℕ) → Good env (start_operation_party env p)
  unfolding start_operation_party
  start-Good p =
      safe_go-Good p _
        (bind-Good env _ _ (read-Good env p) (λ o. result-Good env (party_start env o.party)))

  send-Good : (msg : Message) → Good env (send env msg)
  send-Good msg = record { keeps = λ s w. (w, λ j known. known) }

  outgoing-Good : (o : Operation) (msg : OutMessage) → Good env (handle_outgoing_message env o msg)
  unfolding handle_outgoing_message
  outgoing-Good o msg = bind-Good env _ _ (result-Good env msg.wire_bytes) (λ (bytes, routing).
      bind-Good env _ _ (result-Good env (to_participants o msg routing)) (λ to.
        bind-Good env (gets (λ s. s.clock)) _ (gets-Good env (λ s. s.clock)) (λ now. send-Good _)))

  all_outgoing-Good :
      (o : Operation) (msgs : List OutMessage) → Good env (handle_outgoing_messages env o msgs)
  unfolding handle_outgoing_messages
  all_outgoing-Good o [] = fail-Good env _
  all_outgoing-Good o (msg ∷ msgs) =
      bind-Good env _ _ (outgoing-Good o msg) (λ _. all_outgoing-Good o msgs)

  send_outgoing-Good : (p : ℕ) (msgs : List OutMessage) → Good env (send_outgoing env p msgs)
  unfolding send_outgoing
  send_outgoing-Good p msgs =
      safe_go-Good p _ (bind-Good env _ _ (read-Good env p) (λ o. all_outgoing-Good o msgs))

  unless_empty-Good :
      (d : SyncData) (b : Bytes) (to : List String) → Good env (unless_empty env d b to)
  unfolding unless_empty
  unless_empty-Good d b [] = record { keeps = λ s w. (w, λ j known. known) }
  unless_empty-Good d b (p ∷ to) = record { keeps = λ s w. (w, λ j known. known) }

  announce-Good : (p : ℕ) (d : SyncData) → Good env (announce env p d)
  unfolding announce sync_operation
  announce-Good p d = safe_go-Good p _ (
      bind-Good env _ _
        (result-Good env (
          wrapping "failed to marshal sync data"
            (or_error (env.json.marshal_sync d) (external "json"))))
        (λ b. unless_empty-Good d b _))

  offer_update-Good : (p : ℕ) (r : Result Base.Bool) → Good env (offer_update env p r)
  unfolding offer_update
  offer_update-Good p (ok true) = result-Good env (ok tt)
  offer_update-Good p (ok false) = offer-Good p _
  offer_update-Good p (err e) = offer-Good p _
  offer_update-Good p Result.panics = offer-Good p _

  abbrev Fine : Service D → Service D → Type 0
  Fine s t = WellFormed env t × Keeps env s t

  called-Fine :
      (p : ℕ) (o : Operation) (u : Update) (party : Option Party) (s : Service D)
      → WellFormed env s
      → s.heap p ≡ some o
      → Fine s (call_party env p o u party s).1
  unfolding call_party
  called-Fine p o u none s w e = (offer-Good p _).keeps s w
  called-Fine p o u (some party) s w e =
      (offer_update-Good p (env.lib.update_from_bytes party o.updates u)).keeps _
        (assign-WellFormed env s w p o (record o { updates = o.updates ++ u ∷ [] }) e refl)

  unless-Fine :
      (b : Base.Bool) (m : M (Service D) (Unit {0})) (s : Service D)
      → WellFormed env s
      → Fine s (m s).1
      → Fine s ((if b then pure tt else m) s).1
  unless-Fine true m s w f = (w, λ j known. known)
  unless-Fine false m s w f = f

  deliver-Good :
      (p : ℕ) (msg : Message) (from_party : PartyId) → Good env (deliver env p msg from_party)
  unfolding deliver
  deliver-Good p msg from_party =
      deref-Good env p _
        (λ o s w e. unless-Fine (skips env o msg) _ s w (called-Fine p o _ o.party s w e))

  perform-Good :
      (event : Event) (msgs : List OutMessage) (t : Task) → Good env (perform env event msgs t)
  unfolding perform
  perform-Good event msgs (watch_operation p minutes) = watch-Good env laws p event
  perform-Good event msgs (run_operation p) = run-Good p
  perform-Good event msgs (start_party p) = start-Good p
  perform-Good event msgs (outgoing_messages p) = send_outgoing-Good p msgs
  perform-Good event msgs (broadcast_sync p d) = announce-Good p d
  perform-Good event msgs (update_party p msg from_party) = deliver-Good p msg from_party

  Step-Fine : {s t : Service D} → WellFormed env s → Step env s t → Fine s t
  Step-Fine {s} w (Step.keygen_step id threshold participants) =
      (start_keygen-Good env id threshold participants).keeps s w
  Step-Fine {s} w (Step.signing_step id message key_id participants) =
      (start_signing-Good env id message key_id participants).keeps s w
  Step-Fine {s} w (Step.resharing_step id key_id threshold participants) =
      (start_resharing-Good env id key_id threshold participants).keeps s w
  Step-Fine {s} w (Step.message_step views msg) = (handle_message-Good env views msg).keeps s w
  Step-Fine {s} w (Step.task_step before after t event msgs pending alive) =
      (perform-Good event msgs t).keeps (record s { tasks = before ++ after }) w
  Step-Fine w Step.clock_step = (w, λ j known. known)

  -- Whatever requests, messages and goroutines come in whatever order, as long as no goroutine has
  -- panicked beyond its own recovery, which ends the process: the service stays well formed (every filed operation exists under its own ID, and what is stored under an operation's
  -- key is the record of an ended operation with that ID), and an operation that is known, in memory
  -- or in storage, stays known. The storage keeps its laws.
  pub Steps-Keeps :
      {s t : Service D} → WellFormed env s → Steps env s t → WellFormed env t × Keeps env s t
  Steps-Keeps w here = (w, λ j known. known)
  Steps-Keeps w (later steps step) =
      let (v, k) = Steps-Keeps w steps in
      let (u, l) = Step-Fine v step in (u, λ j known. l j (k j known))
