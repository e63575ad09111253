-- ===== src/Tss/Lifecycle/Signings.antt =====
-- Signing requests and announcements start operations and lose none.
use dknet.Base.{
  ℕ, String, List, ok, ◌≡◌, inl, inr, arith, Option-cases, ◌>>=◌, wrapping, gets, length, or_error,
  external, ◌==◌, ◌==ℕ◌,
}
use dknet.P2p.Types.{Bytes, Message}
use dknet.Tss.Types.{PartyId, KeyData, SaveData, SigningSyncData}
use dknet.Tss.Env.{Env}
use dknet.Tss.Service.{
  Service, find_party, create_participant_list, generate_or_use_operation_id, new_session_id,
  launch,
}
use dknet.Tss.Store.{check_idempotency, load_key_data}
use dknet.Tss.Broadcast.{signing_sync_data}
use dknet.Tss.Sign.{
  SigningOperationParams, create_signing_operation, start_signing, start_new_signing, signing_from,
  party_count, create_synced_signing, create_synced_signing_operation,
}
use dknet.Tss.Lifecycle.{Good}
use dknet.Tss.Lifecycle.Rules.{
  bind-Good, same-Good, result-Good, gets-Good, fail-Good, option-Good, if-Good, wrap-Good,
  launch-Good,
}
use dknet.Tss.Lifecycle.Starts.{
  check-Good, operation_id-Good, session_id-Good, existing-Good, spawned, spawned-Good,
  load_key_data-same,
}

module _ {D : Type 0} (env : Env D) where
  signing_from-Good :
      (params : SigningOperationParams) (k : KeyData) (r : SaveData) (l : List PartyId)
      (self : PartyId)
      → Good env (signing_from env params k r l self)
  unfolding signing_from
  signing_from-Good params k r l self =
      bind-Good env (gets (λ s. s.clock)) _ (gets-Good env (λ s. s.clock)) (λ now.
        bind-Good env (launch _ 5) _ (launch-Good env _ 5)
          (λ p. result-Good env (ok (p, k.threshold))))

  pub load-Good :
      (format key_id : String)
      → Good env
          (λ s. (wrapping format (load_key_data env key_id s).0, (load_key_data env key_id s).1))
  load-Good format key_id =
      wrap-Good env (load_key_data env key_id) (wrapping format)
        (same-Good env (load_key_data env key_id) (load_key_data-same env key_id))

  create_signing-Good :
      (params : SigningOperationParams) → Good env (create_signing_operation env params)
  unfolding create_signing_operation
  create_signing-Good params =
      bind-Good env _ _ (load-Good "failed to load key data" params.key_id) (λ (k, r).
        option-Good env (find_party env.node_id (create_participant_list env params.participants)) _
          _ (fail-Good env _) (λ self. signing_from-Good params k r _ self))

  party_count-same : (p : ℕ) (s : Service D) → (party_count env p s).1 ≡ s
  party_count-same p s = elim (Option-cases (s.heap p)) [
    | inl e ↦ ground arith
    | inr e ↦ ground arith
  ]

  new_signing-Good :
      (id : String) (message : Bytes) (key_id : String) (participants : List String)
      → Good env (start_new_signing env id message key_id participants)
  unfolding start_new_signing
  new_signing-Good id message key_id participants = bind-Good env _ _ (result-Good env _) (λ _.
      bind-Good env (generate_or_use_operation_id env id) _ (operation_id-Good env id)
        (λ operation_id. bind-Good env (new_session_id env) _ (session_id-Good env) (λ session_id.
          bind-Good env
            (create_signing_operation env (record {
              operation_id = operation_id;
              session_id = session_id;
              message = message;
              key_id = key_id;
              participants = participants;
            }))
            (λ (p, threshold). party_count env p >>= λ parties.
              spawned env
                (signing_sync_data operation_id session_id threshold parties participants key_id
                  message)
                p)
            (create_signing-Good _)
            (λ (p, threshold).
              bind-Good env (party_count env p) _
                (same-Good env (party_count env p) (party_count-same p))
                (λ parties. spawned-Good env _ p)))))

  pub start_signing-Good :
      (id : String) (message : Bytes) (key_id : String) (participants : List String)
      → Good env (start_signing env id message key_id participants)
  unfolding start_signing
  start_signing-Good id message key_id participants =
      bind-Good env (check_idempotency env id) _ (check-Good env id)
        (λ existing. existing-Good env existing _ (new_signing-Good id message key_id participants))

  create_synced-Good : (sync : SigningSyncData) → Good env (create_synced_signing env sync)
  unfolding create_synced_signing
  create_synced-Good sync = if-Good env (sync.key_id == "") _ _ (fail-Good env _) (
      if-Good env (length sync.message ==ℕ 0) _ _ (fail-Good env _) (
        bind-Good env _ _ (result-Good env _) (λ _.
          bind-Good env _ _
            (wrap-Good env _ (wrapping "failed to create synced signing operation")
              (create_signing-Good _))
            (λ p. result-Good env (ok tt)))))

  pub synced_signing-Good : (msg : Message) → Good env (create_synced_signing_operation env msg)
  unfolding create_synced_signing_operation
  synced_signing-Good msg =
      bind-Good env _ _
        (result-Good env (
          wrapping "failed to unmarshal signing sync data"
            (or_error (env.json.unmarshal_signing_sync msg.payload) (external "json"))))
        create_synced-Good
