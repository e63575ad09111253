-- ===== src/Tss/Lifecycle/Resharings.antt =====
-- Resharing requests and announcements start operations and lose none.
use dknet.Base.{String, List, ok, ℤ, wrapping, gets, length, or_error, external, contains}
use dknet.P2p.Types.{Message}
use dknet.Tss.Types.{KeyData, SaveData, ResharingSyncData}
use dknet.Tss.Env.{Env}
use dknet.Tss.Service.{
  find_party, create_participant_list, generate_or_use_operation_id, new_session_id,
}
use dknet.Tss.Store.{check_idempotency, load_key_metadata}
use dknet.Tss.Broadcast.{resharing_sync_data}
use dknet.Tss.Resharing.{
  check_thresholds, not_in_old_list, Setup, ResharingOperationParams, resharing_from,
  create_resharing_from, create_resharing_operation, start_resharing, start_new_resharing,
  synced_local_party, create_synced_resharing, create_synced_resharing_operation,
}
use dknet.Tss.Lifecycle.{Good}
use dknet.Tss.Lifecycle.Rules.{
  bind-Good, same-Good, result-Good, wrap-Good, launch-Good, gets-Good, fail-Good, if-Good,
}
use dknet.Tss.Lifecycle.Starts.{
  check-Good, operation_id-Good, session_id-Good, existing-Good, spawned, spawned-Good,
  load_key_metadata-same,
}
use dknet.Tss.Lifecycle.Signings.{load-Good}

module _ {D : Type 0} (env : Env D) where
  resharing_from-Good : (c : Setup) → Good env (resharing_from env c)
  unfolding resharing_from
  resharing_from-Good c =
      bind-Good env (gets (λ s. s.clock)) _ (gets-Good env (λ s. s.clock))
        (λ now. launch-Good env _ 15)

  create_from-Good :
      (params : ResharingOperationParams) (k : KeyData) (r : SaveData)
      → Good env (create_resharing_from env params k r)
  unfolding create_resharing_from
  create_from-Good params k r =
      let old_list = create_participant_list env k.participants in
      let new_list = create_participant_list env params.new_participants in
      bind-Good env _ _
        (result-Good env (or_error (find_party env.node_id old_list) (not_in_old_list env)))
        (λ self.
          bind-Good env _ _
            (result-Good env (
              check_thresholds params.new_threshold (length new_list) k.threshold
                (length old_list)))
            (λ _. resharing_from-Good _))

  create_resharing-Good :
      (params : ResharingOperationParams) → Good env (create_resharing_operation env params)
  unfolding create_resharing_operation
  create_resharing-Good params =
      bind-Good env _ _ (load-Good env "failed to load key data" params.key_id) (λ (k, r).
        if-Good env (contains k.participants env.node_id) _ _ (create_from-Good params k r)
          (fail-Good env _))

  new_resharing-Good :
      (id key_id : String) (threshold : ℤ) (participants : List String)
      → Good env (start_new_resharing env id key_id threshold participants)
  unfolding start_new_resharing
  new_resharing-Good id key_id threshold participants =
      bind-Good env _ _
        (wrap-Good env _ (wrapping "failed to load key metadata")
          (same-Good env (load_key_metadata env key_id) (load_key_metadata-same env key_id)))
        (λ k.
          bind-Good env (generate_or_use_operation_id env id) _ (operation_id-Good env id)
            (λ operation_id.
              bind-Good env (new_session_id env) _ (session_id-Good env) (λ session_id.
                bind-Good env
                  (create_resharing_operation env (record {
                    operation_id = operation_id;
                    session_id = session_id;
                    key_id = key_id;
                    new_threshold = threshold;
                    new_participants = participants;
                  }))
                  (spawned env (
                    resharing_sync_data operation_id session_id key_id k.threshold threshold
                      k.participants participants))
                  (create_resharing-Good _) (spawned-Good env _))))

  pub start_resharing-Good :
      (id key_id : String) (threshold : ℤ) (participants : List String)
      → Good env (start_resharing env id key_id threshold participants)
  unfolding start_resharing
  start_resharing-Good id key_id threshold participants =
      bind-Good env (check_idempotency env id) _ (check-Good env id) (λ existing.
        existing-Good env existing _ (new_resharing-Good id key_id threshold participants))

  local_party-Good : (sync : ResharingSyncData) → Good env (synced_local_party env sync)
  unfolding synced_local_party
  local_party-Good sync =
      if-Good env (contains sync.old_participants env.node_id) _ _
        (bind-Good env _ _ (load-Good env "failed to load key data for old participant" sync.key_id)
          (λ (k, r). result-Good env (ok r)))
        (result-Good env (ok _))

  create_synced-Good : (sync : ResharingSyncData) → Good env (create_synced_resharing env sync)
  unfolding create_synced_resharing
  create_synced-Good sync = bind-Good env _ _ (local_party-Good sync) (λ r.
      bind-Good env _ _ (result-Good env _)
        (λ self. bind-Good env _ _ (resharing_from-Good _) (λ p. result-Good env (ok tt))))

  pub synced_resharing-Good : (msg : Message) → Good env (create_synced_resharing_operation env msg)
  unfolding create_synced_resharing_operation
  synced_resharing-Good msg =
      bind-Good env _ _
        (result-Good env (
          wrapping "failed to unmarshal resharing sync data"
            (or_error (env.json.unmarshal_resharing_sync msg.payload) (external "json"))))
        create_synced-Good
