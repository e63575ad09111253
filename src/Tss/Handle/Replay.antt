-- ===== src/Tss/Handle/Replay.antt =====
-- An announcement that comes again after its operation has ended.
use dknet.Base.{ℕ, String, true, none, some, ok, ◌≡◌, ◌∙◌, refl, arith, contains, ap, ◌++◌, [], ◌∷◌}
use dknet.P2p.Types.{Message}
use dknet.Tss.Types.{
  keygen, pending, PartyId, Operation, OperationData, OperationSyncData, watch_operation,
  run_operation,
}
use dknet.Tss.Env.{Env}
use dknet.Tss.Service.{Service, find, find_party, create_participant_list}
use dknet.Tss.Store.{load_operation, get_operation_data, get_stored, to_data}
use dknet.Tss.Keygen.{keygen_operation}
use dknet.Tss.Handle.{handle_operation_sync}
use dknet.Tss.Handle.Delivery.{sync_keygen}

module _ {D : Type 0} (env : Env D) (msg : Message) (base : OperationSyncData) (s : Service D)
    (decoded : env.json.unmarshal_base msg.payload ≡ some base) (d : OperationData) where
  shown_active :
      (id : String) (p : ℕ) (o : Operation) (t : Service D)
      → find id t ≡ some p
      → t.heap p ≡ some o
      → (get_operation_data env id t).0 ≡ ok (record (to_data env o) { request = none })
  unfolding get_operation_data
  shown_active id p o t found there = ground arith

  -- A node whose storage holds an ended operation shows it; when the announcement of that key
  -- generation comes again, the node starts the operation once more, and shows it as pending.
  pub replay_restarts :
      (self : PartyId)
      → contains base.participants env.node_id ≡ true
      → find base.operation_id s ≡ none
      → base.operation_type ≡ keygen
      → find_party env.node_id (create_participant_list env base.participants) ≡ some self
      → load_operation env base.operation_id s ≡ (ok d, s)
      → let t : Service D = (handle_operation_sync env msg s).1 in
        ((get_operation_data env base.operation_id s).0 ≡ ok d)
        × ((r : OperationData) × ((get_operation_data env base.operation_id t).0 ≡ ok r)
            × (r.status ≡ pending))
        × (t.tasks ≡ s.tasks ++ watch_operation s.next 10 ∷ run_operation s.next ∷ [])
  unfolding keygen_operation to_data
  replay_restarts self ours absent kind found ended =
      let (_, l) = sync_keygen env msg base s decoded self ours absent kind found in
      (
        ap (λ x. x.0) (get_stored env base.operation_id s absent ∙ ended),
        (_, shown_active base.operation_id s.next _ _ l.filed l.placed, refl),
        l.started,
      )
