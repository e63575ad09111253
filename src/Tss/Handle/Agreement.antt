-- ===== src/Tss/Handle/Agreement.antt =====
-- A key generation from the request at one node to the operation at another.
use dknet.Base.{
  ℕ, suc, String, true, List, [], ◌∷◌, ◌++◌, none, some, ℤ, ◌≡◌, refl, length, contains,
}
use dknet.P2p.Types.{Message}
use dknet.Tss.Types.{
  Operation, OperationSyncData, PartyId, Parameters, keygen, keygen_party, keygen_sync,
  watch_operation, run_operation, broadcast_sync,
}
use dknet.Tss.Env.{Env}
use dknet.Tss.Service.{Service, find, find_party, create_participant_list}
use dknet.Tss.Keygen.{
  KeygenOperationParams, start_keygen, planned_keygen, announced_params, keygen_operation,
}
use dknet.Tss.Requests.Fresh.{start_keygen_fresh}
use dknet.Tss.Handle.{handle_operation_sync}
use dknet.Tss.Handle.Delivery.{sync_keygen}

-- Two operations of a key generation belong together: they have the same ID, session and request,
-- and their parties run with the same threshold and number of parties.
pub record Together (o u : Operation) : Type 0 where
  pub same_id : o.id ≡ u.id
  pub same_type : o.type ≡ u.type
  pub same_session : o.session_id ≡ u.session_id
  pub same_request : o.request ≡ u.request
  pub parties :
      (p : Parameters) × (q : Parameters) × (o.party ≡ some (keygen_party p none))
      × (u.party ≡ some (keygen_party q none))
      × (p.threshold ≡ q.threshold)
      × (p.party_count ≡ q.party_count)

module _ {D E : Type 0} (a : Env D) (b : Env E) (s : Service D) (t : Service E) (threshold : ℤ)
    (participants : List String) (self_a self_b : PartyId)
    (here : find_party a.node_id (create_participant_list a participants) ≡ some self_a)
    (there : find_party b.node_id (create_participant_list b participants) ≡ some self_b)
    (takes_part : contains participants b.node_id ≡ true) where
  -- what is announced
  abbrev announced : OperationSyncData
  announced = record {
    operation_id = a.uuid s.draws;
    operation_type = keygen;
    session_id = a.uuid (suc s.draws);
    threshold = threshold;
    parties = length participants;
    participants = participants;
  }

  params : KeygenOperationParams
  params = announced_params b announced

  planned-Together :
      (self_a self_b : PartyId) (now later : ℕ)
      → Together
          (planned_keygen a (announced_params a announced) self_a now)
          (planned_keygen b (announced_params b announced) self_b later)
  unfolding keygen_operation
  planned-Together self_a self_b now later = record {
    same_id = refl;
    same_type = refl;
    same_session = refl;
    same_request = refl;
    parties = (_, _, refl, refl, refl, refl);
  }

  -- Starting a key generation without an ID at one participant spawns the announcement of some data.
  -- Whatever message another participant can decode these data from: if that participant does not
  -- have the operation yet, handling it leaves both with operations that belong together, each filed
  -- under the announced ID.
  pub keygen_agrees :
      (d : OperationSyncData) × ((start_keygen a "" threshold participants s).1.tasks
        ≡ s.tasks
          ++ watch_operation s.next 10
            ∷ run_operation s.next
            ∷ broadcast_sync s.next (keygen_sync d)
            ∷ [])
      × ((msg : Message)
          → b.json.unmarshal_base msg.payload ≡ some d
          → find d.operation_id t ≡ none
          → (o : Operation) × (u : Operation) × (find d.operation_id
                (start_keygen a "" threshold participants s).1
              ≡ some s.next)
            × ((start_keygen a "" threshold participants s).1.heap s.next ≡ some o)
            × (find d.operation_id (handle_operation_sync b msg t).1 ≡ some t.next)
            × ((handle_operation_sync b msg t).1.heap t.next ≡ some u)
            × Together o u)
  unfolding keygen_operation
  keygen_agrees =
      let started = (start_keygen_fresh a s threshold participants self_a here).1 in
      (
        announced,
        started.started,
        λ msg decoded absent.
            let joined =
              (sync_keygen b msg announced t decoded self_b takes_part absent refl there).1 in
            (
              _,
              _,
              started.filed,
              started.placed,
              joined.filed,
              joined.placed,
              planned-Together self_a self_b s.clock t.clock,
            ),
      )
