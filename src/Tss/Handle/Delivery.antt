-- ===== src/Tss/Handle/Delivery.antt =====
-- Announcements and protocol messages that arrive: which are ignored, which are refused, and what
-- the others do.
use dknet.Base.{
  false, true, none, some, ok, ◌≡◌, ◌≢◌, ◌⊎◌, ◌∙◌, refl, arith, contains, Bool-cases, Option-cases,
  inl, inr,
}
use dknet.P2p.Types.{Bytes, Message}
use dknet.Tss.Types.{
  keygen, signing, resharing, PartyId, OperationSyncData, SigningSyncData, ResharingSyncData,
  OperationType, operation_sync, unknown_type,
}
use dknet.Tss.Env.{Env, Json}
use dknet.Tss.Service.{
  Service, find, find_party, create_participant_list, launch, Launched, launch-Launched,
}
use dknet.Tss.Keygen.{
  planned_keygen, announced_params, create_synced_keygen-eq, create_synced_keygen-filed,
}
use dknet.Tss.Sign.{create_synced_signing-filed}
use dknet.Tss.Resharing.{create_synced_resharing-filed}
use dknet.Tss.Handle.{handle_operation_sync, create_synced}

module _ {D : Type 0} (env : Env D) (msg : Message) (base : OperationSyncData) (s : Service D)
    (decoded : env.json.unmarshal_base msg.payload ≡ some base) where
  -- An announcement to other nodes, or of an operation that is active here, changes nothing.
  pub sync_ignored :
      (contains base.participants env.node_id ≡ false) ⊎ (find base.operation_id s ≢ none)
      → handle_operation_sync env msg s ≡ (ok tt, s)
  unfolding handle_operation_sync
  sync_ignored h = ground arith

  create_if_new :
      contains base.participants env.node_id ≡ true
      → find base.operation_id s ≡ none
      → handle_operation_sync env msg s ≡ create_synced env base.operation_type msg s
  unfolding handle_operation_sync
  create_if_new ours absent = rw decoded (rw ours (rw absent))

  -- An announcement of a key generation, at a participant that does not have the operation, starts
  -- the operation with the announced ID, session, threshold and participants.
  pub sync_keygen :
      (self : PartyId)
      → contains base.participants env.node_id ≡ true
      → find base.operation_id s ≡ none
      → base.operation_type ≡ keygen
      → find_party env.node_id (create_participant_list env base.participants) ≡ some self
      → let o = planned_keygen env (announced_params env base) self s.clock in
        ((handle_operation_sync env msg s).0 ≡ ok tt)
        × Launched o 10 s.next s (handle_operation_sync env msg s).1
  unfolding create_synced
  sync_keygen self ours absent kind found =
      let o = planned_keygen env (announced_params env base) self s.clock in
      let e : handle_operation_sync env msg s ≡ (ok tt, (launch o 10 s).1) =
        create_if_new ours absent
        ∙ rw kind (create_synced_keygen-eq env msg base self s decoded found) in
      (rw e, rw e (launch-Launched o 10 s))

-- The three announcements share the fields that `OperationSyncData` embeds: decoding the same
-- bytes as any of them gives the same common part.
pub record EmbedsBase (json : Json) (bytes : Bytes) (base : OperationSyncData) : Type 0 where
  pub in_signing :
      base.operation_type ≡ signing
      → (d : SigningSyncData) × (json.unmarshal_signing_sync bytes ≡ some d) × (d.base ≡ base)
  pub in_resharing :
      base.operation_type ≡ resharing
      → (d : ResharingSyncData) × (json.unmarshal_resharing_sync bytes ≡ some d) × (d.base ≡ base)

module _ {D : Type 0} (env : Env D) (msg : Message) (base : OperationSyncData) (s : Service D)
    (decoded : env.json.unmarshal_base msg.payload ≡ some base)
    (embeds : EmbedsBase env.json msg.payload base) where
  create_synced-filed :
      (t : OperationType)
      → base.operation_type ≡ t
      → (create_synced env t msg s).0 ≡ ok tt
      → find base.operation_id (create_synced env t msg s).1 ≢ none
  unfolding create_synced
  create_synced-filed keygen kind done = create_synced_keygen-filed env msg base s decoded done
  create_synced-filed signing kind done =
      let (d, e, same) = embeds.in_signing kind in
      rw (← same) (create_synced_signing-filed env msg d s e done)
  create_synced-filed resharing kind done =
      let (d, e, same) = embeds.in_resharing kind in
      rw (← same) (create_synced_resharing-filed env msg d s e done)
  create_synced-filed operation_sync kind done = cc
  create_synced-filed (unknown_type _) kind done = cc

  -- An announcement that was handled without error starts no second operation when it comes again:
  -- in every state in which the announced operation is still in memory, if it was in memory after the
  -- first time, the announcement is answered without an error and changes nothing.
  pub sync_twice :
      (t : Service D)
      → (handle_operation_sync env msg s).0 ≡ ok tt
      → (find base.operation_id (handle_operation_sync env msg s).1 ≢ none
          → find base.operation_id t ≢ none)
      → handle_operation_sync env msg t ≡ (ok tt, t)
  sync_twice t done remains = elim (Bool-cases (contains base.participants env.node_id)) [
    | inr other ↦ sync_ignored env msg base t decoded (inl other)
    | inl ours ↦ elim (Option-cases (find base.operation_id s)) [
      | inr (p, found) ↦
          let e = sync_ignored env msg base s decoded (inr (λ h. cc)) in
          sync_ignored env msg base t decoded (inr (remains (rw e (λ h. cc))))
      | inl absent ↦
          let e = create_if_new env msg base s decoded ours absent in
          sync_ignored env msg base t decoded
            (inr (remains (rw e (create_synced-filed base.operation_type refl (rw e at done)))))
    ]
  ]
