-- ===== src/Tss/Handle/Committees.antt =====
-- A resharing has an old and a new committee. Which of its messages go to which of them, and what
-- the participants do that are only in the old one.
use dknet.Base.{
  ℕ, String, true, false, List, ◌++◌, some, ok, ◌≡◌, refl, arith, contains, contains-append,
  delete_node, contains-delete_node, ◌||◌, if◌then◌else◌, ℤ, inl,
}
use dknet.Common.Util.{distinct}
use dknet.Common.Util.Laws.{occurrences, occurrences-distinct, contains-distinct}
use dknet.P2p.Types.{Bytes, Message}
use dknet.Tss.Types.{
  resharing, PartyId, Operation, ResharingRequest, resharing_request, as_resharing,
  is_new_participant, sync_to, OperationSyncData, SyncData, Party, party_id,
}
use dknet.Tss.Env.{Env}
use dknet.Tss.Service.{Service}
use dknet.Tss.Broadcast.{resharing_sync_data}
use dknet.Tss.Handle.{
  Routing, OutMessage, to_participants, wire_message, deliver, skips, handle_operation_sync,
}
use dknet.Tss.Handle.Delivery.{sync_ignored}

-- the message of a resharing party to both committees
pub record IsToBoth (o : Operation) (req : ResharingRequest) (msg : OutMessage) : Type 0 where
  pub request : o.request ≡ some (resharing_request req)
  pub both : msg.is_to_old_and_new_committees ≡ true
  pub not_old : msg.is_to_old_committee ≡ false

both_committees :
    (o : Operation) (req : ResharingRequest) (msg : OutMessage) (routing : Routing)
    → IsToBoth o req msg
    → to_participants o msg routing ≡ ok (distinct (req.old_participants ++ req.new_participants))
unfolding to_participants as_resharing
both_committees o req msg routing b = rw (b.not_old, b.both, b.request)

-- A message to both committees goes exactly once to everybody in the old or in the new one, also
-- when somebody is in both, and to nobody else.
pub both_committees_once :
    (o : Operation) (req : ResharingRequest) (msg : OutMessage) (routing : Routing)
    → IsToBoth o req msg
    → (to : List String) × (to_participants o msg routing ≡ ok to)
      × ((r : String)
          → occurrences r to
            ≡ (if contains req.old_participants r || contains req.new_participants r then 1 else 0))
both_committees_once o req msg routing b = (
  distinct (req.old_participants ++ req.new_participants),
  both_committees o req msg routing b,
  λ r.
      rw (← contains-append req.old_participants req.new_participants r)
        (occurrences-distinct r (req.old_participants ++ req.new_participants)),
)

-- The operation of a participant that is in the old committee only.
pub record IsOldOnly (o : Operation) (req : ResharingRequest) (party : Party) : Type 0 where
  pub kind : o.type ≡ resharing
  pub request : o.request ≡ some (resharing_request req)
  pub has_party : o.party ≡ some party
  pub old : contains req.old_participants (party_id party).id ≡ true
  pub not_new : contains req.new_participants (party_id party).id ≡ false

old_only-is_new_participant :
    (o : Operation) (req : ResharingRequest) (party : Party)
    → IsOldOnly o req party
    → is_new_participant o ≡ false
unfolding is_new_participant as_resharing
old_only-is_new_participant o req party h = rw (h.request, h.has_party, h.not_new)

module _ {D E : Type 0} (sender : Env D) (receiver : Env E) (o u : Operation)
    (req : ResharingRequest) (msg : OutMessage) (routing : Routing) (bytes : Bytes) (now : ℕ)
    (party : Party) (both : IsToBoth o req msg) (only : IsOldOnly u req party) where
  skipped :
      (to : List String) → skips receiver u (wire_message sender o msg bytes routing to now) ≡ true
  unfolding skips wire_message
  skipped to = rw (only.kind, old_only-is_new_participant u req party only, both.not_old) refl

  dropped :
      (p : ℕ) (from : PartyId) (to : List String) (t : Service E)
      → t.heap p ≡ some u
      → deliver receiver p (wire_message sender o msg bytes routing to now) from t ≡ (ok tt, t)
  unfolding deliver
  dropped p from to t points_to = ground (arith, skipped to)

  -- A message to both committees is sent also to a participant that is in the old one only, and
  -- that participant's service drops it: the party does not get it.
  pub both_committees_lost :
      (p : ℕ) (from : PartyId) (t : Service E)
      → t.heap p ≡ some u
      → (to : List String) × (to_participants o msg routing ≡ ok to)
        × (contains to (party_id party).id ≡ true)
        × (deliver receiver p (wire_message sender o msg bytes routing to now) from t ≡ (ok tt, t))
  both_committees_lost p from t points_to =
      let to : List String = distinct (req.old_participants ++ req.new_participants) in
      (
        to,
        both_committees o req msg routing both,
        rw
            (
              contains-distinct (party_id party).id (req.old_participants ++ req.new_participants),
              contains-append req.old_participants req.new_participants (party_id party).id,
              only.old,
            )
            refl,
        dropped p from to t points_to,
      )

-- The operation of a participant that is in both committees.
pub record IsInBoth (o : Operation) (req : ResharingRequest) (party : Party) : Type 0 where
  pub kind : o.type ≡ resharing
  pub request : o.request ≡ some (resharing_request req)
  pub has_party : o.party ≡ some party
  pub old : contains req.old_participants (party_id party).id ≡ true
  pub new : contains req.new_participants (party_id party).id ≡ true

in_both-is_new_participant :
    (o : Operation) (req : ResharingRequest) (party : Party)
    → IsInBoth o req party
    → is_new_participant o ≡ true
unfolding is_new_participant as_resharing
in_both-is_new_participant o req party h = rw (h.request, h.has_party, h.new)

module _ {D E : Type 0} (sender : Env D) (receiver : Env E) (o u : Operation)
    (req : ResharingRequest) (msg : OutMessage) (routing : Routing) (bytes : Bytes) (now : ℕ)
    (party : Party) (request : o.request ≡ some (resharing_request req))
    (to_old : msg.is_to_old_committee ≡ true) (both : IsInBoth u req party) where
  skipped_by_both :
      (to : List String) → skips receiver u (wire_message sender o msg bytes routing to now) ≡ true
  unfolding skips wire_message
  skipped_by_both to = rw (both.kind, in_both-is_new_participant u req party both, to_old) refl

  dropped_by_both :
      (p : ℕ) (from : PartyId) (to : List String) (t : Service E)
      → t.heap p ≡ some u
      → deliver receiver p (wire_message sender o msg bytes routing to now) from t ≡ (ok tt, t)
  unfolding deliver
  dropped_by_both p from to t points_to = ground (arith, skipped_by_both to)

  old_committee : to_participants o msg routing ≡ ok req.old_participants
  unfolding to_participants as_resharing
  old_committee = rw (to_old, request)

  -- A message to the old committee is sent to a participant that is in both committees, and that
  -- participant's service drops it: the party does not get it.
  pub old_committee_lost :
      (p : ℕ) (from : PartyId) (t : Service E)
      → t.heap p ≡ some u
      → (to : List String) × (to_participants o msg routing ≡ ok to)
        × (contains to (party_id party).id ≡ true)
        × (deliver receiver p (wire_message sender o msg bytes routing to now) from t ≡ (ok tt, t))
  old_committee_lost p from t points_to = (
    req.old_participants,
    old_committee,
    both.old,
    dropped_by_both p from req.old_participants t points_to,
  )

module _ {D E : Type 0} (sender : Env D) (receiver : Env E)
    (operation_id session_id key_id : String) (old_threshold new_threshold : ℤ)
    (old new : List String) where
  abbrev announcement : SyncData
  announcement =
      resharing_sync_data operation_id session_id key_id old_threshold new_threshold old new

  -- The announcement of a resharing is not addressed to a node outside the new committee, also if it
  -- is in the old one, and the service of that node ignores an announcement with these contents: no
  -- operation starts there.
  pub resharing_not_announced_to_old :
      (msg : Message) (base : OperationSyncData) (t : Service E)
      → contains new receiver.node_id ≡ false
      → receiver.json.unmarshal_base msg.payload ≡ some base
      → base.participants ≡ new
      → (contains (delete_node sender.node_id (sync_to announcement)) receiver.node_id ≡ false)
        × (handle_operation_sync receiver msg t ≡ (ok tt, t))
  unfolding resharing_sync_data sync_to
  resharing_not_announced_to_old msg base t not_new decoded same = (
    ground (arith, contains-delete_node sender.node_id new receiver.node_id),
    sync_ignored receiver msg base t decoded (inl (rw same not_new)),
  )
