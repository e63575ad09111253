-- ===== src/Tss/Handle.antt =====
-- internal/tss/service.go: messages from the network (`HandleMessage`, `handleOperationSync`) and
-- to it (`handleOutgoingMessages`, `toParticipants`).
pub mod Replay
pub mod Delivery
pub mod Committees
pub mod Messages
pub mod Agreement
pub mod Senders
pub mod Updates
use dknet.Base
use dknet.Base.{
  ℕ, suc, String, Bool, true, false, ◌&&◌, ◌||◌, not, List, [], ◌∷◌, ◌++◌, map, Option, none, some,
  Result, ok, err, Error, errorf, str, external, or_error, wrapping, M, pure, fail, lift, gets,
  modify, ◌>>=◌, ◌>>◌, ◌==◌, if◌then◌else◌, contains,
}
use dknet.Common.Util.{retry, distinct}
use dknet.P2p.Types.{Bytes, Message, tss_party_protocol_id}
use dknet.Tss.Types.{
  OperationType, keygen, signing, resharing, operation_sync, type_text, PartyId, Operation,
  EndValue, error_value, other_value, Party, Update, update_party, as_resharing, is_new_participant,
}
use dknet.Tss.Env.{Env}
use dknet.Tss.Service.{Service, assign, spawn, find, find_party, ids}
use dknet.Tss.Store.{deref}
use dknet.Tss.Broadcast.{send}
use dknet.Tss.Keygen.{create_synced_keygen_operation}
use dknet.Tss.Sign.{create_synced_signing_operation}
use dknet.Tss.Resharing.{create_synced_resharing_operation}

-- tss.MessageRouting
pub record Routing : Type 0 where
  pub to : List PartyId
  pub is_broadcast : Bool

-- tss.Message, what a party sends through `OutCh`
pub record OutMessage : Type 0 where
  pub wire_bytes : Result (Bytes × Routing)
  pub is_to_old_committee : Bool
  pub is_to_old_and_new_committees : Bool

abbrev invalid_resharing : Error
invalid_resharing = errorf "invalid resharing request" []

-- the last two cases of the `switch` of `toParticipants`
routed_ids : Operation → Routing → Result (List String)
routed_ids o routing = elim routing.to [
  | [] ↦ if routing.is_broadcast then ok (ids o.participants) else err (errorf "invalid routing" [])
  | p ∷ ps ↦ ok (ids (p ∷ ps))
]

-- toParticipants
unfoldable pub to_participants : Operation → OutMessage → Routing → Result (List String)
unfolding routed_ids as_resharing distinct
to_participants o msg routing =
    if msg.is_to_old_committee
    then (elim (as_resharing o) [
      | none ↦ err invalid_resharing
      | some req ↦ ok req.old_participants
    ])
    else if msg.is_to_old_and_new_committees
    then (elim (as_resharing o) [
      | none ↦ err invalid_resharing
      | some req ↦ ok (distinct (req.old_participants ++ req.new_participants))
    ])
    else routed_ids o routing

-- one look of `getOperation` through the active operations
unfoldable pub find_session_in : String → List (String × ℕ) → (ℕ → Option Operation) → Option ℕ
find_session_in session_id [] heap = none
find_session_in session_id ((id, p) ∷ m) heap =
    let rest = find_session_in session_id m heap in
    elim (heap p) [ none ↦ rest | some o ↦ if o.session_id == session_id then some p else rest ]

module _ {D : Type 0} where
  unfoldable pub find_session : String → Service D → Option ℕ
  unfolding find_session_in
  find_session session_id s = find_session_in session_id s.operations s.heap

  -- getOperation; `views` is the service as it is at each of the ten attempts, a second apart
  unfoldable pub get_session : String → (ℕ → Service D) → Option ℕ
  unfolding find_session retry
  get_session session_id views = retry (λ i. find_session session_id (views i)) 10

module _ {D : Type 0} (env : Env D) where
  -- the `p2p.Message` of one outgoing message
  unfoldable pub wire_message : Operation → OutMessage → Bytes → Routing → List String → ℕ → Message
  unfolding type_text
  wire_message o msg bytes routing to now = record {
    protocol_id = tss_party_protocol_id;
    session_id = o.session_id;
    type = type_text o.type;
    from = env.node_id;
    to = to;
    is_broadcast = routing.is_broadcast;
    payload = bytes;
    encrypted = false;
    peer_encrypted = false;
    timestamp = now;
    is_to_old_committee = msg.is_to_old_committee;
    is_to_old_and_new_committees = msg.is_to_old_and_new_committees;
    sender_peer_id = "";
  }

  -- one round of the loop of `handleOutgoingMessages`
  unfoldable pub handle_outgoing_message : Operation → OutMessage → M (Service D) (Unit {0})
  unfolding to_participants wire_message
  handle_outgoing_message o msg = do
    (bytes, routing) ← lift msg.wire_bytes
    to ← lift (to_participants o msg routing)
    now ← gets (λ s. s.clock)
    send env (wire_message o msg bytes routing to now)

  -- handleOutgoingMessages, on the messages that arrive before the context is done
  unfoldable pub handle_outgoing_messages : Operation → List OutMessage → M (Service D) (Unit {0})
  unfolding handle_outgoing_message
  handle_outgoing_messages o [] = fail (external "context canceled")
  handle_outgoing_messages o (msg ∷ msgs) = do
    handle_outgoing_message o msg
    handle_outgoing_messages o msgs

  -- the `switch baseData.OperationType`
  unfoldable pub create_synced : OperationType → Message → M (Service D) (Unit {0})
  create_synced keygen msg = create_synced_keygen_operation env msg
  create_synced signing msg = create_synced_signing_operation env msg
  create_synced resharing msg = create_synced_resharing_operation env msg
  create_synced t msg = fail (errorf "unknown operation type: %s" (str (type_text t) ∷ []))

  -- handleOperationSync
  unfoldable pub handle_operation_sync : Message → M (Service D) (Unit {0})
  unfolding create_synced
  handle_operation_sync msg = do
    base ← lift (
        wrapping "failed to unmarshal operation sync data"
          (or_error (env.json.unmarshal_base msg.payload) (external "json")))
    (λ s.
        if contains base.participants env.node_id
        then (elim (find base.operation_id s) [
          | some p ↦ (ok tt, s)
          | none ↦ create_synced base.operation_type msg s
        ])
        else (ok tt, s))

  -- `HandleMessage` for a message to the operation at `p`
  unfoldable pub handle_session_message : ℕ → Message → M (Service D) (Unit {0})
  handle_session_message p msg = if msg.from == env.node_id then pure tt else (do
    o ← deref env p
    from_party ← lift (
        or_error (find_party msg.from o.participants)
          (errorf "unknown sender: %s" (str msg.from ∷ [])))
    modify (spawn (update_party p msg from_party)))

  -- HandleMessage, before its `recover`
  unfoldable pub handle_message_body : (ℕ → Service D) → Message → M (Service D) (Unit {0})
  unfolding handle_session_message
  handle_message_body views msg =
      if msg.type == "operation_sync"
      then handle_operation_sync msg
      else elim (get_session msg.session_id views) [
        | none ↦ fail (errorf "no operation found for session ID: %s" (str msg.session_id ∷ []))
        | some p ↦ handle_session_message p msg
      ]

  -- HandleMessage: a panic is recovered, and the function then returns no error
  unfoldable pub handle_message : (ℕ → Service D) → Message → M (Service D) (Unit {0})
  unfolding handle_message_body
  handle_message views msg s =
      let (r, t) = handle_message_body views msg s in
      (elim r [ ok u ↦ ok u | err e ↦ err e | Base.Result.panics ↦ ok tt ], t)

  -- the committee test of a resharing operation: is the message for another committee?
  unfoldable pub skips : Operation → Message → Bool
  unfolding is_new_participant
  skips o msg = elim o.type [
    | resharing ↦
        (is_new_participant o && msg.is_to_old_committee)
        || (not (is_new_participant o) && not msg.is_to_old_committee)
    | _ ↦ false
  ]

  abbrev pub offer : ℕ → EndValue → M (Service D) (Unit {0})
  offer p v = do o ← deref env p; modify (assign p (record o { end_ch = o.end_ch ++ v ∷ [] }))

  -- what the goroutine offers to `EndCh` after the call
  unfoldable pub offer_update : ℕ → Result Bool → M (Service D) (Unit {0})
  offer_update p (ok true) = pure tt
  offer_update p (ok false) = offer p (error_value (errorf "message was not processed by party" []))
  offer_update p (err e) = offer p (error_value e)
  offer_update p Base.Result.panics = offer p env.lib.panic_value

  unfoldable pub call_party : ℕ → Operation → Update → Option Party → M (Service D) (Unit {0})
  unfolding offer_update
  call_party p o u none = offer p (error_value (external "runtime"))
  call_party p o u (some party) = do
    modify (assign p (record o { updates = o.updates ++ u ∷ [] }))
    offer_update p (env.lib.update_from_bytes party o.updates u)

  -- the goroutine of `HandleMessage` that hands the message to the party
  unfoldable pub deliver : ℕ → Message → PartyId → M (Service D) (Unit {0})
  unfolding skips call_party
  deliver p msg from_party = do
    o ← deref env p
    if skips o msg
        then pure tt
        else call_party p o
            (record {
              wire_bytes = msg.payload;
              sender = from_party;
              is_broadcast = msg.is_broadcast;
            })
            o.party
