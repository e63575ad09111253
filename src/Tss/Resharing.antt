-- ===== src/Tss/Resharing.antt =====
-- internal/tss/resharing.go: resharing.
pub mod Checks
use dknet.Base
use dknet.Base.{
  ℕ, ◌+◌, String, Bool, true, false, List, [], ◌∷◌, ◌++◌, Option, none, some, Result, ok, err,
  errorf, str, integer, number, external, or_error, wrapping, ℤ, is_negative, at_least, M, pure,
  fail, lift, gets, modify, ◌>>=◌, ◌>>◌, length, if◌then◌else◌, contains, ◌≡◌, ◌≢◌, arith,
  lookup-insert, eq_iff,
}
use dknet.P2p.Types.{Message}
use dknet.Tss.Types.{
  resharing, pending, resharing_request, resharing_party, PartyId, Party, Operation, KeyData,
  SaveData, broadcast_sync, ResharingSyncData,
}
use dknet.Tss.Env.{Env}
use dknet.Tss.Service.{
  Service, launch, spawn, find, find_party, create_participant_list, generate_or_use_operation_id,
  new_session_id,
}
use dknet.Tss.Store.{check_idempotency, load_key_data, load_key_metadata}
use dknet.Tss.Broadcast.{resharing_sync_data}

-- resharingOperationParams
pub record ResharingOperationParams : Type 0 where
  pub operation_id : String
  pub session_id : String
  pub key_id : String
  pub new_threshold : ℤ
  pub new_participants : List String

-- the four checks on the thresholds in `createResharingOperation`
unfoldable pub check_thresholds : ℤ → ℕ → ℤ → ℕ → Result (Unit {0})
check_thresholds new_threshold new_count old_threshold old_count =
    if is_negative new_threshold
    then err (errorf "new threshold cannot be negative: %d" (integer new_threshold ∷ []))
    else if at_least new_threshold new_count
    then err (
        errorf "new threshold (%d) must be less than new party count (%d)"
          (integer new_threshold ∷ number new_count ∷ []))
    else if is_negative old_threshold
    then err (errorf "old threshold cannot be negative: %d" (integer old_threshold ∷ []))
    else if at_least old_threshold old_count
    then err (
        errorf "old threshold (%d) must be less than old party count (%d)"
          (integer old_threshold ∷ number old_count ∷ []))
    else ok tt

-- what both creations of a resharing operation know when they make the party
pub record Setup : Type 0 where
  pub operation_id : String
  pub session_id : String
  pub key_id : String
  pub old_threshold : ℤ
  pub new_threshold : ℤ
  pub old_participants : List String
  pub new_participants : List String
  pub old_list : List PartyId
  pub new_list : List PartyId
  pub self : PartyId
  pub local_party : SaveData

module _ {D : Type 0} (env : Env D) where
  -- the `&Operation{...}` literal, the same in both creations
  unfoldable pub resharing_operation : Setup → Party → ℕ → Operation
  resharing_operation c party now = record {
    id = c.operation_id;
    type = resharing;
    session_id = c.session_id;
    participants = c.new_list;
    party = some party;
    end_ch = [];
    status = pending;
    created_at = now;
    completed_at = none;
    result = none;
    error = none;
    request = some (
        resharing_request (record {
          operation_id = c.operation_id;
          key_id = c.key_id;
          new_threshold = c.new_threshold;
          new_parties = length c.new_participants;
          old_participants = c.old_participants;
          new_participants = c.new_participants;
        }));
    updates = [];
  }

  -- from `NewPeerContext` to the end, the same in both creations
  unfoldable pub resharing_from : Setup → M (Service D) ℕ
  unfolding resharing_operation launch
  resharing_from c = do
    now ← gets (λ s. s.clock)
    let party =
        resharing_party
          (record {
            old_peers = c.old_list;
            new_peers = c.new_list;
            self = c.self;
            old_count = length c.old_list;
            old_threshold = c.old_threshold;
            new_count = length c.new_list;
            new_threshold = c.new_threshold;
          })
          c.local_party
    launch (resharing_operation c party now) 15

  abbrev pub not_in_old_list : Base.Error
  not_in_old_list = errorf "this node (%s) is not in old participant list" (str env.node_id ∷ [])

  abbrev not_in_new_list : Base.Error
  not_in_new_list = errorf "this node (%s) is not in new participant list" (str env.node_id ∷ [])

  -- `createResharingOperation` once the key is loaded and this node is an old participant
  unfoldable pub create_resharing_from :
      ResharingOperationParams → KeyData → SaveData → M (Service D) ℕ
  unfolding resharing_from check_thresholds
  create_resharing_from params key_metadata local_party = do
    let old_list = create_participant_list env key_metadata.participants
    let new_list = create_participant_list env params.new_participants
    self ← lift (or_error (find_party env.node_id old_list) not_in_old_list)
    lift (
        check_thresholds params.new_threshold (length new_list) key_metadata.threshold
          (length old_list))
    resharing_from (record {
      operation_id = params.operation_id;
      session_id = params.session_id;
      key_id = params.key_id;
      old_threshold = key_metadata.threshold;
      new_threshold = params.new_threshold;
      old_participants = key_metadata.participants;
      new_participants = params.new_participants;
      old_list = old_list;
      new_list = new_list;
      self = self;
      local_party = local_party;
    })

  -- createResharingOperation
  unfoldable pub create_resharing_operation : ResharingOperationParams → M (Service D) ℕ
  unfolding create_resharing_from contains
  create_resharing_operation params = do
    (key_metadata, local_party) ← (λ s.
        let r = load_key_data env params.key_id s in (wrapping "failed to load key data" r.0, r.1))
    if contains key_metadata.participants env.node_id
        then create_resharing_from params key_metadata local_party
        else fail (
            errorf
              "only old participants can initiate resharing operations, node %s is not in old participants"
              (str env.node_id ∷ []))

  -- the part of `StartResharing` after the check for an existing operation
  unfoldable pub start_new_resharing : String → String → ℤ → List String → M (Service D) ℕ
  unfolding generate_or_use_operation_id new_session_id
  start_new_resharing requested_id key_id new_threshold new_participants = do
    key_data ← (λ s.
        let r = load_key_metadata env key_id s in (wrapping "failed to load key metadata" r.0, r.1))
    operation_id ← generate_or_use_operation_id env requested_id
    session_id ← new_session_id env
    p ← create_resharing_operation (record {
      operation_id = operation_id;
      session_id = session_id;
      key_id = key_id;
      new_threshold = new_threshold;
      new_participants = new_participants;
    })
    modify (
        spawn (
          broadcast_sync p (
            resharing_sync_data operation_id session_id key_id key_data.threshold new_threshold
              key_data.participants new_participants)))
    pure p

  -- StartResharing
  unfoldable pub start_resharing : String → String → ℤ → List String → M (Service D) ℕ
  unfolding start_new_resharing
  start_resharing requested_id key_id new_threshold new_participants = do
    existing ← check_idempotency env requested_id
    elim existing [
      | some p ↦ pure p
      | none ↦ start_new_resharing requested_id key_id new_threshold new_participants
    ]

  -- the key share that the party starts from: the stored one at an old participant, else an empty one
  unfoldable pub synced_local_party : ResharingSyncData → M (Service D) SaveData
  unfolding contains
  synced_local_party sync =
      if contains sync.old_participants env.node_id
      then (do
        (_, party) ← (λ s.
            let r = load_key_data env sync.key_id s in
            (wrapping "failed to load key data for old participant" r.0, r.1))
        pure party)
      else pure (env.lib.new_save_data (length sync.new_participants))

  pub synced_self : ResharingSyncData → List PartyId → List PartyId → Result PartyId
  synced_self sync old_list new_list =
      if contains sync.old_participants env.node_id
      then or_error (find_party env.node_id old_list) not_in_old_list
      else or_error (find_party env.node_id new_list) not_in_new_list

  unfoldable pub create_synced_resharing : ResharingSyncData → M (Service D) (Unit {0})
  unfolding synced_local_party synced_self resharing_from
  create_synced_resharing sync = do
    local_party ← synced_local_party sync
    let old_list = create_participant_list env sync.old_participants
    let new_list = create_participant_list env sync.new_participants
    self ← lift (synced_self sync old_list new_list)
    p ← resharing_from (record {
      operation_id = sync.base.operation_id;
      session_id = sync.base.session_id;
      key_id = sync.key_id;
      old_threshold = sync.old_threshold;
      new_threshold = sync.new_threshold;
      old_participants = sync.old_participants;
      new_participants = sync.new_participants;
      old_list = old_list;
      new_list = new_list;
      self = self;
      local_party = local_party;
    })
    pure tt

  -- createSyncedResharingOperation
  unfoldable pub create_synced_resharing_operation : Message → M (Service D) (Unit {0})
  unfolding create_synced_resharing
  create_synced_resharing_operation msg = do
    sync ← lift (
        wrapping "failed to unmarshal resharing sync data"
          (or_error (env.json.unmarshal_resharing_sync msg.payload) (external "json")))
    create_synced_resharing sync

  resharing_from-filed :
      (c : Setup) (s : Service D) → find c.operation_id (resharing_from c s).1 ≡ some s.next
  unfolding resharing_from find
  resharing_from-filed c s = ground (
    arith,
    lookup-insert c.operation_id c.operation_id s.next s.operations,
    eq_iff c.operation_id c.operation_id,
  )

  -- An announcement that is carried out files the operation under its ID.
  pub create_synced_resharing-filed :
      (msg : Message) (d : ResharingSyncData) (s : Service D)
      → env.json.unmarshal_resharing_sync msg.payload ≡ some d
      → (create_synced_resharing_operation msg s).0 ≡ ok tt
      → find d.base.operation_id (create_synced_resharing_operation msg s).1 ≢ none
  unfolding create_synced_resharing_operation find
  create_synced_resharing-filed msg d s decoded done =
      let t : Service D = (load_key_data env d.key_id s).1 in
      ground (
        arith,
        lookup-insert d.base.operation_id d.base.operation_id t.next t.operations,
        lookup-insert d.base.operation_id d.base.operation_id s.next s.operations,
        eq_iff d.base.operation_id d.base.operation_id,
      )
