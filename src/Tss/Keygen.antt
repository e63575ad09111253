-- ===== src/Tss/Keygen.antt =====
-- internal/tss/kengen.go: key generation.

use dknet.Base.{
  ℕ, String, Bool, false, List, [], ◌∷◌, none, some, Result, ok, err, errorf, str, external,
  or_error, wrapping, ℤ, M, pure, lift, gets, modify, ◌>>=◌, ◌>>◌, ◌≡◌, ◌≢◌, arith, lookup-insert,
  eq_iff, refl, length, if◌then◌else◌,
}
use dknet.P2p.Types.{Message}
use dknet.Tss.Types.{
  keygen, pending, keygen_request, keygen_party, PartyId, Parameters, Party, Operation,
  broadcast_sync, OperationSyncData,
}
use dknet.Tss.Env.{Env}
use dknet.Tss.Service.{
  Service, launch, spawn, find, find_party, create_participant_list, generate_or_use_operation_id,
  new_session_id,
}
use dknet.Tss.Store.{check_idempotency}
use dknet.Tss.Broadcast.{keygen_sync_data}

-- keygenOperationParams
pub record KeygenOperationParams : Type 0 where
  pub operation_id : String
  pub session_id : String
  pub threshold : ℤ
  pub participants : List String
  pub use_pre_params : Bool

module _ {D : Type 0} (env : Env D) where
  -- the `&Operation{...}` literal
  unfoldable pub keygen_operation : KeygenOperationParams → List PartyId → Party → ℕ → Operation
  keygen_operation params list party now = record {
    id = params.operation_id;
    type = keygen;
    session_id = params.session_id;
    participants = list;
    party = some party;
    end_ch = [];
    status = pending;
    created_at = now;
    completed_at = none;
    result = none;
    error = none;
    request = some (
        keygen_request (record {
          operation_id = params.operation_id;
          threshold = params.threshold;
          participants = params.participants;
        }));
    updates = [];
  }

  abbrev make_keygen_party : KeygenOperationParams → Parameters → Result Party
  make_keygen_party params p =
      if params.use_pre_params
      then wrapping "failed to generate pre-params" (elim env.lib.generate_pre_params [
        | none ↦ err (external "keygen")
        | some pre ↦ ok (keygen_party p (some pre))
      ])
      else ok (keygen_party p none)

  -- from `NewParameters` on, once this node is found in the list
  keygen_from : KeygenOperationParams → List PartyId → PartyId → M (Service D) ℕ
  unfolding keygen_operation launch
  keygen_from params list self = do
    party ← lift (
        make_keygen_party params (record {
          peers = list;
          self = self;
          party_count = length params.participants;
          threshold = params.threshold;
        }))
    now ← gets (λ s. s.clock)
    launch (keygen_operation params list party now) 10

  -- createAndStartKeygenOperation
  unfoldable pub create_and_start_keygen_operation : KeygenOperationParams → M (Service D) ℕ
  unfolding keygen_from
  create_and_start_keygen_operation params s =
      let list = create_participant_list env params.participants in
      elim (find_party env.node_id list) [
        | none ↦
            (err (errorf "this node (%s) is not in the participant list" (str env.node_id ∷ [])), s)
        | some self ↦ keygen_from params list self s
      ]

  -- the part of `StartKeygen` after the check for an existing operation
  unfoldable pub start_new_keygen : String → ℤ → List String → M (Service D) ℕ
  unfolding generate_or_use_operation_id new_session_id
  start_new_keygen requested_id threshold participants = do
    operation_id ← generate_or_use_operation_id env requested_id
    session_id ← new_session_id env
    p ← create_and_start_keygen_operation (record {
      operation_id = operation_id;
      session_id = session_id;
      threshold = threshold;
      participants = participants;
      use_pre_params = false;
    })
    modify
        (spawn (broadcast_sync p (keygen_sync_data operation_id session_id threshold participants)))
    pure p

  -- StartKeygen
  unfoldable pub start_keygen : String → ℤ → List String → M (Service D) ℕ
  unfolding start_new_keygen
  start_keygen requested_id threshold participants = do
    existing ← check_idempotency env requested_id
    elim existing [ some p ↦ pure p | none ↦ start_new_keygen requested_id threshold participants ]

  -- createSyncedKeygenOperation
  unfoldable pub create_synced_keygen_operation : Message → M (Service D) (Unit {0})
  create_synced_keygen_operation msg = do
    d ← lift (
        wrapping "failed to unmarshal keygen sync data"
          (or_error (env.json.unmarshal_base msg.payload) (external "json")))
    p ← (λ s.
        let r =
          create_and_start_keygen_operation
            (record {
              operation_id = d.operation_id;
              session_id = d.session_id;
              threshold = d.threshold;
              participants = d.participants;
              use_pre_params = false;
            })
            s in
        (wrapping "failed to create synced keygen operation" r.0, r.1))
    pure tt

  -- the operation that a creation without pre-computed parameters makes
  abbrev pub planned_keygen : KeygenOperationParams → PartyId → ℕ → Operation
  planned_keygen params self now =
      let list = create_participant_list env params.participants in
      keygen_operation params list
        (keygen_party
          (record {
            peers = list;
            self = self;
            party_count = length params.participants;
            threshold = params.threshold;
          })
          none)
        now

  pub create_keygen-eq :
      (params : KeygenOperationParams) (self : PartyId) (s : Service D)
      → params.use_pre_params ≡ false
      → find_party env.node_id (create_participant_list env params.participants) ≡ some self
      → create_and_start_keygen_operation params s
        ≡ launch (planned_keygen params self s.clock) 10 s
  unfolding create_and_start_keygen_operation
  create_keygen-eq params self s standard found =
      rw (found, create_and_start_keygen_operation) (rw standard)

  -- a decoded announcement, as parameters
  abbrev pub announced_params : OperationSyncData → KeygenOperationParams
  announced_params d = record {
    operation_id = d.operation_id;
    session_id = d.session_id;
    threshold = d.threshold;
    participants = d.participants;
    use_pre_params = false;
  }

  pub create_synced_keygen-eq :
      (msg : Message) (d : OperationSyncData) (self : PartyId) (s : Service D)
      → env.json.unmarshal_base msg.payload ≡ some d
      → find_party env.node_id (create_participant_list env d.participants) ≡ some self
      → create_synced_keygen_operation msg s
        ≡ (ok tt, (launch (planned_keygen (announced_params d) self s.clock) 10 s).1)
  unfolding create_synced_keygen_operation launch
  create_synced_keygen-eq msg d self s decoded found =
      rw decoded (rw (create_keygen-eq (announced_params d) self s refl found))

  -- A creation that succeeds files the operation under its ID.
  pub create_synced_keygen-filed :
      (msg : Message) (d : OperationSyncData) (s : Service D)
      → env.json.unmarshal_base msg.payload ≡ some d
      → (create_synced_keygen_operation msg s).0 ≡ ok tt
      → find d.operation_id (create_synced_keygen_operation msg s).1 ≢ none
  unfolding create_synced_keygen_operation create_and_start_keygen_operation find
  create_synced_keygen-filed msg d s decoded done = ground (
    arith,
    lookup-insert d.operation_id d.operation_id s.next s.operations,
    eq_iff d.operation_id d.operation_id,
  )
