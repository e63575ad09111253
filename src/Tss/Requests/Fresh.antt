-- ===== src/Tss/Requests/Fresh.antt =====
-- Requests without an operation ID: each starts one operation under a generated ID.
use dknet.Base.{
  suc, String, false, List, [], none, some, ok, err, Error, wrapf, ℤ, ◌≡◌, refl, arith, length,
}
use dknet.P2p.Types.{Bytes}
use dknet.Tss.Types.{
  PartyId, Operation, OperationSyncData, SyncData, KeyData, SaveData, signing_party, keygen,
  keygen_party, keygen_request, keygen_sync, pending,
}
use dknet.Tss.Env.{Env}
use dknet.Tss.Service.{
  Service, Started, started_state, started_state-Started, find_party, create_participant_list,
  set_bytes, launch,
}
use dknet.Tss.Store.{check_idempotency, load_key_data, load_key_data-eq}
use dknet.Tss.Broadcast.{keygen_sync_data, signing_sync_data}
use dknet.Tss.Signature.{hash_message_for_ethereum}
use dknet.Tss.Keygen.{KeygenOperationParams, start_keygen, keygen_operation, create_keygen-eq}
use dknet.Tss.Sign.{
  start_signing, signing_operation, create_signing_operation, validate_signing_request,
}

module _ {D : Type 0} (env : Env D) (s : Service D) where
  check_unnamed : check_idempotency env "" s ≡ (ok none, s)
  unfolding check_idempotency
  check_unnamed = refl

  -- the operation that `StartKeygen` makes
  abbrev keygen_params : ℤ → List String → KeygenOperationParams
  keygen_params threshold participants = record {
    operation_id = env.uuid s.draws;
    session_id = env.uuid (suc s.draws);
    threshold = threshold;
    participants = participants;
    use_pre_params = false;
  }

  abbrev pub keygen_started : ℤ → List String → PartyId → Operation
  keygen_started threshold participants self = record {
    id = env.uuid s.draws;
    type = keygen;
    session_id = env.uuid (suc s.draws);
    participants = create_participant_list env participants;
    party = some (
        keygen_party
          (record {
            peers = create_participant_list env participants;
            self = self;
            party_count = length participants;
            threshold = threshold;
          })
          none);
    end_ch = [];
    status = pending;
    created_at = s.clock;
    completed_at = none;
    result = none;
    error = none;
    request = some (
        keygen_request (record {
          operation_id = env.uuid s.draws;
          threshold = threshold;
          participants = participants;
        }));
    updates = [];
  }

  -- the common part of its announcement
  abbrev pub keygen_common : ℤ → List String → OperationSyncData
  keygen_common threshold participants = record {
    operation_id = env.uuid s.draws;
    operation_type = keygen;
    session_id = env.uuid (suc s.draws);
    threshold = threshold;
    parties = length participants;
    participants = participants;
  }

  abbrev pub keygen_announced : ℤ → List String → SyncData
  keygen_announced threshold participants = keygen_sync (keygen_common threshold participants)

  pub start_keygen-eq :
      (threshold : ℤ) (participants : List String) (self : PartyId)
      → find_party env.node_id (create_participant_list env participants) ≡ some self
      → start_keygen env "" threshold participants s ≡ (
        ok s.next,
        started_state
            (keygen_started threshold participants self)
            10
            (keygen_announced threshold participants)
            s,
      )
  unfolding start_keygen launch keygen_operation keygen_sync_data
  start_keygen-eq threshold participants self found = rw check_unnamed (
      rw (
        create_keygen-eq env (keygen_params threshold participants) self
          (record s { draws = suc (suc s.draws) }) refl found))

  -- A key generation request without an ID, at a node of its participant list, draws two random IDs
  -- and files one new operation under the first, with the second as its session, pending, with the
  -- requested threshold and participants; it starts the goroutines that watch and run it and the
  -- one that announces this ID, session, threshold and these participants. Nothing else changes:
  -- not the other operations, the storage, the messages sent or the time.
  pub start_keygen_fresh :
      (threshold : ℤ) (participants : List String) (self : PartyId)
      → find_party env.node_id (create_participant_list env participants) ≡ some self
      → ((start_keygen env "" threshold participants s).0 ≡ ok s.next)
        × Started
            (keygen_started threshold participants self)
            10
            (keygen_announced threshold participants)
            s
            (start_keygen env "" threshold participants s).1
  start_keygen_fresh threshold participants self found =
      let e = start_keygen-eq threshold participants self found in
      (rw e, rw e (started_state-Started _ 10 _ s))

  -- the operation that `StartSigning` makes
  abbrev pub signing_started :
      Bytes → String → List String → PartyId → KeyData → SaveData → Operation
  signing_started message key_id participants self key_data local_party =
      let list = create_participant_list env participants in
      signing_operation env
        (record {
          operation_id = env.uuid s.draws;
          session_id = env.uuid (suc s.draws);
          message = message;
          key_id = key_id;
          participants = participants;
        })
        list
        (signing_party (set_bytes (hash_message_for_ethereum env.keccak256 message))
          (record {
            peers = list;
            self = self;
            party_count = length list;
            threshold = key_data.threshold;
          })
          local_party)
        s.clock

  abbrev pub signing_announced : Bytes → String → List String → KeyData → SyncData
  signing_announced message key_id participants key_data =
      signing_sync_data (env.uuid s.draws) (env.uuid (suc s.draws)) key_data.threshold
        (length (create_participant_list env participants)) participants key_id message

  module _ (message : Bytes) (key_id : String) (participants : List String) (self : PartyId)
      (key_data : KeyData) (local_party : SaveData)
      (approved : validate_signing_request env message key_id participants ≡ ok tt)
      (loaded : (load_key_data env key_id s).0 ≡ ok (key_data, local_party))
      (found : find_party env.node_id (create_participant_list env participants) ≡ some self) where
    start_signing-eq : start_signing env "" message key_id participants s ≡ (
      ok s.next,
      started_state
          (signing_started message key_id participants self key_data local_party)
          5
          (signing_announced message key_id participants key_data)
          s,
    )
    unfolding start_signing create_signing_operation launch
    start_signing-eq =
        let t : Service D = record s { draws = suc (suc s.draws) } in
        let l : load_key_data env key_id t ≡ (ok (key_data, local_party), t) =
          load_key_data-eq env key_id s t refl loaded in
        rw check_unnamed (rw approved (rw (l, create_signing_operation) (rw found (ground arith))))

    -- A signing request without an ID that the validation approves, at a participant that holds
    -- the key, starts one signing operation with the threshold of the stored key.
    pub start_signing_fresh :
        ((start_signing env "" message key_id participants s).0 ≡ ok s.next)
        × Started
            (signing_started message key_id participants self key_data local_party)
            5
            (signing_announced message key_id participants key_data)
            s
            (start_signing env "" message key_id participants s).1
    start_signing_fresh = (rw start_signing-eq, rw start_signing-eq (started_state-Started _ 5 _ s))

  -- A signing request without an ID that the validation rejects fails with its error and changes
  -- nothing.
  pub start_signing_rejected :
      (e : Error) (message : Bytes) (key_id : String) (participants : List String)
      → validate_signing_request env message key_id participants ≡ err e
      → start_signing env "" message key_id participants s
        ≡ (err (wrapf "signing request validation failed" e), s)
  unfolding start_signing
  start_signing_rejected e message key_id participants rejected = rw check_unnamed (rw rejected)
