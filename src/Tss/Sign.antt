-- ===== src/Tss/Sign.antt =====
-- internal/tss/sign.go and validation.go: signing.
pub mod Refusals
pub mod Approval
use dknet.Base
use dknet.Base.{
  ℕ, String, Bool, true, false, List, [], ◌∷◌, ◌++◌, Option, none, some, Result, ok, err, errorf,
  str, external, or_error, wrapping, ℤ, M, pure, fail, lift, gets, modify, ◌>>=◌, ◌>>◌, length,
  if◌then◌else◌, ◌==◌, ◌==ℕ◌, ◌≡◌, ◌≢◌, arith, lookup-insert, eq_iff,
}
use dknet.P2p.Types.{Bytes, Message}
use dknet.Tss.Types.{
  signing, pending, signing_request, signing_party, PartyId, Party, Operation, KeyData, SaveData,
  broadcast_sync, SigningSyncData,
}
use dknet.Tss.Env.{Env, ValidationResponse}
use dknet.Tss.Service.{
  Service, launch, spawn, find, find_party, create_participant_list, generate_or_use_operation_id,
  new_session_id, set_bytes,
}
use dknet.Tss.Store.{check_idempotency, load_key_data}
use dknet.Tss.Signature.{hash_message_for_ethereum}
use dknet.Tss.Broadcast.{signing_sync_data}

-- signingOperationParams
pub record SigningOperationParams : Type 0 where
  pub operation_id : String
  pub session_id : String
  pub message : Bytes
  pub key_id : String
  pub participants : List String

-- what the service makes of the answer of the validation service
check_approved : ValidationResponse → Result (Unit {0})
check_approved r =
    if r.approved
    then ok tt
    else err (errorf "signing request rejected by validation service: %s" (str r.reason ∷ []))

module _ {D : Type 0} (env : Env D) where
  -- validateSigningRequest
  unfoldable pub validate_signing_request : Bytes → String → List String → Result (Unit {0})
  unfolding check_approved
  validate_signing_request message key_id participants = elim env.validation_service [
    | none ↦ ok tt
    | some validate ↦
        elim (validate (record {
          message = message;
          key_id = key_id;
          participants = participants;
          message_length = length message;
        })) [
          | ok r ↦ check_approved r
          | err e ↦ err (Base.wrapf "validation service call failed" e)
          | Base.Result.panics ↦ Base.panics
        ]
  ]

  -- the `&Operation{...}` literal
  unfoldable pub signing_operation : SigningOperationParams → List PartyId → Party → ℕ → Operation
  signing_operation params list party now = record {
    id = params.operation_id;
    type = signing;
    session_id = params.session_id;
    participants = list;
    party = some party;
    end_ch = [];
    status = pending;
    created_at = now;
    completed_at = none;
    result = none;
    error = none;
    request = some (
        signing_request (record {
          operation_id = params.operation_id;
          message = params.message;
          key_id = params.key_id;
          participants = params.participants;
        }));
    updates = [];
  }

  -- from `NewParameters` on, once this node is found in the list
  unfoldable pub signing_from :
      SigningOperationParams → KeyData → SaveData → List PartyId → PartyId → M (Service D) (ℕ × ℤ)
  unfolding signing_operation launch hash_message_for_ethereum
  signing_from params key_data local_party list self = do
    now ← gets (λ s. s.clock)
    let party =
        signing_party (set_bytes (hash_message_for_ethereum env.keccak256 params.message))
          (record {
            peers = list;
            self = self;
            party_count = length list;
            threshold = key_data.threshold;
          })
          local_party
    p ← launch (signing_operation params list party now) 5
    pure (p, key_data.threshold)

  -- createSigningOperation: the operation and its threshold
  unfoldable pub create_signing_operation : SigningOperationParams → M (Service D) (ℕ × ℤ)
  unfolding signing_from
  create_signing_operation params = do
    (key_data, local_party) ← (λ s.
        let r = load_key_data env params.key_id s in (wrapping "failed to load key data" r.0, r.1))
    let list = create_participant_list env params.participants
    elim (find_party env.node_id list) [
      | none ↦ fail (errorf "this node (%s) is not in the participant list" (str env.node_id ∷ []))
      | some self ↦ signing_from params key_data local_party list self
    ]

  abbrev pub party_count : ℕ → M (Service D) ℕ
  party_count p s = elim (s.heap p) [
    | none ↦ (Base.panics, s)
    | some o ↦ (ok (length o.participants), s)
  ]

  -- the part of `StartSigning` after the check for an existing operation
  unfoldable pub start_new_signing : String → Bytes → String → List String → M (Service D) ℕ
  unfolding generate_or_use_operation_id new_session_id
  start_new_signing requested_id message key_id participants = do
    lift (
        wrapping "signing request validation failed"
          (validate_signing_request message key_id participants))
    operation_id ← generate_or_use_operation_id env requested_id
    session_id ← new_session_id env
    (p, threshold) ← create_signing_operation (record {
      operation_id = operation_id;
      session_id = session_id;
      message = message;
      key_id = key_id;
      participants = participants;
    })
    parties ← party_count p
    modify (
        spawn (
          broadcast_sync p (
            signing_sync_data operation_id session_id threshold parties participants key_id
              message)))
    pure p

  -- StartSigning
  unfoldable pub start_signing : String → Bytes → String → List String → M (Service D) ℕ
  unfolding start_new_signing
  start_signing requested_id message key_id participants = do
    existing ← check_idempotency env requested_id
    elim existing [
      | some p ↦ pure p
      | none ↦ start_new_signing requested_id message key_id participants
    ]

  -- the checks and the creation of `createSyncedSigningOperation`, once the message is decoded
  unfoldable pub create_synced_signing : SigningSyncData → M (Service D) (Unit {0})
  create_synced_signing sync =
      if sync.key_id == ""
      then fail (errorf "key_id is required for signing operation sync" [])
      else if length sync.message ==ℕ 0
      then fail (errorf "message is required for signing operation sync" [])
      else (do
        lift (
            wrapping "synced signing request validation failed"
              (validate_signing_request sync.message sync.key_id sync.base.participants))
        created ← (λ s.
            let r =
              create_signing_operation
                (record {
                  operation_id = sync.base.operation_id;
                  session_id = sync.base.session_id;
                  message = sync.message;
                  key_id = sync.key_id;
                  participants = sync.base.participants;
                })
                s in
            (wrapping "failed to create synced signing operation" r.0, r.1))
        pure tt)

  -- createSyncedSigningOperation
  unfoldable pub create_synced_signing_operation : Message → M (Service D) (Unit {0})
  unfolding create_synced_signing
  create_synced_signing_operation msg = do
    sync ← lift (
        wrapping "failed to unmarshal signing sync data"
          (or_error (env.json.unmarshal_signing_sync msg.payload) (external "json")))
    create_synced_signing sync

  -- A decoded announcement that is carried out files the operation under its ID.
  pub create_synced_signing-filed :
      (msg : Message) (d : SigningSyncData) (s : Service D)
      → env.json.unmarshal_signing_sync msg.payload ≡ some d
      → (create_synced_signing_operation msg s).0 ≡ ok tt
      → find d.base.operation_id (create_synced_signing_operation msg s).1 ≢ none
  unfolding create_synced_signing_operation create_signing_operation find
  create_synced_signing-filed msg d s decoded done =
      let t : Service D = (load_key_data env d.key_id s).1 in
      ground (
        arith,
        lookup-insert d.base.operation_id d.base.operation_id t.next t.operations,
        eq_iff d.base.operation_id d.base.operation_id,
      )
