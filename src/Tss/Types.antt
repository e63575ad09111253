-- ===== src/Tss/Types.antt =====
-- internal/tss/types.go: operations, requests, results and the messages that announce operations.
-- A value of tss-lib or of a decoded JSON tree that the source only hands on is a handle, a number.
use dknet.Base.{ℕ, String, Bool, true, false, List, Option, none, some, ℤ, Error, contains}
use dknet.P2p.Types.{Bytes, Message}

pub data OperationType : Type 0 where
  keygen signing resharing operation_sync : OperationType
  unknown_type : String → OperationType

-- `string(t)`
unfoldable pub type_text : OperationType → String
type_text keygen = "keygen"
type_text signing = "signing"
type_text resharing = "resharing"
type_text operation_sync = "operation_sync"
type_text (unknown_type t) = t

pub data OperationStatus : Type 0 where
  pending in_progress completed failed canceled : OperationStatus
  unknown_status : String → OperationStatus

-- `string(status)`
unfoldable pub status_text : OperationStatus → String
status_text pending = "pending"
status_text in_progress = "in_progress"
status_text completed = "completed"
status_text failed = "failed"
status_text canceled = "canceled"
status_text (unknown_status t) = t

-- *tss.PartyID, as `tss.NewPartyID(id, moniker, key)` makes it
pub record PartyId : Type 0 where
  pub id : String
  pub moniker : String
  pub key : ℕ

pub record KeygenRequest : Type 0 where
  pub operation_id : String
  pub threshold : ℤ
  pub participants : List String

pub record KeygenResult : Type 0 where
  pub public_key : String
  pub key_id : String

pub record SigningRequest : Type 0 where
  pub operation_id : String
  pub message : Bytes
  pub key_id : String
  pub participants : List String

pub record SigningResult : Type 0 where
  pub signature : String
  pub r : String
  pub s : String
  pub v : ℕ

pub record ResharingRequest : Type 0 where
  pub operation_id : String
  pub key_id : String
  pub new_threshold : ℤ
  pub new_parties : ℕ
  pub old_participants : List String
  pub new_participants : List String

-- What the fields `Result any` and `Request any` hold. `generic` is the tree of maps that
-- `json.Unmarshal` builds for an `interface{}`.
pub data Value : Type 0 where
  keygen_result : KeygenResult → Value
  signing_result : SigningResult → Value
  keygen_request : KeygenRequest → Value
  signing_request : SigningRequest → Value
  resharing_request : ResharingRequest → Value
  generic : ℕ → Value

-- keygen.LocalPartySaveData of tss-lib, a handle
abbrev pub SaveData : Type 0
SaveData = ℕ

-- common.SignatureData of tss-lib: the fields that the source reads
pub record SignatureData : Type 0 where
  pub r : Bytes
  pub s : Bytes
  pub signature_recovery : Bytes

-- tss.NewParameters(curve, ctx, self, party count, threshold)
pub record Parameters : Type 0 where
  pub peers : List PartyId
  pub self : PartyId
  pub party_count : ℕ
  pub threshold : ℤ

-- tss.NewReSharingParameters(curve, old, new, self, old count, old threshold, new count, threshold)
pub record ReSharingParameters : Type 0 where
  pub old_peers : List PartyId
  pub new_peers : List PartyId
  pub self : PartyId
  pub old_count : ℕ
  pub old_threshold : ℤ
  pub new_count : ℕ
  pub new_threshold : ℤ

-- tss.Party: what `NewLocalParty` of the three protocols is given
pub data Party : Type 0 where
  keygen_party : Parameters → Option ℕ → Party
  signing_party : ℕ → Parameters → SaveData → Party
  resharing_party : ReSharingParameters → SaveData → Party

-- Party.PartyID()
unfoldable pub party_id : Party → PartyId
party_id (keygen_party p _) = p.self
party_id (signing_party _ p _) = p.self
party_id (resharing_party p _) = p.self

-- what is sent to `EndCh`; `other_value` is a value of any other type,
-- such as the value of a recovered panic that is no error
pub data EndValue : Type 0 where
  error_value : Error → EndValue
  save_data : SaveData → EndValue
  signature_data : SignatureData → EndValue
  other_value : EndValue

-- one call of `Party.UpdateFromBytes`
pub record Update : Type 0 where
  pub wire_bytes : Bytes
  pub sender : PartyId
  pub is_broadcast : Bool

-- Operation. `end_ch` holds what goroutines offer to the channel and nobody has received, and
-- `updates` the calls that the party has had.
pub record Operation : Type 0 where
  pub id : String
  pub type : OperationType
  pub session_id : String
  pub participants : List PartyId
  pub party : Option Party
  pub end_ch : List EndValue
  pub status : OperationStatus
  pub created_at : ℕ
  pub completed_at : Option ℕ
  pub result : Option Value
  pub error : Option Error
  pub request : Option Value
  pub updates : List Update

is_resharing_request : Option Value → Option ResharingRequest
is_resharing_request (some (resharing_request req)) = some req
is_resharing_request _ = none

-- `operation.Request.(*ResharingRequest)`
unfoldable pub as_resharing : Operation → Option ResharingRequest
unfolding is_resharing_request
as_resharing o = is_resharing_request o.request

party_text : Option Party → String
unfolding party_id
party_text none = ""
party_text (some p) = (party_id p).id

-- isNewParticipant
unfoldable pub is_new_participant : Operation → Bool
unfolding as_resharing party_text
is_new_participant o = elim (as_resharing o) [
  | none ↦ false
  | some req ↦ contains req.new_participants (party_text o.party)
]

pub record OperationSyncData : Type 0 where
  pub operation_id : String
  pub operation_type : OperationType
  pub session_id : String
  pub threshold : ℤ
  pub parties : ℕ
  pub participants : List String

pub record SigningSyncData : Type 0 where
  pub base : OperationSyncData
  pub key_id : String
  pub message : Bytes

pub record ResharingSyncData : Type 0 where
  pub base : OperationSyncData
  pub old_threshold : ℤ
  pub new_threshold : ℤ
  pub old_participants : List String
  pub new_participants : List String
  pub key_id : String

-- the interface `Message` of types.go, with its three implementations
pub data SyncData : Type 0 where
  keygen_sync : OperationSyncData → SyncData
  signing_sync : SigningSyncData → SyncData
  resharing_sync : ResharingSyncData → SyncData

-- ID()
unfoldable pub sync_id : SyncData → String
sync_id (keygen_sync d) = d.operation_id
sync_id (signing_sync d) = d.base.operation_id
sync_id (resharing_sync d) = d.base.operation_id

-- To()
unfoldable pub sync_to : SyncData → List String
sync_to (keygen_sync d) = d.participants
sync_to (signing_sync d) = d.base.participants
sync_to (resharing_sync d) = d.new_participants

pub record OperationData : Type 0 where
  pub id : String
  pub type : OperationType
  pub session_id : String
  pub status : OperationStatus
  pub participants : List String
  pub request : Option Value
  pub result : Option Value
  pub error : String
  pub created_at : ℕ
  pub completed_at : Option ℕ

abbrev pub is_terminal : OperationStatus → Bool
is_terminal completed = true
is_terminal failed = true
is_terminal canceled = true
is_terminal _ = false

-- IsCompleted
unfoldable pub is_completed : OperationData → Bool
is_completed o = is_terminal o.status

abbrev is_live : OperationStatus → Bool
is_live pending = true
is_live in_progress = true
is_live _ = false

-- IsActive
unfoldable pub is_active : OperationData → Bool
is_active o = is_live o.status

-- keyData
pub record KeyData : Type 0 where
  pub moniker : String
  pub key_data : Bytes
  pub threshold : ℤ
  pub participants : List String

-- A goroutine that a `go` statement or `SafeGo` has started and that has not ended. The first
-- argument is the operation that it points to.
pub data Task : Type 0 where
  watch_operation : ℕ → ℕ → Task  -- with its time-out in minutes
  run_operation : ℕ → Task
  start_party : ℕ → Task
  outgoing_messages : ℕ → Task
  broadcast_sync : ℕ → SyncData → Task
  update_party : ℕ → Message → PartyId → Task
