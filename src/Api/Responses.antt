-- ===== src/Api/Responses.antt =====
-- internal/api/types.go: how an operation, in memory or in storage, is shown to a client. The types
-- are those of the protocol buffers that the file fills.

use dknet.Base.{
  ℕ, ◌-◌, ◌%◌, String, List, Option, none, some, ◌==◌, if◌then◌else◌, ltb, ℤ, pos, negsuc, Error,
}
use dknet.P2p.Types.{Bytes}
use dknet.Tss.Types as Tss
use dknet.Tss.Types.{Operation, OperationData, Value}
use dknet.Tss.Service.{ids}

-- tssv1.OperationStatus
pub data ApiStatus : Type 0 where
  status_unspecified status_pending status_in_progress status_completed : ApiStatus
  status_failed status_canceled : ApiStatus

-- tssv1.OperationType
pub data ApiType : Type 0 where
  type_unspecified type_keygen type_signing type_resharing : ApiType

-- convertOperationStatus
unfoldable pub convert_operation_status : Tss.OperationStatus → ApiStatus
convert_operation_status Tss.pending = status_pending
convert_operation_status Tss.in_progress = status_in_progress
convert_operation_status Tss.completed = status_completed
convert_operation_status Tss.failed = status_failed
convert_operation_status Tss.canceled = status_canceled
convert_operation_status (Tss.unknown_status t) = status_unspecified

-- convertOperationType
unfoldable pub convert_operation_type : Tss.OperationType → ApiType
convert_operation_type Tss.keygen = type_keygen
convert_operation_type Tss.signing = type_signing
convert_operation_type Tss.resharing = type_resharing
convert_operation_type _ = type_unspecified

-- a number below 2^32, read as an `int32`
abbrev signed : ℕ → ℤ
signed n = if ltb n 2147483648 then pos n else negsuc (4294967295 - n)

-- `int32(t)` of an `int`
unfoldable pub to_int32 : ℤ → ℤ
to_int32 (pos n) = signed (n % 4294967296)
to_int32 (negsuc n) = signed (4294967295 - n % 4294967296)

-- the `oneof` of the results, tssv1.KeygenResult twice and tssv1.SigningResult
pub data ApiResult : Type 0 where
  response_keygen : (public_key key_id : String) → ApiResult
  response_signing : (signature r s : String) (v : ℤ) → ApiResult
  response_resharing : (public_key key_id : String) → ApiResult

-- the `oneof` of the requests
pub data ApiRequest : Type 0 where
  request_keygen : (threshold : ℤ) (participants : List String) → ApiRequest
  request_signing : (message : Bytes) (key_id : String) (participants : List String) → ApiRequest
  request_resharing :
      (key_id : String) (new_threshold : ℤ) (new_participants : List String) → ApiRequest

-- tssv1.GetOperationResponse
pub record GetOperationResponse : Type 0 where
  pub operation_id : String
  pub type : ApiType
  pub session_id : String
  pub status : ApiStatus
  pub participants : List String
  pub created_at : ℕ
  pub completed_at : Option ℕ
  pub error : Option String
  pub result : Option ApiResult
  pub request : Option ApiRequest

-- the result, if its Go type is that of the operation's type
unfoldable pub api_result : Tss.OperationType → Option Value → Option ApiResult
unfolding to_int32
api_result Tss.keygen (some (Tss.keygen_result r)) = some (response_keygen r.public_key r.key_id)
api_result Tss.signing (some (Tss.signing_result r)) =
    some (response_signing r.signature r.r r.s (to_int32 (pos r.v)))
api_result Tss.resharing (some (Tss.keygen_result r)) =
    some (response_resharing r.public_key r.key_id)
api_result _ _ = none

-- the original request
unfoldable pub api_request : Option Value → Option ApiRequest
unfolding to_int32
api_request (some (Tss.keygen_request r)) =
    some (request_keygen (to_int32 r.threshold) r.participants)
api_request (some (Tss.signing_request r)) =
    some (request_signing r.message r.key_id r.participants)
api_request (some (Tss.resharing_request r)) =
    some (request_resharing r.key_id (to_int32 r.new_threshold) r.new_participants)
api_request _ = none

-- buildOperationResponse; `timestamp` is `timestamppb.New`
module _ (timestamp : ℕ → ℕ) where
  abbrev pub completion : Option ℕ → Option ℕ
  completion none = none
  completion (some t) = some (timestamp t)

  abbrev pub shown_error : (Error → String) → Option Error → Option String
  shown_error error_text none = none
  shown_error error_text (some e) = some (error_text e)

  unfoldable pub build_operation_response : (Error → String) → Operation → GetOperationResponse
  unfolding api_result api_request
  build_operation_response error_text o = record {
    operation_id = o.id;
    type = convert_operation_type o.type;
    session_id = o.session_id;
    status = convert_operation_status o.status;
    participants = ids o.participants;
    created_at = timestamp o.created_at;
    completed_at = completion o.completed_at;
    error = shown_error error_text o.error;
    result = api_result o.type o.result;
    request = api_request o.request;
  }

  -- buildOperationResponseFromStorage
  unfoldable pub build_operation_response_from_storage : OperationData → GetOperationResponse
  unfolding api_result api_request
  build_operation_response_from_storage d = record {
    operation_id = d.id;
    type = convert_operation_type d.type;
    session_id = d.session_id;
    status = convert_operation_status d.status;
    participants = d.participants;
    created_at = timestamp d.created_at;
    completed_at = completion d.completed_at;
    error = if d.error == "" then none else some d.error;
    result = api_result d.type d.result;
    request = api_request d.request;
  }
