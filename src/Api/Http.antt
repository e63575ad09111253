-- ===== src/Api/Http.antt =====
-- internal/api/http.go: the handlers. What `ShouldBindJSON` makes of a request's body is their
-- argument.
pub mod Visible
pub mod Started
pub mod Known
use dknet.Base.{
  ℕ, String, List, [], ◌∷◌, Option, none, some, Result, ok, err, Error, M, pure, ◌>>=◌,
}
use dknet.Tss.Types.{Operation, KeyData}
use dknet.Tss.Env.{Env}
use dknet.Tss.Service.{Service}
use dknet.Tss.Store.{deref, get_operation, get_operation_data, load_key_metadata}
use dknet.Tss.Keygen.{start_keygen}
use dknet.Tss.Sign.{start_signing}
use dknet.Tss.Resharing.{start_resharing}
use dknet.Api.Responses.{
  GetOperationResponse, build_operation_response, build_operation_response_from_storage,
  convert_operation_status, to_int32,
}
use dknet.Api.Replies.{
  StartKeygenRequest, StartSigningRequest, StartResharingRequest, StartResponse,
  GetKeyMetadataResponse, CheckResponse, Reply, reply, error_reply, on_error, error_body,
}

-- the answer to a started operation
abbrev pub start_response : (ℕ → ℕ) → Operation → StartResponse
start_response timestamp o = record {
  operation_id = o.id;
  status = convert_operation_status o.status;
  created_at = timestamp o.created_at;
}

abbrev pub key_metadata_response : KeyData → GetKeyMetadataResponse
key_metadata_response k = record {
  moniker = k.moniker;
  threshold = to_int32 k.threshold;
  participants = k.participants;
}

abbrev pub serving : ℕ → CheckResponse
serving now = record {
  timestamp = now;
  details = "DKNet is healthy";
  metadata = ("service", "dknet") ∷ ("version", "1.0.0") ∷ [];
}

-- `timestamp` is `timestamppb.New`
module _ {D : Type 0} (env : Env D) (timestamp : ℕ → ℕ) where
  -- the body is bound, the operation `start` runs, and the operation that it gives is shown
  abbrev pub start_handler :
      {A : Type 0} → (A → M (Service D) ℕ) → Result A → M (Service D) (Reply StartResponse)
  start_handler start bound =
      on_error (λ s. (bound, s)) (λ e. error_reply 400 (error_body (env.error_text e)))
        (λ req.
          on_error (start req) (λ e. error_reply 500 (error_body (env.error_text e)))
            (λ p. do o ← deref env p; pure (reply 202 (start_response timestamp o))))

  -- keygenHandler
  unfoldable pub keygen_handler : Result StartKeygenRequest → M (Service D) (Reply StartResponse)
  keygen_handler =
      start_handler (λ req. start_keygen env req.operation_id req.threshold req.participants)

  -- signHandler
  unfoldable pub sign_handler : Result StartSigningRequest → M (Service D) (Reply StartResponse)
  sign_handler =
      start_handler
        (λ req. start_signing env req.operation_id req.message req.key_id req.participants)

  -- reshareHandler
  unfoldable pub reshare_handler :
      Result StartResharingRequest → M (Service D) (Reply StartResponse)
  reshare_handler = start_handler (λ req.
      start_resharing env req.operation_id req.key_id req.new_threshold req.new_participants)

  -- in memory first, then in storage
  abbrev pub answer_operation : String → Option ℕ → M (Service D) (Reply GetOperationResponse)
  answer_operation id (some p) = do
    o ← deref env p
    pure (reply 200 (build_operation_response timestamp env.error_text o))
  answer_operation id none =
      on_error (get_operation_data env id) (λ e. error_reply 404 (error_body "operation not found"))
        (λ d. pure (reply 200 (build_operation_response_from_storage timestamp d)))

  -- getOperationHandler
  unfoldable pub get_operation_handler : String → M (Service D) (Reply GetOperationResponse)
  get_operation_handler id s = answer_operation id (get_operation env id s) s

  -- getKeyMetadataHandler
  unfoldable pub get_key_metadata_handler : String → M (Service D) (Reply GetKeyMetadataResponse)
  get_key_metadata_handler key_id =
      on_error (load_key_metadata env key_id) (λ e. error_reply 500 (error_body (env.error_text e)))
        (λ k. pure (reply 200 (key_metadata_response k)))

  -- healthHandler
  unfoldable pub health_handler : M (Service D) (Reply CheckResponse)
  health_handler s = (ok (reply 200 (serving (timestamp s.clock))), s)
