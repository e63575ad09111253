-- ===== src/Api/Grpc.antt =====
-- internal/api/grpc.go: the methods of the two services.
use dknet.Base.{ℕ, String, [], ◌∷◌, Option, none, some, ok, err, Error, wrapf, M, pure, ◌>>=◌}
use dknet.Tss.Env.{Env}
use dknet.Tss.Service.{Service}
use dknet.Tss.Store.{deref, get_operation, get_operation_data, load_key_metadata}
use dknet.Tss.Keygen.{start_keygen}
use dknet.Tss.Sign.{start_signing}
use dknet.Tss.Resharing.{start_resharing}
use dknet.Api.Responses.{
  GetOperationResponse, build_operation_response, build_operation_response_from_storage,
}
use dknet.Api.Replies.{
  StartKeygenRequest, StartSigningRequest, StartResharingRequest, StartResponse,
  GetKeyMetadataResponse, CheckResponse, Rpc, rpc_ok, rpc_error, internal, not_found, on_error,
}
use dknet.Api.Http.{start_response, key_metadata_response, serving}

-- The service as a method with the context of its request uses it. The validation of a signing
-- request is all that reads a context: once it is done, with an error, the request to the validation
-- service fails. `none` is a context that is not done before the method ends.
abbrev pub in_context : {D : Type 0} → Option Error → Env D → Env D
in_context none env = env
in_context (some done) env = record env {
  validation_service = elim env.validation_service [
    | none ↦ none
    | some validate ↦ some (λ req. err (wrapf "failed to send validation request" done))
  ];
}

module _ {D : Type 0} (env : Env D) (timestamp : ℕ → ℕ) where
  abbrev pub start_method : String → M (Service D) ℕ → M (Service D) (Rpc StartResponse)
  start_method message start =
      on_error start (λ e. rpc_error internal message (env.error_text e ∷ []))
        (λ p. do o ← deref env p; pure (rpc_ok (start_response timestamp o)))

  -- StartKeygen
  unfoldable pub rpc_start_keygen : StartKeygenRequest → M (Service D) (Rpc StartResponse)
  rpc_start_keygen req =
      start_method "failed to start keygen: %v"
        (start_keygen env req.operation_id req.threshold req.participants)

  -- StartSigning
  unfoldable pub rpc_start_signing :
      Option Error → StartSigningRequest → M (Service D) (Rpc StartResponse)
  rpc_start_signing context req = start_method "failed to start signing: %v" (
      start_signing (in_context context env) req.operation_id req.message req.key_id
        req.participants)

  -- StartResharing
  unfoldable pub rpc_start_resharing : StartResharingRequest → M (Service D) (Rpc StartResponse)
  rpc_start_resharing req =
      start_method "failed to start resharing: %v"
        (start_resharing env req.operation_id req.key_id req.new_threshold req.new_participants)

  abbrev pub return_operation : String → Option ℕ → M (Service D) (Rpc GetOperationResponse)
  return_operation id (some p) = do
    o ← deref env p
    pure (rpc_ok (build_operation_response timestamp env.error_text o))
  return_operation id none =
      on_error (get_operation_data env id) (λ e. rpc_error not_found "operation not found" [])
        (λ d. pure (rpc_ok (build_operation_response_from_storage timestamp d)))

  -- GetOperation
  unfoldable pub rpc_get_operation : String → M (Service D) (Rpc GetOperationResponse)
  rpc_get_operation id s = return_operation id (get_operation env id s) s

  -- GetKeyMetadata
  unfoldable pub rpc_get_key_metadata : String → M (Service D) (Rpc GetKeyMetadataResponse)
  rpc_get_key_metadata key_id =
      on_error (load_key_metadata env key_id)
        (λ e. rpc_error internal "failed to get key metadata: %v" (env.error_text e ∷ []))
        (λ k. pure (rpc_ok (key_metadata_response k)))

  -- Check
  unfoldable pub rpc_check : M (Service D) (Rpc CheckResponse)
  rpc_check s = (ok (rpc_ok (serving (timestamp s.clock))), s)
