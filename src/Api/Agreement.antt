-- ===== src/Api/Agreement.antt =====
-- The HTTP handlers and the gRPC methods are two ways to the same operations.
use dknet.Base
use dknet.Base.{
  ℕ, String, [], ◌∷◌, Option, none, some, Result, ok, err, Error, M, pure, List, ◌≢◌, ◌≡◌, refl,
  arith, ◌⊎◌, inl, inr, Result-cases, Option-cases, ℤ,
}
use dknet.Tss.Env.{Env}
use dknet.Tss.Service.{Service}
use dknet.Tss.Store.{deref, get_operation, get_operation_data, load_key_metadata}
use dknet.Tss.Keygen.{start_keygen}
use dknet.Tss.Sign.{start_signing}
use dknet.Tss.Resharing.{start_resharing}
use dknet.Api.Responses.{build_operation_response, build_operation_response_from_storage}
use dknet.Api.Replies.{
  StartKeygenRequest, StartSigningRequest, StartResharingRequest, Reply, reply, error_reply,
  error_body, Rpc, rpc_ok, rpc_error, Code, internal, not_found, on_error,
}
use dknet.Api.Http.{
  keygen_handler, sign_handler, reshare_handler, get_operation_handler, get_key_metadata_handler,
  start_response, start_handler, answer_operation, key_metadata_response,
}
use dknet.Api.Grpc.{
  rpc_start_keygen, rpc_start_signing, rpc_start_resharing, rpc_get_operation, rpc_get_key_metadata,
  start_method, return_operation,
}

-- An HTTP reply and a gRPC result that say the same: the same body, with the status `success`, or an
-- error, with the status and the code of one kind of failure; or both handlers panic, which gin
-- recovers from with the status 500, while over gRPC it ends the process.
pub data SameAnswer {A : Type 0} (success failure : ℕ) (code : Code)
    : Result (Reply A) → Result (Rpc A) → Type 0 where
  both_answer : (a : A) → SameAnswer success failure code (ok (reply success a)) (ok (rpc_ok a))
  both_fail :
      (text format : String) (args : Base.List String)
      → SameAnswer success failure code
          (ok (error_reply failure (error_body text)))
          (ok (rpc_error code format args))
  both_panic : SameAnswer success failure code Result.panics Result.panics

-- The two leave the same state and say the same.
abbrev pub Agree : {S A : Type 0} → ℕ → ℕ → Code → M S (Reply A) → M S (Rpc A) → S → Type 0
Agree success failure code m n s =
    ((m s).1 ≡ (n s).1) × SameAnswer success failure code (m s).0 (n s).0

module _ {S A B : Type 0} (success failure : ℕ) (code : Code) (show : A → B) where
  -- what is read without error is shown on both sides
  shown_agrees :
      (x : Result A × S)
      → ((e : Error) → x.0 ≢ err e)
      → Agree {S = S} {A = B} success failure code
          (λ s. Base.continue x.0 (λ a. pure (reply success (show a))) x.1)
          (λ s. Base.continue x.0 (λ a. pure (rpc_ok (show a))) x.1)
          x.1
  shown_agrees (ok a, s) _ = (refl, both_answer (show a))
  shown_agrees (err e, s) ne = absurd (ne e refl)
  shown_agrees (Result.panics, s) _ = (refl, both_panic)

  -- a failure is reported on both sides, and what is read is shown
  read_agrees :
      (x : Result A × S) (text : Error → String) (format : String) (args : Error → List String)
      → Agree {S = S} {A = B} success failure code
          (on_error
            (λ s. x)
            (λ e. error_reply failure (error_body (text e)))
            (λ a. pure (reply success (show a))))
          (on_error (λ s. x) (λ e. rpc_error code format (args e)) (λ a. pure (rpc_ok (show a))))
          x.1
  read_agrees (ok a, s) text format args = (refl, both_answer (show a))
  read_agrees (err e, s) text format args = (refl, both_fail (text e) format (args e))
  read_agrees (Result.panics, s) text format args = (refl, both_panic)

module _ {D : Type 0} (env : Env D) (timestamp : ℕ → ℕ) where
  deref_safe : (p : ℕ) (s : Service D) (e : Error) → (deref env p s).0 ≢ err e
  deref_safe p s e = elim (Option-cases (s.heap p)) [ inl h ↦ ground arith | inr h ↦ ground arith ]

  started_agrees :
      (x : Result ℕ × Service D) (format : String)
      → Agree 202 500 internal
          (start_handler env timestamp (λ (u : Unit {0}) s. x) (ok tt))
          (start_method env timestamp format (λ s. x))
          x.1
  started_agrees (ok p, s) format =
      shown_agrees 202 500 internal (start_response timestamp) (deref env p s) (deref_safe p s)
  started_agrees (err e, s) format = (refl, both_fail _ _ _)
  started_agrees (Result.panics, s) format = (refl, both_panic)

  pub starts-Agree :
      (k : StartKeygenRequest) (g : StartSigningRequest) (r : StartResharingRequest) (s : Service D)
      → Agree 202 500 internal
          (keygen_handler env timestamp (ok k))
          (rpc_start_keygen env timestamp k)
          s
        × Agree 202 500 internal
            (sign_handler env timestamp (ok g))
            (rpc_start_signing env timestamp none g)
            s
        × Agree 202 500 internal
            (reshare_handler env timestamp (ok r))
            (rpc_start_resharing env timestamp r)
            s
  unfolding keygen_handler sign_handler reshare_handler rpc_start_keygen rpc_start_signing
      rpc_start_resharing
  starts-Agree k g r s = (
    started_agrees (start_keygen env k.operation_id k.threshold k.participants s) _,
    started_agrees (start_signing env g.operation_id g.message g.key_id g.participants s) _,
    started_agrees
        (start_resharing env r.operation_id r.key_id r.new_threshold r.new_participants s) _,
  )

  operation_agrees :
      (o : Option ℕ) (id : String) (s : Service D)
      → Agree 200 404 not_found
          (answer_operation env timestamp id o)
          (return_operation env timestamp id o)
          s
  operation_agrees (some p) id s =
      shown_agrees 200 404 not_found (build_operation_response timestamp env.error_text)
        (deref env p s) (deref_safe p s)
  operation_agrees none id s =
      read_agrees 200 404 not_found (build_operation_response_from_storage timestamp)
        (get_operation_data env id s) (λ e. "operation not found") "operation not found" (λ e. [])

  reads-Agree :
      (id key_id : String) (s : Service D)
      → Agree 200 404 not_found
          (get_operation_handler env timestamp id)
          (rpc_get_operation env timestamp id)
          s
        × Agree 200 500 internal
            (get_key_metadata_handler env timestamp key_id)
            (rpc_get_key_metadata env timestamp key_id)
            s
  unfolding get_operation_handler rpc_get_operation get_key_metadata_handler rpc_get_key_metadata
  reads-Agree id key_id s = (
    operation_agrees (get_operation env id s) id s,
    read_agrees 200 500 internal key_metadata_response (load_key_metadata env key_id s)
        env.error_text "failed to get key metadata: %v" (λ e. env.error_text e ∷ []),
  )

  -- The handlers of the five operations of the API leave the same state over HTTP, where the body
  -- could be read, as over gRPC, where the request's context is not done before the method ends, and
  -- both panic or answer the same: to a request that starts an operation that it is accepted (202) or
  -- an internal error (500), to a question for an operation the same response (200) or that it is not
  -- found (404), to one for a key its metadata (200) or an internal error (500).
  pub interfaces-Agree :
      (k : StartKeygenRequest) (g : StartSigningRequest) (r : StartResharingRequest)
      (id key_id : String) (s : Service D)
      → Agree 202 500 internal
          (keygen_handler env timestamp (ok k))
          (rpc_start_keygen env timestamp k)
          s
        × Agree 202 500 internal
            (sign_handler env timestamp (ok g))
            (rpc_start_signing env timestamp none g)
            s
        × Agree 202 500 internal
            (reshare_handler env timestamp (ok r))
            (rpc_start_resharing env timestamp r)
            s
        × Agree 200 404 not_found
            (get_operation_handler env timestamp id)
            (rpc_get_operation env timestamp id)
            s
        × Agree 200 500 internal
            (get_key_metadata_handler env timestamp key_id)
            (rpc_get_key_metadata env timestamp key_id)
            s
  interfaces-Agree k g r id key_id s =
      let (a, b, c) = starts-Agree k g r s in
      let (d, e) = reads-Agree id key_id s in (a, b, c, d, e)
