-- ===== src/Api/Replies.antt =====
-- The messages of the HTTP and gRPC interfaces: what a client sends and what it is answered.
use dknet.Base.{ℕ, String, List, [], ◌∷◌, Result, ok, err, Error, ℤ, M}
use dknet.P2p.Types.{Bytes}
use dknet.Api.Responses.{ApiStatus}

-- tssv1.StartKeygenRequest; the threshold is an `int32`
pub record StartKeygenRequest : Type 0 where
  pub operation_id : String
  pub threshold : ℤ
  pub participants : List String

-- tssv1.StartSigningRequest
pub record StartSigningRequest : Type 0 where
  pub operation_id : String
  pub message : Bytes
  pub key_id : String
  pub participants : List String

-- tssv1.StartResharingRequest
pub record StartResharingRequest : Type 0 where
  pub operation_id : String
  pub key_id : String
  pub new_threshold : ℤ
  pub new_participants : List String

-- tssv1.StartKeygenResponse, StartSigningResponse, StartResharingResponse: the same three fields
pub record StartResponse : Type 0 where
  pub operation_id : String
  pub status : ApiStatus
  pub created_at : ℕ

-- tssv1.GetKeyMetadataResponse
pub record GetKeyMetadataResponse : Type 0 where
  pub moniker : String
  pub threshold : ℤ
  pub participants : List String

-- healthv1.CheckResponse; the status is always HEALTH_STATUS_SERVING
pub record CheckResponse : Type 0 where
  pub timestamp : ℕ
  pub details : String
  pub metadata : List (String × String)

-- `c.JSON(code, body)`, where an error's body is a `gin.H` of texts
pub data Reply {ℓ} (A : Type ℓ) : Type ℓ where
  reply : ℕ → A → Reply A
  error_reply : ℕ → List (String × String) → Reply A

-- codes.Code, those that the source uses
pub data Code : Type 0 where
  internal not_found unauthenticated : Code

-- what a gRPC method returns; `status.Errorf(code, format, args...)`
pub data Rpc {ℓ} (A : Type ℓ) : Type ℓ where
  rpc_ok : A → Rpc A
  rpc_error : Code → String → List String → Rpc A

-- `x, err := m; if err != nil { return ... }`
module _ {ℓ κ ν} {S : Type ℓ} {A : Type κ} {B : Type ν} where
  abbrev pub on_error : M S A → (Error → B) → (A → M S B) → M S B
  on_error m failed next s = elim (m s).0 [
    | ok a ↦ next a (m s).1
    | err e ↦ (ok (failed e), (m s).1)
    | Result.panics ↦ (Result.panics, (m s).1)
  ]

-- gin.H{"error": text}
abbrev pub error_body : String → List (String × String)
error_body text = ("error", text) ∷ []
