-- ===== src/Clients/Cli.antt =====
-- cmd/dknet-cli: the commands that start an operation, up to what they print, with `makeHTTPRequest` of
-- utils.go, at a node that answers them. JSON, hexadecimal texts and connections are parameters.
pub mod Transports
use dknet.Base.{
  ℕ, String, Bool, true, false, List, [], ◌∷◌, Option, none, some, Result, ok, err, Error, errorf,
  wrapf, external, number, str, M, lift, ◌>>=◌, ℤ, pos, negsuc, ◌==◌, ◌==ℕ◌, if◌then◌else◌, leb,
  length, lookup, wrapping,
}
use dknet.P2p.Types.{Bytes}
use dknet.Tss.Env.{Env}
use dknet.Tss.Service.{Service}
use dknet.Api.Responses.{to_int32}
use dknet.Api.Replies.{
  StartKeygenRequest, StartSigningRequest, StartResharingRequest, StartResponse, Reply, reply,
  error_reply, Rpc, rpc_ok, rpc_error,
}
use dknet.Api.Http.{keygen_handler, sign_handler, reshare_handler}
use dknet.Api.Grpc.{rpc_start_keygen, rpc_start_signing, rpc_start_resharing}

-- the flags of the commands
pub record KeygenFlags : Type 0 where
  pub threshold : ℤ
  pub participants : List String

pub record SignFlags : Type 0 where
  pub message : String
  pub key_id : String
  pub message_hex : Bool
  pub participants : List String

pub record ReshareFlags : Type 0 where
  pub key_id : String
  pub new_threshold : ℤ
  pub new_participants : List String

-- t < 0
abbrev pub is_negative : ℤ → Bool
is_negative (pos t) = false
is_negative (negsuc t) = true

-- t >= n
abbrev pub reaches : ℤ → ℕ → Bool
reaches (pos t) n = leb n t
reaches (negsuc t) n = false

-- createKeygenCommand
unfoldable pub keygen_request : KeygenFlags → Result StartKeygenRequest
keygen_request f =
    if is_negative f.threshold
    then err (errorf "threshold must be non-negative" [])
    else if length f.participants ==ℕ 0
    then err (errorf "participants list cannot be empty" [])
    else if reaches f.threshold (length f.participants)
    then err (errorf "threshold must be less than total participants (t+1 <= n required)" [])
    else ok (record {
      operation_id = "";
      threshold = to_int32 f.threshold;
      participants = f.participants;
    })

-- hex.DecodeString, and the bytes of a text
pub record Texts : Type 0 where
  pub decode_hex : String → Result Bytes
  pub bytes_of : String → Bytes

-- createSignCommand
unfoldable pub sign_request : Texts → SignFlags → Result StartSigningRequest
sign_request texts f =
    if f.message == ""
    then err (errorf "message is required" [])
    else if f.key_id == ""
    then err (errorf "key-id is required" [])
    else if length f.participants ==ℕ 0
    then err (errorf "participants list cannot be empty" [])
    else elim (if f.message_hex
        then wrapping "invalid hex message" (texts.decode_hex f.message)
        else ok (texts.bytes_of f.message)) [
          | ok bytes ↦ ok (record {
            operation_id = "";
            message = bytes;
            key_id = f.key_id;
            participants = f.participants;
          })
          | err e ↦ err e
          | Result.panics ↦ Result.panics
        ]

-- the threshold in the text of an error, which is not negative there
abbrev pub shown_number : ℤ → ℕ
shown_number (pos t) = t
shown_number (negsuc t) = t

-- createReshareCommand
unfoldable pub reshare_request : ReshareFlags → Result StartResharingRequest
reshare_request f =
    if f.key_id == ""
    then err (errorf "key-id is required" [])
    else if is_negative f.new_threshold
    then err (errorf "new-threshold must be a non-negative integer" [])
    else if length f.new_participants ==ℕ 0
    then err (errorf "new-participants list cannot be empty" [])
    else if reaches f.new_threshold (length f.new_participants)
    then err (
        errorf "new-threshold (%d) must be less than number of new-participants (%d)"
          (number (shown_number f.new_threshold) ∷ number (length f.new_participants) ∷ []))
    else ok (record {
      operation_id = "";
      key_id = f.key_id;
      new_threshold = to_int32 f.new_threshold;
      new_participants = f.new_participants;
    })

-- What `ShouldBindJSON` of the node makes of a marshalled request; the text of a body; and
-- json.Unmarshal of an error's body as a response.
pub record Bodies : Type 0 where
  pub keygen_bound : StartKeygenRequest → Result StartKeygenRequest
  pub sign_bound : StartSigningRequest → Result StartSigningRequest
  pub reshare_bound : StartResharingRequest → Result StartResharingRequest
  pub response_text : StartResponse → String
  pub error_text : List (String × String) → String
  pub parse_error : List (String × String) → Result StartResponse

abbrev pub http_error : ℕ → String → Error
http_error code text = errorf "HTTP %d: %s" (number code ∷ str text ∷ [])

abbrev pub reported : String → Option String → String
reported body none = body
reported body (some text) = text

module _ (bodies : Bodies) where
  -- makeHTTPRequest from the status of the answer on, and the parsing of its body
  unfoldable pub http_result : Reply StartResponse → Result StartResponse
  http_result (reply code a) =
      if leb 400 code then err (http_error code (bodies.response_text a)) else ok a
  http_result (error_reply code body) =
      if leb 400 code
      then err (http_error code (reported (bodies.error_text body) (lookup "error" body)))
      else wrapping "failed to parse response" (bodies.parse_error body)

  -- the end of keygenGRPC, signGRPC and reshareGRPC
  unfoldable pub rpc_result : String → Rpc StartResponse → Result StartResponse
  rpc_result text (rpc_ok a) = ok a
  rpc_result text (rpc_error code format args) = err (wrapf text (external format))

  module _ {D : Type 0} (env : Env D) (timestamp : ℕ → ℕ) where
    -- keygenHTTP and keygenGRPC; a panic of the node is left as it is
    unfoldable pub send_keygen : Bool → StartKeygenRequest → M (Service D) StartResponse
    send_keygen use_grpc req =
        if use_grpc
        then rpc_start_keygen env timestamp req
          >>= (λ a. lift (rpc_result "failed to start keygen" a))
        else keygen_handler env timestamp (bodies.keygen_bound req) >>= (λ a. lift (http_result a))

    -- signHTTP and signGRPC; over gRPC the deadline of the command has not passed
    unfoldable pub send_sign : Bool → StartSigningRequest → M (Service D) StartResponse
    send_sign use_grpc req =
        if use_grpc
        then rpc_start_signing env timestamp none req
          >>= (λ a. lift (rpc_result "failed to start signing" a))
        else sign_handler env timestamp (bodies.sign_bound req) >>= (λ a. lift (http_result a))

    -- reshareHTTP and reshareGRPC
    unfoldable pub send_reshare : Bool → StartResharingRequest → M (Service D) StartResponse
    send_reshare use_grpc req =
        if use_grpc
        then rpc_start_resharing env timestamp req
          >>= (λ a. lift (rpc_result "failed to start resharing" a))
        else reshare_handler env timestamp (bodies.reshare_bound req)
          >>= (λ a. lift (http_result a))

    -- the three commands at a node, with the flag for gRPC; the result is printed
    unfoldable pub keygen_command : Bool → KeygenFlags → M (Service D) StartResponse
    unfolding keygen_request
    keygen_command use_grpc f = lift (keygen_request f) >>= send_keygen use_grpc

    unfoldable pub sign_command : Texts → Bool → SignFlags → M (Service D) StartResponse
    unfolding sign_request
    sign_command texts use_grpc f = lift (sign_request texts f) >>= send_sign use_grpc

    unfoldable pub reshare_command : Bool → ReshareFlags → M (Service D) StartResponse
    unfolding reshare_request
    reshare_command use_grpc f = lift (reshare_request f) >>= send_reshare use_grpc
