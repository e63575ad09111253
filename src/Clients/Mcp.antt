-- ===== src/Clients/Mcp.antt =====
-- cmd/dknet-mcp/main.go: the two tools, which start an operation at a node and wait for its end. What the
-- node answers, hexadecimal texts and `float64` are parameters.
pub mod Answers
use Prim.Native.Char.{code}
use Prim.Native.String.{◌∷◌ as ◌∷ˢ◌, ◌++◌ as ◌++ˢ◌, [] as empty}
use dknet.Base.{
  ℕ, String, Bool, true, false, List, [], ◌∷◌, Option, none, some, Error, errorf, ℤ, pos, negsuc,
  ◌==◌, ◌==ℕ◌, if◌then◌else◌, length, lookup, map, ◌⊎◌, inl, inr,
}
use dknet.P2p.Types.{Bytes}
use dknet.Common.Password.{trim_left, trim_right}
use dknet.Api.Responses.{
  ApiStatus, status_completed, status_failed, status_canceled, GetOperationResponse, ApiResult,
  response_keygen, response_signing,
}
use dknet.Api.Replies.{
  StartKeygenRequest, StartSigningRequest, StartResponse, Rpc, rpc_ok, rpc_error, Code,
}
use dknet.Cmd.Show.{push}
use dknet.Clients.Cli.{is_negative, reaches}

-- an argument of a tool; a `float64` is a handle
pub data Argument : Type 0 where
  text_argument : String → Argument
  float_argument : ℕ → Argument
  other_argument : Argument

abbrev pub Arguments : Type 0
Arguments = List (String × Argument)

-- hex.DecodeString, with the text of its error; the bytes of a text; `int(f)` and `int32(f)`; and the texts
-- of errors
pub record ToolLibs : Type 0 where
  pub decode_hex : String → String ⊎ Bytes
  pub bytes_of : String → Bytes
  pub int_of : ℕ → ℤ
  pub int32_of : ℕ → ℤ
  pub rpc_text : Code → String → List String → String
  pub error_text : Error → String

-- the node: what it answers to a start, and to the questions for an operation that are asked every two
-- seconds before the time is over
pub record Client : Type 0 where
  pub start_keygen : StartKeygenRequest → Rpc StartResponse
  pub start_signing : StartSigningRequest → Rpc StartResponse
  pub polls : String → List (Rpc GetOperationResponse)

-- what a tool answers: an error, or the values of its text
pub data ToolResult : Type 0 where
  tool_error : String → ToolResult
  keygen_text :
      (operation_id : String) (status : ApiStatus) (threshold : ℤ) (participants : List String)
      (created_at : ℕ) (key_id public_key : String)
      → ToolResult
  sign_text :
      (operation_id : String) (status : ApiStatus) (key_id : String) (participants : List String)
      (created_at : ℕ) (message format : String) (bytes : Bytes) (r s : String) (v : ℤ)
      → ToolResult

abbrev pub text_of : Option Argument → Option String
text_of (some (text_argument t)) = some t
text_of _ = none

abbrev pub float_of : Option Argument → Option ℕ
float_of (some (float_argument f)) = some f
float_of _ = none

abbrev pub text_or : String → Option Argument → String
text_or default (some (text_argument t)) = t
text_or default _ = default

-- strings.Split(text, ",")
unfoldable pub split_comma : String → List String
split_comma empty = empty ∷ []
split_comma (c ∷ˢ s) =
    let rest = split_comma s in if code c ==ℕ b',' then empty ∷ rest else push c rest

-- the participants of a comma-separated list, without the white space around them
unfoldable pub participants_of : String → List String
unfolding split_comma
participants_of text = map (λ t. trim_right (trim_left t)) (split_comma text)

-- waitForOperationCompletion, over the answers before the time is over
unfoldable pub wait_for_operation_completion :
    List (Rpc GetOperationResponse) → Error ⊎ GetOperationResponse
wait_for_operation_completion [] = inl (errorf "operation timed out after %v" [])
wait_for_operation_completion (rpc_error c t args ∷ polls) = wait_for_operation_completion polls
wait_for_operation_completion (rpc_ok resp ∷ polls) =
    let rest = wait_for_operation_completion polls in
    elim resp.status [
      | status_completed ↦ inr resp
      | status_failed ↦ inl (errorf "operation failed" [])
      | status_canceled ↦ inl (errorf "operation was canceled" [])
      | _ ↦ rest
    ]

-- extractKeyID and extractPublicKey
abbrev pub extract_key_id : Option ApiResult → String
extract_key_id (some (response_keygen public_key key_id)) = key_id
extract_key_id _ = "N/A"

abbrev pub extract_public_key : Option ApiResult → String
extract_public_key (some (response_keygen public_key key_id)) = public_key
extract_public_key _ = "N/A"

-- extractSignatureR, extractSignatureS and extractRecoveryID
abbrev pub extract_signature : Option ApiResult → String × String × ℤ
extract_signature (some (response_signing signature r s v)) = (r, s, v)
extract_signature _ = ("N/A", "N/A", pos 0)

module _ (libs : ToolLibs) (client : Client) where
  -- the threshold with the request that is sent, or the text of an error
  unfoldable pub checked_keygen : ℕ → List String → String → String ⊎ (ℤ × StartKeygenRequest)
  checked_keygen f participants operation_id =
      if is_negative (libs.int_of f)
      then inl "threshold must be non-negative"
      else if reaches (libs.int_of f) (length participants)
      then inl "threshold must be less than total parties (t+1 <= n required)"
      else if length participants ==ℕ 0
      then inl "participants list cannot be empty"
      else inr (
        libs.int_of f,
        record {
          operation_id = operation_id;
          threshold = libs.int32_of f;
          participants = participants;
        },
      )

  unfoldable pub keygen_arguments : Option Arguments → String ⊎ (ℤ × StartKeygenRequest)
  unfolding checked_keygen participants_of
  keygen_arguments none = inl "invalid arguments format"
  keygen_arguments (some args) = elim (float_of (lookup "threshold" args)) [
    | none ↦ inl "threshold must be a number"
    | some f ↦ elim (text_of (lookup "participants" args)) [
      | none ↦ inl "participants must be a string"
      | some list ↦
          checked_keygen f (participants_of list) (text_or "" (lookup "operation_id" args))
    ]
  ]

  keygen_ended : ℤ → List String → Error ⊎ GetOperationResponse → ToolResult
  keygen_ended t participants (inl e) =
      tool_error ("Keygen operation failed: " ++ˢ libs.error_text e)
  keygen_ended t participants (inr resp) =
      keygen_text resp.operation_id resp.status t participants resp.created_at
        (extract_key_id resp.result) (extract_public_key resp.result)

  keygen_started : ℤ → List String → Rpc StartResponse → ToolResult
  unfolding keygen_ended
  keygen_started t participants (rpc_error c text args) =
      tool_error ("Failed to start keygen: " ++ˢ libs.rpc_text c text args)
  keygen_started t participants (rpc_ok started) =
      keygen_ended t participants
        (wait_for_operation_completion (client.polls started.operation_id))

  keygen_sent : String ⊎ (ℤ × StartKeygenRequest) → ToolResult
  unfolding keygen_started
  keygen_sent (inl text) = tool_error text
  keygen_sent (inr (t, req)) = keygen_started t req.participants (client.start_keygen req)

  -- tss_keygen
  unfoldable pub keygen_tool : Option Arguments → ToolResult
  unfolding keygen_sent keygen_arguments
  keygen_tool args = keygen_sent (keygen_arguments args)

  -- the message, its format and the request that is sent, or the text of an error
  message_bytes : String → String → String ⊎ Bytes
  message_bytes format text =
      if format == "hex"
      then elim (libs.decode_hex text) [
        | inl e ↦ inl ("Invalid hex message: " ++ˢ e)
        | inr bytes ↦ inr bytes
      ]
      else if format == "text"
      then inr (libs.bytes_of text)
      else inl "message_format must be 'text' or 'hex'"

  signing_of : Arguments → String → String → String → Bytes → StartSigningRequest
  signing_of args message key_id list bytes = record {
    operation_id = text_or "" (lookup "operation_id" args);
    message = bytes;
    key_id = key_id;
    participants = participants_of list;
  }

  unfoldable pub sign_arguments :
      Option Arguments → String ⊎ (String × String × StartSigningRequest)
  unfolding message_bytes signing_of
  sign_arguments none = inl "invalid arguments format"
  sign_arguments (some args) = elim (text_of (lookup "message" args)) [
    | none ↦ inl "message must be a string"
    | some message ↦ elim (text_of (lookup "key_id" args)) [
      | none ↦ inl "key_id must be a string"
      | some key_id ↦ elim (text_of (lookup "participants" args)) [
        | none ↦ inl "participants must be a string"
        | some list ↦ elim (message_bytes (text_or "text" (lookup "message_format" args)) message) [
          | inl text ↦ inl text
          | inr bytes ↦ inr (
            message,
            text_or "text" (lookup "message_format" args),
            signing_of args message key_id list bytes,
          )
        ]
      ]
    ]
  ]

  sign_ended : String → String → StartSigningRequest → Error ⊎ GetOperationResponse → ToolResult
  sign_ended message format req (inl e) =
      tool_error ("Signing operation failed: " ++ˢ libs.error_text e)
  sign_ended message format req (inr resp) =
      let (r, s, v) = extract_signature resp.result in
      sign_text resp.operation_id resp.status req.key_id req.participants resp.created_at message
        format req.message r s v

  sign_started : String → String → StartSigningRequest → Rpc StartResponse → ToolResult
  unfolding sign_ended
  sign_started message format req (rpc_error c text args) =
      tool_error ("Failed to start signing: " ++ˢ libs.rpc_text c text args)
  sign_started message format req (rpc_ok started) =
      sign_ended message format req
        (wait_for_operation_completion (client.polls started.operation_id))

  sign_sent : String ⊎ (String × String × StartSigningRequest) → ToolResult
  unfolding sign_started
  sign_sent (inl text) = tool_error text
  sign_sent (inr (message, format, req)) =
      sign_started message format req (client.start_signing req)

  -- tss_sign
  unfoldable pub sign_tool : Option Arguments → ToolResult
  unfolding sign_sent sign_arguments
  sign_tool args = sign_sent (sign_arguments args)
