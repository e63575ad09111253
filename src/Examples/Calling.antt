-- ===== src/Examples/Calling.antt =====
-- The clients at the sample node.
use dknet.Base.{
  ℕ, String, true, false, [], ◌∷◌, Option, none, some, ok, err, external, pos, ◌≡◌, ◌≢◌, refl,
  arith, ◌↔◌, inl, lookup,
}
use dknet.Api.Responses.{
  GetOperationResponse, ApiStatus, status_pending, status_completed, type_keygen, response_keygen,
}
use dknet.Api.Replies.{rpc_ok, rpc_error, internal}
use dknet.Clients.Cli.{
  KeygenFlags, SignFlags, ReshareFlags, Texts, Bodies, keygen_command, sign_command,
  reshare_command,
}
use dknet.Clients.Cli.Transports.{BodiesLaws, Alike, commands-Alike}
use dknet.Clients.Mcp.{
  Arguments, text_argument, float_argument, ToolLibs, Client, ToolResult, tool_error, keygen_text,
  keygen_tool, keygen_arguments,
}
use dknet.Clients.Mcp.Answers.{Earned, keygen_tool_iff}
use dknet.Samples.{world, idle, names}

abbrev bodies : Bodies
bodies = record {
  keygen_bound = λ r. ok r;
  sign_bound = λ r. ok r;
  reshare_bound = λ r. ok r;
  response_text = λ a. a.operation_id;
  error_text = λ body. "";
  parse_error = λ body. err (external "json");
}

bodies-BodiesLaws : BodiesLaws bodies
bodies-BodiesLaws = record {
  keygen_binds = λ r. refl;
  sign_binds = λ r. refl;
  reshare_binds = λ r. refl;
}

abbrev texts : Texts
texts = record { decode_hex = λ text. err (external "hex"); bytes_of = λ text. 104 ∷ 105 ∷ [] }

abbrev keygen_flags : KeygenFlags
keygen_flags = record { threshold = pos 1; participants = names }

abbrev sign_flags : SignFlags
sign_flags = record { message = "hi"; key_id = "0x0102"; message_hex = false; participants = names }

abbrev reshare_flags : ReshareFlags
reshare_flags = record { key_id = "0x0102"; new_threshold = pos 1; new_participants = names }

abbrev seconds : ℕ → ℕ
seconds t = t

commands-Alike_example :
    Alike
      (keygen_command bodies (world "alice") seconds true keygen_flags idle)
      (keygen_command bodies (world "alice") seconds false keygen_flags idle)
    × Alike
        (sign_command bodies (world "alice") seconds texts true sign_flags idle)
        (sign_command bodies (world "alice") seconds texts false sign_flags idle)
    × Alike
        (reshare_command bodies (world "alice") seconds true reshare_flags idle)
        (reshare_command bodies (world "alice") seconds false reshare_flags idle)
commands-Alike_example =
    commands-Alike bodies bodies-BodiesLaws (world "alice") seconds texts keygen_flags sign_flags
      reshare_flags idle

abbrev libs : ToolLibs
libs = record {
  decode_hex = λ text. inl "hex";
  bytes_of = λ text. [];
  int_of = pos;
  int32_of = pos;
  rpc_text = λ code format args. format;
  error_text = λ e. "error";
}

abbrev answer : ApiStatus → GetOperationResponse
answer status = record {
  operation_id = "id-0";
  type = type_keygen;
  session_id = "session";
  status = status;
  participants = names;
  created_at = 10;
  completed_at = none;
  error = none;
  result = some (response_keygen "0102" "0x0102");
  request = none;
}

-- the node is lost once, then the operation is pending, then completed
abbrev client : Client
client = record {
  start_keygen =
      λ req. rpc_ok (record { operation_id = "id-0"; status = status_pending; created_at = 10 });
  start_signing = λ req. rpc_error internal "no key" [];
  polls = λ id.
      rpc_error internal "lost" []
      ∷ rpc_ok (answer status_pending)
      ∷ rpc_ok (answer status_completed)
      ∷ [];
}

abbrev arguments : Option Arguments
arguments =
    some (("threshold", float_argument 1) ∷ ("participants", text_argument "alice, bob") ∷ [])

abbrev generated : ToolResult
generated = keygen_text "id-0" status_completed (pos 1) names 10 "0x0102" "0102"

not_an_error : (text : String) → generated ≢ tool_error text
not_an_error text h = ground arith

answered : keygen_tool libs client arguments ≡ generated
unfolding keygen_tool keygen_arguments lookup dknet.Clients.Mcp.checked_keygen
    dknet.Clients.Mcp.participants_of dknet.Clients.Mcp.split_comma
    dknet.Clients.Mcp.wait_for_operation_completion dknet.Common.Password.trim_left
    dknet.Common.Password.is_space dknet.Common.Password.trim_right
answered = refl

keygen_tool_iff_example :
    (keygen_tool libs client arguments ≡ generated) ↔ Earned libs client arguments generated
keygen_tool_iff_example = keygen_tool_iff libs client arguments generated not_an_error
