-- ===== src/Examples/Approvals.antt =====
-- A validation service over HTTP that approves short messages.
use dknet.Base.{Bool, [], ◌∷◌, some, ok, ◌≡◌, ◌↔◌, refl, pos, true, false, leb}
use dknet.P2p.Types.{Bytes}
use dknet.Plugin.Validation.{
  HttpClient, HttpValidationService, ask_validation_service, parse_answer, post_request,
}
use dknet.Tss.Env.{Env}
use dknet.Tss.Sign.{validate_signing_request}
use dknet.Tss.Sign.Approval.{IsApproved, request_of, validation_iff}
use dknet.Samples.{Db, world}

abbrev short : Bytes → Bool
short [] = false
short (n ∷ bytes) = leb n 4

-- the body is the length of the message; the service echoes it
abbrev client : HttpClient
client = record {
  marshal = λ r. ok (r.request.message_length ∷ []);
  new_request = λ url. ok tt;
  send = λ r. ok (record { status_code = 200; body = ok r.body });
  unmarshal = λ bytes. ok (record { approved = short bytes; reason = "too long" });
  text = λ bytes. "";
}

abbrev service : HttpValidationService
service = record {
  config = record {
    enabled = true;
    url = "https://validator";
    timeout_seconds = pos 30;
    headers = [];
    insecure_skip_verify = false;
  };
  client = client;
  node_id = "alice";
}

abbrev env : Env Db
env = record (world "alice") { validation_service = some (ask_validation_service service (pos 0)) }

approved_run :
    ask_validation_service service (pos 0) (request_of (1 ∷ 2 ∷ []) "key" ("alice" ∷ []))
    ≡ ok (record { approved = true; reason = "too long" })
unfolding ask_validation_service parse_answer post_request
approved_run = refl

validation_iff_example :
    (validate_signing_request env (1 ∷ 2 ∷ []) "key" ("alice" ∷ []) ≡ ok tt)
    ↔ IsApproved service (pos 0) (request_of (1 ∷ 2 ∷ []) "key" ("alice" ∷ []))
validation_iff_example = validation_iff env service (pos 0) (1 ∷ 2 ∷ []) "key" ("alice" ∷ []) refl
