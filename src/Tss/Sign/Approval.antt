-- ===== src/Tss/Sign/Approval.antt =====
-- What the external validation service has said about a signing request that is let through.
use dknet.Base.{
  ℕ, String, true, List, ◌∷◌, ◌≡◌, ◌↔◌, refl, some, Result, ok, err, wrapping, arith, length, ℤ,
  Bool-cases, inl, inr, ◌==ℕ◌,
}
use dknet.P2p.Types.{Bytes}
use dknet.Plugin.Validation.{
  StampedRequest, PostResponse, HttpValidationService, post_request, parse_answer,
  ask_validation_service,
}
use dknet.P2p.Network.{then_do-ok, wrapping-ok}
use dknet.Tss.Env.{Env, ValidationRequest, ValidationResponse}
use dknet.Tss.Sign.{validate_signing_request, check_approved}

-- the request that a signing makes
abbrev pub request_of : Bytes → String → List String → ValidationRequest
request_of message key_id participants = record {
  message = message;
  key_id = key_id;
  participants = participants;
  message_length = length message;
}

-- The service was reached under its URL, with the configured headers after the two that the node
-- sets, and answered the request, with this node's name and the time, with status 200 and an
-- approval.
pub record IsApproved (v : HttpValidationService) (now : ℤ) (req : ValidationRequest) : Type 0 where
  pub body : Bytes
  pub marshalled :
      v.client.marshal (record { request = req; node_id = v.node_id; timestamp = now }) ≡ ok body
  pub created : v.client.new_request v.config.url ≡ ok tt
  pub response : PostResponse
  pub sent :
      v.client.send (record {
        url = v.config.url;
        headers =
            ("Content-Type", "application/json")
            ∷ ("User-Agent", "DKNet-TSS-Node/1.0")
            ∷ v.config.headers;
        body = body;
      })
      ≡ ok response
  pub status : response.status_code ≡ 200
  pub answer : Bytes
  pub read : response.body ≡ ok answer
  pub verdict : ValidationResponse
  pub parsed : v.client.unmarshal answer ≡ ok verdict
  pub approved : verdict.approved ≡ true

module _ (v : HttpValidationService) (now : ℤ) (req : ValidationRequest) where
  parsed_answer :
      (status_code : ℕ) (answer : Bytes) (verdict : ValidationResponse)
      → parse_answer v status_code answer ≡ ok verdict
      → (status_code ≡ 200) × (v.client.unmarshal answer ≡ ok verdict)
  unfolding parse_answer
  parsed_answer status_code answer verdict h = elim (Bool-cases (status_code ==ℕ 200)) [
    | inl e ↦ (
      ground (arith, e),
      wrapping-ok "failed to unmarshal validation response" (v.client.unmarshal answer) verdict
          (ground arith),
    )
    | inr e ↦ absurd (ground arith)
  ]

  asked-IsApproved :
      (verdict : ValidationResponse)
      → ask_validation_service v now req ≡ ok verdict
      → verdict.approved ≡ true
      → IsApproved v now req
  unfolding ask_validation_service post_request
  asked-IsApproved verdict h approved =
      let stamped : StampedRequest = record {
        request = req;
        node_id = v.node_id;
        timestamp = now;
      } in
      let (body, m, h1) =
        then_do-ok (wrapping "failed to marshal validation request" (v.client.marshal stamped)) _ _
          h in
      let (u, c, h2) =
        then_do-ok (wrapping "failed to create HTTP request" (v.client.new_request v.config.url)) _
          _ h1 in
      let (response, s, h3) =
        then_do-ok
          (wrapping "failed to send validation request" (v.client.send (post_request v body))) _ _
          h2 in
      let (answer, r, h4) =
        then_do-ok (wrapping "failed to read validation response" response.body) _ _ h3 in
      let (status, parsed) = parsed_answer response.status_code answer verdict h4 in
      record {
        body = body;
        marshalled =
            wrapping-ok "failed to marshal validation request" (v.client.marshal stamped) body m;
        created =
            wrapping-ok "failed to create HTTP request" (v.client.new_request v.config.url) u c;
        response = response;
        sent =
            wrapping-ok "failed to send validation request" (v.client.send (post_request v body))
              response s;
        status = status;
        answer = answer;
        read = wrapping-ok "failed to read validation response" response.body answer r;
        verdict = verdict;
        parsed = parsed;
        approved = approved;
      }

  IsApproved-asked : (a : IsApproved v now req) → ask_validation_service v now req ≡ ok a.verdict
  unfolding ask_validation_service parse_answer post_request
  IsApproved-asked a =
      rw a.marshalled (rw a.created (rw a.sent (rw a.read (rw a.status (rw a.parsed refl)))))

module _ {D : Type 0} (env : Env D) (v : HttpValidationService) (now : ℤ) where
  module _ (message : Bytes) (key_id : String) (participants : List String) where
    accepted-IsApproved :
        (r : Result ValidationResponse)
        → ask_validation_service v now (request_of message key_id participants) ≡ r
        → env.validation_service ≡ some (ask_validation_service v now)
        → validate_signing_request env message key_id participants ≡ ok tt
        → IsApproved v now (request_of message key_id participants)
    unfolding validate_signing_request check_approved
    accepted-IsApproved (ok verdict) asked set h = elim (Bool-cases verdict.approved) [
      | inl given ↦
          asked-IsApproved v now (request_of message key_id participants) verdict asked given
      | inr refused ↦ absurd (ground arith)
    ]
    accepted-IsApproved (err e) asked set h = absurd (ground arith)
    accepted-IsApproved Result.panics asked set h = absurd (ground arith)

    IsApproved-accepted :
        env.validation_service ≡ some (ask_validation_service v now)
        → IsApproved v now (request_of message key_id participants)
        → validate_signing_request env message key_id participants ≡ ok tt
    unfolding validate_signing_request check_approved
    IsApproved-accepted set a =
        let asked = IsApproved-asked v now (request_of message key_id participants) a in
        let approved = a.approved in ground arith

    -- With the validation service over HTTP, a signing request passes the validation exactly when the
    -- service was sent this request under the configured URL with the configured headers, answered
    -- with status 200 and approved it.
    pub validation_iff :
        env.validation_service ≡ some (ask_validation_service v now)
        → (validate_signing_request env message key_id participants ≡ ok tt)
          ↔ IsApproved v now (request_of message key_id participants)
    validation_iff set = (
      accepted-IsApproved (ask_validation_service v now (request_of message key_id participants))
          refl set,
      IsApproved-accepted set,
    )
