-- ===== src/Plugin/Validation.antt =====
-- internal/plugin/validation.go: asking the validation service over HTTP. JSON and net/http are
-- parameters.
use dknet.Base.{
  ℕ, String, not, List, [], ◌∷◌, Result, err, errorf, str, number, ℤ, ◌==ℕ◌, if◌then◌else◌,
  wrapping,
}
use dknet.P2p.Types.{Bytes}
use dknet.P2p.Network.{then_do}
use dknet.Config.{ValidationServiceConfig}
use dknet.Tss.Env.{ValidationRequest, ValidationResponse}

-- the request with the fields that the client fills in
pub record StampedRequest : Type 0 where
  pub request : ValidationRequest
  pub node_id : String
  pub timestamp : ℤ

-- http.Request; `headers` is what is given to `Header.Set`, in order
pub record PostRequest : Type 0 where
  pub url : String
  pub headers : List (String × String)
  pub body : Bytes

-- http.Response; `body` is what `io.ReadAll` gives
pub record PostResponse : Type 0 where
  pub status_code : ℕ
  pub body : Result Bytes

-- JSON, `NewRequestWithContext`, which may refuse a URL, and `Do` of the client
pub record HttpClient : Type 0 where
  pub marshal : StampedRequest → Result Bytes
  pub new_request : String → Result (Unit {0})
  pub send : PostRequest → Result PostResponse
  pub unmarshal : Bytes → Result ValidationResponse
  pub text : Bytes → String

-- HTTPValidationService
pub record HttpValidationService : Type 0 where
  pub config : ValidationServiceConfig
  pub client : HttpClient
  pub node_id : String

module _ (v : HttpValidationService) where
  unfoldable pub post_request : Bytes → PostRequest
  post_request body = record {
    url = v.config.url;
    headers =
        ("Content-Type", "application/json")
        ∷ ("User-Agent", "DKNet-TSS-Node/1.0")
        ∷ v.config.headers;
    body = body;
  }

  -- what is made of the status and the body of the answer
  unfoldable pub parse_answer : ℕ → Bytes → Result ValidationResponse
  parse_answer status_code body =
      if not (status_code ==ℕ 200)
      then err (
          errorf "validation service returned status %d: %s"
            (number status_code ∷ str (v.client.text body) ∷ []))
      else wrapping "failed to unmarshal validation response" (v.client.unmarshal body)

  -- ValidateSigningRequest, at the Unix time `now`
  unfoldable pub ask_validation_service : ℤ → ValidationRequest → Result ValidationResponse
  unfolding parse_answer
  ask_validation_service now req =
      let stamped : StampedRequest = record {
        request = req;
        node_id = v.node_id;
        timestamp = now;
      } in
      then_do (wrapping "failed to marshal validation request" (v.client.marshal stamped)) (λ body.
        then_do (wrapping "failed to create HTTP request" (v.client.new_request v.config.url)) (λ _.
          then_do (wrapping "failed to send validation request" (v.client.send (post_request body)))
            (λ resp.
              then_do (wrapping "failed to read validation response" resp.body)
                (λ answer. parse_answer resp.status_code answer))))
