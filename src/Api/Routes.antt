-- ===== src/Api/Routes.antt =====
-- internal/api/http.go, `setupHTTPRoutes`, with the paths of routes.go: which handler serves which
-- request, and which of them the authentication guards.

pub mod Guarded
use dknet.Base.{ℕ, String, Option, Result, Error, M}
use dknet.Tss.Env.{Env}
use dknet.Tss.Service.{Service}
use dknet.Api.Auth.{Jwt, AuthConfig, AuthContext}
use dknet.Api.Middleware.{http_auth_middleware}
use dknet.Api.Responses.{GetOperationResponse}
use dknet.Api.Replies.{
  StartKeygenRequest, StartSigningRequest, StartResharingRequest, StartResponse,
  GetKeyMetadataResponse, CheckResponse, Reply,
}
use dknet.Api.Http.{
  keygen_handler, sign_handler, reshare_handler, get_operation_handler, get_key_metadata_handler,
  health_handler,
}

-- the routes of the group APIVersionPrefix, with the bound body or the parameter of the path
pub data ApiRoute : Type 0 where
  keygen_path : Result StartKeygenRequest → ApiRoute
  sign_path : Result StartSigningRequest → ApiRoute
  reshare_path : Result StartResharingRequest → ApiRoute
  operation_path : String → ApiRoute
  key_metadata_path : String → ApiRoute

pub data Route : Type 0 where
  health_path : Route
  api : ApiRoute → Route

-- the body of the answer to a request that succeeds
abbrev pub ApiBody : ApiRoute → Type 0
ApiBody (operation_path id) = GetOperationResponse
ApiBody (key_metadata_path id) = GetKeyMetadataResponse
ApiBody _ = StartResponse

abbrev pub Body : Route → Type 0
Body health_path = CheckResponse
Body (api r) = ApiBody r

module _ {D : Type 0} (env : Env D) (timestamp : ℕ → ℕ) where
  unfoldable pub handler : (r : ApiRoute) → M (Service D) (Reply (ApiBody r))
  handler (keygen_path bound) = keygen_handler env timestamp bound
  handler (sign_path bound) = sign_handler env timestamp bound
  handler (reshare_path bound) = reshare_handler env timestamp bound
  handler (operation_path id) = get_operation_handler env timestamp id
  handler (key_metadata_path id) = get_key_metadata_handler env timestamp id

  module _ (jwt : Jwt) (config : AuthConfig) (now : ℕ) where
    -- a request to a route, with the value of its header "Authorization"
    unfoldable pub serve : (r : Route) → String → M (Service D) (Reply (Body r))
    unfolding handler
    serve health_path header = health_handler env timestamp
    serve (api r) header =
        http_auth_middleware jwt config now env.error_text
          (λ (context : Option AuthContext). handler r) header
