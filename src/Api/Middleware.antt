-- ===== src/Api/Middleware.antt =====
-- internal/api/middleware.go: the guards in front of the handlers. `next` is the handler, which is
-- given the authentication in the request's context, if one was set.
pub mod Roles
use dknet.Base.{
  ℕ, String, Bool, true, false, List, [], ◌∷◌, ◌++◌, Option, none, some, Result, ok, err, Error, M,
  pure, ◌==◌, ◌||◌, if◌then◌else◌,
}
use dknet.Api.Auth.{Jwt, AuthConfig, AuthContext, authenticate}
use dknet.Api.Replies.{Reply, error_reply, Rpc, rpc_error, unauthenticated, on_error}

-- the bodies of the two refusals
abbrev pub refusal : String → String → List (String × String)
refusal error code = ("error", error) ∷ ("code", code) ∷ []

abbrev pub unauthorized {ℓ} : {A : Type ℓ} → Reply A
unauthorized = error_reply 401 (refusal "Authentication failed" "UNAUTHORIZED")

-- extractTokenFromGRPCContext: the metadata's values for "authorization", if there is metadata
unfoldable pub extract_token : Option (List String) → Option String
extract_token (some (token ∷ l)) = some token
extract_token _ = none

-- whether the user has one of the required roles
unfoldable pub is_required : String → List String → Bool
is_required role [] = false
is_required role (required ∷ l) = role == required || is_required role l

unfoldable pub has_role : List String → List String → Bool
unfolding is_required
has_role [] required = false
has_role (role ∷ roles) required = is_required role required || has_role roles required

-- `authCtx, ok := GetAuthContext(ctx); !ok || !authCtx.Authenticated`, negated
abbrev pub is_authenticated : Option AuthContext → Bool
is_authenticated none = false
is_authenticated (some c) = c.authenticated

abbrev pub roles_in : Option AuthContext → List String
roles_in none = []
roles_in (some c) = c.roles

abbrev or_empty : Option String → String
or_empty none = ""
or_empty (some token) = token

module _ {S A : Type 0} where
  -- RequireRole
  unfoldable pub require_role :
      List String → (Option AuthContext → M S (Reply A)) → Option AuthContext → M S (Reply A)
  unfolding has_role
  require_role required next context =
      if is_authenticated context
      then (if has_role (roles_in context) required
          then next context
          else pure (error_reply 403 (refusal "Insufficient permissions" "FORBIDDEN")))
      else pure (error_reply 401 (refusal "Authentication required" "UNAUTHORIZED"))

  module _ (jwt : Jwt) (config : AuthConfig) (now : ℕ) (error_text : Error → String) where
    -- HTTPAuthMiddleware; `header` is the value of "Authorization", "" if it is missing
    unfoldable pub http_auth_middleware :
        (Option AuthContext → M S (Reply A)) → String → M S (Reply A)
    http_auth_middleware next header =
        if config.enabled
        then on_error (λ s. (authenticate jwt config now header, s)) (λ e. unauthorized)
            (λ context. next (some context))
        else next none

    -- Authenticate, then the handler
    abbrev pub rpc_authenticated : (Option AuthContext → M S (Rpc A)) → String → M S (Rpc A)
    rpc_authenticated handler token =
        on_error (λ s. (authenticate jwt config now token, s))
          (λ e. rpc_error unauthenticated "Authentication failed: %v" (error_text e ∷ []))
          (λ context. handler (some context))

    abbrev unary_token : (Option AuthContext → M S (Rpc A)) → Option String → M S (Rpc A)
    unary_token handler none = pure (rpc_error unauthenticated "Authentication token required" [])
    unary_token handler (some token) = rpc_authenticated handler token

    -- GRPCAuthInterceptor
    unfoldable pub grpc_auth_interceptor :
        (Option AuthContext → M S (Rpc A)) → Option (List String) → M S (Rpc A)
    unfolding extract_token
    grpc_auth_interceptor handler metadata =
        if config.enabled then unary_token handler (extract_token metadata) else handler none

    -- GRPCAuthStreamInterceptor
    unfoldable pub grpc_auth_stream_interceptor :
        (Option AuthContext → M S (Rpc A)) → Option (List String) → M S (Rpc A)
    unfolding extract_token
    grpc_auth_stream_interceptor handler metadata =
        rpc_authenticated handler (or_empty (extract_token metadata))
