-- ===== src/Api/Routes/Guarded.antt =====
-- What the guards let through: a handler runs for a signed, accepted token only.
use mathlib.Core.Path.{subst}
use dknet.Base.{
  ℕ, String, true, List, [], ◌∷◌, Option, none, some, Result, ok, err, Error, M, ◌≡◌, inl, inr,
  refl, arith, Bool, if◌then◌else◌, sym, external, Bool-cases,
}
use dknet.Tss.Env.{Env}
use dknet.Tss.Service.{Service}
use dknet.Api.Auth.{
  Jwt, AuthConfig, AuthContext, Token, Claims, authenticate, key_func, trim_prefix, context_of,
}
use dknet.Api.Auth.Claims.{Bare-trim_prefix, Describes-said}
use dknet.Api.Auth.Credentials.{Accepted, authenticate_iff}
use dknet.Api.Middleware.{
  http_auth_middleware, grpc_auth_interceptor, grpc_auth_stream_interceptor, extract_token,
  unauthorized, rpc_authenticated,
}
use dknet.Api.Replies.{Reply, Rpc, rpc_error, unauthenticated, on_error}
use dknet.Api.Routes.{ApiRoute, ApiBody, api, handler, serve}

-- What golang-jwt documents of `Parse`: a token that it returns without error carries a signature
-- that verifies with the key which the key function gave for it.
pub record JwtLaws (jwt : Jwt) (IsSigned : String → String → Type 0) : Type 0 where
  pub parse_signed :
      (text : String) (key_of : Token → Result String) (t : Token)
      → jwt.parse text key_of ≡ ok t
      → (key : String) × (key_of t ≡ ok key) × IsSigned text key

-- How a request ends that was guarded: `run` is what its handler does in the state `s`, `refusal`
-- the answer to a request without a credential.
pub data Guarded {S A : Type 0} (Credential : AuthContext → Type 0)
    (run : AuthContext → Result A × S) (refusal : A) (s : S) : Result A × S → Type 0 where
  let_through :
      (context : AuthContext) → Credential context → Guarded Credential run refusal s (run context)
  refused : Guarded Credential run refusal s (ok refusal, s)
  parser_panics : Guarded Credential run refusal s (Result.panics, s)

if_true {ℓ} : {A : Type ℓ} (b : Bool) (x y : A) → b ≡ true → (if b then x else y) ≡ x
if_true b x y h = ground arith

module _ {S A : Type 0} (Credential : AuthContext → Type 0) (run : AuthContext → M S A)
    (refusal : Error → A) (s : S) where
  -- the outcome `x` of the authentication decides
  on_error-Guarded :
      (x : Result AuthContext)
      → ((context : AuthContext) → x ≡ ok context → Credential context)
      → (e : Error) × Guarded Credential
          (λ context. run context s)
          (refusal e)
          s
          (on_error (λ t. (x, t)) refusal run s)
  on_error-Guarded (ok context) sound = (external "", let_through context (sound context refl))
  on_error-Guarded (err e) sound = (e, refused)
  on_error-Guarded Result.panics sound = (external "", parser_panics)

module _ (jwt : Jwt) (IsSigned : String → String → Type 0) (laws : JwtLaws jwt IsSigned)
    (config : AuthConfig) (now : ℕ) (enabled : config.enabled ≡ true) where
  -- The token, without the prefix "Bearer ", is signed with the configured secret by HMAC and
  -- accepted; `context` holds the subject and the roles of its claims.
  pub record IsCredential (token : String) (context : AuthContext) : Type 0 where
    pub t : Token
    pub claims : Claims
    pub accepted : Accepted jwt config now token t claims
    pub hmac : t.hmac ≡ true
    pub signed : IsSigned (trim_prefix token "Bearer ") config.jwt_secret
    pub named : context_of jwt config now claims ≡ context

  key_given :
      (t : Token) (key : String)
      → key_func config t ≡ ok key
      → (t.hmac ≡ true) × (config.jwt_secret ≡ key)
  unfolding key_func
  key_given t key h = elim (Bool-cases t.hmac) [
    | inl e ↦ (e, ground arith)
    | inr e ↦ (ground arith, ground arith)
  ]

  authenticate-IsCredential :
      (token : String) (context : AuthContext)
      → authenticate jwt config now token ≡ ok context
      → IsCredential token context
  unfolding key_func
  authenticate-IsCredential token context h =
      let (t, claims, a, named) = (authenticate_iff jwt config now token context enabled).0 h in
      let (key, given, signed) = laws.parse_signed _ (key_func config) t a.parsed in
      let (hmac, same) = key_given t key given in
      record {
        t = t;
        claims = claims;
        accepted = a;
        hmac = hmac;
        signed = rw same (rw (Bare-trim_prefix token a.raw a.bare) signed);
        named = Describes-said claims context named;
      }

  module _ {D : Type 0} (env : Env D) (timestamp : ℕ → ℕ) (r : ApiRoute) (header : String)
      (s : Service D) where
    -- With authentication enabled, a request to any route of the API runs its handler only for a
    -- token that is accepted and signed with the configured secret by HMAC; otherwise it is refused
    -- with 401, or the token's parser panics, and nothing changes.
    pub serve-Guarded :
        Guarded
          (IsCredential header)
          (λ context. handler env timestamp r s)
          unauthorized
          s
          (serve env timestamp jwt config now (api r) header s)
    unfolding serve http_auth_middleware
    serve-Guarded =
        subst
          (λ (f : M (Service D) (Reply (ApiBody r))).
            Guarded (IsCredential header) (λ context. handler env timestamp r s) unauthorized s
              (f s))
          (sym (if_true config.enabled _ _ enabled))
          (on_error-Guarded (IsCredential header) (λ context. handler env timestamp r)
            (λ e. unauthorized) s (authenticate jwt config now header)
            (authenticate-IsCredential header)).1

  -- what the metadata of a call carries under "authorization"
  abbrev pub CallCredential : Option (List String) → AuthContext → Type 0
  CallCredential metadata context =
      (token : String) × (extract_token metadata ≡ some token) × IsCredential token context

  module _ {S A : Type 0} (error_text : Error → String) (next : Option AuthContext → M S (Rpc A))
      (s : S) where
    -- how a guarded call ends, with some refusal of the code Unauthenticated
    abbrev pub CallGuarded : Option (List String) → Result (Rpc A) × S → Type 0
    CallGuarded metadata x =
        (format : String) × (args : List String) × Guarded (CallCredential metadata)
          (λ context. next (some context) s) (rpc_error unauthenticated format args) s x

    token_guarded :
        (metadata : Option (List String)) (token : String)
        → ((context : AuthContext) → IsCredential token context → CallCredential metadata context)
        → CallGuarded metadata (rpc_authenticated jwt config now error_text next token s)
    token_guarded metadata token found =
        let (e, g) =
          on_error-Guarded (CallCredential metadata) (λ context. next (some context))
            (λ e. rpc_error unauthenticated "Authentication failed: %v" (error_text e ∷ [])) s
            (authenticate jwt config now token)
            (λ context h. found context (authenticate-IsCredential token context h)) in
        ("Authentication failed: %v", error_text e ∷ [], g)

    with_enabled :
        (metadata : Option (List String)) (f g : M S (Rpc A))
        → CallGuarded metadata (f s)
        → CallGuarded metadata ((if config.enabled then f else g) s)
    with_enabled metadata f g =
        subst (λ (h : M S (Rpc A)). CallGuarded metadata (h s))
          (sym (if_true config.enabled f g enabled))

    no_token :
        (metadata : Option (List String))
        → CallGuarded metadata
            (ok (rpc_error unauthenticated "Authentication token required" []), s)
    no_token metadata = ("Authentication token required", [], refused)

    -- With authentication enabled, a unary and a streaming gRPC call run their handler only for a
    -- token in the call's metadata that is accepted and signed with the configured secret by HMAC;
    -- otherwise they are refused as unauthenticated, or the token's parser panics, and nothing
    -- changes.
    pub calls_guarded :
        (metadata : Option (List String))
        → CallGuarded metadata (grpc_auth_interceptor jwt config now error_text next metadata s)
          × CallGuarded metadata
              (grpc_auth_stream_interceptor jwt config now error_text next metadata s)
    unfolding grpc_auth_interceptor grpc_auth_stream_interceptor extract_token
    calls_guarded none = (
      with_enabled none _ _ (no_token none),
      token_guarded none "" (λ context c. absurd (c.accepted.given refl)),
    )
    calls_guarded (some []) = (
      with_enabled (some []) _ _ (no_token (some [])),
      token_guarded (some []) "" (λ context c. absurd (c.accepted.given refl)),
    )
    calls_guarded (some (token ∷ l)) =
        let g = token_guarded (some (token ∷ l)) token (λ context c. (token, refl, c)) in
        (with_enabled (some (token ∷ l)) _ _ g, g)
