-- ===== src/Cmd/Token/RoundTrip.antt =====
-- The tokens that the command makes, at the node that they are made for.
use mathlib.Core.List.{map}
use Prim.Native.Nat.{◌/◌}
use text.Mathlib.Text.{starts_with}
use dknet.Base.{
  ℕ, suc, ◌+◌, ◌*◌, ◌≤◌, ◌<◌, String, true, false, List, [], ◌∷◌, Option, none, some, ok, Error,
  ◌≡◌, ◌≢◌, ◌⊎◌, inl, inr, refl, ap, arith, ◌^◌, ◌%◌, ℤ, pos, negsuc, lookup,
}
use dknet.P2p.Host.{returned}
use dknet.P2p.Network.{wrapping-ok}
use dknet.Config.{NodeConfig}
use dknet.Api.Auth.{
  Jwt, AuthConfig, AuthContext, Token, Claims, text_element, text_claim, number_claim, list_claim,
  authenticate, key_func, context_of, role_texts,
}
use text.Mathlib.TextEquality.{starts_with_iff}
use dknet.Api.Auth.Claims.{StillLasts, said-Describes}
use dknet.Api.Auth.Credentials.{Accepted, authenticate_iff}
use dknet.Cmd.Token.{
  TokenClaims, TokenFlags, Sign, hours, unix_after, expiry, token_claims, generate_token, or_user,
  or_roles,
}

-- What parsing gives back of the claims that were signed.
pub record Carried (jwt : Jwt) (c : TokenClaims) (claims : Claims) : Type 0 where
  pub sub : lookup "sub" claims ≡ some (text_claim c.sub)
  pub iss : lookup "iss" claims ≡ some (text_claim c.iss)
  pub roles : lookup "roles" claims ≡ some (list_claim (map text_element c.roles))
  pub no_exp : c.exp ≡ none → lookup "exp" claims ≡ none
  pub exp :
      (t : ℤ)
      → c.exp ≡ some t
      → (f : ℕ) × (lookup "exp" claims ≡ some (number_claim f)) × (jwt.int64_of f ≡ t)

-- the time in seconds lies before the claim "exp"
abbrev pub Lasting : ℕ → Option ℤ → Type 0
Lasting later none = Unit
Lasting later (some (pos t)) = later < t
Lasting later (some (negsuc t)) = ⊥

-- What golang-jwt documents of tokens signed by HMAC: they are texts that do not look like a header,
-- and parsing one with the key that it was signed with, before it expires, gives a valid token with
-- its claims.
pub record SignLaws (jwt : Jwt) (sign : Sign) (later : ℕ) : Type 0 where
  pub nonempty : (c : TokenClaims) (key text : String) → sign c key ≡ inr text → text ≢ ""
  pub no_prefix :
      (c : TokenClaims) (key text : String)
      → sign c key ≡ inr text
      → starts_with text "Bearer " ≡ false
  pub parse-sign :
      (c : TokenClaims) (key text : String) (config : AuthConfig)
      → sign c key ≡ inr text
      → config.jwt_secret ≡ key
      → Lasting later c.exp
      → (t : Token) × (claims : Claims) × (jwt.parse text (key_func config) ≡ ok t)
        × (t.valid ≡ true)
        × (t.claims ≡ some claims)
        × Carried jwt c claims

-- The token is used in time: it never expires, or its hours are few enough for an `int64` of
-- nanoseconds and have not passed.
abbrev pub InTime : ℕ → ℕ → ℤ → Type 0
InTime later now (pos ℕ.zero) = Unit
InTime later now (pos (ℕ.suc n)) = (suc n ≤ 2562047) × (later < now / 1000000000 + suc n * 3600)
InTime later now (negsuc n) = Unit

role_texts-map : (roles : List String) → role_texts (map text_element roles) ≡ roles
unfolding role_texts
role_texts-map [] = refl
role_texts-map (role ∷ roles) = ap (λ l. role ∷ l) (role_texts-map roles)

InTime-Lasting : (later now : ℕ) (h : ℤ) → InTime later now h → Lasting later (expiry now h)
unfolding expiry hours unix_after
InTime-Lasting later now (pos ℕ.zero) t = tt
InTime-Lasting later now (pos (ℕ.suc n)) (few, soon) =
    let small : suc n * 3600000000000 < 2 ^ 63 = omega arith in
    let bits : (suc n * 3600000000000) % 2 ^ 64 ≡ suc n * 3600000000000 = omega arith in
    rw bits (ground arith)
InTime-Lasting later now (negsuc n) t = tt

returned-ok : (r : Error ⊎ String) (text : String) → returned r ≡ ok text → r ≡ inr text
returned-ok (inl e) text h = absurd (ground arith)
returned-ok (inr t) text h = ground arith

exp-Lasting :
    (jwt : Jwt) (later : ℕ) (c : TokenClaims) (claims : Claims)
    → Carried jwt c claims
    → Lasting later c.exp
    → (f : ℕ) → lookup "exp" claims ≡ some (number_claim f)
    → StillLasts later (jwt.int64_of f)
exp-Lasting jwt later c claims k lasting f there = go c.exp refl lasting
  where
    go : (o : Option ℤ) → c.exp ≡ o → Lasting later o → StillLasts later (jwt.int64_of f)
    go none e l = let gone = k.no_exp e in absurd (ground arith)
    go (some (pos t)) e l =
        let (g, found, same) = k.exp (pos t) e in
        let equal : g ≡ f = ground arith in rw (← equal) (rw same (ground arith))
    go (some (negsuc t)) e l = absurd l

generated :
    (sign : Sign) (cfg : NodeConfig) (flags : TokenFlags) (text : String)
    → generate_token sign (ok cfg) flags ≡ ok text
    → (cfg.security.api_auth.enabled ≡ true)
      × (sign (token_claims cfg.security.api_auth.jwt_issuer flags) cfg.security.api_auth.jwt_secret
          ≡ inr text)
unfolding generate_token
generated sign cfg flags text h =
    let claims : TokenClaims = token_claims cfg.security.api_auth.jwt_issuer flags in
    let signed : Error ⊎ String = sign claims cfg.security.api_auth.jwt_secret in
    (
      ground arith,
      returned-ok signed text
          (wrapping-ok "failed to generate token" (returned signed) text (ground arith)),
    )

module _ (jwt : Jwt) (sign : Sign) (later : ℕ) (laws : SignLaws jwt sign later) where
  accepted_token :
      (config : AuthConfig) (flags : TokenFlags) (text : String)
      → sign (token_claims config.jwt_issuer flags) config.jwt_secret ≡ inr text
      → InTime later flags.now flags.expiry_hours
      → (t : Token) × (claims : Claims) × Accepted jwt config later text t claims
        × Carried jwt (token_claims config.jwt_issuer flags) claims
  unfolding token_claims key_func
  accepted_token config flags text signed soon =
      let c : TokenClaims = token_claims config.jwt_issuer flags in
      let lasting = InTime-Lasting later flags.now flags.expiry_hours soon in
      let plain = laws.no_prefix c config.jwt_secret text signed in
      let (t, claims, parsed, valid, carries, k) =
        laws.parse-sign c config.jwt_secret text config signed refl lasting in
      (
        t,
        claims,
        record {
          given = laws.nonempty c config.jwt_secret text signed;
          raw = text;
          bare = inr (λ p. let had = (starts_with_iff text "Bearer ").1 p in ground arith, refl);
          parsed = parsed;
          valid = valid;
          carries = carries;
          issuer = inr k.iss;
          lasting = exp-Lasting jwt later c claims k lasting;
        },
        k,
      )

  -- A token that the command makes from a node's configuration is authenticated by that node, as the
  -- user and with the roles that were asked for, until it expires.
  pub authenticate-generate_token :
      (cfg : NodeConfig) (flags : TokenFlags) (text : String)
      → generate_token sign (ok cfg) flags ≡ ok text
      → InTime later flags.now flags.expiry_hours
      → (context : AuthContext) × (authenticate jwt cfg.security.api_auth later text ≡ ok context)
        × (context.authenticated ≡ true)
        × (context.user_id ≡ or_user flags.user_id)
        × (context.roles ≡ or_roles flags.roles)
  unfolding token_claims
  authenticate-generate_token cfg flags text made soon =
      let (enabled, signed) = generated sign cfg flags text made in
      let (t, claims, a, k) = accepted_token cfg.security.api_auth flags text signed soon in
      (
        context_of jwt cfg.security.api_auth later claims,
        (authenticate_iff jwt cfg.security.api_auth later text
              (context_of jwt cfg.security.api_auth later claims) enabled).1
            (t, claims, a, said-Describes claims _ refl),
        refl,
        rw k.sub refl,
        rw k.roles (role_texts-map (or_roles flags.roles)),
      )
