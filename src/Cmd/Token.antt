-- ===== src/Cmd/Token.antt =====
-- cmd/dknet/generate_token.go: making a token for the API. Signing is golang-jwt's.
pub mod RoundTrip
use dknet.Base.{
  ℕ, ◌+◌, ◌*◌, ◌-◌, ◌%◌, ◌^◌, String, Bool, not, List, [], ◌∷◌, Option, none, some, Result, ok, err,
  Error, errorf, ℤ, pos, negsuc, ◌==◌, if◌then◌else◌, ltb, leb, wrapping, ◌⊎◌,
}
use Prim.Native.Nat.{◌/◌}
use dknet.P2p.Network.{then_do}
use dknet.P2p.Host.{returned}
use dknet.Config.{NodeConfig}

-- jwt.MapClaims as the command fills it; times are in seconds of Unix time
pub record TokenClaims : Type 0 where
  pub sub : String
  pub iss : String
  pub iat : ℕ
  pub roles : List String
  pub exp : Option ℤ

-- the flags, and the time in nanoseconds of Unix time, one reading for both calls of `time.Now`
pub record TokenFlags : Type 0 where
  pub user_id : String
  pub roles : List String
  pub expiry_hours : ℤ
  pub now : ℕ

-- time.Duration(hours) * time.Hour, in nanoseconds: a signed integer of 64 bits
unfoldable pub hours : ℕ → ℤ
hours n =
    let bits : ℕ = (n * 3600000000000) % 2 ^ 64 in
    if ltb bits (2 ^ 63) then pos bits else negsuc (2 ^ 64 - bits - 1)

-- Now().Add(d).Unix(), which rounds down
unfoldable pub unix_after : ℕ → ℤ → ℤ
unix_after now (pos d) = pos ((now + d) / 1000000000)
unix_after now (negsuc d) =
    if leb (d + 1) now
    then pos ((now - (d + 1)) / 1000000000)
    else negsuc (((d + 1) - now - 1) / 1000000000)

-- the claim "exp": only for a positive number of hours
unfoldable pub expiry : ℕ → ℤ → Option ℤ
unfolding hours unix_after
expiry now (pos ℕ.zero) = none
expiry now (pos (ℕ.suc n)) = some (unix_after now (hours (ℕ.suc n)))
expiry now (negsuc n) = none

abbrev pub or_roles : List String → List String
or_roles [] = "admin" ∷ "operator" ∷ []
or_roles (role ∷ roles) = role ∷ roles

abbrev pub or_user : String → String
or_user user_id = if user_id == "" then "admin-user" else user_id

unfoldable pub token_claims : String → TokenFlags → TokenClaims
unfolding expiry
token_claims issuer flags = record {
  sub = or_user flags.user_id;
  iss = issuer;
  iat = flags.now / 1000000000;
  roles = or_roles flags.roles;
  exp = expiry flags.now flags.expiry_hours;
}

-- SignedString of a token by HS256 with the claims
abbrev pub Sign : Type 0
Sign = TokenClaims → String → Error ⊎ String

-- generateTokenCmd, from what `config.Load` gives to the token that is printed
unfoldable pub generate_token : Sign → Result NodeConfig → TokenFlags → Result String
unfolding token_claims
generate_token sign loaded flags = then_do (wrapping "failed to load config" loaded) (λ cfg.
    if not cfg.security.api_auth.enabled
    then err (errorf "JWT authentication is not enabled in server configuration" [])
    else if cfg.security.api_auth.jwt_secret == ""
    then err (errorf "JWT secret is not configured in server configuration" [])
    else wrapping "failed to generate token" (
        returned (
          sign (token_claims cfg.security.api_auth.jwt_issuer flags)
            cfg.security.api_auth.jwt_secret)))
