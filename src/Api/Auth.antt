-- ===== src/Api/Auth.antt =====
-- internal/api/auth.go: the authentication of a request by its JSON web token. The library
-- golang-jwt, which parses tokens and checks their signatures, is a parameter.
pub mod Claims
pub mod Credentials
use Prim.Native.String.{slice, len}
use text.Mathlib.Text.{starts_with}
use dknet.Base.{
  ℕ, String, Bool, true, false, not, List, [], ◌∷◌, Option, none, some, Result, ok, err, Error,
  errorf, str, wrapping, ◌==◌, if◌then◌else◌, ℤ, pos, negsuc, ltb, lookup,
}
use dknet.P2p.Network.{then_do}

-- strings.TrimPrefix
unfoldable pub trim_prefix : String → String → String
trim_prefix s p = if starts_with s p then slice s (len p) (len s) else s

-- an element of a claim that is a list
pub data Element : Type 0 where
  text_element : String → Element
  other_element : Element

-- the value of a claim, as far as the code looks into it; a `float64` is a handle
pub data Claim : Type 0 where
  text_claim : String → Claim
  number_claim : ℕ → Claim
  list_claim : List Element → Claim
  other_claim : Claim

abbrev pub Claims : Type 0
Claims = List (String × Claim)

-- *jwt.Token: whether its method is HMAC, the name of the method, whether it is valid, and its
-- claims if they are a `jwt.MapClaims`
pub record Token : Type 0 where
  pub hmac : Bool
  pub alg : String
  pub valid : Bool
  pub claims : Option Claims

-- jwt.Parse(text, keyFunc), and `int64(f)` of a `float64`
pub record Jwt : Type 0 where
  pub parse : String → (Token → Result String) → Result Token
  pub int64_of : ℕ → ℤ

-- config.AuthConfig
pub record AuthConfig : Type 0 where
  pub enabled : Bool
  pub jwt_secret : String
  pub jwt_issuer : String

-- AuthContext
pub record AuthContext : Type 0 where
  pub authenticated : Bool
  pub user_id : String
  pub roles : List String
  pub claims : Claims

-- the key function that is given to `jwt.Parse`
unfoldable pub key_func : AuthConfig → Token → Result String
key_func config t =
    if t.hmac
    then ok config.jwt_secret
    else err (errorf "unexpected signing method: %v" (str t.alg ∷ []))

-- now > t, in seconds of Unix time
abbrev pub is_after : ℕ → ℤ → Bool
is_after now (pos t) = ltb t now
is_after now (negsuc t) = true

-- `iss, ok := claims["iss"].(string); !ok || iss != issuer`, negated
abbrev pub issued_by : String → Option Claim → Bool
issued_by issuer (some (text_claim iss)) = iss == issuer
issued_by issuer _ = false

-- the claim "sub", if it is a text
abbrev pub subject : Option Claim → String
subject (some (text_claim sub)) = sub
subject _ = ""

-- the elements of the claim "roles" that are texts
unfoldable pub role_texts : List Element → List String
role_texts [] = []
role_texts (text_element role ∷ l) = role ∷ role_texts l
role_texts (other_element ∷ l) = role_texts l

abbrev pub roles_of : Option Claim → List String
roles_of (some (list_claim l)) = role_texts l
roles_of _ = []

module _ (jwt : Jwt) (config : AuthConfig) (now : ℕ) where
  -- the claim "exp", if it is a number, lies in the past
  abbrev pub has_expired : Option Claim → Bool
  has_expired (some (number_claim exp)) = is_after now (jwt.int64_of exp)
  has_expired _ = false

  abbrev pub issuer_accepted : Claims → Bool
  issuer_accepted claims =
      if config.jwt_issuer == "" then true else issued_by config.jwt_issuer (lookup "iss" claims)

  abbrev pub context_of : Claims → AuthContext
  context_of claims = record {
    authenticated = true;
    user_id = subject (lookup "sub" claims);
    roles = roles_of (lookup "roles" claims);
    claims = claims;
  }

  -- from the issuer on
  unfoldable pub check_claims : Option Claims → Result AuthContext
  check_claims none = err (errorf "invalid JWT claims" [])
  check_claims (some claims) =
      if issuer_accepted claims
      then (if has_expired (lookup "exp" claims)
          then err (errorf "JWT token has expired" [])
          else ok (context_of claims))
      else err (errorf "invalid JWT issuer" [])

  unfoldable pub check_token : Token → Result AuthContext
  unfolding check_claims
  check_token t = if t.valid then check_claims t.claims else err (errorf "invalid JWT token" [])

  -- Authenticate
  unfoldable pub authenticate : String → Result AuthContext
  authenticate token =
      if not config.enabled
      then ok (record { authenticated = true; user_id = ""; roles = []; claims = [] })
      else if token == ""
      then err (errorf "JWT token is required" [])
      else then_do
          (wrapping "failed to parse JWT token"
            (jwt.parse (trim_prefix token "Bearer ") (key_func config)))
          check_token
