-- ===== src/Api/Auth/Credentials.antt =====
-- Who is authenticated: `Authenticate` against a description of the tokens that are accepted.
use dknet.Base.{
  ℕ, String, true, false, Option, none, some, ok, err, errorf, str, [], ◌∷◌, if◌then◌else◌, ◌≡◌,
  ◌≢◌, ◌⊎◌, ◌↔◌, inl, inr, refl, ap, sym, ◌∙◌, arith, eq_iff, ◌==◌, ==_of_ne, lookup, Bool-cases,
  Result-cases,
}
use dknet.Api.Auth.{
  Jwt, AuthConfig, AuthContext, Token, Claim, Claims, text_claim, number_claim, list_claim,
  authenticate, check_token, check_claims, key_func, trim_prefix, is_after, context_of, issued_by,
  issuer_accepted, has_expired, other_claim, check_claims,
}
use dknet.Api.Auth.Claims.{
  Bare, Bare-trim_prefix, trim_prefix-Bare, StillLasts, StillLasts-iff, Describes, said-Describes,
  Describes-said,
}

issued_by-true :
    (issuer : String) (o : Option Claim) → issued_by issuer o ≡ true → o ≡ some (text_claim issuer)
issued_by-true issuer none h = ground arith
issued_by-true issuer (some (text_claim t)) h =
    ap (λ x. some (text_claim x)) ((eq_iff t issuer).0 h)
issued_by-true issuer (some (number_claim f)) h = ground arith
issued_by-true issuer (some (list_claim l)) h = ground arith
issued_by-true issuer (some other_claim) h = ground arith

module _ (jwt : Jwt) (config : AuthConfig) (now : ℕ) where
  -- A token that the parser accepts, without its prefix, under the configured secret and for HMAC
  -- only, of the configured issuer, if one is configured, whose claim "exp", if it is a number, is
  -- not in the past.
  pub record Accepted (token : String) (t : Token) (claims : Claims) : Type 0 where
    pub given : token ≢ ""
    pub raw : String
    pub bare : Bare token raw
    pub parsed :
        jwt.parse raw (λ (u : Token).
          if u.hmac
          then ok config.jwt_secret
          else err (errorf "unexpected signing method: %v" (str u.alg ∷ [])))
        ≡ ok t
    pub valid : t.valid ≡ true
    pub carries : t.claims ≡ some claims
    pub issuer :
        (config.jwt_issuer ≡ "") ⊎ (lookup "iss" claims ≡ some (text_claim config.jwt_issuer))
    pub lasting :
        (exp : ℕ)
        → lookup "exp" claims ≡ some (number_claim exp)
        → StillLasts now (jwt.int64_of exp)

  issuer_iff :
      (claims : Claims)
      → (issuer_accepted jwt config now claims ≡ true)
        ↔ ((config.jwt_issuer ≡ "") ⊎ (lookup "iss" claims ≡ some (text_claim config.jwt_issuer)))
  issuer_iff claims = (
    λ h. elim (Bool-cases (config.jwt_issuer == "")) [
      | inl e ↦ inl ((eq_iff config.jwt_issuer "").0 e)
      | inr e ↦ inr (issued_by-true config.jwt_issuer _ (ground arith))
    ],
    λ h. elim h [
      | inl e ↦ ground (arith, eq_iff config.jwt_issuer "")
      | inr e ↦ ground (arith, eq_iff config.jwt_issuer config.jwt_issuer)
    ],
  )

  has_expired-false :
      (o : Option Claim)
      → ((exp : ℕ) → o ≡ some (number_claim exp) → is_after now (jwt.int64_of exp) ≡ false)
      → has_expired jwt config now o ≡ false
  has_expired-false none h = refl
  has_expired-false (some (text_claim t)) h = refl
  has_expired-false (some (number_claim f)) h = h f refl
  has_expired-false (some (list_claim l)) h = refl
  has_expired-false (some other_claim) h = refl

  -- what `check_claims` has found out
  record Checked (o : Option Claims) (claims : Claims) (context : AuthContext) : Type 0 where
    carries : o ≡ some claims
    issuer : (config.jwt_issuer ≡ "") ⊎ (lookup "iss" claims ≡ some (text_claim config.jwt_issuer))
    live : has_expired jwt config now (lookup "exp" claims) ≡ false
    same : context_of jwt config now claims ≡ context

  check_claims-Checked :
      (o : Option Claims) (context : AuthContext)
      → check_claims jwt config now o ≡ ok context
      → (claims : Claims) × Checked o claims context
  unfolding check_claims
  check_claims-Checked none context h = ground arith
  check_claims-Checked (some claims) context h =
      let accepted : issuer_accepted jwt config now claims ≡ true = ground arith in
      (
        claims,
        record {
          carries = refl;
          issuer = (issuer_iff claims).0 accepted;
          live = ground arith;
          same = ground arith;
        },
      )

  check_token-valid :
      (t : Token) (context : AuthContext)
      → check_token jwt config now t ≡ ok context
      → (t.valid ≡ true) × (check_claims jwt config now t.claims ≡ ok context)
  unfolding check_token
  check_token-valid t context h = elim (Bool-cases t.valid) [
    | inl e ↦ (e, ground arith)
    | inr e ↦ ground arith
  ]

  parsed_token :
      (token : String) (context : AuthContext)
      → config.enabled ≡ true
      → authenticate jwt config now token ≡ ok context
      → (token ≢ "")
        × ((t : Token) × (jwt.parse (trim_prefix token "Bearer ") (key_func config) ≡ ok t)
            × (check_token jwt config now t ≡ ok context))
  unfolding authenticate
  parsed_token token context enabled h =
      elim (Result-cases (jwt.parse (trim_prefix token "Bearer ") (key_func config))) [
        | inl bad ↦ ground (arith, eq_iff token "")
        | inr (t, parsed) ↦
            (ground (arith, eq_iff token ""), (t, parsed, ground (arith, eq_iff token "")))
      ]

  accept :
      (token : String) (t : Token) (claims : Claims)
      → config.enabled ≡ true
      → Accepted token t claims
      → authenticate jwt config now token ≡ ok (context_of jwt config now claims)
  unfolding authenticate check_token check_claims key_func
  accept token t claims enabled a =
      let issuer : issuer_accepted jwt config now claims ≡ true = (issuer_iff claims).1 a.issuer in
      let live : has_expired jwt config now (lookup "exp" claims) ≡ false =
        has_expired-false (lookup "exp" claims)
          (λ exp e. (StillLasts-iff now (jwt.int64_of exp)).1 (a.lasting exp e)) in
      rw enabled (
        rw (==_of_ne token "" a.given) (
          rw (Bare-trim_prefix token a.raw a.bare)
            (rw a.parsed (rw a.valid (rw a.carries (rw issuer (rw live refl)))))))

  -- With authentication enabled, a token is authenticated exactly when the parser accepts it, without
  -- the prefix "Bearer ", with the configured secret for an HMAC method and an error for any other,
  -- it is valid, it has the configured issuer, if one is configured, and its claim "exp", if it is a
  -- number, is not past; and the result then has its subject, its roles and its claims.
  pub authenticate_iff :
      (token : String) (context : AuthContext)
      → config.enabled ≡ true
      → (authenticate jwt config now token ≡ ok context)
        ↔ ((t : Token) × (claims : Claims) × Accepted token t claims × Describes claims context)
  unfolding key_func
  authenticate_iff token context enabled = (
    λ h.
        let (given, (t, parsed, checked)) = parsed_token token context enabled h in
        let (valid, checked_claims) = check_token-valid t context checked in
        let (claims, c) = check_claims-Checked t.claims context checked_claims in
        (
          t,
          claims,
          record {
            given = given;
            raw = trim_prefix token "Bearer ";
            bare = trim_prefix-Bare token;
            parsed = parsed;
            valid = valid;
            carries = c.carries;
            issuer = c.issuer;
            lasting = λ exp e.
                (StillLasts-iff now (jwt.int64_of exp)).0
                  (sym (ap (has_expired jwt config now) e) ∙ c.live);
          },
          said-Describes claims context c.same,
        ),
    λ (t, claims, a, same).
        accept token t claims enabled a ∙ ap ok (Describes-said claims context same),
  )
