-- ===== src/Api/Auth/Claims.antt =====
-- What a token and its claims say, written out apart from the code that reads them.
use Prim.Native.String.{◌++◌ as ◌++ˢ◌}
use text.Mathlib.TextPositions.{slice-append_right, len-append}
use text.Mathlib.TextBridge.{IsPrefix}
use text.Mathlib.Text.{starts_with}
use text.Mathlib.TextEquality.{starts_with_iff}
use dknet.Base.{
  ℕ, String, true, false, List, [], ◌∷◌, Option, some, none, ◌≡◌, ◌≢◌, ◌≤◌, ◌↔◌, ◌⊎◌, inl, inr,
  refl, sym, ap, ◌∙◌, arith, lookup, Bool-cases, ℤ, pos, negsuc,
}
use dknet.Api.Auth.{
  Claim, Claims, AuthContext, Element, text_element, other_element, text_claim, number_claim,
  list_claim, other_claim, trim_prefix, is_after, subject, roles_of, role_texts,
}

-- `raw` is the token without the prefix "Bearer ", if it has that prefix
abbrev pub Bare : String → String → Type 0
Bare token raw = (token ≡ "Bearer " ++ˢ raw) ⊎ ((¬ IsPrefix "Bearer " token) × (raw ≡ token))

trim_prefix-append : (raw : String) → trim_prefix ("Bearer " ++ˢ raw) "Bearer " ≡ raw
unfolding trim_prefix
trim_prefix-append raw =
    rw ((starts_with_iff ("Bearer " ++ˢ raw) "Bearer ").1 (raw, refl))
      (rw (len-append "Bearer " raw) (slice-append_right "Bearer " raw))

trim_prefix-other :
    (token : String) → ¬ IsPrefix "Bearer " token → trim_prefix token "Bearer " ≡ token
unfolding trim_prefix
trim_prefix-other token other = elim (Bool-cases (starts_with token "Bearer ")) [
  | inl had ↦ absurd (other ((starts_with_iff token "Bearer ").0 had))
  | inr lacks ↦ rw lacks refl
]

pub Bare-trim_prefix : (token raw : String) → Bare token raw → trim_prefix token "Bearer " ≡ raw
Bare-trim_prefix token raw (inl e) = rw e (trim_prefix-append raw)
Bare-trim_prefix token raw (inr (other, same)) = trim_prefix-other token other ∙ sym same

pub trim_prefix-Bare : (token : String) → Bare token (trim_prefix token "Bearer ")
trim_prefix-Bare token = elim (Bool-cases (starts_with token "Bearer ")) [
  | inl had ↦
      let (raw, e) = (starts_with_iff token "Bearer ").0 had in
      inl (sym e ∙ ap (λ r. "Bearer " ++ˢ r) (sym (Bare-trim_prefix token raw (inl (sym e)))))
  | inr lacks ↦
      let other : ¬ IsPrefix "Bearer " token =
        λ p. let had = (starts_with_iff token "Bearer ").1 p in ground arith in
      inr (other, trim_prefix-other token other)
]

-- the time in seconds is not past the claim "exp"
abbrev pub StillLasts : ℕ → ℤ → Type 0
StillLasts now (pos t) = now ≤ t
StillLasts now (negsuc t) = ⊥

pub StillLasts-iff : (now : ℕ) (z : ℤ) → (is_after now z ≡ false) ↔ StillLasts now z
StillLasts-iff now (pos t) = (λ h. ground arith, λ h. ground arith)
StillLasts-iff now (negsuc t) = (λ h. ground arith, λ h. absurd h)

-- the name that the claim "sub" gives: its text, and none if it is not a text
pub data Named : Option Claim → String → Type 0 where
  by_text : (sub : String) → Named (some (text_claim sub)) sub
  nameless : (o : Option Claim) → ((sub : String) → o ≢ some (text_claim sub)) → Named o ""

-- the texts among the elements of a list
pub data Texts : List Element → List String → Type 0 where
  no_more : Texts [] []
  taken :
      {l : List Element} {r : List String} (t : String)
      → Texts l r
      → Texts (text_element t ∷ l) (t ∷ r)
  passed : {l : List Element} {r : List String} → Texts l r → Texts (other_element ∷ l) r

-- the roles that the claim "roles" gives: the texts of its list, and none if it is not a list
pub data Listed : Option Claim → List String → Type 0 where
  by_list : (l : List Element) (r : List String) → Texts l r → Listed (some (list_claim l)) r
  roleless : (o : Option Claim) → ((l : List Element) → o ≢ some (list_claim l)) → Listed o []

subject-Named : (o : Option Claim) → Named o (subject o)
subject-Named none = nameless none (λ s h. ground arith)
subject-Named (some (text_claim t)) = by_text t
subject-Named (some (number_claim n)) = nameless _ (λ s h. ground arith)
subject-Named (some (list_claim l)) = nameless _ (λ s h. ground arith)
subject-Named (some other_claim) = nameless _ (λ s h. ground arith)

Named-subject : {o : Option Claim} {u : String} → Named o u → subject o ≡ u
Named-subject (by_text t) = refl
Named-subject (nameless none h) = refl
Named-subject (nameless (some (text_claim t)) h) = absurd (h t refl)
Named-subject (nameless (some (number_claim n)) h) = refl
Named-subject (nameless (some (list_claim l)) h) = refl
Named-subject (nameless (some other_claim) h) = refl

role_texts-Texts : (l : List Element) → Texts l (role_texts l)
unfolding role_texts
role_texts-Texts [] = no_more
role_texts-Texts (text_element t ∷ l) = taken t (role_texts-Texts l)
role_texts-Texts (other_element ∷ l) = passed (role_texts-Texts l)

Texts-role_texts : {l : List Element} {r : List String} → Texts l r → role_texts l ≡ r
unfolding role_texts
Texts-role_texts no_more = refl
Texts-role_texts (taken t rest) = ap (λ r. t ∷ r) (Texts-role_texts rest)
Texts-role_texts (passed rest) = Texts-role_texts rest

roles_of-Listed : (o : Option Claim) → Listed o (roles_of o)
roles_of-Listed none = roleless none (λ l h. ground arith)
roles_of-Listed (some (text_claim t)) = roleless _ (λ l h. ground arith)
roles_of-Listed (some (number_claim n)) = roleless _ (λ l h. ground arith)
roles_of-Listed (some (list_claim l)) = by_list l _ (role_texts-Texts l)
roles_of-Listed (some other_claim) = roleless _ (λ l h. ground arith)

Listed-roles_of : {o : Option Claim} {r : List String} → Listed o r → roles_of o ≡ r
Listed-roles_of (by_list l r t) = Texts-role_texts t
Listed-roles_of (roleless none h) = refl
Listed-roles_of (roleless (some (text_claim t)) h) = refl
Listed-roles_of (roleless (some (number_claim n)) h) = refl
Listed-roles_of (roleless (some (list_claim l)) h) = absurd (h l refl)
Listed-roles_of (roleless (some other_claim) h) = refl

-- An authenticated context with the subject, the roles and all of the claims.
pub record Describes (claims : Claims) (context : AuthContext) : Type 0 where
  pub authenticated : context.authenticated ≡ true
  pub user : Named (lookup "sub" claims) context.user_id
  pub roles : Listed (lookup "roles" claims) context.roles
  pub all : context.claims ≡ claims

abbrev said : Claims → AuthContext
said claims = record {
  authenticated = true;
  user_id = subject (lookup "sub" claims);
  roles = roles_of (lookup "roles" claims);
  claims = claims;
}

pub said-Describes :
    (claims : Claims) (context : AuthContext) → said claims ≡ context → Describes claims context
said-Describes claims context e = rw (← e) (record {
  authenticated = refl;
  user = subject-Named (lookup "sub" claims);
  roles = roles_of-Listed (lookup "roles" claims);
  all = refl;
})

pub Describes-said :
    (claims : Claims) (context : AuthContext) → Describes claims context → said claims ≡ context
Describes-said claims context d =
    let user = Named-subject d.user in
    let roles = Listed-roles_of d.roles in
    let sure = d.authenticated in
    let all = d.all in
    λ i. record {
      authenticated = sym sure i;
      user_id = user i;
      roles = roles i;
      claims = sym all i;
    }
