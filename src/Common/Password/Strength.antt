-- ===== src/Common/Password/Strength.antt =====
-- The passwords that are accepted.
use Prim.Native.Char.{Char, code}
use Prim.Native.String.{len, ◌∷◌ as ◌∷ˢ◌, [] as empty}
use dknet.Base.{
  String, Bool, true, false, not, Result, ok, err, ◌≡◌, ◌≤◌, ◌↔◌, refl, inl, inr, arith, ap, sym,
  ◌∙◌, ltb, leb, ◌&&◌, ◌||◌, Bool-cases, Result-cases,
}
use dknet.P2p.Network.{then_do}
use dknet.Common.Password.{
  Classes, classify, scan, missing, validate_password, validated, read_password,
  read_password_from_env, read_password_with_confirmation, is_upper, is_lower, is_digit,
  contains_rune, no_classes, check_missing,
}

-- some character of the text passes the test
unfoldable pub any : (Char → Bool) → String → Bool
any test empty = false
any test (c ∷ˢ s) = test c || any test s

-- the four classes of characters, by their code points
abbrev pub an_upper : Char → Bool
an_upper c = leb 65 (code c) && leb (code c) 90

abbrev pub a_lower : Char → Bool
a_lower c = leb 97 (code c) && leb (code c) 122

abbrev pub a_digit : Char → Bool
a_digit c = leb 48 (code c) && leb (code c) 57

-- one of the listed characters
abbrev pub is_special : Char → Bool
is_special c =
    not (an_upper c)
    && not (a_lower c)
    && not (a_digit c)
    && contains_rune "!@#$%^&*()_+-=[]{}|;:,.<>?" c

-- eight bytes at least, which may be fewer characters, and a character of each class
pub record IsStrong (password : String) : Type 0 where
  pub long : 8 ≤ len password
  pub upper : any an_upper password ≡ true
  pub lower : any a_lower password ≡ true
  pub digit : any a_digit password ≡ true
  pub special : any is_special password ≡ true

-- the class that one character adds
module _ (k : Classes) (c : Char) where
  classify-upper : (classify k c).has_upper ≡ (k.has_upper || is_upper c)
  unfolding classify
  classify-upper = ground arith

  classify-lower : (classify k c).has_lower ≡ (k.has_lower || is_lower c)
  unfolding classify
  classify-lower = ground arith

  classify-digit : (classify k c).has_digit ≡ (k.has_digit || is_digit c)
  unfolding classify
  classify-digit = ground arith

  classify-special : (classify k c).has_special ≡ (k.has_special || is_special c)
  unfolding classify
  classify-special = ground arith

or_assoc : (a b c : Bool) → ((a || b) || c) ≡ (a || (b || c))
or_assoc true b c = refl
or_assoc false b c = refl

-- the classes that a text adds
record Found (k : Classes) (s : String) : Type 0 where
  upper : (scan k s).has_upper ≡ (k.has_upper || any is_upper s)
  lower : (scan k s).has_lower ≡ (k.has_lower || any is_lower s)
  digit : (scan k s).has_digit ≡ (k.has_digit || any is_digit s)
  special : (scan k s).has_special ≡ (k.has_special || any is_special s)

scan-Found : (k : Classes) (s : String) → Found k s
unfolding scan any
scan-Found k empty = record {
  upper = ground arith;
  lower = ground arith;
  digit = ground arith;
  special = ground arith;
}
scan-Found k (c ∷ˢ s) =
    let f = scan-Found (classify k c) s in
    record {
      upper =
          f.upper
          ∙ ap (λ b. b || any is_upper s) (classify-upper k c)
          ∙ or_assoc k.has_upper (is_upper c) (any is_upper s);
      lower =
          f.lower
          ∙ ap (λ b. b || any is_lower s) (classify-lower k c)
          ∙ or_assoc k.has_lower (is_lower c) (any is_lower s);
      digit =
          f.digit
          ∙ ap (λ b. b || any is_digit s) (classify-digit k c)
          ∙ or_assoc k.has_digit (is_digit c) (any is_digit s);
      special =
          f.special
          ∙ ap (λ b. b || any is_special s) (classify-special k c)
          ∙ or_assoc k.has_special (is_special c) (any is_special s);
    }

none_missing :
    (a b c d : Bool)
    → check_missing
        (missing (record { has_upper = a; has_lower = b; has_digit = c; has_special = d }))
      ≡ ok tt
    → (a ≡ true) × (b ≡ true) × (c ≡ true) × (d ≡ true)
unfolding missing
none_missing true true true true h = (refl, refl, refl, refl)
none_missing false b c d h = absurd (ground arith)
none_missing true false c d h = absurd (ground arith)
none_missing true true false d h = absurd (ground arith)
none_missing true true true false h = absurd (ground arith)

module _ (password : String) where
  accepted_classes :
      validate_password password ≡ ok tt
      → (ltb (len password) 8 ≡ false)
        × (check_missing (missing (scan no_classes password)) ≡ ok tt)
  unfolding validate_password
  accepted_classes h = elim (Bool-cases (ltb (len password) 8)) [
    | inl short ↦ absurd (ground arith)
    | inr long ↦ (long, ground arith)
  ]

  strong_accepted : IsStrong password → validate_password password ≡ ok tt
  unfolding validate_password missing
  strong_accepted s =
      let f = scan-Found no_classes password in
      let long : ltb (len password) 8 ≡ false = ground (arith, s.long) in
      rw long (
        rw (f.upper ∙ s.upper)
          (rw (f.lower ∙ s.lower) (rw (f.digit ∙ s.digit) (rw (f.special ∙ s.special) refl))))

  accepted-IsStrong : validate_password password ≡ ok tt → IsStrong password
  accepted-IsStrong h =
      let (long, complete) = accepted_classes h in
      let f = scan-Found no_classes password in
      let (upper, lower, digit, special) = none_missing _ _ _ _ complete in
      record {
        long = ground (arith, long);
        upper = sym f.upper ∙ upper;
        lower = sym f.lower ∙ lower;
        digit = sym f.digit ∙ digit;
        special = sym f.special ∙ special;
      }

  -- A password is accepted exactly when it has eight bytes at least, and an upper-case letter, a
  -- lower-case letter, a digit and one of the listed special characters.
  pub validate_password_iff : (validate_password password ≡ ok tt) ↔ IsStrong password
  validate_password_iff = (accepted-IsStrong, strong_accepted)

validated-accepted : (p q : String) → validated p ≡ ok q → validate_password q ≡ ok tt
validated-accepted p q h = elim (Result-cases (validate_password p)) [
  | inl bad ↦ absurd (ground arith)
  | inr (u, e) ↦ let same : p ≡ q = ground arith in ap validate_password (sym same) ∙ e
]

chosen :
    (r s : Result String) (q : String)
    → (elim r as (λ _. Result String) [ ok p ↦ validated p | _ ↦ then_do s validated ]) ≡ ok q
    → validate_password q ≡ ok tt
chosen (ok p) s q h = validated-accepted p q h
chosen (err e) (ok p) q h = validated-accepted p q h
chosen (err e) (err f) q h = absurd (ground arith)
chosen (err e) Result.panics q h = absurd (ground arith)
chosen Result.panics (ok p) q h = validated-accepted p q h
chosen Result.panics (err f) q h = absurd (ground arith)
chosen Result.panics Result.panics q h = absurd (ground arith)

-- Whatever the environment and the terminal give: a password that is read is strong.
pub read_password-IsStrong :
    (variable : String) (first second : Result String) (password : String)
    → read_password variable first second ≡ ok password
    → IsStrong password
unfolding read_password
read_password-IsStrong variable first second password h = accepted-IsStrong password (
    chosen (read_password_from_env variable) (read_password_with_confirmation first second) password
      h)
