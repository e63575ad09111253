-- ===== src/Base/Texts.antt =====
-- Texts that the source formats: `%d` of a number that is not negative, and `strings.ToLower`.
use Prim.Native.Nat.{ℕ, zero, suc, ◌+◌, ◌/◌, ◌%◌, ◌<◌, ◌≤◌}
use Prim.Native.Char.{code}
use Prim.Native.String.{String, ◌∷◌ as ◌∷ˢ◌, ◌++◌, [] as empty}
use mathlib.Core.Bool.{Bool, true, false, ◌&&◌}
use mathlib.Core.List.{List, [], ◌∷◌}
use mathlib.Core.Logic.{inl, inr}
use mathlib.Core.Path.{◌≡◌, refl}
use native.Mathlib.Omega.{arith}
use dknet.Base.Tests.{ltb, leb, ◌==ℕ◌, if◌then◌else◌, Bool-cases}

-- the character of a digit, as a text
unfoldable pub digit : ℕ → String
digit d =
    if d ==ℕ 0
    then "0"
    else if d ==ℕ 1
    then "1"
    else if d ==ℕ 2
    then "2"
    else if d ==ℕ 3
    then "3"
    else if d ==ℕ 4
    then "4"
    else if d ==ℕ 5
    then "5"
    else if d ==ℕ 6
    then "6"
    else if d ==ℕ 7
    then "7"
    else if d ==ℕ 8
    then "8"
    else "9"

unfoldable pub digits_from : ℕ → ℕ → String → String
digits_from zero n acc = acc
digits_from (suc fuel) n acc =
    let rest = digits_from fuel (n / 10) (digit (n % 10) ++ acc) in
    if ltb n 10 then digit (n % 10) ++ acc else rest

-- `%d`
unfoldable pub format_int : ℕ → String
unfolding digit digits_from
format_int n = digits_from (suc n) n empty

-- the code points of `strings.ToLower`, for texts of ASCII characters
unfoldable pub lower_codes : String → List ℕ
lower_codes empty = []
lower_codes (c ∷ˢ s) =
    (if leb b'A' (code c) && leb (code c) b'Z' then code c + 32 else code c) ∷ lower_codes s

unfoldable pub same_codes : List ℕ → List ℕ → Bool
same_codes [] [] = true
same_codes [] (d ∷ ds) = false
same_codes (c ∷ cs) [] = false
same_codes (c ∷ cs) (d ∷ ds) = c ==ℕ d && same_codes cs ds

-- Fuel above the number is enough: with more, the digits are the same.
pub digits_from-enough :
    (f g n : ℕ) (acc : String) → n < f → n < g → digits_from f n acc ≡ digits_from g n acc
unfolding digits_from
digits_from-enough zero g n acc a b = absurd (omega arith)
digits_from-enough (suc f) zero n acc a b = absurd (omega arith)
digits_from-enough (suc f) (suc g) n acc a b = elim (Bool-cases (ltb n 10)) [
  | inl e ↦ rw e refl
  | inr e ↦
      let big : 10 ≤ n = ground arith in
      rw e (digits_from-enough f g (n / 10) (digit (n % 10) ++ acc) (omega arith) (omega arith))
]
