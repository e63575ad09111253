-- ===== src/Common/Util.antt =====
-- internal/common/util.go: Distinct and Retry. `Map` is the library's `map`.
pub mod Laws
use dknet.Base.{
  ℕ, zero, suc, String, Bool, true, false, List, [], ◌∷◌, ◌++◌, Option, none, some, ◌==◌, contains,
  if◌then◌else◌,
}

-- the loop of `Distinct`: `seen` is the set, `result` the slice that is built
unfoldable pub distinct_from : List String → List String → List String → List String
distinct_from seen result [] = result
distinct_from seen result (v ∷ input) =
    let fresh = distinct_from (v ∷ seen) (result ++ v ∷ []) input in
    let old = distinct_from seen result input in if contains seen v then old else fresh

-- Distinct
unfoldable pub distinct : List String → List String
unfolding distinct_from contains
distinct input = distinct_from [] [] input

-- Retry: `fun` at each attempt, `none` its zero value. Counted from the attempt `i` on, with
-- `tries` left.
unfoldable pub retry_from {ℓ} : {A : Type ℓ} → (ℕ → Option A) → ℕ → ℕ → Option A
retry_from fun i zero = none
retry_from fun i (suc tries) =
    let rest = retry_from fun (suc i) tries in elim (fun i) [ some a ↦ some a | none ↦ rest ]

unfoldable pub retry {ℓ} : {A : Type ℓ} → (ℕ → Option A) → ℕ → Option A
unfolding retry_from
retry fun try_cnt = retry_from fun 0 try_cnt
