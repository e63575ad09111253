-- ===== src/Common/Util/Laws.antt =====
-- What `Distinct` and `Retry` compute.
use dknet.Base.{
  ℕ, zero, suc, ◌+◌, ◌<◌, String, Bool, true, false, List, [], ◌∷◌, ◌++◌, Option, none, some, ◌≡◌,
  refl, arith, ◌==◌, eq_iff, contains, if◌then◌else◌, ◌==ℕ◌, ◌≢◌, ◌⊎◌, inl, inr, Option-cases,
}
use native.Mathlib.Nat.{add-zero, add-suc, suc-add}
use dknet.Common.Util.{distinct, distinct_from, retry, retry_from}

-- how often a text stands in a list
abbrev pub occurrences : String → List String → ℕ
occurrences p [] = 0
occurrences p (x ∷ xs) = (if x == p then 1 else 0) + occurrences p xs

occurrences-append :
    (p : String) (xs ys : List String)
    → occurrences p (xs ++ ys) ≡ occurrences p xs + occurrences p ys
occurrences-append p [] ys = ground arith
occurrences-append p (x ∷ xs) ys = ground (arith, occurrences-append p xs ys)

abbrev due : Bool → Bool → ℕ
due true found = 0
due false true = 1
due false false = 0

occurrences-distinct_from :
    (p : String) (seen result input : List String)
    → occurrences p (distinct_from seen result input)
      ≡ occurrences p result + due (contains seen p) (contains input p)
unfolding distinct_from contains
occurrences-distinct_from p seen result [] = ground arith
occurrences-distinct_from p seen result (v ∷ input) = ground (
  arith,
  occurrences-distinct_from p seen result input,
  occurrences-distinct_from p (v ∷ seen) (result ++ v ∷ []) input,
  occurrences-append p result (v ∷ []),
  eq_iff v p,
)

-- Every text of the input stands in the result exactly once, and no other text does.
pub occurrences-distinct :
    (p : String) (xs : List String) → occurrences p (distinct xs) ≡ (if contains xs p then 1 else 0)
unfolding distinct
occurrences-distinct p xs = ground (arith, occurrences-distinct_from p [] [] xs)

contains-occurrences :
    (p : String) (xs : List String)
    → contains xs p ≡ (if occurrences p xs ==ℕ 0 then false else true)
unfolding contains
contains-occurrences p [] = refl
contains-occurrences p (x ∷ xs) = ground (arith, contains-occurrences p xs)

pub contains-distinct : (p : String) (xs : List String) → contains (distinct xs) p ≡ contains xs p
contains-distinct p xs =
    ground (arith, contains-occurrences p (distinct xs), occurrences-distinct p xs)

-- The outcome `r` of at most `tries` attempts from the attempt `i` on: they all failed, or `r` is
-- what the first success gave.
abbrev pub FirstSuccess {ℓ} : {A : Type ℓ} → (ℕ → Option A) → ℕ → ℕ → Option A → Type ℓ
FirstSuccess fun i tries r =
    ((r ≡ none) × ((j : ℕ) → j < tries → fun (i + j) ≡ none))
    ⊎ ((k : ℕ) × (k < tries)
        × (fun (i + k) ≡ r)
        × (r ≢ none)
        × ((j : ℕ) → j < k → fun (i + j) ≡ none))

module _ {ℓ} {A : Type ℓ} (fun : ℕ → Option A) where
  shift_none :
      (i n : ℕ)
      → fun i ≡ none
      → ((j : ℕ) → j < n → fun (suc i + j) ≡ none)
      → (j : ℕ) → j < suc n
      → fun (i + j) ≡ none
  shift_none i n here later zero lt = rw add-zero here
  shift_none i n here later (suc j) lt = rw add-suc (rw suc-add at (later j (omega arith)))

  retry_from_hit : (i tries : ℕ) {a : A} → fun i ≡ some a → retry_from fun i (suc tries) ≡ some a
  unfolding retry_from
  retry_from_hit i tries now = rw (now, retry_from)

  retry_from_miss :
      (i tries : ℕ) → fun i ≡ none → retry_from fun i (suc tries) ≡ retry_from fun (suc i) tries
  unfolding retry_from
  retry_from_miss i tries failed = rw (failed, retry_from)

  retry_from_lem : (i tries : ℕ) → FirstSuccess fun i tries (retry_from fun i tries)
  retry_from_lem i zero = inl (unfold retry_from in refl, λ j h. absurd (omega arith))
  retry_from_lem i (suc tries) = elim (Option-cases (fun i)) [
    | inr (a, now) ↦
        rw (retry_from_hit i tries now)
          (inr (0, omega arith, rw (add-zero, now), (λ e. cc), λ j h. absurd (omega arith)))
    | inl failed ↦ rw (retry_from_miss i tries failed) (elim (retry_from_lem (suc i) tries) [
      | inl (none_yet, all) ↦ inl (none_yet, shift_none i tries failed all)
      | inr (k, lt, found, some_value, before) ↦ inr (
        suc k,
        omega arith,
        rw add-suc (rw suc-add at found),
        some_value,
        shift_none i k failed before,
      )
    ])
  ]

  -- `Retry` gives what the first successful attempt gives, after failures only, and fails exactly
  -- when all of its attempts do; no attempt beyond `try_cnt` counts.
  pub retry_lem : (try_cnt : ℕ) → FirstSuccess fun 0 try_cnt (retry fun try_cnt)
  unfolding retry
  retry_lem try_cnt = retry_from_lem 0 try_cnt
