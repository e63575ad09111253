-- ===== src/Base/Lists.antt =====
-- Lists measured by native numbers, Go's `slices` functions over texts, and maps with text keys.
use Prim.Native.Nat.{ℕ, suc, ◌+◌}
use Prim.Native.String.{String}
use mathlib.Core.Bool.{Bool, true, false, ◌||◌}
use mathlib.Core.Logic.{◌≢◌}
use mathlib.Core.List.{List, [], ◌∷◌, ◌++◌}
use mathlib.Core.Option.{Option, none, some}
use mathlib.Core.Path.{◌≡◌, refl}
use native.Mathlib.Omega.{arith}
use text.Mathlib.Text.{◌==◌}
use text.Mathlib.TextEquality.{eq_iff}
use dknet.Base.Tests.{if◌then◌else◌}

module _ {ℓ} {A : Type ℓ} where
  -- Go's `len`
  abbrev pub length : List A → ℕ
  length [] = 0
  length (x ∷ xs) = suc (length xs)

  pub length-append : (xs ys : List A) → length (xs ++ ys) ≡ length xs + length ys
  length-append [] ys = omega arith
  length-append (x ∷ xs) ys = omega (arith, length-append xs ys)

-- every element
abbrev pub All {ℓ} : {A : Type ℓ} → (A → Type 0) → List A → Type 0
All P [] = Unit
All P (x ∷ xs) = P x × All P xs

pub All-map {ℓ} :
    {A : Type ℓ} (P Q : A → Type 0) → ((x : A) → P x → Q x) → (xs : List A) → All P xs → All Q xs
All-map P Q f [] h = tt
All-map P Q f (x ∷ xs) (p, h) = (f x p, All-map P Q f xs h)

-- `slices.Contains` over texts
unfoldable pub contains : List String → String → Bool
contains [] p = false
contains (x ∷ xs) p = x == p || contains xs p

pub contains-append :
    (xs ys : List String) (p : String) → contains (xs ++ ys) p ≡ (contains xs p || contains ys p)
unfolding contains
contains-append [] ys p = refl
contains-append (x ∷ xs) ys p = ground (arith, contains-append xs ys p)

pub ==_of_ne : (a b : String) → a ≢ b → (a == b) ≡ false
==_of_ne a b h = ground (arith, eq_iff a b)

pub ==_of_eq : (a b : String) → a ≡ b → (a == b) ≡ true
==_of_eq a b h = ground (arith, eq_iff a b)

pub ne_of_== : {a b : String} → (a == b) ≡ false → a ≢ b
ne_of_== {a} {b} h e = ground (arith, eq_iff a b)

-- `slices.DeleteFunc` with the test `toNode == node`
unfoldable pub delete_node : String → List String → List String
delete_node node [] = []
delete_node node (x ∷ xs) = let rest = delete_node node xs in if x == node then rest else x ∷ rest

pub contains-delete_node :
    (node : String) (xs : List String) (p : String)
    → contains (delete_node node xs) p ≡ (if p == node then false else contains xs p)
unfolding contains delete_node
contains-delete_node node [] p = ground arith
contains-delete_node node (x ∷ xs) p =
    ground (arith, contains-delete_node node xs p, eq_iff x node, eq_iff p node, eq_iff x p)

-- Go's `map[string]V`. The source never depends on the order of iteration but where it says so.
module _ {ℓ} {V : Type ℓ} where
  unfoldable pub lookup : String → List (String × V) → Option V
  lookup key [] = none
  lookup key ((name, value) ∷ entries) = if name == key then some value else lookup key entries

  unfoldable pub delete : String → List (String × V) → List (String × V)
  delete key [] = []
  delete key ((name, value) ∷ entries) =
      let rest = delete key entries in if name == key then rest else (name, value) ∷ rest

  unfoldable pub insert : String → V → List (String × V) → List (String × V)
  insert key value entries = (key, value) ∷ delete key entries

  pub lookup-delete :
      (key other : String) (entries : List (String × V))
      → lookup other (delete key entries) ≡ (if key == other then none else lookup other entries)
  unfolding lookup delete
  lookup-delete key other [] = ground arith
  lookup-delete key other ((name, value) ∷ entries) =
      ground (
        arith,
        lookup-delete key other entries,
        eq_iff name key,
        eq_iff name other,
        eq_iff key other,
      )

  pub lookup-insert :
      (key other : String) (value : V) (entries : List (String × V))
      → lookup other (insert key value entries)
        ≡ (if key == other then some value else lookup other entries)
  unfolding lookup insert
  lookup-insert key other value entries = ground (arith, lookup-delete key other entries)
