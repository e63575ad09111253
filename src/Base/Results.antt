-- ===== src/Base/Results.antt =====
-- Go's errors and panics. An error is kept as the format and the arguments that the source gives
-- to `fmt.Errorf`; the text that `Error()` renders is a function of the environment.
use Prim.Native.Nat.{ℕ}
use Prim.Native.String.{String}
use mathlib.Core.List.{List}
use mathlib.Core.Option.{Option, none, some}
use mathlib.Core.Logic.{◌⊎◌, inl, inr}
use mathlib.Core.Path.{◌≡◌, refl}
use dknet.Base.Int.{ℤ}

pub data Arg : Type 0 where
  str : String → Arg
  integer : ℤ → Arg
  number : ℕ → Arg

pub data Error : Type 0 where
  -- fmt.Errorf(format, args...), errors.New(format)
  errorf : String → List Arg → Error
  -- fmt.Errorf(format + ": %w", cause)
  wrapf : String → Error → Error
  -- errors.Wrapf(cause, format, args...)
  wrap_args : String → List Arg → Error → Error
  -- storage.ErrNotFound
  not_found : Error
  -- an error value of code outside the repository
  external : String → Error

-- `panics` is a run-time panic that leaves the function.
pub data Result {ℓ} (A : Type ℓ) : Type ℓ where
  ok : A → Result A
  err : Error → Result A
  panics : Result A

pub Result-cases {ℓ} :
    {A : Type ℓ} (r : Result A)
    → ((r ≡ Result.panics) ⊎ ((e : Error) × (r ≡ err e))) ⊎ ((a : A) × (r ≡ ok a))
Result-cases (ok a) = inr (a, refl)
Result-cases (err e) = inl (inr (e, refl))
Result-cases Result.panics = inl (inl refl)

-- `if err != nil { return fmt.Errorf("...: %w", err) }`
abbrev pub wrapping {ℓ} : {A : Type ℓ} → String → Result A → Result A
wrapping format (ok a) = ok a
wrapping format (err e) = err (wrapf format e)
wrapping format panics = panics

-- a call of code outside the repository that may fail with some error
abbrev pub or_error {ℓ} : {A : Type ℓ} → Option A → Error → Result A
or_error none e = err e
or_error (some a) e = ok a

-- Methods that change the state `S` and may fail: what was written before the error stays written.
abbrev pub M {ℓ κ} : Type ℓ → Type κ → Type (ℓ ⊔ κ)
M S A = S → Result A × S

module _ {ℓ κ} {S : Type ℓ} {A : Type κ} where
  abbrev pub pure : A → M S A
  pure a s = (ok a, s)

  abbrev pub fail : Error → M S A
  fail e s = (err e, s)

  abbrev pub lift : Result A → M S A
  lift r s = (r, s)

  abbrev pub gets : (S → A) → M S A
  gets f s = (ok (f s), s)

module _ {ℓ} {S : Type ℓ} where
  abbrev pub modify : (S → S) → M S (Unit {0})
  modify f s = (ok tt, f s)

module _ {ℓ κ ν} {S : Type ℓ} {A : Type κ} {B : Type ν} where
  abbrev pub continue : Result A → (A → M S B) → M S B
  continue (ok a) f s = f a s
  continue (err e) f s = (err e, s)
  continue panics f s = (panics, s)

  infixl 5 ◌>>=◌ ◌>>◌
  abbrev pub ◌>>=◌ : M S A → (A → M S B) → M S B
  ◌>>=◌ m f s = continue (m s).0 f (m s).1

  abbrev pub ◌>>◌ : M S A → M S B → M S B
  m >> n = m >>= λ _. n
