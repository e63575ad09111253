-- ===== src/Base/Int.antt =====
-- Go's `int` where the source lets it be negative: a threshold from a request. Only its order is
-- read, so no width is modelled here.
use Prim.Native.Nat.{ℕ}
use mathlib.Core.Bool.{Bool, true, false}
use dknet.Base.Tests.{leb}

-- `negsuc n` is -(n + 1).
pub data ℤ : Type 0 where
  pos : ℕ → ℤ
  negsuc : ℕ → ℤ

-- t < 0
abbrev pub is_negative : ℤ → Bool
is_negative (pos n) = false
is_negative (negsuc n) = true

-- t >= n, for a length n
abbrev pub at_least : ℤ → ℕ → Bool
at_least (pos t) n = leb n t
at_least (negsuc t) n = false
