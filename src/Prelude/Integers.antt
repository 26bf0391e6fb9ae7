-- ===== src/Prelude/Integers.antt =====
-- Signed integers over the native numbers: the tests of Go's int that the components use.
use Prim.Native.Nat.{ℕ}
use mathlib.Core.Path.{◌≡◌, ap}
use mathlib.Core.Bool.{Bool, true, false}
use zyzxlibcalico_go.Prelude.Tests.{ltb, ◌==◌, ==_iff}

-- `negsuc n` is -(n + 1).
pub data ℤ : Type 0 where
  pos : ℕ → ℤ
  negsuc : ℕ → ℤ

-- The number, or 0 for a negative one.
abbrev pub pos_part : ℤ → ℕ
pos_part (pos n) = n
pos_part (negsuc n) = 0

abbrev pub is_positive : ℤ → Bool
is_positive z = ltb 0 (pos_part z)

abbrev pub is_negative : ℤ → Bool
is_negative (pos n) = false
is_negative (negsuc n) = true

abbrev pub is_zero : ℤ → Bool
is_zero (pos n) = n == 0
is_zero (negsuc n) = false

abbrev pub less : ℤ → ℤ → Bool
less (pos m) (pos n) = ltb m n
less (pos m) (negsuc n) = false
less (negsuc m) (pos n) = true
less (negsuc m) (negsuc n) = ltb n m

abbrev pub same_int : ℤ → ℤ → Bool
same_int (pos m) (pos n) = m == n
same_int (negsuc m) (negsuc n) = m == n
same_int _ _ = false

pub same_int→≡ : (a b : ℤ) → same_int a b ≡ true → a ≡ b
same_int→≡ (pos m) (pos n) h = ap pos ((==_iff m n).0 h)
same_int→≡ (negsuc m) (negsuc n) h = ap negsuc ((==_iff m n).0 h)
same_int→≡ (pos m) (negsuc n) h = cc
same_int→≡ (negsuc m) (pos n) h = cc
