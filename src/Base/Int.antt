-- ===== src/Base/Int.antt =====
-- Go's `int`, as signed integers over the native numbers (overflow is never reached by the code
-- that uses them: each value is range-checked before it is computed with).
use Prim.Native.Nat.{ℕ, suc, ◌+◌, ◌-◌}
use mathlib.Core.Bool.{Bool, true, ◌&&◌}
use mathlib.Core.Path.{◌≡◌, ap}
use native.Mathlib.Omega.{arith}
use hyprland_computer_use.Base.Tests.{ltb, eqb, if◌then◌else◌}

-- `negsuc n` is -(n + 1).
pub data ℤ : Type 0 where
  pos : ℕ → ℤ
  negsuc : ℕ → ℤ

abbrev pub pos_part : ℤ → ℕ
pos_part (pos n) = n
pos_part (negsuc n) = 0

abbrev pub neg_part : ℤ → ℕ
neg_part (pos n) = 0
neg_part (negsuc n) = suc n

abbrev pub ltb_ℤ : ℤ → ℤ → Bool
ltb_ℤ a b = ltb (pos_part a + neg_part b) (pos_part b + neg_part a)

-- `a == b`
abbrev pub eqb_ℤ : ℤ → ℤ → Bool
eqb_ℤ a b = eqb (pos_part a) (pos_part b) && eqb (neg_part a) (neg_part b)

-- `a - b`
abbrev pub sub_ℤ : ℤ → ℤ → ℤ
sub_ℤ a b =
    let p = pos_part a + neg_part b in
    let n = pos_part b + neg_part a in if ltb p n then negsuc (n - p - 1) else pos (p - n)

pub eqb_ℤ→≡ : (a b : ℤ) → eqb_ℤ a b ≡ true → a ≡ b
eqb_ℤ→≡ (pos m) (pos n) h = ap pos (ground arith)
eqb_ℤ→≡ (pos m) (negsuc n) h = absurd (ground arith)
eqb_ℤ→≡ (negsuc m) (pos n) h = absurd (ground arith)
eqb_ℤ→≡ (negsuc m) (negsuc n) h = ap negsuc (ground arith)
