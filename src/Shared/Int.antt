-- ===== src/Shared/Int.antt =====
-- Signed integers over the native numbers, under the library's names.
use Prim.Native.Nat.{ℕ, suc, ◌+◌, ◌-◌, ◌%◌, ◌^◌, ◌≤◌}
use mathlib.Core.Bool.{Bool}
use elite_robots_cs_sdk.Shared.Tests.{ltb, if◌then◌else◌}

-- `negsuc n` is -(n + 1).
pub data ℤ : Type 0 where
  pos : ℕ → ℤ
  negsuc : ℕ → ℤ

abbrev pub pos_part : ℤ → ℕ
pos_part (pos n) = n
pos_part (negsuc n) = 0

abbrev pub neg_part : ℤ → ℕ
neg_part (pos n) = 0
neg_part (negsuc n) = suc n

abbrev pub ltb_ℤ : ℤ → ℤ → Bool
ltb_ℤ a b = ltb (pos_part a + neg_part b) (pos_part b + neg_part a)

abbrev pub ◌≤ℤ◌ : ℤ → ℤ → Type 0
◌≤ℤ◌ a b = pos_part a + neg_part b ≤ pos_part b + neg_part a

-- Conversion to an unsigned type of `n` bits, or to the bit pattern of a signed one: modulo 2 ^ n.
abbrev pub wrap : ℕ → ℤ → ℕ
wrap n (pos a) = a % 2 ^ n
wrap n (negsuc a) = 2 ^ n - 1 - a % 2 ^ n

-- The integer that a bit pattern of `n` bits stands for in a signed type.
abbrev pub signed : ℕ → ℕ → ℤ
signed n w = if ltb w (2 ^ (n - 1)) then pos w else negsuc (2 ^ n - 1 - w)
