-- ===== src/Prelude/Int.antt =====
-- Signed integers over the native numbers, for the source's int32, int64 and int that may be
-- negative.
use Prim.Native.Nat.{ℕ, suc, ◌+◌, ◌-◌, ◌≤◌, ◌*◌, ◌%◌, ◌^◌}
use mathlib.Core.Bool.{Bool}
use ticket_watcher.Prelude.Tests.{leb, ltb, if◌then◌else◌}

-- `negsuc n` is -(n + 1).
pub data ℤ : Type 0 where
  pos : ℕ → ℤ
  negsuc : ℕ → ℤ

abbrev pub pos_part : ℤ → ℕ
pos_part (pos n) = n
pos_part (negsuc n) = 0

abbrev pub neg_part : ℤ → ℕ
neg_part (pos n) = 0
neg_part (negsuc n) = suc n

-- a - b, as an integer.
abbrev pub sub_ℕ : ℕ → ℕ → ℤ
sub_ℕ a b = if leb b a then pos (a - b) else negsuc (b - a - 1)

infix 50 ◌≤ℤ◌
abbrev pub ◌≤ℤ◌ : ℤ → ℤ → Type 0
a ≤ℤ b = pos_part a + neg_part b ≤ pos_part b + neg_part a

abbrev pub leb_ℤ : ℤ → ℤ → Bool
leb_ℤ a b = leb (pos_part a + neg_part b) (pos_part b + neg_part a)

abbrev pub ltb_ℤ : ℤ → ℤ → Bool
ltb_ℤ a b = ltb (pos_part a + neg_part b) (pos_part b + neg_part a)

-- The low 64 bits of a number, as an int64.
abbrev pub int64_of_ℕ : ℕ → ℤ
int64_of_ℕ n = let r = n % 2 ^ 64 in if ltb r (2 ^ 63) then pos r else negsuc (2 ^ 64 - 1 - r)

-- A product as Go computes it on int64, which wraps around.
abbrev pub mul_int64 : ℤ → ℕ → ℤ
mul_int64 (pos n) k = int64_of_ℕ (n * k)
mul_int64 (negsuc n) k = int64_of_ℕ (2 ^ 64 - suc n * k % 2 ^ 64)

-- `int32(n)`: the low 32 bits.
abbrev pub int32_of_ℕ : ℕ → ℤ
int32_of_ℕ n = let r = n % 2 ^ 32 in if ltb r (2 ^ 31) then pos r else negsuc (2 ^ 32 - 1 - r)

abbrev pub int32 : ℤ → ℤ
int32 (pos n) = int32_of_ℕ n
int32 (negsuc n) = int32_of_ℕ (2 ^ 32 - suc n % 2 ^ 32)
