-- ===== src/Base/Int.antt =====
-- Signed integers over the native numbers, for the i32 fields that the source validates.
use Prim.Native.Nat.{ℕ, suc, ◌+◌, ◌-◌, ◌%◌, ◌^◌, ◌≤◌, ◌<◌, min}
use mathlib.Core.Path.{◌≡◌}
use mathlib.Core.Logic.{◌↔◌}
use mathlib.Core.Bool.{Bool, true}
use native.Mathlib.Omega.{arith}
use aethos_linux.Base.Tests.{ltb, leb, ◌==◌, if◌then◌else◌, i32_max, u64_max}

-- `negsuc n` is -(n + 1).
pub data ℤ : Type 0 where
  pos : ℕ → ℤ
  negsuc : ℕ → ℤ

abbrev pub pos_part : ℤ → ℕ
pos_part (pos n) = n
pos_part (negsuc n) = 0

abbrev pub neg_part : ℤ → ℕ
neg_part (pos n) = 0
neg_part (negsuc n) = suc n

infix 50 ◌≤ℤ◌
abbrev pub ◌≤ℤ◌ : ℤ → ℤ → Type 0
a ≤ℤ b = pos_part a + neg_part b ≤ pos_part b + neg_part a

abbrev pub ltb_ℤ : ℤ → ℤ → Bool
ltb_ℤ a b = ltb (pos_part a + neg_part b) (pos_part b + neg_part a)

abbrev pub eqb_ℤ : ℤ → ℤ → Bool
eqb_ℤ a b = pos_part a + neg_part b == pos_part b + neg_part a

pub eqb_ℤ_iff : (a b : ℤ) → (eqb_ℤ a b ≡ true) ↔ (a ≡ b)
eqb_ℤ_iff a b = ground arith

-- a - b, as an integer.
abbrev pub sub_ℕ : ℕ → ℕ → ℤ
sub_ℕ a b = if leb b a then pos (a - b) else negsuc (b - a - 1)

infixl 65 ◌+ℤ◌
unfoldable pub ◌+ℤ◌ : ℤ → ℤ → ℤ
a +ℤ b = sub_ℕ (pos_part a + pos_part b) (neg_part a + neg_part b)

-- `as i32` of an unsigned word: its low 32 bits, read as a signed word.
unfoldable pub as_i32 : ℕ → ℤ
as_i32 n = if ltb (n % 2 ^ 32) (2 ^ 31) then pos (n % 2 ^ 32) else negsuc (2 ^ 32 - n % 2 ^ 32 - 1)

-- A sum of i32 values brought back into the range of the word.
abbrev pub clamp_i32 : ℤ → ℤ
clamp_i32 z =
    if ltb i32_max (pos_part z)
    then pos i32_max
    else if ltb (2 ^ 31) (neg_part z)
    then negsuc i32_max
    else z

-- `lhs.saturating_add(rhs)` on i32.
unfoldable pub saturating_add_i32 : ℤ → ℤ → ℤ
unfolding ◌+ℤ◌
saturating_add_i32 lhs rhs = clamp_i32 (lhs +ℤ rhs)

abbrev pub min_ℤ : ℤ → ℤ → ℤ
min_ℤ a b = if ltb_ℤ b a then b else a

abbrev pub max_ℤ : ℤ → ℤ → ℤ
max_ℤ a b = if ltb_ℤ a b then b else a

-- A small number keeps its value as an i32.
pub as_i32-pos : (n : ℕ) → n ≤ i32_max → as_i32 n ≡ pos n
unfolding as_i32
as_i32-pos n h = ground (arith, small)
  where
    small : n % 2 ^ 32 ≡ n
    small = omega arith

-- A saturating sum of values that are not negative is their sum, cut off at the largest i32.
pub saturating_add_i32-pos :
    (a b : ℕ) → saturating_add_i32 (pos a) (pos b) ≡ pos (min (a + b) i32_max)
unfolding saturating_add_i32
saturating_add_i32-pos a b = ground arith

abbrev pub leb_ℤ : ℤ → ℤ → Bool
leb_ℤ a b = leb (pos_part a + neg_part b) (pos_part b + neg_part a)

-- `as i64` of a u64, and `as u64` and `as u16` of an i64.
unfoldable pub as_i64 : ℕ → ℤ
as_i64 n = if ltb (n % 2 ^ 64) (2 ^ 63) then pos (n % 2 ^ 64) else negsuc (2 ^ 64 - n % 2 ^ 64 - 1)

unfoldable pub as_u64 : ℤ → ℕ
as_u64 (pos n) = n % 2 ^ 64
as_u64 (negsuc n) = 2 ^ 64 - 1 - n % 2 ^ 64

unfoldable pub as_u16 : ℤ → ℕ
as_u16 (pos n) = n % 2 ^ 16
as_u16 (negsuc n) = 2 ^ 16 - 1 - n % 2 ^ 16

-- A u64 comes back from an i64 as it was.
pub as_u64-as_i64 : (n : ℕ) → n ≤ u64_max → as_u64 (as_i64 n) ≡ n
unfolding as_i64 as_u64
as_u64-as_i64 n h = ground arith

pub as_i64-pos : (n : ℕ) → n < 2 ^ 63 → as_i64 n ≡ pos n
unfolding as_i64
as_i64-pos n h = ground arith

-- From 2 ^ 63 on, a u64 is a negative i64.
pub as_i64-negative : (n : ℕ) → 2 ^ 63 ≤ n → n ≤ u64_max → pos_part (as_i64 n) ≡ 0
unfolding as_i64
as_i64-negative n h k = ground arith
