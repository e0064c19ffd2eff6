-- ===== src/Scheduler/Float.antt =====
-- The f64 operations that the scheduler uses. The type of floats and its operations are a
-- parameter: nothing that is proved of the scheduler depends on how a float is rounded.
use aethos_linux.Base.{ℕ, ◌+◌, ◌*◌, ◌-◌, ◌/◌, Bool, ltb, ◌==◌, min, max}
use aethos_linux.Base.Int.{ℤ, pos, pos_part}

pub record FloatOps (F : Type 0) : Type 0 where
  -- The literal `numerator / denominator`, such as 0.45.
  pub lit : ℕ → ℕ → F
  -- `as f64` of an i32 and of a u64.
  pub of_i32 : ℤ → F
  pub of_u64 : ℕ → F
  -- `as i64`.
  pub to_i64 : F → ℤ
  pub add : F → F → F
  pub sub : F → F → F
  pub mul : F → F → F
  pub div : F → F → F
  -- `f64::min`, `clamp`, `ln_1p` and `round_ties_even`.
  pub fmin : F → F → F
  pub clamp : F → F → F → F
  pub ln_1p : F → F
  pub round_ties_even : F → F
  -- `>` and `==`.
  pub gt : F → F → Bool
  pub is_same : F → F → Bool

-- Numbers in millionths, cut off at zero: floats to run the scheduler with.
abbrev pub millionths : FloatOps ℕ
millionths = record {
  lit = λ n d. n * 1_000_000 / d;
  of_i32 = λ z. pos_part z * 1_000_000;
  of_u64 = λ n. n * 1_000_000;
  to_i64 = λ x. pos (x / 1_000_000);
  add = ◌+◌;
  sub = ◌-◌;
  mul = λ x y. x * y / 1_000_000;
  div = λ x y. x * 1_000_000 / y;
  fmin = min;
  clamp = λ x lo hi. min (max x lo) hi;
  ln_1p = λ x. x;
  round_ties_even = λ x. x;
  gt = λ x y. ltb y x;
  is_same = ◌==◌;
}
