-- ===== src/Scheduler/Score/Bounds.antt =====
-- The range of the score, whose sums are i32.
use aethos_linux.Base.{ℕ, ◌≤◌, ◌<◌, arith, i32_max}
use aethos_linux.Scheduler.Float.{FloatOps}
use aethos_linux.Scheduler.Types.{
  BudgetProfile, CargoItem, EncounterScoreComponents, canonical_v1, new_scheduler,
}
use aethos_linux.Scheduler.Score.{raw_components, quantize_millionths, weighted_sum, score}

module _ {F : Type 0} (fl : FloatOps F) where
  quantize_millionths-le : (x : F) → quantize_millionths fl x ≤ 1_000_000
  unfolding quantize_millionths
  quantize_millionths-le x = omega arith

  weighted_sum-le :
      (raw : EncounterScoreComponents F) → weighted_sum fl canonical_v1 raw ≤ 100_000_000
  unfolding weighted_sum
  weighted_sum-le raw = omega (arith, quantize_millionths-le raw.scarcity)

  -- For every item, budget and time, a new scheduler's score numerator is at most 100_000_000 (the
  -- weights add up to 100), which is below the largest i32.
  pub score_numerator-le :
      (item : CargoItem F) (budget : BudgetProfile F) (now : ℕ)
      → ((score fl new_scheduler item budget now).score_breakdown.score_numerator ≤ 100_000_000)
        × ((score fl new_scheduler item budget now).score_breakdown.score_numerator < i32_max)
  unfolding score
  score_numerator-le item budget now =
      let bound = weighted_sum-le (raw_components fl item budget now) in (bound, omega arith)
