-- ===== src/Scheduler/Score.antt =====
-- `score` and the helpers that quantise its components to millionths.
pub mod Bounds
use aethos_linux.Base.{
  ℕ, ◌+◌, ◌*◌, ◌-◌, min, max, Bool, true, false, Option, none, some, if◌then◌else◌,
}
use aethos_linux.Base.Int.{ℤ, pos, pos_part, max_ℤ}
use aethos_linux.Scheduler.Float.{FloatOps}
use aethos_linux.Scheduler.Types.{
  EncounterScoreWeights, EncounterScoreComponents, EncounterScoreBreakdown, BudgetProfile,
  CargoItem, ProximityClass, destination_peer, likely_closer, other, EncounterSchedulerV1,
  ScoredItem,
}

-- `Option::unwrap_or`
abbrev pub unwrap_or {ℓ} : {A : Type ℓ} → Option A → A → A
unwrap_or none default = default
unwrap_or (some value) default = value

-- `int_difference`, that is `saturating_sub` on u64.
unfoldable pub int_difference : ℕ → ℕ → ℕ
int_difference lhs rhs = lhs - rhs

module _ {F : Type 0} (fl : FloatOps F) where
  open fl use {
    lit, of_i32, of_u64, to_i64, add, sub, mul, div, fmin, clamp, ln_1p, round_ties_even, is_same,
  }

  unfoldable pub clamp01 : F → F
  clamp01 value = clamp value (lit 0 1) (lit 1 1)

  -- The last clamp, to 0 and 1_000_000, leaves a natural number.
  unfoldable pub quantize_millionths : F → ℕ
  unfolding clamp01
  quantize_millionths value =
      min (pos_part (to_i64 (round_ties_even (mul (clamp01 value) (lit 1_000_000 1))))) 1_000_000

  unfoldable pub from_millionths : ℕ → F
  from_millionths value = div (of_i32 (pos value)) (lit 1_000_000 1)

  unfoldable pub from_score_numerator : ℕ → F
  from_score_numerator score_numerator = div (of_i32 (pos score_numerator)) (lit 100_000_000 1)

  unfoldable pub proximity_raw : ProximityClass → F
  proximity_raw destination_peer = lit 1 1
  proximity_raw likely_closer = lit 6 10
  proximity_raw other = lit 0 1

  -- The eight components before they are quantised, in the record of the components.
  unfoldable pub raw_components : CargoItem F → BudgetProfile F → ℕ → EncounterScoreComponents F
  unfolding clamp01 int_difference proximity_raw
  raw_components item budget now_unix_ms =
      let known = unwrap_or item.known_replica_count (pos 0) in
      let target =
        max_ℤ (pos 1) (unwrap_or item.target_replica_count budget.target_replica_count_default) in
      let durable_risk = if unwrap_or item.durably_stored false then lit 0 1 else lit 1 1 in
      let relay_risk = if unwrap_or item.relay_ingested false then lit 0 1 else lit 1 1 in
      let receipt_risk = sub (lit 1 1) (clamp01 (unwrap_or item.receipt_coverage (lit 0 1))) in
      let ttl_ms = int_difference item.expiry_at_unix_ms now_unix_ms in
      let idle_ms = int_difference now_unix_ms (unwrap_or item.last_forwarded_at_unix_ms 0) in
      let size_denominator = ln_1p (of_i32 (max_ℤ (pos 1) budget.preferred_transfer_unit_bytes)) in
      record {
        scarcity = clamp01 (sub (lit 1 1) (fmin (div (of_i32 known) (of_i32 target)) (lit 1 1)));
        safety = clamp01 (
            add (add (mul durable_risk (lit 45 100)) (mul relay_risk (lit 35 100)))
              (mul receipt_risk (lit 20 100)));
        expiry = clamp01 (
            sub (lit 1 1) (
              fmin (div (of_u64 ttl_ms) (of_u64 (max 1 budget.expiry_urgency_horizon_ms)))
                (lit 1 1)));
        stagnation =
            clamp01
              (fmin (div (of_u64 idle_ms) (of_u64 (max 1 budget.stagnation_horizon_ms))) (lit 1 1));
        proximity = proximity_raw (unwrap_or item.proximity_class other);
        size =
            if is_same size_denominator (lit 0 1)
            then lit 0 1
            else clamp01 (
                sub (lit 1 1)
                  (fmin (div (ln_1p (of_i32 item.size_bytes)) size_denominator) (lit 1 1)));
        intent = if unwrap_or item.explicit_user_initiated false then lit 1 1 else lit 0 1;
        content_class = clamp01 (unwrap_or item.content_class_score (lit 0 1));
      }

  -- `score_numerator`: the sum of i32 products, in ℕ.
  unfoldable pub weighted_sum : EncounterScoreWeights → EncounterScoreComponents F → ℕ
  unfolding quantize_millionths
  weighted_sum weights raw =
      quantize_millionths raw.scarcity * weights.scarcity
      + quantize_millionths raw.safety * weights.safety
      + quantize_millionths raw.expiry * weights.expiry
      + quantize_millionths raw.stagnation * weights.stagnation
      + quantize_millionths raw.proximity * weights.proximity
      + quantize_millionths raw.size * weights.size
      + quantize_millionths raw.intent * weights.intent
      + quantize_millionths raw.content_class * weights.content_class

  unfoldable pub quantized : F → F
  unfolding quantize_millionths from_millionths
  quantized raw = from_millionths (quantize_millionths raw)

  unfoldable pub score : EncounterSchedulerV1 → CargoItem F → BudgetProfile F → ℕ → ScoredItem F
  unfolding raw_components weighted_sum quantized from_score_numerator
  score self item budget now_unix_ms =
      let raw = raw_components item budget now_unix_ms in
      let numerator = weighted_sum self.score_weights raw in
      record {
        cargo_item = item;
        known_replica_count = unwrap_or item.known_replica_count (pos 0);
        last_forwarded_at_unix_ms = unwrap_or item.last_forwarded_at_unix_ms 0;
        score_breakdown = record {
          item_id = item.item_id;
          components = record {
            scarcity = quantized raw.scarcity;
            safety = quantized raw.safety;
            expiry = quantized raw.expiry;
            stagnation = quantized raw.stagnation;
            proximity = quantized raw.proximity;
            size = quantized raw.size;
            intent = quantized raw.intent;
            content_class = quantized raw.content_class;
          };
          score_numerator = numerator;
          score = from_score_numerator numerator;
        };
      }
