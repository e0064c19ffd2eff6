-- ===== src/Scheduler/Rank.antt =====
-- `ranks_before`, `tie_break_reason_between`, and the loop of `schedule` that turns scored items
-- into ranked ones.
pub mod Order
use aethos_linux.Base.{
  ℕ, Bool, true, false, not, ◌&&◌, ◌||◌, List, [], ◌∷◌, Option, none, some, ◌==◌, if◌then◌else◌,
}
use aethos_linux.Base.Int.{eqb_ℤ}
use aethos_linux.Base.Text.{text_eq}
use aethos_linux.Base.Sort.Order.{Ord, nat_ord, int_ord, text_ord, dual, then_by}
use aethos_linux.Scheduler.Types.{
  EncounterTieBreakReason, no_tie, by_size_bytes, by_expiry_at_unix_ms, by_known_replica_count,
  by_last_forwarded_at_unix_ms, by_destination_rank, by_item_id, RankedCargoItem, ScoredItem,
}

-- `reason == EncounterTieBreakReason::None`
unfoldable pub is_no_tie : EncounterTieBreakReason → Bool
is_no_tie no_tie = true
is_no_tie _ = false

-- `if global == None && tie != None { global = tie; }`
unfoldable pub next_global :
    EncounterTieBreakReason → EncounterTieBreakReason → EncounterTieBreakReason
unfolding is_no_tie
next_global global tie = if is_no_tie global && not (is_no_tie tie) then tie else global

module _ {F : Type 0} where
  -- Each line is `if lhs.key != rhs.key { return lhs.key < rhs.key; }`, with `>` under `dual`.
  unfoldable pub ranks_before : ScoredItem F → ScoredItem F → Bool
  ranks_before =
      then_by int_ord (λ s. s.cargo_item.tier)
        (then_by (dual nat_ord) (λ s. s.score_breakdown.score_numerator)
          (then_by int_ord (λ s. s.cargo_item.size_bytes)
            (then_by nat_ord (λ s. s.cargo_item.expiry_at_unix_ms)
              (then_by int_ord (λ s. s.known_replica_count)
                (then_by nat_ord (λ s. s.last_forwarded_at_unix_ms)
                  (then_by (dual int_ord) (λ s. s.cargo_item.destination_rank)
                    (λ lhs rhs.
                      (dual text_ord).before lhs.cargo_item.item_id rhs.cargo_item.item_id)))))))

  unfoldable pub tie_break_reason_between : ScoredItem F → ScoredItem F → EncounterTieBreakReason
  tie_break_reason_between previous current =
      if not (eqb_ℤ previous.cargo_item.tier current.cargo_item.tier)
        || not (previous.score_breakdown.score_numerator == current.score_breakdown.score_numerator)
      then no_tie
      else if not (eqb_ℤ previous.cargo_item.size_bytes current.cargo_item.size_bytes)
      then by_size_bytes
      else if not (previous.cargo_item.expiry_at_unix_ms == current.cargo_item.expiry_at_unix_ms)
      then by_expiry_at_unix_ms
      else if not (eqb_ℤ previous.known_replica_count current.known_replica_count)
      then by_known_replica_count
      else if not (previous.last_forwarded_at_unix_ms == current.last_forwarded_at_unix_ms)
      then by_last_forwarded_at_unix_ms
      else if not (eqb_ℤ previous.cargo_item.destination_rank current.cargo_item.destination_rank)
      then by_destination_rank
      else if not (text_eq previous.cargo_item.item_id current.cargo_item.item_id)
      then by_item_id
      else no_tie

  -- The first item has none before it.
  tie_reason : Option (ScoredItem F) → ScoredItem F → EncounterTieBreakReason
  unfolding tie_break_reason_between
  tie_reason none scored = no_tie
  tie_reason (some previous) scored = tie_break_reason_between previous scored

  -- The loop over `ranked_scored`: `previous` is the item at `index - 1`.
  unfoldable pub rank_from : Option (ScoredItem F) → List (ScoredItem F) → List (RankedCargoItem F)
  unfolding tie_reason
  rank_from previous [] = []
  rank_from previous (scored ∷ rest) =
      record {
        cargo_item = scored.cargo_item;
        score_breakdown = scored.score_breakdown;
        tie_break_reason = tie_reason previous scored;
        selection_reason = none;
      }
      ∷ rank_from (some scored) rest

  -- The reason that the loop keeps in `global_tie_break_reason`.
  unfoldable pub global_tie :
      EncounterTieBreakReason → List (RankedCargoItem F) → EncounterTieBreakReason
  unfolding next_global
  global_tie global [] = global
  global_tie global (ranked ∷ rest) = global_tie (next_global global ranked.tie_break_reason) rest
