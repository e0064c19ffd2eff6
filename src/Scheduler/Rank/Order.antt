-- ===== src/Scheduler/Rank/Order.antt =====
-- `ranks_before` as an order.
use aethos_linux.Base.{◌≡◌, false, arith}
use aethos_linux.Base.Text.{text_lt_total, text_eq_iff}
use aethos_linux.Base.Sort.Order.{
  nat_ord, int_ord, text_ord, dual, IsStrictWeak, then_by-IsStrictWeak, before-IsStrictWeak,
}
use aethos_linux.Scheduler.Types.{ScoredItem}
use aethos_linux.Scheduler.Rank.{ranks_before}

module _ {F : Type 0} where
  -- `ranks_before` is asymmetric, and what does not rank before composes: sorting by it is
  -- determined.
  pub ranks_before-IsStrictWeak : IsStrictWeak (ranks_before {F = F})
  unfolding ranks_before
  ranks_before-IsStrictWeak =
      then_by-IsStrictWeak int_ord (λ s. s.cargo_item.tier)
        (then_by-IsStrictWeak (dual nat_ord) (λ s. s.score_breakdown.score_numerator)
          (then_by-IsStrictWeak int_ord (λ s. s.cargo_item.size_bytes)
            (then_by-IsStrictWeak nat_ord (λ s. s.cargo_item.expiry_at_unix_ms)
              (then_by-IsStrictWeak int_ord (λ s. s.known_replica_count)
                (then_by-IsStrictWeak nat_ord (λ s. s.last_forwarded_at_unix_ms)
                  (then_by-IsStrictWeak (dual int_ord) (λ s. s.cargo_item.destination_rank)
                    (before-IsStrictWeak (dual text_ord) (λ s. s.cargo_item.item_id))))))))

  -- Two items neither of which ranks before the other have one identifier.
  pub ranks_before-total :
      (lhs rhs : ScoredItem F)
      → ranks_before lhs rhs ≡ false
      → ranks_before rhs lhs ≡ false
      → lhs.cargo_item.item_id ≡ rhs.cargo_item.item_id
  unfolding ranks_before
  ranks_before-total lhs rhs h k = ground (
    arith,
    text_lt_total lhs.cargo_item.item_id rhs.cargo_item.item_id,
    text_eq_iff lhs.cargo_item.item_id rhs.cargo_item.item_id,
  )

  pub ranks_before_irrefl : (s : ScoredItem F) → ranks_before s s ≡ false
  ranks_before_irrefl s = ground (arith, ranks_before-IsStrictWeak.asym s s)
