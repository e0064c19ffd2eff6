-- ===== src/Scheduler/Plan/OrderFree.antt =====
-- `schedule` on the same cargo items in another order.
use mathlib.Core.List.{Mem, Perm, nil≢cons, mem-map_of_mem, mem-cons, not-mem-nil}
use mathlib.Core.List.Perm
use mathlib.Core.Logic.Or
use aethos_linux.Base.{ℕ, ◌≡◌, refl, sym, ap, ◌∙◌, false, List, [], ◌∷◌, arith, map}
use aethos_linux.Base.Text.{Text, contains, text_eq_refl}
use aethos_linux.Base.Result.{ok}
use aethos_linux.Base.Filter.{filter-perm, mem_of_mem-filter}
use aethos_linux.Base.Sort.Laws.{Separates, All-mem, sort_by-perm, sorted_unique}
use aethos_linux.Scheduler.Float.{FloatOps}
use aethos_linux.Scheduler.Types.{
  BudgetProfile, CargoItem, EncounterSchedulerV1, EncounterSchedulerResult, ScoredItem,
}
use aethos_linux.Scheduler.Validate.Accepts.{Fresh}
use aethos_linux.Scheduler.Rank.{ranks_before}
use aethos_linux.Scheduler.Rank.Order.{ranks_before-total, ranks_before_irrefl}
use aethos_linux.Scheduler.Plan.{ranking, plan_eligible, schedule}
use aethos_linux.Scheduler.Plan.Ranking.{
  eligible_items, scored, scored_again, ranking-perm, ranking-IsSorted, schedule-eq, schedule-valid,
}

CargoItem-set : {F : Type 0} → IsSet F → IsSet (CargoItem F)
CargoItem-set F_set = hlevel F_set

module _ {F : Type 0} (F_set : IsSet F) where
  Fresh-contains :
      (seen : List Text) (items : List (CargoItem F)) (x : CargoItem F)
      → Fresh seen items
      → Mem x items
      → contains seen x.item_id ≡ false
  unfolding contains
  Fresh-contains seen [] x f m = absurd (not-mem-nil m)
  Fresh-contains seen (item ∷ items) x f m =
      Or.elim (hlevel) (mem-cons.0 m) (λ e. rw e f.0)
        (λ later. ground (arith, Fresh-contains (item.item_id ∷ seen) items x f.1 later))

  later_differs :
      (seen : List Text) (items : List (CargoItem F)) (item x : CargoItem F)
      → Fresh (item.item_id ∷ seen) items
      → Mem x items
      → item.item_id ≡ x.item_id
      → ⊥
  unfolding contains
  later_differs seen items item x f m e =
      ground (arith, Fresh-contains (item.item_id ∷ seen) items x f m, text_eq_refl x.item_id)

  -- Fresh items with one identifier are one item.
  Fresh-same :
      (seen : List Text) (items : List (CargoItem F)) (x y : CargoItem F)
      → Fresh seen items
      → Mem x items
      → Mem y items
      → x.item_id ≡ y.item_id
      → x ≡ y
  Fresh-same seen [] x y f mx my e = absurd (not-mem-nil mx)
  Fresh-same seen (item ∷ items) x y f mx my e =
      Or.elim (CargoItem-set F_set x y) (mem-cons.0 mx)
        (λ here.
          Or.elim (CargoItem-set F_set x y) (mem-cons.0 my) (λ also. here ∙ sym also)
            (λ later. absurd (later_differs seen items item y f.1 later (cc))))
        (λ there.
          Or.elim (CargoItem-set F_set x y) (mem-cons.0 my)
            (λ here. absurd (later_differs seen items item x f.1 there (cc)))
            (λ later. Fresh-same (item.item_id ∷ seen) items x y f.1 there later e))

ScoredItem-set : {F : Type 0} → IsSet F → IsSet (ScoredItem F)
ScoredItem-set F_set = hlevel F_set

module _ {F : Type 0} (F_set : IsSet F) (fl : FloatOps F) (self : EncounterSchedulerV1)
    (budget : BudgetProfile F) (now : ℕ) where
  abbrev IsDistinct : List (CargoItem F) → Type 0
  IsDistinct items = (x y : CargoItem F) → Mem x items → Mem y items → x.item_id ≡ y.item_id → x ≡ y

  ranked-scored :
      (items : List (CargoItem F)) (s : ScoredItem F)
      → Mem s (ranking fl self budget now items)
      → (scored fl self budget now s.cargo_item ≡ s) × Mem s.cargo_item items
  unfolding ranking
  ranked-scored items s m =
      let all = map (scored fl self budget now) items in
      let m' : Mem s all = (Perm.mem_iff (sort_by-perm ranks_before all)).0 m in
      let e : scored fl self budget now s.cargo_item ≡ s =
        All-mem {P = λ s. scored fl self budget now s.cargo_item ≡ s}
          (λ s. ScoredItem-set F_set (scored fl self budget now s.cargo_item) s) s all
          (scored_again fl self budget now items) m' in
      (
        e,
        (Perm.mem_iff (ranking-perm fl self budget now items)).0
            (mem-map_of_mem (λ t. t.cargo_item) m),
      )

  ranking-Separates :
      (items : List (CargoItem F))
      → IsDistinct items
      → Separates ranks_before (ranking fl self budget now items)
  ranking-Separates items distinct a b ma mb h k =
      let (ea, ia) = ranked-scored items a ma in
      let (eb, ib) = ranked-scored items b mb in
      sym ea
      ∙ ap (scored fl self budget now)
          (distinct a.cargo_item b.cargo_item ia ib (ranks_before-total a b h k))
      ∙ eb

  ranking-order_free :
      (xs ys : List (CargoItem F))
      → IsDistinct xs
      → Perm xs ys
      → ranking fl self budget now xs ≡ ranking fl self budget now ys
  unfolding ranking
  ranking-order_free xs ys distinct p =
      sorted_unique ranks_before ranks_before_irrefl _ _ (ranking-IsSorted fl self budget now xs)
        (ranking-IsSorted fl self budget now ys)
        (Perm.trans (sort_by-perm ranks_before _)
          (Perm.trans (Perm.map _ p) (Perm.symm (sort_by-perm ranks_before _))))
        (ranking-Separates xs distinct)

  plan_eligible-order_free :
      (xs ys : List (CargoItem F))
      → IsDistinct xs
      → Perm xs ys
      → plan_eligible fl self budget now xs ≡ plan_eligible fl self budget now ys
  unfolding plan_eligible
  plan_eligible-order_free [] [] distinct p = refl
  plan_eligible-order_free [] (y ∷ ys) distinct p = absurd (nil≢cons (Perm.nil-eq p))
  plan_eligible-order_free (x ∷ xs) [] distinct p = absurd (nil≢cons (sym (Perm.eq-nil p)))
  plan_eligible-order_free (x ∷ xs) (y ∷ ys) distinct p =
      rw (ranking-order_free (x ∷ xs) (y ∷ ys) distinct p)

  -- Where `schedule` succeeds on two listings of the same items, it returns one plan.
  pub schedule-order_free :
      (xs ys : List (CargoItem F)) (r s : EncounterSchedulerResult F)
      → Perm xs ys
      → schedule fl self budget now xs ≡ ok r
      → schedule fl self budget now ys ≡ ok s
      → r ≡ s
  schedule-order_free xs ys r s p hr hs =
      let eligible = λ (items : List (CargoItem F)). eligible_items self now items in
      let distinct : IsDistinct (eligible xs) = λ x y mx my.
        Fresh-same F_set [] xs x y (schedule-valid fl self budget now xs hr).distinct
          (mem_of_mem-filter _ xs mx) (mem_of_mem-filter _ xs my) in
      schedule-eq fl self budget now xs hr
      ∙ plan_eligible-order_free (eligible xs) (eligible ys) distinct (filter-perm _ p)
      ∙ sym (schedule-eq fl self budget now ys hs)
