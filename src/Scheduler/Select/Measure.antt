-- ===== src/Scheduler/Select/Measure.antt =====
-- What the selection loop counts: items, bytes and milliseconds, the sums cut at the greatest i32.
use aethos_linux.Base.{
  ℕ, ◌+◌, ◌≤◌, ◌<◌, ◌≡◌, subst, ap, ◌∙◌, true, false, List, [], ◌∷◌, Option, none, some, arith, map,
  i32_max, min,
}
use aethos_linux.Base.Int.{
  ℤ, pos, negsuc, pos_part, ltb_ℤ, ◌≤ℤ◌, saturating_add_i32, saturating_add_i32-pos,
}
use aethos_linux.Scheduler.Types.{CargoItem, RankedCargoItem}
use aethos_linux.Scheduler.Score.{unwrap_or}
use aethos_linux.Scheduler.Validate.Accepts.{IsAtLeast}
use aethos_linux.Scheduler.Select.{Selection, select_one, over_duration, projected_duration}

module _ {F : Type 0} where
  abbrev pub cargo_items : List (RankedCargoItem F) → List (CargoItem F)
  cargo_items = map (λ ranked. ranked.cargo_item)

  abbrev pub bytes_of : List (CargoItem F) → ℕ
  bytes_of [] = 0
  bytes_of (c ∷ rest) = pos_part c.size_bytes + bytes_of rest

  abbrev pub duration_of : CargoItem F → ℕ
  duration_of item = pos_part (unwrap_or item.estimated_duration_ms (pos 0))

  abbrev pub durations_of : List (CargoItem F) → ℕ
  durations_of [] = 0
  durations_of (c ∷ rest) = duration_of c + durations_of rest

  -- Neither the size nor the duration is negative.
  abbrev pub IsMeasured : CargoItem F → Type 0
  IsMeasured c = (pos 0 ≤ℤ c.size_bytes) × (pos 0 ≤ℤ unwrap_or c.estimated_duration_ms (pos 0))

pub add-pos :
    (z w : ℤ) (a : ℕ)
    → z ≡ pos a
    → pos 0 ≤ℤ w
    → saturating_add_i32 z w ≡ pos (min (a + pos_part w) i32_max)
add-pos z (pos n) a e h = rw e (saturating_add_i32-pos a n)
add-pos z (negsuc n) a e h = absurd (omega arith)

-- What the variables of the loop hold after `n` items of `t` bytes and `d` milliseconds.
pub record Tracks (sel : Selection) (n t d : ℕ) : Type 0 where
  pub counted : sel.selected ≡ n
  pub bytes : sel.total_bytes ≡ pos (min t i32_max)
  pub duration : sel.duration_ms ≡ pos (min d i32_max)

module _ {F : Type 0} where
  pub select_one-Tracks :
      (sel : Selection) (n t d : ℕ) (c : CargoItem F)
      → Tracks sel n t d
      → IsMeasured c
      → Tracks (select_one sel c) (n + 1) (t + pos_part c.size_bytes) (d + duration_of c)
  unfolding select_one projected_duration
  select_one-Tracks sel n t d c v h = record {
    counted = omega (arith, v.counted);
    bytes = add-pos sel.total_bytes _ (min t i32_max) v.bytes h.0 ∙ ap pos (omega arith);
    duration = add-pos sel.duration_ms _ (min d i32_max) v.duration h.1 ∙ ap pos (omega arith);
  }

-- No limit, or one that the saturated sum meets.
abbrev pub IsWithin : Option ℤ → ℕ → Type 0
IsWithin none d = Unit
IsWithin (some limit) d = min d i32_max ≤ pos_part limit

-- A limit that the item at place `k` would pass.
abbrev pub Exceeds : Option ℤ → ℕ → Type 0
Exceeds none d = ⊥
Exceeds (some limit) d = pos_part limit < d

pub ltb-pos : (z : ℤ) (x : ℕ) → pos 0 ≤ℤ z → ltb_ℤ z (pos x) ≡ true → pos_part z < x
ltb-pos z x p h = ground arith

pub not-ltb-pos : (z : ℤ) (x : ℕ) → ltb_ℤ z (pos x) ≡ false → x ≤ pos_part z
not-ltb-pos z x h = ground arith

module _ {F : Type 0} (sel : Selection) (c : CargoItem F) (d : ℕ)
    (track : sel.duration_ms ≡ pos (min d i32_max))
    (known : pos 0 ≤ℤ unwrap_or c.estimated_duration_ms (pos 0)) where
  pub over_duration-Exceeds :
      (limit : Option ℤ)
      → IsAtLeast (pos 0) limit
      → over_duration limit sel c ≡ true
      → Exceeds limit (d + duration_of c)
  unfolding over_duration projected_duration
  over_duration-Exceeds none p h = cc
  over_duration-Exceeds (some limit) p h =
      let past = ltb-pos limit _ p (
        subst (λ z. ltb_ℤ limit z ≡ true) (add-pos sel.duration_ms _ (min d i32_max) track known)
          h) in
      omega arith

  pub over_duration-IsWithin :
      (limit : Option ℤ) → over_duration limit sel c ≡ false → IsWithin limit (d + duration_of c)
  unfolding over_duration projected_duration
  over_duration-IsWithin none h = tt
  over_duration-IsWithin (some limit) h =
      let fits = not-ltb-pos limit _ (
        subst (λ z. ltb_ℤ limit z ≡ false) (add-pos sel.duration_ms _ (min d i32_max) track known)
          h) in
      omega arith
