-- ===== src/Relay/Ingest/Window.antt =====
-- The places of the window over the rounds.
use native.Mathlib.Nat.{mod-add-mod, add-mod-mod, mod-lt, add-mul-mod_self_left, mod-add-div}
use aethos_linux.Base.{
  ℕ, zero, suc, ◌+◌, ◌-◌, ◌*◌, ◌/◌, ◌%◌, ◌<◌, ◌≡◌, refl, sym, ap, ◌∙◌, subst, true, false, inl, inr,
  List, [], ◌∷◌, none, some, arith, leb, length, get_elem?, Option-cases,
}
use aethos_linux.Base.Modular.{distance-mod}
use aethos_linux.Base.Text.{Text, contains, text_eq_refl}
use aethos_linux.Relay.Ingest.{
  relay_ingest_process_max_items, window_from, select_relay_ingest_window_with_wraparound, unix_day,
  relay_ingest_seed_offset, window_offset_of,
}

zero_add : (a : ℕ) → 0 + a ≡ a
zero_add a = omega arith

add_zero : (a : ℕ) → a + 0 ≡ a
add_zero a = omega arith

add_suc : (a b : ℕ) → a + suc b ≡ suc a + b
add_suc a b = omega arith

window_from-contains :
    (item_ids : List Text) (offset idx count i : ℕ) (x : Text)
    → i < count
    → get_elem? item_ids ((offset + (idx + i)) % length item_ids) ≡ some x
    → contains (window_from item_ids offset idx count) x ≡ true
unfolding window_from contains
window_from-contains item_ids offset idx zero i x h e = absurd (omega arith)
window_from-contains item_ids offset idx (suc count) zero x h e =
    let here : get_elem? item_ids ((offset + idx) % length item_ids) ≡ some x =
      subst (λ z. get_elem? item_ids ((offset + z) % length item_ids) ≡ some x) (add_zero idx) e in
    rw (here, contains) (ground (arith, text_eq_refl x))
window_from-contains item_ids offset idx (suc count) (suc i) x h e =
    let later = window_from-contains item_ids offset (suc idx) count i x (omega arith) (
      subst (λ z. get_elem? item_ids ((offset + z) % length item_ids) ≡ some x) (add_suc idx i)
        e) in
    elim (Option-cases (get_elem? item_ids ((offset + idx) % length item_ids))) [
      | inl f ↦ rw (f, contains) later
      | inr (y, f) ↦ rw (f, contains) (ground (arith, later))
    ]

get_elem?-lt : (xs : List Text) (j : ℕ) {x : Text} → get_elem? xs j ≡ some x → j < length xs
get_elem?-lt [] j e = cc
get_elem?-lt (y ∷ xs) zero e = omega arith
get_elem?-lt (y ∷ xs) (suc j) e = omega (arith, get_elem?-lt xs j e)

-- A window is as long as it may be.
pub length-window_from :
    (item_ids : List Text) (offset idx count : ℕ)
    → 0 < length item_ids
    → length (window_from item_ids offset idx count) ≡ count
unfolding window_from
length-window_from item_ids offset idx zero h = refl
length-window_from item_ids offset idx (suc count) h =
    elim (Option-cases (get_elem? item_ids ((offset + idx) % length item_ids))) [
      | inl e ↦ absurd (inside item_ids _ (mod-lt (offset + idx) h) e)
      | inr (y, e) ↦ rw (e, length) (ap suc (length-window_from item_ids offset (suc idx) count h))
    ]
  where
    inside : (xs : List Text) (j : ℕ) → j < length xs → get_elem? xs j ≡ none → ⊥
    inside [] j h e = omega arith
    inside (x ∷ xs) zero h e = cc
    inside (x ∷ xs) (suc j) h e = inside xs j (omega arith) e

module _ (sha256 : Text → Text) (relay_ws wayfarer_id : Text) (now_ms : ℕ) where
  abbrev seed : ℕ → ℕ
  seed n = relay_ingest_seed_offset sha256 relay_ws wayfarer_id (unix_day now_ms) n

  offset-eq :
      (n round : ℕ)
      → window_offset_of sha256 relay_ws wayfarer_id now_ms n round ≡ (seed n + round * 1_024) % n
  unfolding window_offset_of
  offset-eq n round =
      add-mod-mod (seed n) (round % n * 1_024) n
      ∙ sym (add-mul-mod_self_left (seed n + round % n * 1_024) n (round / n * 1_024))
      ∙ ap (λ z. z % n) (omega (arith, mod-add-div round n))

  place :
      (n round t : ℕ)
      → 0 < n
      → (window_offset_of sha256 relay_ws wayfarer_id now_ms n (round + t / 1_024) + t % 1_024) % n
        ≡ ((seed n + round * 1_024) % n + t) % n
  place n round t h =
      ap (λ z. (z + t % 1_024) % n) (offset-eq n (round + t / 1_024))
      ∙ mod-add-mod (seed n + (round + t / 1_024) * 1_024) n (t % 1_024)
      ∙ ap (λ z. z % n) (omega arith)
      ∙ sym (mod-add-mod (seed n + round * 1_024) n t)

  -- For every seed that the hash yields and whatever round the day is at, each of the more than
  -- 1024 sorted identifiers is in the window of one of the next rounds, the last of which starts
  -- less than the number of identifiers after the first.
  pub window-covers :
      (item_ids : List Text) (round j : ℕ) (item_id : Text)
      → relay_ingest_process_max_items < length item_ids
      → get_elem? item_ids j ≡ some item_id
      → (k : ℕ) × (k * relay_ingest_process_max_items < length item_ids)
        × (contains
              (select_relay_ingest_window_with_wraparound item_ids relay_ingest_process_max_items
                (window_offset_of sha256 relay_ws wayfarer_id now_ms (length item_ids) (round + k)))
              item_id
            ≡ true)
  unfolding select_relay_ingest_window_with_wraparound
  window-covers item_ids round j item_id many e =
      let n = length item_ids in
      let base = (seed n + round * 1_024) % n in
      let t = (j + n - base) % n in
      let inside : t < n = mod-lt (j + n - base) (omega arith) in
      let here =
        place n round t (omega arith)
        ∙ distance-mod base j n (get_elem?-lt item_ids j e) (mod-lt _ (omega arith)) in
      (
        t / 1_024,
        omega arith,
        rw (not-leb _ _ many) (
            window_from-contains item_ids _ 0 1_024 (t % 1_024) item_id (omega arith) (
              subst (λ z. get_elem? item_ids z ≡ some item_id)
                (sym here
                  ∙ ap
                      (λ z.
                        (window_offset_of sha256 relay_ws wayfarer_id now_ms n (round + t / 1_024)
                          + z)
                        % n)
                      (sym (zero_add _)))
                e)),
      )
    where
      not-leb : (a b : ℕ) → a < b → leb b a ≡ false
      not-leb a b h = ground arith
