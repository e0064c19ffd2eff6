-- ===== src/Relay/Ingest/Distinct.antt =====
-- The items of a window: each is an item of the list, and no place of the list comes twice.
use native.Mathlib.Nat.{mod-lt, mod-add-mod, mod-eq_of_lt, add-mod_right}
use aethos_linux.Base.{
  ℕ, zero, suc, ◌+◌, ◌%◌, ◌<◌, ◌≤◌, ◌≡◌, refl, sym, ap, ◌∙◌, subst, true, inl, inr, List, [], ◌∷◌,
  some, arith, ltb, ◌-◌, length, get_elem?, All, Bool-cases, Option-cases,
}
use aethos_linux.Base.Dedup.{IsAscending}
use aethos_linux.Base.Text.{Text, contains, text_eq, text_eq_iff, text_lt, text_lt_asym}
use aethos_linux.Base.Unique.{IsUnique}
use aethos_linux.Relay.Ingest.{window_from}

get_elem?-All :
    (P : Text → Type 0) (xs : List Text) (j : ℕ) (x : Text)
    → All P xs
    → get_elem? xs j ≡ some x
    → P x
get_elem?-All P [] j x h e = cc
get_elem?-All P (y ∷ xs) zero x h e = subst P (some_injective e) h.0
  where
    some_injective : {a b : Text} → some a ≡ some b → a ≡ b
    some_injective e = cc
get_elem?-All P (y ∷ xs) (suc j) x h e = get_elem?-All P xs j x h.1 e

text_lt_irrefl : (a : Text) → text_lt a a ≡ true → ⊥
text_lt_irrefl a h = cc (h, text_lt_asym a a h)

-- The places of an ascending list differ.
get_elem?-place :
    (xs : List Text) (i j : ℕ) (x : Text)
    → IsAscending xs
    → get_elem? xs i ≡ some x
    → get_elem? xs j ≡ some x
    → i ≡ j
get_elem?-place [] i j x h e f = cc
get_elem?-place (y ∷ xs) zero zero x h e f = refl
get_elem?-place (y ∷ xs) zero (suc j) x h e f = absurd (
    text_lt_irrefl x (
      subst (λ z. text_lt z x ≡ true) (some_injective e)
        (get_elem?-All (λ z. text_lt y z ≡ true) xs j x h.0 f)))
  where
    some_injective : {a b : Text} → some a ≡ some b → a ≡ b
    some_injective e = cc
get_elem?-place (y ∷ xs) (suc i) zero x h e f = absurd (
    text_lt_irrefl x (
      subst (λ z. text_lt z x ≡ true) (some_injective f)
        (get_elem?-All (λ z. text_lt y z ≡ true) xs i x h.0 e)))
  where
    some_injective : {a b : Text} → some a ≡ some b → a ≡ b
    some_injective e = cc
get_elem?-place (y ∷ xs) (suc i) (suc j) x h e f = ap suc (get_elem?-place xs i j x h.1 e f)

-- An item of the window stands at one of its places.
window_from-place :
    (xs : List Text) (offset idx count : ℕ) (x : Text)
    → contains (window_from xs offset idx count) x ≡ true
    → (i : ℕ) × (idx ≤ i) × (i < idx + count) × (get_elem? xs ((offset + i) % length xs) ≡ some x)
unfolding window_from contains
window_from-place xs offset idx zero x h = cc
window_from-place xs offset idx (suc count) x h =
    elim (Option-cases (get_elem? xs ((offset + idx) % length xs))) [
      | inl f ↦
          let later = window_from-place xs offset (suc idx) count x (rw (f, contains) at h) in
          (later.0, omega arith, omega arith, later.3)
      | inr (y, f) ↦ elim (Bool-cases (text_eq y x)) [
        | inl same ↦ (idx, omega arith, omega arith, f ∙ ap some ((text_eq_iff y x).0 same))
        | inr differs ↦
            let later =
              window_from-place xs offset (suc idx) count x (rw (f, differs, contains) at h) in
            (later.0, omega arith, omega arith, later.3)
      ]
    ]

shift-moves : (r d n : ℕ) → r < n → 0 < d → d < n → (r + d) % n ≡ r → ⊥
shift-moves r d n h pos small e = elim (Bool-cases (ltb (r + d) n)) [
  | inl below ↦ let same : (r + d) % n ≡ r + d = mod-eq_of_lt (ground (arith, below)) in omega arith
  | inr above ↦
      let over : n ≤ r + d = ground (arith, above) in
      let wrapped : (r + d) % n ≡ (r + d - n) % n =
        ap (λ z. z % n) (omega arith) ∙ add-mod_right (r + d - n) n in
      let same : (r + d - n) % n ≡ r + d - n = mod-eq_of_lt (omega arith) in omega arith
]

-- Places less than a turn apart differ.
places-differ : (offset n i j : ℕ) → i < j → j < i + n → (offset + i) % n ≡ (offset + j) % n → ⊥
places-differ offset n i j h k e =
    let there : (offset + i) % n ≡ ((offset + i) % n + (j - i)) % n =
      e ∙ ap (λ z. z % n) (omega arith) ∙ sym (mod-add-mod (offset + i) n (j - i)) in
    shift-moves ((offset + i) % n) (j - i) n (mod-lt (offset + i) (omega arith)) (omega arith)
      (omega arith) (sym there)

-- No item comes twice in a window that is no longer than the list.
pub window_from-IsUnique :
    (xs : List Text) (offset idx count : ℕ)
    → IsAscending xs
    → count ≤ length xs
    → IsUnique (window_from xs offset idx count)
unfolding window_from
window_from-IsUnique xs offset idx zero h k = tt
window_from-IsUnique xs offset idx (suc count) h k =
    elim (Option-cases (get_elem? xs ((offset + idx) % length xs))) [
      | inl f ↦ rw (f, IsUnique) (window_from-IsUnique xs offset (suc idx) count h (omega arith))
      | inr (y, f) ↦
          rw (f, IsUnique)
            ((
              elim (Bool-cases (contains (window_from xs offset (suc idx) count) y)) [
                | inr fresh ↦ fresh
                | inl again ↦
                    let there = window_from-place xs offset (suc idx) count y again in
                    absurd (
                      places-differ offset (length xs) idx there.0 (omega arith) (omega arith)
                        (get_elem?-place xs _ _ y h f there.3))
              ],
              window_from-IsUnique xs offset (suc idx) count h (omega arith),
            ))
    ]

-- What holds of all items holds of those of the window.
pub window_from-All :
    (P : Text → Type 0) (xs : List Text) (offset idx count : ℕ)
    → All P xs
    → All P (window_from xs offset idx count)
unfolding window_from
window_from-All P xs offset idx zero h = tt
window_from-All P xs offset idx (suc count) h =
    elim (Option-cases (get_elem? xs ((offset + idx) % length xs))) [
      | inl f ↦ rw (f, All) (window_from-All P xs offset (suc idx) count h)
      | inr (y, f) ↦
          rw (f, All) ((get_elem?-All P xs _ y h f, window_from-All P xs offset (suc idx) count h))
    ]
