-- ===== src/Base/Unique.antt =====
-- `sort` on strings that differ.
use aethos_linux.Base.{
  ◌≡◌, refl, subst, ◌∙◌, true, false, ◌||◌, inl, inr, List, [], ◌∷◌, arith, All, Bool-cases,
  All-map_weaken,
}
use aethos_linux.Base.Sort.{sort_by, insert_by}
use aethos_linux.Base.Dedup.{IsAscending, contains-sort_by}
use aethos_linux.Base.Text.{
  Text, text_lt, text_eq, text_eq_refl, text_eq_iff, text_lt_asym, text_lt_total, text_lt_trans,
  contains,
}

-- No string occurs again.
abbrev pub IsUnique : List Text → Type 0
IsUnique [] = Unit
IsUnique (x ∷ xs) = (contains xs x ≡ false) × IsUnique xs

All-insert_by :
    (P : Text → Type 0) (x : Text) (ys : List Text)
    → P x
    → All P ys
    → All P (insert_by text_lt x ys)
unfolding insert_by
All-insert_by P x [] h k = (h, tt)
All-insert_by P x (y ∷ ys) h (hy, k) = elim (Bool-cases (text_lt y x)) [
  | inl e ↦ rw (e, All) ((hy, All-insert_by P x ys h k))
  | inr e ↦ rw (e, All) ((h, (hy, k)))
]

All-above :
    (x y : Text) (ys : List Text)
    → text_lt x y ≡ true
    → All (λ z. text_lt y z ≡ true) ys
    → All (λ z. text_lt x z ≡ true) ys
All-above x y [] h k = tt
All-above x y (z ∷ ys) h k = (text_lt_trans x y z h k.0, All-above x y ys h k.1)

insert_by-IsAscending :
    (x : Text) (ys : List Text)
    → contains ys x ≡ false
    → IsAscending ys
    → IsAscending (insert_by text_lt x ys)
unfolding insert_by contains
insert_by-IsAscending x [] fresh h = (tt, tt)
insert_by-IsAscending x (y ∷ ys) fresh (above, h) = elim (Bool-cases (text_eq y x)) [
  | inl e ↦ cc (rw (e, contains) at fresh)
  | inr differs ↦ elim (Bool-cases (text_lt y x)) [
    | inl e ↦
        rw (e, IsAscending)
          ((
            All-insert_by (λ z. text_lt y z ≡ true) x ys e above,
            insert_by-IsAscending x ys (rw (differs, contains) at fresh) h,
          ))
    | inr e ↦
        let below = text_lt_total y x differs e in
        rw (e, IsAscending) (((below, All-above x y ys below above), (above, h)))
  ]
]

pub sort_by-IsAscending : (xs : List Text) → IsUnique xs → IsAscending (sort_by text_lt xs)
unfolding sort_by
sort_by-IsAscending [] h = tt
sort_by-IsAscending (x ∷ xs) (fresh, h) =
    insert_by-IsAscending x (sort_by text_lt xs) (contains-sort_by xs x ∙ fresh)
      (sort_by-IsAscending xs h)

pub All-contains : (xs : List Text) → All (λ x. contains xs x ≡ true) xs
unfolding contains
All-contains [] = tt
All-contains (x ∷ xs) = (
  rw (text_eq_refl x) refl,
  All-map_weaken (λ y. contains xs y ≡ true) (λ y. (text_eq x y || contains xs y) ≡ true)
      (λ y h. ground (arith, h)) xs (All-contains xs),
)

above-contains :
    (x : Text) (ys : List Text) → All (λ y. text_lt x y ≡ true) ys → contains ys x ≡ false
unfolding contains
above-contains x [] h = refl
above-contains x (y ∷ ys) (hy, h) = elim (Bool-cases (text_eq y x)) [
  | inr differs ↦ rw differs (above-contains x ys h)
  | inl same ↦
      let loop : text_lt x x ≡ true =
        subst (λ z. text_lt x z ≡ true) ((text_eq_iff y x).0 same) hy in
      cc (loop, text_lt_asym x x loop)
]

-- The strings of a strictly ascending list differ.
pub IsAscending-IsUnique : (xs : List Text) → IsAscending xs → IsUnique xs
IsAscending-IsUnique [] h = tt
IsAscending-IsUnique (x ∷ xs) (above, h) = (above-contains x xs above, IsAscending-IsUnique xs h)
