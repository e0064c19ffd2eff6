-- ===== src/Base/Dedup.antt =====
-- `sort` followed by `dedup` on strings: the strictly ascending list of the strings.
use aethos_linux.Base.{
  suc, ◌≤◌, ◌≡◌, refl, ap, ◌∙◌, subst, sym, Bool, true, false, ◌||◌, inl, inr, List, [], ◌∷◌, arith,
  length, All, Bool-cases,
}
use aethos_linux.Base.Sort.{sort_by, insert_by}
use aethos_linux.Base.Sort.Order.{IsStrictWeak, before-IsStrictWeak, text_ord}
use aethos_linux.Base.Sort.Laws.{IsSorted, sort_by-IsSorted}
use aethos_linux.Base.Text.{
  Text, text_lt, text_eq, text_eq_refl, text_eq_iff, text_lt_total, text_lt_trans, contains, dedup,
  dedup_from,
}

pub length-sort_by :
    {A : Type 0} (lt : A → A → Bool) (xs : List A) → length (sort_by lt xs) ≡ length xs
unfolding sort_by
length-sort_by lt [] = refl
length-sort_by lt (x ∷ xs) = length-insert_by (sort_by lt xs) ∙ ap suc (length-sort_by lt xs)
  where
    length-insert_by : (ys : List _) → length (insert_by lt x ys) ≡ suc (length ys)
    length-insert_by [] = refl
    length-insert_by (y ∷ ys) = ground (arith, length-insert_by ys)

length-dedup_from-le : (x : Text) (ys : List Text) → length (dedup_from x ys) ≤ suc (length ys)
unfolding dedup_from
length-dedup_from-le x [] = omega arith
length-dedup_from-le x (y ∷ ys) =
    ground (arith, length-dedup_from-le x ys, length-dedup_from-le y ys)

pub length-dedup-le : (xs : List Text) → length (dedup xs) ≤ length xs
unfolding dedup
length-dedup-le [] = omega arith
length-dedup-le (x ∷ xs) = length-dedup_from-le x xs

-- Strictly ascending: each string is below all later ones.
abbrev pub IsAscending : List Text → Type 0
IsAscending [] = Unit
IsAscending (x ∷ xs) = All (λ y. text_lt x y ≡ true) xs × IsAscending xs

All-dedup_from :
    (P : Text → Type 0) (x : Text) (ys : List Text) → P x → All P ys → All P (dedup_from x ys)
unfolding dedup_from
All-dedup_from P x [] h k = (h, tt)
All-dedup_from P x (y ∷ ys) h k = elim (Bool-cases (text_eq x y)) [
  | inl e ↦ rw (e, All) (All-dedup_from P x ys h k.1)
  | inr e ↦ rw (e, All) ((h, All-dedup_from P y ys k.0 k.1))
]

pub All-dedup : (P : Text → Type 0) (xs : List Text) → All P xs → All P (dedup xs)
unfolding dedup
All-dedup P [] h = tt
All-dedup P (x ∷ xs) h = All-dedup_from P x xs h.0 h.1

again :
    (x y a : Text) (b : Bool)
    → text_eq x y ≡ true
    → (text_eq x a || b) ≡ (text_eq x a || (text_eq y a || b))
again x y a b e =
    let same = subst (λ z. text_eq z a ≡ text_eq y a) (sym ((text_eq_iff x y).0 e)) refl in
    ground (arith, same)

contains-dedup_from :
    (x : Text) (ys : List Text) (a : Text)
    → contains (dedup_from x ys) a ≡ (text_eq x a || contains ys a)
unfolding dedup_from contains
contains-dedup_from x [] a = refl
contains-dedup_from x (y ∷ ys) a = elim (Bool-cases (text_eq x y)) [
  | inl e ↦ rw (e, contains) (contains-dedup_from x ys a ∙ again x y a (contains ys a) e)
  | inr e ↦ rw (e, contains) (ap (λ z. text_eq x a || z) (contains-dedup_from y ys a))
]

pub contains-dedup : (xs : List Text) (a : Text) → contains (dedup xs) a ≡ contains xs a
unfolding dedup contains
contains-dedup [] a = refl
contains-dedup (x ∷ xs) a = contains-dedup_from x xs a

pub contains-sort_by : (xs : List Text) (a : Text) → contains (sort_by text_lt xs) a ≡ contains xs a
unfolding sort_by contains
contains-sort_by [] a = refl
contains-sort_by (x ∷ xs) a =
    contains-insert_by (sort_by text_lt xs) ∙ ap (λ z. text_eq x a || z) (contains-sort_by xs a)
  where
    contains-insert_by :
        (ys : List Text) → contains (insert_by text_lt x ys) a ≡ (text_eq x a || contains ys a)
    contains-insert_by [] = refl
    contains-insert_by (y ∷ ys) = ground (arith, contains-insert_by ys)

lt-All :
    (x y : Text) (ys : List Text)
    → text_lt x y ≡ true
    → All (λ z. text_lt z y ≡ false) ys
    → All (λ z. text_lt x z ≡ true) ys
lt-All x y [] h k = tt
lt-All x y (z ∷ ys) h k = (
  elim (Bool-cases (text_eq z y)) [
    | inl e ↦ subst (λ w. text_lt x w ≡ true) (sym ((text_eq_iff z y).0 e)) h
    | inr e ↦ text_lt_trans x y z h (text_lt_total z y e k.0)
  ],
  lt-All x y ys h k.1,
)

dedup_from-IsAscending :
    (x : Text) (ys : List Text) → IsSorted text_lt (x ∷ ys) → IsAscending (dedup_from x ys)
unfolding dedup_from
dedup_from-IsAscending x [] h = (tt, tt)
dedup_from-IsAscending x (y ∷ ys) ((hy, hs), (k, s)) = elim (Bool-cases (text_eq x y)) [
  | inl e ↦ rw (e, IsAscending) (dedup_from-IsAscending x ys (hs, s))
  | inr e ↦
      let below = text_lt_total y x (text_eq_comm x y e) hy in
      rw (e, IsAscending)
        ((All-dedup_from _ y ys below (lt-All x y ys below k), dedup_from-IsAscending y ys (k, s)))
]
  where
    text_eq_comm : (a b : Text) → text_eq a b ≡ false → text_eq b a ≡ false
    text_eq_comm a b h = elim (Bool-cases (text_eq b a)) [
      | inl e ↦ cc (h, (text_eq_iff b a).0 e, text_eq_refl a)
      | inr e ↦ e
    ]

text_lt-IsStrictWeak : IsStrictWeak text_lt
text_lt-IsStrictWeak = before-IsStrictWeak text_ord (λ a. a)

-- `sort` and then `dedup` leaves the strings in strictly ascending order.
pub dedup-sort_by-IsAscending : (xs : List Text) → IsAscending (dedup (sort_by text_lt xs))
unfolding dedup
dedup-sort_by-IsAscending xs = go (sort_by text_lt xs) (sort_by-IsSorted text_lt-IsStrictWeak xs)
  where
    go : (ys : List Text) → IsSorted text_lt ys → IsAscending (dedup ys)
    go [] h = tt
    go (y ∷ ys) h = dedup_from-IsAscending y ys h
