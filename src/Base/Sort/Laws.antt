-- ===== src/Base/Sort/Laws.antt =====
-- `sort_by` returns a sorted rearrangement, and sorting does not depend on the order of its input
-- where only equal items share a rank.
use mathlib.Core.List.{Mem, Perm, mem-cons, not-mem-nil, mem-cons_self, mem-cons_of_mem}
use mathlib.Core.List.Perm
use mathlib.Core.Path.{ap₂}
use mathlib.Core.Logic.Or
use aethos_linux.Base.{sym, subst, ◌≡◌, Bool, false, inl, inr, List, [], ◌∷◌, All, Bool-cases}
use aethos_linux.Base.Sort.{insert_by, sort_by}
use aethos_linux.Base.Sort.Order.{IsStrictWeak}

-- No later item ranks strictly before an earlier one.
abbrev pub IsSorted : {A : Type 0} → (A → A → Bool) → List A → Type 0
IsSorted lt [] = Unit
IsSorted lt (x ∷ xs) = All (λ y. lt y x ≡ false) xs × IsSorted lt xs

module _ {A : Type 0} (lt : A → A → Bool) where
  insert_by-perm : (x : A) (l : List A) → Perm (insert_by lt x l) (x ∷ l)
  unfolding insert_by
  insert_by-perm x [] = Perm.rfl
  insert_by-perm x (y ∷ ys) = elim (Bool-cases (lt y x)) [
    | inl e ↦ rw e (Perm.trans (Perm.cons y (insert_by-perm x ys)) (Perm.swap x y ys))
    | inr e ↦ rw e Perm.rfl
  ]

  -- Sorting rearranges.
  pub sort_by-perm : (l : List A) → Perm (sort_by lt l) l
  unfolding sort_by
  sort_by-perm [] = Perm.rfl
  sort_by-perm (x ∷ xs) =
      Perm.trans (insert_by-perm x (sort_by lt xs)) (Perm.cons x (sort_by-perm xs))

  module _ (P : A → Type 0) where
    All-insert_by : (x : A) (l : List A) → P x → All P l → All P (insert_by lt x l)
    unfolding insert_by
    All-insert_by x [] p h = (p, tt)
    All-insert_by x (y ∷ ys) p h = elim (Bool-cases (lt y x)) [
      | inl e ↦ rw e (h.0, All-insert_by x ys p h.1)
      | inr e ↦ rw e (p, h)
    ]

    pub All-sort_by : (l : List A) → All P l → All P (sort_by lt l)
    unfolding sort_by
    All-sort_by [] h = tt
    All-sort_by (x ∷ xs) h = All-insert_by x (sort_by lt xs) h.0 (All-sort_by xs h.1)

module _ {A : Type 0} {lt : A → A → Bool} (w : IsStrictWeak lt) where
  above-cons :
      (x y : A) (l : List A)
      → lt y x ≡ false
      → All (λ z. lt z y ≡ false) l
      → All (λ z. lt z x ≡ false) l
  above-cons x y [] h a = tt
  above-cons x y (z ∷ zs) h a = (w.neg_trans x y z h a.0, above-cons x y zs h a.1)

  insert_by-IsSorted : (x : A) (l : List A) → IsSorted lt l → IsSorted lt (insert_by lt x l)
  unfolding insert_by
  insert_by-IsSorted x [] s = (tt, tt)
  insert_by-IsSorted x (y ∷ ys) s = elim (Bool-cases (lt y x)) [
    | inl e ↦ rw e (
      All-insert_by lt (λ z. lt z y ≡ false) x ys (w.asym y x e) s.0,
      insert_by-IsSorted x ys s.1,
    )
    | inr e ↦ rw e ((e, above-cons x y ys e s.0), s)
  ]

  -- Sorting by a strict weak order sorts.
  pub sort_by-IsSorted : (l : List A) → IsSorted lt (sort_by lt l)
  unfolding sort_by
  sort_by-IsSorted [] = tt
  sort_by-IsSorted (x ∷ xs) = insert_by-IsSorted x (sort_by lt xs) (sort_by-IsSorted xs)

pub All-mem :
    {A : Type 0} {P : A → Type 0} (prop : (a : A) → IsProp (P a)) (x : A) (l : List A)
    → All P l
    → Mem x l
    → P x
All-mem prop x [] h m = absurd (not-mem-nil m)
All-mem {P} prop x (y ∷ ys) h m =
    Or.elim (prop x) (mem-cons.0 m) (λ e. subst P (sym e) h.0) (All-mem prop x ys h.1)

module _ {A : Type 0} (lt : A → A → Bool) where
  -- Items that rank alike are the same item.
  abbrev pub Separates : List A → Type 0
  Separates l = (a b : A) → Mem a l → Mem b l → lt a b ≡ false → lt b a ≡ false → a ≡ b

  head-not-before :
      (irrefl : (a : A) → lt a a ≡ false) (x y : A) (l : List A)
      → IsSorted lt (x ∷ l)
      → Mem y (x ∷ l)
      → lt y x ≡ false
  head-not-before irrefl x y l s m =
      All-mem {P = λ z. lt z x ≡ false} (λ z. hlevel) y (x ∷ l) (irrefl x, s.0) m

  -- There is one sorted rearrangement.
  pub sorted_unique :
      (irrefl : (a : A) → lt a a ≡ false) (l r : List A)
      → IsSorted lt l
      → IsSorted lt r
      → Perm l r
      → Separates l
      → l ≡ r
  sorted_unique irrefl [] r sl sr p sep = Perm.nil-eq p
  sorted_unique irrefl (a ∷ l) [] sl sr p sep = Perm.eq-nil p
  sorted_unique irrefl (a ∷ l) (b ∷ r) sl sr p sep =
      let b_in : Mem b (a ∷ l) = (Perm.mem_iff p).1 mem-cons_self in
      let a_in : Mem a (b ∷ r) = (Perm.mem_iff p).0 mem-cons_self in
      let heads : a ≡ b =
        sep a b mem-cons_self b_in (head-not-before irrefl b a r sr a_in)
          (head-not-before irrefl a b l sl b_in) in
      let tails = Perm.cons_inv (Perm.trans p (Perm.symm (Perm.cons' heads Perm.rfl))) in
      let separated : Separates l =
        λ x y mx my. sep x y (mem-cons_of_mem a mx) (mem-cons_of_mem a my) in
      ap₂ ◌∷◌ heads (sorted_unique irrefl l r sl.1 sr.1 tails separated)
