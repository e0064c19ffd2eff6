-- ===== src/Base/Filter.antt =====
-- `filter` against membership and rearrangement.
use mathlib.Core.List.{Mem, Perm, Permᴰ, mem-cons, mem-cons_of_mem}
use mathlib.Core.List.Perm
use mathlib.Core.Logic.{∥∥₁_elim}
use mathlib.Core.Logic.Or
use aethos_linux.Base.{Bool, inl, inr, List, [], ◌∷◌, filter, Bool-cases}

module _ {A : Type 0} (p : A → Bool) where
  filter-swap : (a b : A) (l : List A) → Perm (filter p (a ∷ b ∷ l)) (filter p (b ∷ a ∷ l))
  filter-swap a b l = elim (Bool-cases (p a)) [
    | inl ta ↦ elim (Bool-cases (p b)) [
      | inl tb ↦ rw (ta, tb) (Perm.swap b a (filter p l))
      | inr fb ↦ rw (ta, fb) Perm.rfl
    ]
    | inr fa ↦ rw fa Perm.rfl
  ]

  filter_permᴰ : {xs ys : List A} → Permᴰ xs ys → Perm (filter p xs) (filter p ys)
  filter_permᴰ Permᴰ.nil = Perm.rfl
  filter_permᴰ (Permᴰ.cons {a} {b} {l₁} {l₂} e r) = elim (Bool-cases (p b)) [
    | inl t ↦ rw (e, t) (Perm.cons b (filter_permᴰ r))
    | inr f ↦ rw (e, f) (filter_permᴰ r)
  ]
  filter_permᴰ (Permᴰ.swap {a} {b} {a'} {b'} {l} e f) = rw (e, f) (filter-swap b' a' l)
  filter_permᴰ (Permᴰ.trans r s) = Perm.trans (filter_permᴰ r) (filter_permᴰ s)

  pub filter-perm : {xs ys : List A} → Perm xs ys → Perm (filter p xs) (filter p ys)
  filter-perm r = ∥∥₁_elim r squash₁ filter_permᴰ

  pub mem_of_mem-filter : {x : A} (xs : List A) → Mem x (filter p xs) → Mem x xs
  mem_of_mem-filter [] m = m
  mem_of_mem-filter (y ∷ ys) m = elim (Bool-cases (p y)) [
    | inl t ↦
        Or.elim squash₁ (mem-cons.0 (rw t at m)) (λ e. mem-cons.1 (Or.inl e))
          (λ later. mem-cons_of_mem y (mem_of_mem-filter ys later))
    | inr f ↦ mem-cons_of_mem y (mem_of_mem-filter ys (rw f at m))
  ]
