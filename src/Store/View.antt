-- ===== src/Store/View.antt =====
-- The table of src/aethos_core/gossip_store_sqlite.rs as a map from identifiers to rows. `item_id`
-- is its PRIMARY KEY: no two rows have the same.
use aethos_linux.Base.{
  ℕ, ◌<◌, ◌≤◌, ◌^◌, ◌≡◌, refl, ap, subst, Bool, true, inl, inr, [], ◌∷◌, Option, none, some,
  if◌then◌else◌, filter, map, Bool-cases, All, arith,
}
use aethos_linux.Base.Int.{ℤ, pos, negsuc, pos_part, neg_part, as_i64, as_u64}
use aethos_linux.Base.Text.{Text, text_eq, text_eq_iff}
use aethos_linux.Store.Types.{Row, Table}
use aethos_linux.Store.{find, prune_expired}

-- No row's identifier occurs again.
abbrev pub IsKeyed : Table → Type 0
IsKeyed [] = Unit
IsKeyed (row ∷ table) = (find row.item_id table ≡ none) × IsKeyed table

-- What a filter keeps of the row that is looked up.
abbrev pub keep : (Row → Bool) → Option Row → Option Row
keep p none = none
keep p (some row) = if p row then some row else none

find-filter-none :
    (p : Row → Bool) (k : Text) (table : Table)
    → find k table ≡ none
    → find k (filter p table) ≡ none
unfolding find
find-filter-none p k [] h = refl
find-filter-none p k (row ∷ table) h = ground (arith, find-filter-none p k table)

pub find-filter :
    (p : Row → Bool) (k : Text) (table : Table)
    → IsKeyed table
    → find k (filter p table) ≡ keep p (find k table)
unfolding find
find-filter p k [] h = refl
find-filter p k (row ∷ table) (absent, h) = elim (Bool-cases (text_eq row.item_id k)) [
  | inl e ↦ elim (Bool-cases (p row)) [
    | inl t ↦ rw (e, t, e) refl
    | inr f ↦
        rw (e, f)
          (find-filter-none p k table
            (subst (λ z. find z table ≡ none) ((text_eq_iff row.item_id k).0 e) absent))
  ]
  | inr e ↦ elim (Bool-cases (p row)) [
    | inl t ↦ rw (e, t, e) (find-filter p k table h)
    | inr f ↦ rw (e, f) (find-filter p k table h)
  ]
]

pub filter-IsKeyed : (p : Row → Bool) (table : Table) → IsKeyed table → IsKeyed (filter p table)
filter-IsKeyed p [] h = tt
filter-IsKeyed p (row ∷ table) (absent, h) = elim (Bool-cases (p row)) [
  | inl t ↦
      rw (t, IsKeyed) ((find-filter-none p row.item_id table absent, filter-IsKeyed p table h))
  | inr f ↦ rw f (filter-IsKeyed p table h)
]

-- The two columns that the UPDATE sets.
abbrev pub updated : ℤ → ℤ → Row → Row
updated expiry_unix_ms recorded_at_unix_ms row = record row {
  expiry_unix_ms = expiry_unix_ms;
  recorded_at_unix_ms = recorded_at_unix_ms;
}

module _ (f : Row → Row) (keeps : (row : Row) → (f row).item_id ≡ row.item_id) where
  pub find-map-none : (k : Text) (table : Table) → find k table ≡ none → find k (map f table) ≡ none
  unfolding find
  find-map-none k [] h = refl
  find-map-none k (row ∷ table) h = elim (Bool-cases (text_eq row.item_id k)) [
    | inl e ↦ cc (rw (e, find) at h)
    | inr e ↦ rw (keeps row, e) (find-map-none k table (rw (e, find) at h))
  ]

  pub find-map-some :
      (k : Text) (table : Table) (row : Row)
      → find k table ≡ some row
      → find k (map f table) ≡ some (f row)
  unfolding find
  find-map-some k [] row h = cc
  find-map-some k (first ∷ table) row h = elim (Bool-cases (text_eq first.item_id k)) [
    | inl e ↦ simp (keeps first, e, if◌then◌else◌) (ap f_of (rw (e, find) at h))
    | inr e ↦ rw (keeps first, e) (find-map-some k table row (rw (e, find) at h))
  ]
    where
      f_of : Option Row → Option Row
      f_of none = none
      f_of (some r) = some (f r)

  pub map-IsKeyed : (table : Table) → IsKeyed table → IsKeyed (map f table)
  map-IsKeyed [] h = tt
  map-IsKeyed (row ∷ table) (absent, h) =
      (rw (keeps row) (find-map-none row.item_id table absent), map-IsKeyed table h)

some_injective : {a b : Row} → some a ≡ some b → a ≡ b
some_injective e = cc

pub find-item_id :
    (k : Text) (table : Table) (row : Row) → find k table ≡ some row → text_eq row.item_id k ≡ true
unfolding find
find-item_id k [] row h = cc
find-item_id k (first ∷ table) row h = elim (Bool-cases (text_eq first.item_id k)) [
  | inl e ↦ subst (λ z. text_eq z.item_id k ≡ true) (some_injective (rw (e, find) at h)) e
  | inr e ↦ find-item_id k table row (rw (e, find) at h)
]

-- The range of an INTEGER column.
abbrev pub IsI64 : ℤ → Type 0
IsI64 z = (pos_part z < 2 ^ 63) × (neg_part z ≤ 2 ^ 63)

abbrev pub IsStored : Row → Type 0
IsStored row = IsI64 row.expiry_unix_ms × IsI64 row.recorded_at_unix_ms

-- What every table satisfies that the operations make.
abbrev pub IsValid : Table → Type 0
IsValid table = IsKeyed table × All IsStored table

pub as_i64-IsI64 : (n : ℕ) → IsI64 (as_i64 n)
unfolding as_i64
as_i64-IsI64 n = ground arith

-- An i64 comes back from a u64 as it was.
pub as_i64-as_u64 : (z : ℤ) → IsI64 z → as_i64 (as_u64 z) ≡ z
unfolding as_i64 as_u64
as_i64-as_u64 (pos n) h = ground arith
as_i64-as_u64 (negsuc n) h = ground arith

pub All-filter :
    (P : Row → Type 0) (p : Row → Bool) (table : Table) → All P table → All P (filter p table)
All-filter P p [] h = tt
All-filter P p (row ∷ table) (hr, h) = elim (Bool-cases (p row)) [
  | inl t ↦ rw (t, All) ((hr, All-filter P p table h))
  | inr f ↦ rw f (All-filter P p table h)
]

pub All-find :
    (P : Row → Type 0) (k : Text) (table : Table) (row : Row)
    → All P table
    → find k table ≡ some row
    → P row
unfolding find
All-find P k [] row h e = cc
All-find P k (first ∷ table) row (hf, h) e = elim (Bool-cases (text_eq first.item_id k)) [
  | inl same ↦ subst P (some_injective (rw (same, find) at e)) hf
  | inr differs ↦ All-find P k table row h (rw (differs, find) at e)
]

pub prune_expired-IsValid :
    (table : Table) (now_ms : ℕ) → IsValid table → IsValid (prune_expired table now_ms)
unfolding prune_expired
prune_expired-IsValid table now_ms (keyed, stored) =
    (filter-IsKeyed _ table keyed, All-filter IsStored _ table stored)
