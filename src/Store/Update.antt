-- ===== src/Store/Update.antt =====
-- The UPDATE of `record_local_item` in src/aethos_core/gossip_store_sqlite.rs, on the map.
use aethos_linux.Base.{
  ℕ, ◌≡◌, refl, sym, ap, ◌∙◌, subst, true, false, ◌⊎◌, inl, inr, [], ◌∷◌, none, some, if◌then◌else◌,
  map, All, Bool-cases, Option-cases,
}
use aethos_linux.Base.Int.{ℤ, as_i64}
use aethos_linux.Base.Text.{Text, text_eq, text_eq_refl, text_eq_iff}
use aethos_linux.Store.Types.{Row, Table}
use aethos_linux.Store.{find, update_row}
use aethos_linux.Store.View.{
  IsStored, IsValid, updated, find-map-none, find-map-some, map-IsKeyed, find-item_id, as_i64-IsI64,
}
use aethos_linux.Store.Spec.{view, put}

-- The UPDATE on one row.
abbrev assign : Text → ℤ → ℤ → Row → Row
assign item_id expiry_unix_ms recorded_at_unix_ms row =
    if text_eq row.item_id item_id then updated expiry_unix_ms recorded_at_unix_ms row else row

assign-item_id : (k : Text) (e r : ℤ) (row : Row) → (assign k e r row).item_id ≡ row.item_id
assign-item_id k e r row = elim (Bool-cases (text_eq row.item_id k)) [
  | inl t ↦ rw t refl
  | inr f ↦ rw f refl
]

assign-IsStored :
    (k : Text) (e r : ℕ) (row : Row) → IsStored row → IsStored (assign k (as_i64 e) (as_i64 r) row)
assign-IsStored k e r row h = elim (Bool-cases (text_eq row.item_id k)) [
  | inl t ↦ rw t ((as_i64-IsI64 e, as_i64-IsI64 r))
  | inr f ↦ rw f h
]

All-map_row :
    (f : Row → Row)
    → ((row : Row) → IsStored row → IsStored (f row))
    → (table : Table) → All IsStored table
    → All IsStored (map f table)
All-map_row f keeps [] h = tt
All-map_row f keeps (row ∷ table) (hr, h) = (keeps row hr, All-map_row f keeps table h)

pub update_row-IsValid :
    (k : Text) (e r : ℕ) (table : Table)
    → IsValid table
    → IsValid (update_row k (as_i64 e) (as_i64 r) table)
unfolding update_row
update_row-IsValid k e r table (keyed, stored) = (
  map-IsKeyed (assign k (as_i64 e) (as_i64 r)) (assign-item_id k (as_i64 e) (as_i64 r)) table keyed,
  All-map_row (assign k (as_i64 e) (as_i64 r)) (assign-IsStored k e r) table stored,
)

pub find-update_row :
    (k : Text) (e r : ℤ) (table : Table) (row : Row) (other : Text)
    → find k table ≡ some row
    → find other (update_row k e r table) ≡ put k (updated e r row) (view table) other
unfolding update_row
find-update_row k e r table row other found = elim (Bool-cases (text_eq k other)) [
  | inl same ↦ rw same (
      subst (λ z. find z (map (assign k e r) table) ≡ some (updated e r row))
        ((text_eq_iff k other).0 same)
        (find-map-some (assign k e r) (assign-item_id k e r) k table row found
          ∙ rw (find-item_id k table row found) refl))
  | inr differs ↦ rw differs (elsewhere differs (Option-cases (find other table)))
]
  where
    elsewhere :
        text_eq k other ≡ false
        → (find other table ≡ none) ⊎ ((a : Row) × (find other table ≡ some a))
        → find other (map (assign k e r) table) ≡ find other table
    elsewhere differs (inl absent) =
        find-map-none (assign k e r) (assign-item_id k e r) other table absent ∙ sym absent
    elsewhere differs (inr (a, present)) =
        find-map-some (assign k e r) (assign-item_id k e r) other table a present
        ∙ ap some (rw (not_k a (find-item_id other table a present)) refl)
        ∙ sym present
      where
        not_k : (a : Row) → text_eq a.item_id other ≡ true → text_eq a.item_id k ≡ false
        not_k a same = elim (Bool-cases (text_eq a.item_id k)) [
          | inl t ↦ cc (
            differs,
            (text_eq_iff a.item_id other).0 same,
            (text_eq_iff a.item_id k).0 t,
            text_eq_refl other,
          )
          | inr f ↦ f
        ]

-- A merge that changes no time changes nothing.
pub put_same :
    (k : Text) (table : Table) (row : Row) (other : Text)
    → find k table ≡ some row
    → put k row (view table) other ≡ find other table
put_same k table row other found = elim (Bool-cases (text_eq k other)) [
  | inl same ↦ rw same (sym found ∙ ap (λ z. find z table) ((text_eq_iff k other).0 same))
  | inr differs ↦ rw differs refl
]
