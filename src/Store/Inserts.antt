-- ===== src/Store/Inserts.antt =====
-- What a sequence of `INSERT OR IGNORE` leaves, src/aethos_core/gossip_store_sqlite.rs.
use aethos_linux.Base.{
  ◌≡◌, refl, sym, ap, ◌∙◌, subst, true, inl, inr, List, [], ◌∷◌, ◌++◌, none, some, if◌then◌else◌,
  All, Bool-cases, Option-cases,
}
use aethos_linux.Base.Text.{Text, text_eq, text_eq_refl, text_eq_iff}
use aethos_linux.Store.Types.{ImportWriteObject, Row, Table, row_of}
use aethos_linux.Store.{find, insert_or_ignore, insert_all}
use aethos_linux.Store.Listing.{is_some}

abbrev pub row_of_write : ImportWriteObject → Row
row_of_write item =
    row_of item.item_id item.envelope_b64 item.expiry_unix_ms item.hop_count
      item.recorded_at_unix_ms

insert_or_ignore-cases :
    (table : Table) (item : ImportWriteObject) (k : Text)
    → find k (insert_or_ignore table item) ≡ (elim (find item.item_id table) [
      | some row ↦ find k table
      | none ↦ if text_eq item.item_id k then some (row_of_write item) else find k table
    ])
unfolding insert_or_ignore find row_of
insert_or_ignore-cases table item k = elim (Option-cases (find item.item_id table)) [
  | inl absent ↦ rw (absent, insert_or_ignore) refl
  | inr (row, found) ↦ rw (found, insert_or_ignore) refl
]

pub find-insert_or_ignore_self :
    (table : Table) (item : ImportWriteObject)
    → is_some (find item.item_id (insert_or_ignore table item)) ≡ true
find-insert_or_ignore_self table item =
    ap is_some (insert_or_ignore-cases table item item.item_id)
    ∙ elim (Option-cases (find item.item_id table)) [
      | inl absent ↦ rw absent (rw (text_eq_refl item.item_id) refl)
      | inr (row, found) ↦ rw found (ap is_some found)
    ]

find-insert_or_ignore-some :
    (table : Table) (item : ImportWriteObject) (k : Text) (row : Row)
    → find k table ≡ some row
    → find k (insert_or_ignore table item) ≡ some row
find-insert_or_ignore-some table item k row found =
    insert_or_ignore-cases table item k ∙ elim (Option-cases (find item.item_id table)) [
      | inl absent ↦ elim (Bool-cases (text_eq item.item_id k)) [
        | inl same ↦
            cc (found, absent, ap (λ z. find z table) ((text_eq_iff item.item_id k).0 same))
        | inr differs ↦ rw absent (rw differs found)
      ]
      | inr (old, there) ↦ rw there found
    ]

-- A row that is there stays as it is.
pub find-insert_all-some :
    (table : Table) (items : List ImportWriteObject) (k : Text) (row : Row)
    → find k table ≡ some row
    → find k (insert_all table items) ≡ some row
unfolding insert_all
find-insert_all-some table [] k row found = found
find-insert_all-some table (item ∷ items) k row found =
    find-insert_all-some (insert_or_ignore table item) items k row
      (find-insert_or_ignore-some table item k row found)

-- A row that is new is that of one of the items.
pub find-insert_all_new :
    (P : Row → Type 0) (table : Table) (items : List ImportWriteObject) (k : Text) (row : Row)
    → find k table ≡ none
    → All (λ item. P (row_of_write item)) items
    → find k (insert_all table items) ≡ some row
    → P row
unfolding insert_all
find-insert_all_new P table [] k row absent h found = cc (absent, found)
find-insert_all_new P table (item ∷ items) k row absent (here, h) found =
    elim (Option-cases (find k (insert_or_ignore table item))) [
      | inl still ↦ find-insert_all_new P (insert_or_ignore table item) items k row still h found
      | inr (made, there) ↦
          let first = find-insert_all-some (insert_or_ignore table item) items k made there in
          subst P (some_injective (sym first ∙ found)) (made_here made there)
    ]
  where
    some_injective : {a b : Row} → some a ≡ some b → a ≡ b
    some_injective e = cc

    made_here : (made : Row) → find k (insert_or_ignore table item) ≡ some made → P made
    made_here made there =
        let cases = sym (insert_or_ignore-cases table item k) ∙ there in
        elim (Option-cases (find item.item_id table)) [
          | inr (old, present) ↦ cc (absent, rw present at cases)
          | inl missing ↦ elim (Bool-cases (text_eq item.item_id k)) [
            | inl same ↦ subst P (some_injective (rw same at (rw missing at cases))) here
            | inr differs ↦ cc (absent, rw differs at (rw missing at cases))
          ]
        ]

pub insert_all-append :
    (table : Table) (front back : List ImportWriteObject)
    → insert_all table (front ++ back) ≡ insert_all (insert_all table front) back
unfolding insert_all
insert_all-append table [] back = refl
insert_all-append table (item ∷ front) back =
    insert_all-append (insert_or_ignore table item) front back
