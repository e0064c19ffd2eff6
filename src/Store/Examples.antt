-- ===== src/Store/Examples.antt =====
-- Runs of the object store at concrete inputs.
use aethos_linux.Base.{
  saturating_add, ◌^◌, arith, ◌≡◌, refl, List, [], ◌∷◌, none, if◌then◌else◌, map,
}
use mathlib.Core.Option
use aethos_linux.Base.Text.{Text, text_eq, codes, contains}
use aethos_linux.Base.Assoc.{lookup}
use aethos_linux.Base.Dedup.{IsAscending}
use aethos_linux.Base.Int.{pos, as_i64, as_u64}
use aethos_linux.Base.Result.{ok}
use aethos_linux.Store.Types.{ImportWriteObject, inserted, refreshed, Row, Table, record_of}
use aethos_linux.Store.{find, prune_expired, record_local_item, insert_import_items}
use aethos_linux.Store.Select.{
  eligible_item_ids, transfer_candidates_for_request, get_existing_items_for_ids,
}
use aethos_linux.Store.View.{IsValid}
use aethos_linux.Store.Spec.{
  view, spec_prune, Transaction, records, imports, prunes, spec_run, run, abstraction,
}
use aethos_linux.Store.Refine.{run-refines}
use aethos_linux.Store.Listing.{
  is_some, eligible_item_ids_lem, eligible_item_ids-transfer_candidates,
}
use aethos_linux.Store.Existing.{get_existing_items_for_ids_lem}
use aethos_linux.Store.Expiry.{record_local_item-transfer_candidates, record_local_item-late}

abbrev first_row : Row
first_row = record {
  item_id = codes "bb";
  envelope_b64 = codes "QUJD";
  expiry_unix_ms = pos 100_000;
  hop_count = pos 1;
  recorded_at_unix_ms = pos 10;
}

abbrev second_row : Row
second_row = record first_row { item_id = codes "aa"; expiry_unix_ms = pos 40_000 }

abbrev two_rows : Table
two_rows = first_row ∷ second_row ∷ []

two_rows-IsValid : IsValid two_rows
unfolding find text_eq
two_rows-IsValid = (
  ((refl, (refl, tt))),
  (
    ((omega arith, omega arith), (omega arith, omega arith)),
    (((omega arith, omega arith), (omega arith, omega arith)), tt),
  ),
)

abbrev imported : ImportWriteObject
imported = record {
  item_id = codes "cc";
  envelope_b64 = codes "REVG";
  expiry_unix_ms = 90_000;
  hop_count = 2;
  recorded_at_unix_ms = 1_000;
}

abbrev transactions : List Transaction
transactions =
    records (codes "bb") (codes "QUJD") 120_000 1 2_000
    ∷ imports (imported ∷ []) 20_000
    ∷ prunes 80_000
    ∷ []

run-refines_example :
    (abstraction (run (two_rows, []) transactions)
      ≡ spec_run (abstraction (two_rows, [])) transactions)
    × IsValid (run (two_rows, []) transactions).0
run-refines_example = run-refines (two_rows, []) transactions two_rows-IsValid

-- What that run leaves and returns.
run_result : run (two_rows, []) transactions ≡ (
  record first_row { expiry_unix_ms = pos 120_000; recorded_at_unix_ms = pos 2_000 } ∷ [],
  ok (refreshed 120_000) ∷ [],
)
unfolding prune_expired record_local_item insert_import_items text_eq as_u64 as_i64 saturating_add
run_result = refl

eligible_item_ids_lem_example :
    IsAscending (eligible_item_ids two_rows 1_000).1
    × ((k : Text)
        → contains (eligible_item_ids two_rows 1_000).1 k
          ≡ is_some (spec_prune 1_000 (view two_rows) k))
eligible_item_ids_lem_example = eligible_item_ids_lem two_rows 1_000 two_rows-IsValid

eligible_item_ids-transfer_candidates_example :
    map
      (λ r. r.item_id)
      (transfer_candidates_for_request
        (eligible_item_ids two_rows 1_000).0
        (eligible_item_ids two_rows 1_000).1
        1_000)
    ≡ (eligible_item_ids two_rows 1_000).1
eligible_item_ids-transfer_candidates_example =
    eligible_item_ids-transfer_candidates two_rows 1_000 two_rows-IsValid

abbrev asked_ids : List Text
asked_ids = codes "bb" ∷ codes "zz" ∷ codes "aa" ∷ []

get_existing_items_for_ids_lem_example :
    lookup (codes "aa") (get_existing_items_for_ids two_rows asked_ids) ≡ (
      if contains asked_ids (codes "aa")
      then Option.map record_of (find (codes "aa") two_rows)
      else none)
get_existing_items_for_ids_lem_example =
    get_existing_items_for_ids_lem two_rows asked_ids (codes "aa") two_rows-IsValid

record_local_item-transfer_candidates_example :
    ((record_local_item two_rows (codes "cc") (codes "REVG") 90_000 2 1_000).1 ≡ ok inserted)
    × (transfer_candidates_for_request
          (record_local_item two_rows (codes "cc") (codes "REVG") 90_000 2 1_000).0
          (codes "cc" ∷ [])
          1_000
        ≡ record {
          item_id = codes "cc";
          envelope_b64 = codes "REVG";
          expiry_unix_ms = 90_000;
          hop_count = 2;
          recorded_at_unix_ms = 1_000;
        }
          ∷ [])
unfolding find text_eq
record_local_item-transfer_candidates_example =
    record_local_item-transfer_candidates two_rows (codes "cc") (codes "REVG") 90_000 2 1_000
      two_rows-IsValid refl refl (omega arith) (omega arith) (omega arith)

record_local_item-late_example :
    ((record_local_item two_rows (codes "cc") (codes "REVG") (2 ^ 63) 2 1_000).1 ≡ ok inserted)
    × (find (codes "cc") (record_local_item two_rows (codes "cc") (codes "REVG") (2 ^ 63) 2 1_000).0
        ≡ none)
unfolding find text_eq
record_local_item-late_example =
    record_local_item-late two_rows (codes "cc") (codes "REVG") (2 ^ 63) 2 1_000 two_rows-IsValid
      refl (omega arith) (omega arith) (omega arith)
