-- ===== src/Store/Expiry.antt =====
-- Recording an object and asking for it again, src/aethos_core/gossip_store_sqlite.rs, and the
-- casts of an expiry time to the i64 of its column.
use aethos_linux.Base.{
  min, ℕ, ◌+◌, ◌^◌, ◌<◌, ◌≤◌, ◌≡◌, refl, ap, ◌∙◌, true, false, not, [], ◌∷◌, none, some, arith,
  u64_max, saturating_add,
}
use native.Mathlib.Nat.{mod-eq_of_lt}
use aethos_linux.Base.Int.{pos, as_i64, as_u16, ltb_ℤ, as_i64-pos, as_i64-negative, as_u64-as_i64}
use aethos_linux.Base.Text.{Text, text_eq, text_eq_refl}
use aethos_linux.Base.Result.{Result, ok}
use aethos_linux.Store.Types.{
  RecordPutOutcome, inserted, Row, Table, row_of, record_of, clock_skew_tolerance_ms,
}
use aethos_linux.Store.{find, min_expiry, is_pruned, record_local_item}
use aethos_linux.Store.Select.{transfer_candidates_for_request}
use aethos_linux.Store.View.{IsValid, keep}
use aethos_linux.Store.Spec.{view, spec_record}
use aethos_linux.Store.Refine.{record_local_item_lem}
use aethos_linux.Store.Listing.{candidate-live}

pub min_expiry-pos :
    (now_ms : ℕ)
    → now_ms + clock_skew_tolerance_ms < 2 ^ 63
    → min_expiry now_ms ≡ pos (now_ms + clock_skew_tolerance_ms)
unfolding min_expiry saturating_add
min_expiry-pos now_ms small =
    let sum : min (now_ms + clock_skew_tolerance_ms) u64_max ≡ now_ms + clock_skew_tolerance_ms =
      omega arith in
    rw sum (as_i64-pos (now_ms + clock_skew_tolerance_ms) small)

module _ (table : Table) (item_id envelope_b64 : Text) (expiry hop_count recorded_at : ℕ) where
  abbrev recorded : Table × Result Text RecordPutOutcome
  recorded = record_local_item table item_id envelope_b64 expiry hop_count recorded_at

  abbrev new_row : Row
  new_row = row_of item_id envelope_b64 expiry hop_count recorded_at

  -- Where there was no row of the identifier.
  find-recorded :
      IsValid table
      → find item_id table ≡ none
      → (find item_id recorded.0
          ≡ keep (λ row. not (is_pruned (min_expiry recorded_at) row)) (some new_row))
        × (recorded.1 ≡ ok inserted)
  unfolding find
  find-recorded valid absent =
      let refines =
        (record_local_item_lem table item_id envelope_b64 expiry hop_count recorded_at valid).0 in
      (
        ap (λ z. z.0 item_id) refines
            ∙ rw (absent, spec_record, view) (rw (text_eq_refl item_id) refl),
        ap (λ z. z.1) refines ∙ rw (absent, spec_record, view) refl,
      )

  is_pruned-new :
      expiry < 2 ^ 63
      → recorded_at + clock_skew_tolerance_ms < expiry
      → text_eq envelope_b64 [] ≡ false
      → is_pruned (min_expiry recorded_at) new_row ≡ false
  unfolding is_pruned row_of
  is_pruned-new small live nonempty =
      rw (nonempty, as_i64-pos expiry small, min_expiry-pos recorded_at (omega arith))
        (ground arith)

  live-new :
      expiry < 2 ^ 63
      → recorded_at + clock_skew_tolerance_ms < expiry
      → ltb_ℤ (min_expiry recorded_at) (as_i64 expiry) ≡ true
  live-new small live =
      rw (as_i64-pos expiry small, min_expiry-pos recorded_at (omega arith)) (ground arith)

  read_back :
      expiry < 2 ^ 63
      → recorded_at + clock_skew_tolerance_ms < expiry
      → hop_count < 2 ^ 16
      → record_of new_row ≡ record {
        item_id = item_id;
        envelope_b64 = envelope_b64;
        expiry_unix_ms = expiry;
        hop_count = hop_count;
        recorded_at_unix_ms = recorded_at;
      }
  unfolding record_of row_of as_u16
  read_back small live hops i = record {
    item_id = item_id;
    envelope_b64 = envelope_b64;
    expiry_unix_ms = as_u64-as_i64 expiry (omega arith) i;
    hop_count = hop i;
    recorded_at_unix_ms = as_u64-as_i64 recorded_at (omega arith) i;
  }
    where
      hop : as_u16 (as_i64 hop_count) ≡ hop_count
      hop = ap as_u16 (as_i64-pos hop_count (omega arith)) ∙ mod-eq_of_lt hops

  -- On a table whose identifiers differ and whose times are i64 values, an object that is new,
  -- whose envelope is not empty and whose time has more left than the clock tolerance, for times
  -- below 2 ^ 63 and a 16-bit hop count, is reported inserted, and a request of it at that time is
  -- answered with exactly the object that was recorded.
  pub record_local_item-transfer_candidates :
      IsValid table
      → find item_id table ≡ none
      → text_eq envelope_b64 [] ≡ false
      → recorded_at + clock_skew_tolerance_ms < expiry
      → expiry < 2 ^ 63
      → hop_count < 2 ^ 16
      → (recorded.1 ≡ ok inserted)
        × (transfer_candidates_for_request recorded.0 (item_id ∷ []) recorded_at
            ≡ record {
              item_id = item_id;
              envelope_b64 = envelope_b64;
              expiry_unix_ms = expiry;
              hop_count = hop_count;
              recorded_at_unix_ms = recorded_at;
            }
              ∷ [])
  unfolding transfer_candidates_for_request row_of record_of
  record_local_item-transfer_candidates valid absent nonempty live small hops =
      let stored = find-recorded valid absent in
      let found = stored.0 ∙ rw (is_pruned-new small live nonempty) refl in
      (
        stored.1,
        rw
            (
              candidate-live recorded.0 recorded_at item_id new_row found (live-new small live),
              transfer_candidates_for_request,
            )
            (λ i. read_back small live hops i ∷ []),
      )

  -- On a table whose identifiers differ and whose times are i64 values, an object that is new and
  -- whose expiry is a u64 from 2 ^ 63 on is reported inserted, and the same transaction has removed
  -- it, for a clock that is below 2 ^ 63 with the clock tolerance added.
  pub record_local_item-late :
      IsValid table
      → find item_id table ≡ none
      → 2 ^ 63 ≤ expiry
      → expiry ≤ u64_max
      → recorded_at + clock_skew_tolerance_ms < 2 ^ 63
      → (recorded.1 ≡ ok inserted) × (find item_id recorded.0 ≡ none)
  unfolding is_pruned row_of
  record_local_item-late valid absent late bound clock =
      let stored = find-recorded valid absent in
      let negative = as_i64-negative expiry late bound in
      (stored.1, stored.0 ∙ rw (min_expiry-pos recorded_at clock) (rw negative (ground arith)))
