-- ===== src/Gossip/Summary/Advertised.antt =====
-- What a SUMMARY frame advertises, src/aethos_core/gossip_sync.rs.
use aethos_linux.Base.{
  ℕ, ◌≡◌, sym, ap, ◌∙◌, subst, true, false, inl, inr, List, [], ◌∷◌, Option, some, length,
  Bool-cases, Option-cases,
}
use aethos_linux.Base.Text.{Text, text_eq, text_eq_iff, contains}
use aethos_linux.Base.Result.{Result, ok, err, ◌>>=◌, Result-cases}
use aethos_linux.Base.Assoc.{lookup}
use aethos_linux.Store.Types.{StoredItemRecord, Row, Table, record_of}
use aethos_linux.Store.{find, prune_expired}
use aethos_linux.Store.Select.{get_existing_items_for_ids}
use aethos_linux.Store.Select as Select
use aethos_linux.Store.View.{IsValid, prune_expired-IsValid}
use aethos_linux.Store.Existing.{get_existing_items_for_ids_lem}
use aethos_linux.Envelope.Build.{Crates}
use aethos_linux.Gossip.Types.{SummaryFrame, GossipSyncFrame, summary}
use aethos_linux.Gossip.Validate.{validate_frame, last}
use aethos_linux.Gossip.Bloom.{build_bloom_filter, bloom_might_contain}
use aethos_linux.Gossip.Bloom.Complete.{build_bloom_filter-bloom_might_contain}
use aethos_linux.Gossip.Summary.{
  is_for, advertisable, filter_non_self_advertisable_item_ids, eligible_item_ids,
  build_summary_preview_item_ids, if_any, build_summary_frame,
}

-- The parts of a SUMMARY frame, of any frame.
abbrev filter_of : GossipSyncFrame → Text
filter_of (summary frame) = frame.bloom_filter
filter_of _ = []

abbrev count_of : GossipSyncFrame → ℕ
count_of (summary frame) = frame.item_count
count_of _ = 0

summary_injective :
    (a : SummaryFrame) (b : SummaryFrame)
    → ◌≡◌ {A = Result Text GossipSyncFrame} (ok (summary a)) (ok (summary b))
    → (a.bloom_filter ≡ b.bloom_filter) × (a.item_count ≡ b.item_count)
summary_injective a b h = (ap part h, ap count h)
  where
    part : Result Text GossipSyncFrame → Text
    part (ok frame) = filter_of frame
    part (err e) = []

    count : Result Text GossipSyncFrame → ℕ
    count (ok frame) = count_of frame
    count (err e) = 0

checked_ok :
    (r : Result Text (Unit {0})) (a b : GossipSyncFrame)
    → (r >>= λ _. ok a) ≡ ok b
    → ◌≡◌ {A = Result Text GossipSyncFrame} (ok a) (ok b)
checked_ok (ok tt) a b h = h
checked_ok (err e) a b h = cc

module _ (crates : Crates) (me : Option Text) (wayfarer_id : Text) where
  advertisable_lem :
      (existing : List (Text × StoredItemRecord)) (item_ids : List Text) (k : Text)
      → contains (advertisable crates me wayfarer_id existing item_ids) k ≡ true
      → (stored : StoredItemRecord) × (lookup k existing ≡ some stored)
        × (is_for crates me wayfarer_id stored.envelope_b64 ≡ false)
  unfolding advertisable contains
  advertisable_lem existing [] k h = cc
  advertisable_lem existing (item_id ∷ item_ids) k h =
      elim (Option-cases (lookup item_id existing)) [
        | inl unknown ↦
            advertisable_lem existing item_ids k (rw (unknown, advertisable, contains) at h)
        | inr (stored, known) ↦
            elim (Bool-cases (is_for crates me wayfarer_id stored.envelope_b64)) [
              | inl own ↦
                  advertisable_lem existing item_ids k
                    (rw (known, own, advertisable, contains) at h)
              | inr foreign ↦ elim (Bool-cases (text_eq item_id k)) [
                | inl same ↦ (
                  stored,
                  subst (λ z. lookup z existing ≡ some stored) ((text_eq_iff item_id k).0 same)
                      known,
                  foreign,
                )
                | inr differs ↦
                    advertisable_lem existing item_ids k
                      (rw (known, foreign, differs, advertisable, contains) at h)
              ]
            ]
      ]

-- On a table whose identifiers differ and whose times are i64 values, and with a known identity: an
-- advertised identifier has a row in the store after the expired rows are dropped, and the envelope
-- of that row does not decode to one for the node itself.
pub eligible_item_ids-foreign :
    (crates : Crates) (wayfarer_id : Text) (table : Table) (now_ms : ℕ) (k : Text)
    → IsValid table
    → contains (eligible_item_ids crates (some wayfarer_id) table now_ms).1 k ≡ true
    → (row : Row) × (find k (prune_expired table now_ms) ≡ some row)
      × (is_for crates (some wayfarer_id) wayfarer_id row.envelope_b64 ≡ false)
unfolding eligible_item_ids filter_non_self_advertisable_item_ids Select.eligible_item_ids record_of
eligible_item_ids-foreign crates wayfarer_id table now_ms k valid member =
    let listed = Select.eligible_item_ids table now_ms in
    let advertised =
      advertisable_lem crates (some wayfarer_id) wayfarer_id
        (get_existing_items_for_ids listed.0 listed.1) listed.1 k member in
    let looked =
      sym (
        get_existing_items_for_ids_lem listed.0 listed.1 k
          (prune_expired-IsValid table now_ms valid))
      ∙ advertised.1 in
    elim (Option-cases (find k (prune_expired table now_ms))) [
      | inl absent ↦ elim (Bool-cases (contains listed.1 k)) [
        | inl asked ↦ cc (rw absent at (rw asked at looked))
        | inr unasked ↦ cc (rw unasked at looked)
      ]
      | inr (row, found) ↦ elim (Bool-cases (contains listed.1 k)) [
        | inr unasked ↦ cc (rw unasked at looked)
        | inl asked ↦ (
          row,
          found,
          subst (λ r. is_for crates (some wayfarer_id) wayfarer_id r.envelope_b64 ≡ false)
              (sym (some_injective (rw found at (rw asked at looked)))) advertised.2,
        )
      ]
    ]
  where
    some_injective : {a b : StoredItemRecord} → some a ≡ some b → a ≡ b
    some_injective e = cc

-- A SUMMARY frame that is built counts the advertised identifiers, and its filter might contain
-- each of them.
pub build_summary_frame-bloom_might_contain :
    (crates : Crates) (me : Option Text) (table : Table) (now_ms : ℕ) (frame : SummaryFrame)
    → (build_summary_frame crates me table now_ms).1 ≡ ok (summary frame)
    → (frame.item_count ≡ length (eligible_item_ids crates me table now_ms).1)
      × ((k : Text)
          → contains (eligible_item_ids crates me table now_ms).1 k ≡ true
          → bloom_might_contain crates.sha256 frame.bloom_filter k ≡ ok true)
unfolding build_summary_frame
build_summary_frame-bloom_might_contain crates me table now_ms frame h =
    let eligible = eligible_item_ids crates me table now_ms in
    elim (Result-cases (build_bloom_filter crates.sha256 eligible.1)) [
      | inr (e, failed) ↦ cc (rw (failed, build_summary_frame) at h)
      | inl (bloom_filter, built) ↦
          let preview = build_summary_preview_item_ids crates me eligible.0 now_ms in
          let made : SummaryFrame = record {
            bloom_filter = bloom_filter;
            item_count = length eligible.1;
            preview_item_ids = if_any crates me preview.1;
            preview_cursor = last preview.1;
          } in
          let sent = summary_injective made frame (
            checked_ok (validate_frame crates.sha256 crates.base64_decode (summary made))
              (summary made) (summary frame) (rw (built, build_summary_frame) at h)) in
          (
            sym sent.1,
            λ k member.
                ap (λ z. bloom_might_contain crates.sha256 z k) (sym sent.0)
                ∙ build_bloom_filter-bloom_might_contain crates.sha256 eligible.1 bloom_filter k
                    built member,
          )
    ]
