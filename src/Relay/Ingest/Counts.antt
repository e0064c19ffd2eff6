-- ===== src/Relay/Ingest/Counts.antt =====
-- The numbers that a selection reports.
use aethos_linux.Base.{
  ℕ, ◌+◌, ◌≤◌, ◌<◌, ◌≡◌, min, refl, sym, ◌∙◌, true, false, All, All-map_weaken, inl, inr, List,
  arith, leb, length, Bool-cases,
}
use aethos_linux.Base.Sort.{sort_by}
use aethos_linux.Base.Dedup.{
  IsAscending, dedup-sort_by-IsAscending, contains-dedup, contains-sort_by, length-sort_by,
  length-dedup-le,
}
use aethos_linux.Base.Unique.{IsUnique, IsAscending-IsUnique, All-contains}
use aethos_linux.Base.Text.{Text, text_lt, contains, dedup}
use aethos_linux.Relay.Ingest.{
  RelayIngestItemSelection, WindowRegistry, relay_ingest_process_max_items, window_offset_of,
  next_relay_ingest_window_round, window_from, select_relay_ingest_window_with_wraparound,
  select_relay_ingest_item_ids_for_processing,
}
use aethos_linux.Relay.Ingest.Window.{length-window_from}
use aethos_linux.Relay.Ingest.Distinct.{window_from-IsUnique, window_from-All}

-- What a selection reports, with the distinct identifiers in ascending order as `distinct`.
pub record Accounts (item_ids : List Text) (s : RelayIngestItemSelection) : Type 0 where
  pub distinct : List Text
  pub ascending : IsAscending distinct
  pub same_items : (item_id : Text) → contains distinct item_id ≡ contains item_ids item_id
  pub input : s.input_item_ids ≡ length item_ids
  pub unique : s.unique_item_ids ≡ length distinct
  pub deduped : s.deduped_item_ids + length distinct ≡ length item_ids
  pub truncated : s.truncated_item_ids + length s.processed_item_ids ≡ length distinct
  pub capped : length s.processed_item_ids ≡ min (length distinct) relay_ingest_process_max_items
  pub chosen : All (λ item_id. contains item_ids item_id ≡ true) s.processed_item_ids
  pub once : IsUnique s.processed_item_ids

leb_lt : (a b : ℕ) → leb a b ≡ false → b < a
leb_lt a b h = ground arith

-- What the window of a long list chooses.
window-Chooses :
    (distinct : List Text) (offset : ℕ)
    → IsAscending distinct
    → relay_ingest_process_max_items < length distinct
    → (length (window_from distinct offset 0 relay_ingest_process_max_items)
        ≡ relay_ingest_process_max_items)
      × All
          (λ item_id. contains distinct item_id ≡ true)
          (window_from distinct offset 0 relay_ingest_process_max_items)
      × IsUnique (window_from distinct offset 0 relay_ingest_process_max_items)
window-Chooses distinct offset ascends long = (
  length-window_from distinct offset 0 relay_ingest_process_max_items (omega arith),
  window_from-All _ distinct offset 0 relay_ingest_process_max_items (All-contains distinct),
  window_from-IsUnique distinct offset 0 relay_ingest_process_max_items ascends (omega arith),
)

-- A selection reports how many identifiers it was given, how many of them are distinct, how many
-- were duplicates, and how many distinct ones it leaves out; what it processes are identifiers that
-- it was given, none of them twice, and as many as are distinct but at most 1024.
pub select_relay_ingest_item_ids_for_processing-Accounts :
    (sha256 : Text → Text) (registry : WindowRegistry) (item_ids : List Text)
    (relay_ws wayfarer_id : Text) (now_ms : ℕ)
    → Accounts item_ids
        (select_relay_ingest_item_ids_for_processing sha256 registry item_ids relay_ws wayfarer_id
          now_ms).1
unfolding select_relay_ingest_item_ids_for_processing select_relay_ingest_window_with_wraparound
select_relay_ingest_item_ids_for_processing-Accounts sha256 registry item_ids relay_ws wayfarer_id
      now_ms =
    let unique = dedup (sort_by text_lt item_ids) in
    let few : length unique ≤ length item_ids =
      omega (arith, length-dedup-le (sort_by text_lt item_ids), length-sort_by text_lt item_ids) in
    let ascends = dedup-sort_by-IsAscending item_ids in
    let same =
      λ (k : Text). contains-dedup (sort_by text_lt item_ids) k ∙ contains-sort_by item_ids k in
    let offered = λ (ids : List Text) (h : All (λ k. contains unique k ≡ true) ids).
      All-map_weaken (λ k. contains unique k ≡ true) (λ k. contains item_ids k ≡ true)
        (λ k e. sym (same k) ∙ e) ids h in
    elim (Bool-cases (leb (length unique) relay_ingest_process_max_items)) [
      | inl e ↦ rw e (record {
        distinct = unique;
        ascending = ascends;
        same_items = same;
        input = refl;
        unique = refl;
        deduped = omega arith;
        truncated = omega arith;
        capped = ground (arith, e);
        chosen = offered unique (All-contains unique);
        once = IsAscending-IsUnique unique ascends;
      })
      | inr e ↦
          let chooses =
            window-Chooses unique
              (window_offset_of sha256 relay_ws wayfarer_id now_ms (length unique)
                (next_relay_ingest_window_round registry relay_ws wayfarer_id now_ms).1)
              ascends (leb_lt _ _ e) in
          rw e (record {
            distinct = unique;
            ascending = ascends;
            same_items = same;
            input = refl;
            unique = refl;
            deduped = omega arith;
            truncated = omega (arith, chooses.0, leb_lt _ _ e);
            capped = omega (arith, chooses.0, leb_lt _ _ e);
            chosen = offered _ chooses.1;
            once = chooses.2;
          })
    ]
