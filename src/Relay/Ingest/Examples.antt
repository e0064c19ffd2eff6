-- ===== src/Relay/Ingest/Examples.antt =====
-- Runs of the selection, with the identity in place of the hash.
use aethos_linux.Base.{
  ℕ, ◌+◌, ◌*◌, ◌<◌, ◌≡◌, refl, true, List, [], ◌∷◌, arith, length, replicate, length-replicate,
}
use aethos_linux.Base.Text.{Text, codes, contains}
use aethos_linux.Relay.Ingest.{
  relay_ingest_process_max_items, select_relay_ingest_item_ids_for_processing,
  select_relay_ingest_window_with_wraparound, window_offset_of,
}
use aethos_linux.Relay.Ingest.Window.{window-covers}
use aethos_linux.Relay.Ingest.Counts.{
  Accounts, select_relay_ingest_item_ids_for_processing-Accounts,
}

abbrev offered : List Text
offered = codes "b" ∷ codes "a" ∷ codes "b" ∷ []

abbrev many : List Text
many = replicate 1_025 (codes "a")

window-covers_example :
    (k : ℕ) × (k * relay_ingest_process_max_items < length many)
    × (contains
          (select_relay_ingest_window_with_wraparound many relay_ingest_process_max_items
            (window_offset_of (λ x. x) (codes "ws://relay") (codes "ab") 5 (length many) (7 + k)))
          (codes "a")
        ≡ true)
window-covers_example =
    window-covers (λ x. x) (codes "ws://relay") (codes "ab") 5 many 7 3 (codes "a")
      (omega (arith, length-replicate 1_025 (codes "a"))) refl

select_relay_ingest_item_ids_for_processing-Accounts_example :
    Accounts offered
      (select_relay_ingest_item_ids_for_processing
        (λ x. x)
        []
        offered
        (codes "ws://relay")
        (codes "ab")
        5).1
select_relay_ingest_item_ids_for_processing-Accounts_example =
    select_relay_ingest_item_ids_for_processing-Accounts (λ x. x) [] offered (codes "ws://relay")
      (codes "ab") 5
