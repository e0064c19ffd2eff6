-- ===== src/Gossip/Transfer/Examples.antt =====
-- Runs of the transfer plans.
use aethos_linux.Base.{ℕ, ◌≡◌, ◌≤◌, refl, [], ◌∷◌, none, length, saturating_add}
use aethos_linux.Base.Text.{Text, contains}
use aethos_linux.Base.Result.{ok}
use aethos_linux.Store.Types.{StoredItemRecord}
use aethos_linux.Envelope.Examples.{crates}
use aethos_linux.Scheduler.Float.{millionths}
use aethos_linux.Scheduler.Types.{SchedulerError}
use aethos_linux.Scheduler.Validate.{refuse_below, eligible_from, validate_item, is_valid_item_id}
use aethos_linux.Scheduler.Select.{pick, select_from, over_duration, over_ratio, mark_selected}
use aethos_linux.Scheduler.Rank.{rank_from}
use aethos_linux.Scheduler.Score.{score}
use aethos_linux.Gossip.Validate.{validate_transfer}
use aethos_linux.Gossip.Validate.Transfer.{decoded_bytes}
use aethos_linux.Gossip.Transfer.{
  LegacyTransferPlan, SchedulerTransferPlan, build_legacy_transfer_plan,
  build_scheduler_transfer_plan,
}
use aethos_linux.Gossip.Transfer.Legacy.{build_legacy_transfer_plan-validate_transfer}
use aethos_linux.Gossip.Transfer.Chosen.{AreSent, build_scheduler_transfer_plan-selected_prefix}
use aethos_linux.Gossip.Import.Examples.{object}

abbrev stored : StoredItemRecord
stored = record {
  item_id = object.item_id;
  envelope_b64 = object.envelope_b64;
  expiry_unix_ms = 200_000;
  hop_count = 3;
  recorded_at_unix_ms = 1_000;
}

legacy :
    (plan : LegacyTransferPlan) × (build_legacy_transfer_plan crates (stored ∷ stored ∷ []) 1 9_000
      ≡ ok plan)
unfolding build_legacy_transfer_plan saturating_add
legacy = (_, refl)

build_legacy_transfer_plan-validate_transfer_example :
    (validate_transfer crates.sha256 crates.base64_decode (record { objects = legacy.0.selected })
      ≡ ok tt)
    × (length legacy.0.selected ≤ 1)
    × (decoded_bytes crates.base64_decode legacy.0.selected ≡ legacy.0.consumed_bytes)
build_legacy_transfer_plan-validate_transfer_example =
    build_legacy_transfer_plan-validate_transfer crates (stored ∷ stored ∷ []) 1 9_000 legacy.0
      legacy.1

no_text : SchedulerError → Text
no_text e = []

scheduled :
    (plan : SchedulerTransferPlan ℕ) × (build_scheduler_transfer_plan millionths crates no_text
        (stored ∷ [])
        4
        9_000
        1_000
        none
      ≡ ok plan)
unfolding build_scheduler_transfer_plan refuse_below eligible_from validate_item is_valid_item_id
    contains saturating_add pick select_from rank_from score over_duration over_ratio mark_selected
scheduled = (_, refl)

build_scheduler_transfer_plan-selected_prefix_example :
    AreSent (stored ∷ []) scheduled.0.selected scheduled.0.result.selected_prefix
build_scheduler_transfer_plan-selected_prefix_example =
    build_scheduler_transfer_plan-selected_prefix millionths crates no_text (stored ∷ []) 4 9_000
      1_000 none scheduled.0 scheduled.1
