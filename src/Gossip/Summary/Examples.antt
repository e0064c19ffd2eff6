-- ===== src/Gossip/Summary/Examples.antt =====
-- Runs of the SUMMARY frame.
use aethos_linux.Base.{saturating_add, ◌≡◌, refl, true, false, [], ◌∷◌, some, none, length, arith}
use aethos_linux.Base.Text.{Text, codes, contains}
use aethos_linux.Base.Int.{pos, as_i64}
use aethos_linux.Base.Result.{ok}
use aethos_linux.Store.Types.{Row, Table}
use aethos_linux.Store.{find, prune_expired}
use aethos_linux.Store.View.{IsValid}
use aethos_linux.Envelope.Examples.{crates}
use aethos_linux.Gossip.Types.{SummaryFrame, summary}
use aethos_linux.Gossip.Bloom.{bloom_might_contain}
use aethos_linux.Gossip.Summary.{is_for, eligible_item_ids, build_summary_frame}
use aethos_linux.Gossip.Summary.Advertised.{
  eligible_item_ids-foreign, build_summary_frame-bloom_might_contain,
}
use aethos_linux.Gossip.Import.Examples.{object, row}

abbrev live_row : Row
live_row = record row { expiry_unix_ms = pos 200_000 }

abbrev table : Table
table = live_row ∷ []

table-IsValid : IsValid table
unfolding find
table-IsValid = ((refl, tt), (((omega arith, omega arith), (omega arith, omega arith)), tt))

abbrev someone : Text
someone = codes "me"

advertised : contains (eligible_item_ids crates (some someone) table 1_000).1 object.item_id ≡ true
unfolding contains eligible_item_ids as_i64 saturating_add
advertised = refl

eligible_item_ids-foreign_example :
    (r : Row) × (find object.item_id (prune_expired table 1_000) ≡ some r)
    × (is_for crates (some someone) someone r.envelope_b64 ≡ false)
eligible_item_ids-foreign_example =
    eligible_item_ids-foreign crates someone table 1_000 object.item_id table-IsValid advertised

sent :
    (frame : SummaryFrame) × ((build_summary_frame crates none table 1_000).1 ≡ ok (summary frame))
unfolding build_summary_frame as_i64 saturating_add
sent = (_, refl)

build_summary_frame-bloom_might_contain_example :
    (sent.0.item_count ≡ length (eligible_item_ids crates none table 1_000).1)
    × ((k : Text)
        → contains (eligible_item_ids crates none table 1_000).1 k ≡ true
        → bloom_might_contain crates.sha256 sent.0.bloom_filter k ≡ ok true)
build_summary_frame-bloom_might_contain_example =
    build_summary_frame-bloom_might_contain crates none table 1_000 sent.0 sent.1
