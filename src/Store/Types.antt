-- ===== src/Store/Types.antt =====
-- The records of src/aethos_core/gossip_store_sqlite.rs and the rows of its table `gossip_items`,
-- whose INTEGER columns hold i64 values. The code casts at each write (`as i64`) and at each read
-- (`as u64`, `as u16`).
use aethos_linux.Base.{ℕ, List}
use aethos_linux.Base.Int.{ℤ, as_i64, as_u64, as_u16}
use aethos_linux.Base.Text.{Text}

pub record StoredItemRecord : Type 0 where
  pub item_id : Text
  pub envelope_b64 : Text
  pub expiry_unix_ms : ℕ
  pub hop_count : ℕ
  pub recorded_at_unix_ms : ℕ

pub record ImportWriteObject : Type 0 where
  pub item_id : Text
  pub envelope_b64 : Text
  pub expiry_unix_ms : ℕ
  pub hop_count : ℕ
  pub recorded_at_unix_ms : ℕ

pub data RecordPutOutcome : Type 0 where
  inserted : RecordPutOutcome
  refreshed : ℕ → RecordPutOutcome
  dedupe : RecordPutOutcome

pub record Row : Type 0 where
  pub item_id : Text
  pub envelope_b64 : Text
  pub expiry_unix_ms : ℤ
  pub hop_count : ℤ
  pub recorded_at_unix_ms : ℤ

-- `gossip_items`; the order of its rows is not observed.
abbrev pub Table : Type 0
Table = List Row

abbrev pub clock_skew_tolerance_ms : ℕ
clock_skew_tolerance_ms = 30_000

-- The parameters of an INSERT.
unfoldable pub row_of : Text → Text → ℕ → ℕ → ℕ → Row
row_of item_id envelope_b64 expiry_unix_ms hop_count recorded_at_unix_ms = record {
  item_id = item_id;
  envelope_b64 = envelope_b64;
  expiry_unix_ms = as_i64 expiry_unix_ms;
  hop_count = as_i64 hop_count;
  recorded_at_unix_ms = as_i64 recorded_at_unix_ms;
}

-- The closure that reads a row.
unfoldable pub record_of : Row → StoredItemRecord
record_of row = record {
  item_id = row.item_id;
  envelope_b64 = row.envelope_b64;
  expiry_unix_ms = as_u64 row.expiry_unix_ms;
  hop_count = as_u16 row.hop_count;
  recorded_at_unix_ms = as_u64 row.recorded_at_unix_ms;
}
