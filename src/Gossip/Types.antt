-- ===== src/Gossip/Types.antt =====
-- The frames of src/aethos_core/gossip_sync.rs and its limits.
use aethos_linux.Base.{ℕ, List, Option}
use aethos_linux.Base.Text.{Text}

abbrev pub gossip_version : ℕ
gossip_version = 1

abbrev pub max_want_items : ℕ
max_want_items = 256

abbrev pub max_transfer_items : ℕ
max_transfer_items = 32

abbrev pub max_transfer_bytes : ℕ
max_transfer_bytes = 524_288

abbrev pub bloom_filter_bytes : ℕ
bloom_filter_bytes = 2_048

abbrev pub bloom_hash_count : ℕ
bloom_hash_count = 4

abbrev pub max_summary_preview_items : ℕ
max_summary_preview_items = 64

pub record HelloFrame : Type 0 where
  pub version : ℕ
  pub node_id : Text
  pub node_pubkey : Text
  pub capabilities : List Text
  pub propagation_class : Text
  pub max_want : ℕ
  pub max_transfer : ℕ

pub record SummaryFrame : Type 0 where
  pub bloom_filter : Text
  pub item_count : ℕ
  pub preview_item_ids : Option (List Text)
  pub preview_cursor : Option Text

pub record RequestFrame : Type 0 where
  pub want : List Text

pub record TransferObject : Type 0 where
  pub item_id : Text
  pub envelope_b64 : Text
  pub expiry_unix_ms : ℕ
  pub hop_count : ℕ

pub record TransferFrame : Type 0 where
  pub objects : List TransferObject

pub record ReceiptFrame : Type 0 where
  pub received : List Text

pub record RelayIngestFrame : Type 0 where
  pub item_ids : List Text

pub data GossipSyncFrame : Type 0 where
  hello : HelloFrame → GossipSyncFrame
  summary : SummaryFrame → GossipSyncFrame
  request : RequestFrame → GossipSyncFrame
  transfer : TransferFrame → GossipSyncFrame
  receipt : ReceiptFrame → GossipSyncFrame
  relay_ingest : RelayIngestFrame → GossipSyncFrame
