-- ===== src/Gossip.antt =====
-- The gossip protocol, src/aethos_core/gossip_sync.rs.
--   Types     the frames
--   Validate  `validate_frame`
--   Frame     `serialize_frame` and `parse_frame`
--   Bloom     `build_bloom_filter` and `bloom_might_contain`
--   Summary   the frames that are built of the store
--   Import    `import_transfer_items`
--   Transfer  the objects that are sent on a request
--   Request   which items a summary makes a client ask for, and the frame that asks
pub mod Types
pub mod Validate
pub mod Request
pub mod Frame
pub mod Bloom
pub mod Summary
pub mod Import
pub mod Transfer
mod Examples
