-- ===== src/Envelope.antt =====
-- The envelope protocol, src/aethos_core/protocol.rs: what a message is wrapped in, signed, and
-- checked on arrival.
--   Cbor    the CBOR values and their canonical form; the codec of the crate `ciborium` is a
--           parameter
--   Build   the envelope that is sent, with the body of a chat message
--   Decode  what is read back, and the text of a chat message
pub mod Cbor
pub mod Build
pub mod Decode
pub mod Canonical
pub mod Idempotent
pub mod RoundTrip
pub mod Authentic
pub mod Codec
pub mod Examples
