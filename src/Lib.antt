-- ===== src/Lib.antt =====
-- The core of the Aethos client for Linux (src/aethos_core, src/relay): how a client decides which
-- cargo to carry in an encounter, what it asks a peer for, and how it keeps its sessions with
-- relays.
--
-- A relay session takes a lease (Relay/Lease) and runs an encounter, whose life is a small state
-- machine (Orchestration). The relay is one that the session manager selects (Relay/Manager). What
-- the relay and the peer offer comes in frames (Gossip/Types) over a stream (Relay/Frame): a
-- summary of the store with a bloom filter (Gossip/Summary, Gossip/Bloom). The offered items pass a
-- window (Relay/Ingest), the wanted ones make a request (Gossip/Request), what is sent in answer
-- (Gossip/Transfer) is planned by the encounter scheduler (Scheduler), and what is received
-- (Gossip/Import) is checked as a signed envelope (Envelope) and written to the store (Store).
--
-- Base holds what the modules share. A string and a byte vector are both `Text`, the list of their
-- bytes; an i32 is a `ℤ`, and a u64, a usize and a byte are `ℕ`, with saturation and wrap-around
-- written out; a Result is `Result`, and a map or a set is an association list or a list. The text
-- of an error is kept, but for the reason that a library gives and for numbers that it prints.
--
-- Hex models the identifiers in lower-case hexadecimal (`is_valid_wayfarer_id`,
-- `bytes_to_hex_lower` and `parse_wayfarer_id_hex` of src/aethos_core/protocol.rs,
-- `is_valid_item_id` and `decode_item_id` of src/aethos_core/gossip_sync.rs).
--
-- Scheduler models src/aethos_core/encounter_scheduler.rs: Scheduler/Types its data, Validate the
-- validation of the input, Score the scores, Rank the ranking, Select the loop that selects under
-- the budget, and Plan `schedule`, which composes them. The f64 operations are a parameter
-- (Scheduler/Float).
--
-- Relay models parts of src/relay/client.rs: Relay/Lease the registry of sessions
-- (`RelaySessionLease`), Relay/Ingest the window over the offered identifiers
-- (`relay_ingest_candidates_with_lookup` and what it calls), Relay/Manager `RelaySessionManager`,
-- Relay/Dispatcher `RelayRequestDispatcher`, and Relay/Frame the frames of a stream. A global under
-- a mutex is state that the operations pass on, and a clock is an argument.
--
-- Store models src/aethos_core/gossip_store_sqlite.rs: the table `gossip_items` is a list of rows,
-- each transaction a function from table to table and each query a function of the table, with the
-- casts between u64 and the i64 of SQL written out. Store/Spec is its specification, a map from
-- identifiers to rows, and Store/View what a table stands for. The errors that SQLite itself may
-- give are left out, and the order of a query without ORDER BY is not observed.
--
-- Envelope models src/aethos_core/protocol.rs: Cbor the values and their canonical form, Build
-- `build_envelope_payload_b64` and the chat message, Decode `decode_envelope_payload_b64`. The
-- crates ciborium, base64, sha2 and ed25519 are one record of operations, `Crates`.
--
-- Gossip models parts of src/aethos_core/gossip_sync.rs: Gossip/Types the frames, Validate
-- `validate_frame`, Frame `serialize_frame` and `parse_frame`, Request the selection of what to ask
-- for and `build_request_frame`, Bloom the filter, Summary the frames that tell what a node has,
-- Transfer the answer to a request, and Import `import_transfer_items`. The sum of a clock and the
-- clock tolerance is taken below 2 ^ 64 where the source adds them without saturation.
--
-- Orchestration models `EncounterManager` of src/aethos_core/encounter_orchestration.rs.
--
-- Each loop is structural recursion on the list or the count that it runs over; there is no fuel.
-- SHA-256, the base64 decoder and the derived serializers of a frame are arguments; so are, in
-- Relay/Ingest, the query of the store and, in Gossip/Request, that of the bloom filter.
--
-- Not modelled: the migration of the store from JSON and its connection; the websocket calls and
-- the loop that runs an encounter over them; the desktop program under spikes, the Bluetooth scan,
-- the identity store, the logs and the binaries, which are input and output around this core.
pub mod Base
pub mod Hex
pub mod Scheduler
pub mod Relay
pub mod Store
pub mod Envelope
pub mod Gossip
pub mod Orchestration
