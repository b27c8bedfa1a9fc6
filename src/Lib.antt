-- ===== src/Lib.antt =====
-- The Signal Fish client: delivery accountability, the wire protocol, the shared client core, the
-- polling client, the mesh session and the WebRTC controller.
--
-- A client talks to a relay server over one connection. The server stamps game data with an epoch and
-- a sequence number for each sender, and reports what it dropped as exact gaps. The client checks
-- that every number is either received or reported, and a policy says what follows from a violation.
--
-- Protocol (src/protocol.rs, src/error_codes.rs, src/protocol/binary.rs)
--   Delivery, Types, Payloads, Messages, ErrorCodes: the enums and structs of the wire, constructor for
--     constructor. A JSON value is the type parameter V, a UUID a number, a text a native string.
--   Binary: the two envelope decoders, and `decode_binary_server_message` of src/client.rs. Both loops
--     are `read_fields`, on the announced number of fields, which is all the fuel that it needs. The
--     readers of the crate rmp are the parameter `Wire`.
-- Accountability (src/accountability.rs)
--   State: `DeliveryAccountability`, its constructor and resets, and `Violation`, one constructor for
--     each diagnostic text. A method on `&mut self` returns its result with the state that it leaves,
--     so that what is written before an error is seen.
--   Stream: `observe_server_message`, `observe_terminal`, `record_relay_stats`.
--   Snapshot: `rebaseline_snapshot`, `rebaseline_reconnected`.
--   Lifecycle: `note_player_joined`, `note_player_reconnected`, `note_player_left`, `note_epoch`.
--   Report: `record_report` with `validate_gap` and `validate_monotonic_counters`.
--   GameData: `record_game_data`, `consume_exact_gap`, `validate_class_key`.
--   Retire: `try_retire_departed`, `retire_departed`.
--   Frame: `validate_server_message`, `validate_server_frame`, `validate_physical_binary_allowed`;
--     Frame/Run presents a list of frames to the validator of one connection, refused or not.
--   Ledger: an independent account of what a room's messages said of each sequence number.
--   The other child modules hold the proofs, each named for what it is about.
-- Transport (src/transport.rs): the trait `Transport` as a record of its methods on a state, its
--   documented contract on the ownership of a frame as `TakesFrames`, and `poll_accept_frame`. What a
--   backend does is a parameter.
-- Core (src/client_core.rs)
--   Config: `SignalFishConfig` and `JoinRoomParams` of src/client.rs with their builders, `authenticate`.
--   State: `ClientCore`, with the snapshot, the statistics and the policy of src/client.rs.
--   Operations: `ClientOperation`, `prepare`, `ensure_v3`, with `PeerSignal` of src/signal.rs.
--   Frames: `disconnect`, `push_violation`, `update_state`, `set_room`, `clear_room`.
--   Process: `process_frame`, `process_text`, `process_binary`, `observe_undecodable`. The JSON parser is
--     a parameter. A frame yields its outcome with the core that it leaves.
--   Policy and Prepare hold the proofs.
-- Polling (src/polling_client.rs)
--   State: `SignalFishPollingClient`, its construction, its queue and its diagnostics. `Environment` holds
--     what it calls: a transport, the JSON and MessagePack crates, the texts that `format!` makes.
--   Outbound: `drive_outbound`; its loop runs on the command queue. Close: `close`, `drive_close_at`,
--     `drain_closing_inbound`. Drive: `poll`. The two receive loops run on `receive_fuel`, two more than
--     the receive budget, which is enough since each round that goes on counts a frame.
--   Calls: any sequence of polls, operations, closes and resets of the peak, each with its time; the clock
--     is this argument.
--   Rules: what each step keeps, every call keeps. A property of the client is proved by the records
--     `ClientRules` and `CloseRules`, one field for each step.
--   Ownership, Bounds, Session, Budget and Deadline hold the proofs.
-- Mesh (src/mesh.rs)
--   Session: `MeshSession` and `apply`, with the loop over the missed events of a reconnect as `replay`,
--     which skips the events that the source skips and so needs no recursion into itself.
--   Changes and Liveness hold the proofs.
-- WebRtc (src/webrtc.rs)
--   Controller: `MeshController`, on the interfaces `MeshClient`, two operations of the client, and
--     `WebRtcDriver`, which the application implements. `drain_driver` runs on fuel, of which one more
--     than the driver has outputs is enough.
--   Turns: the loop of `recv` as any sequence of drains and incoming events.
--   Rules: what each step of the controller keeps, each turn of it keeps. Channels, Reports, Relay,
--     Drain, Plan and Agreement hold the proofs.
-- Event (src/event.rs): `truncate_on_char_boundary` on the UTF-8 bytes of a text, with the standard
--   library's `is_char_boundary` as documented.
-- Common: Boolean tests on native numbers, list functions, results, and maps.
--
-- Numbers are natural. Where the source checks or saturates an addition on u64, so do the
-- definitions, at 2 ^ 64 - 1, and so on usize, which is taken to be as wide; the ranges of the
-- fields that a frame brings are not restated, and `next` past a gap in `try_retire_departed`, an
-- unchecked addition there, stays within the final sequence. A `BTreeMap` is a list of its entries in
-- the order of their keys. Loops run on the lists that they go through, but for the receive loops of
-- the polling client and the drain of the driver.
--
-- Not modelled: the text of diagnostics and log lines, the serde attributes, the accessors, the
-- rest of src/event.rs, the asynchronous driver of src/client.rs, the transports, which do input and
-- output, and the Godot adapter.
pub mod Common
pub mod Protocol
pub mod Accountability
pub mod Transport
pub mod Core
pub mod Mesh
pub mod Polling
pub mod WebRtc
pub mod Event
