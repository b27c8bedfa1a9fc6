-- ===== src/Accountability/Frame.antt =====
-- src/accountability.rs: `validate_server_message`, `validate_server_frame` and
-- `validate_physical_binary_allowed`, which hand each decoded message to its check.
pub mod Run
pub mod Untouched
pub mod Adjacency
pub mod Tracking
use signal_fish_client_rust.Common.{
  ℕ, Bool, true, false, not, ◌||◌, Option, none, some, if◌then◌else◌, is_some, Result, ok, err,
  and_then,
}
use signal_fish_client_rust.Protocol.Delivery.{
  DeliveryClass, GameDataEncoding, json, message_pack, rkyv,
}
use signal_fish_client_rust.Protocol.ErrorCodes.{ErrorCode}
use signal_fish_client_rust.Protocol.Messages.{
  ServerMessage, room_joined, spectator_joined, reconnected, player_joined, player_left,
  player_reconnected, game_data, game_data_binary, delivery_report, relay_stats,
}
use signal_fish_client_rust.Accountability.State.{
  DeliveryAccountability, GameDataDisposition, apply, Violation, Step, representation_mismatch,
  physical_binary_mismatch,
}
use signal_fish_client_rust.Accountability.Stream.{observe_server_message, record_relay_stats}
use signal_fish_client_rust.Accountability.Snapshot.{rebaseline_snapshot, rebaseline_reconnected}
use signal_fish_client_rust.Accountability.Lifecycle.{
  note_player_joined, note_player_reconnected, note_player_left,
}
use signal_fish_client_rust.Accountability.Report.{record_report}
use signal_fish_client_rust.Accountability.GameData.{record_game_data}

abbrev pub is_unsupported_code : Option ErrorCode → Bool
is_unsupported_code (some ErrorCode.unsupported_game_data_format) = true
is_unsupported_code _ = false

abbrev pub is_unsupported_error : {V : Type 0} → ServerMessage V → Bool
is_unsupported_error (ServerMessage.error message code) = is_unsupported_code code
is_unsupported_error _ = false

-- `Ok(())` of a check that yields no disposition of its own.
abbrev pub applied : Step (Unit {0}) → Step GameDataDisposition
applied r = and_then r (λ _ s. (ok apply, s))

-- A binary frame carries no class; a stamped one is reliable.
abbrev pub binary_class : Option ℕ → Option ℕ → Option DeliveryClass
binary_class seq epoch = if is_some seq || is_some epoch then some DeliveryClass.reliable else none

-- The `match message` behind the check of adjacency.
unfoldable pub validate_content :
    {V : Type 0} → ServerMessage V → DeliveryAccountability → Step GameDataDisposition
validate_content (room_joined payload) s = applied (rebaseline_snapshot payload.current_players s)
validate_content (spectator_joined payload) s =
    applied (rebaseline_snapshot payload.current_players s)
validate_content (reconnected payload missed) s =
    applied (rebaseline_reconnected payload.current_players payload.sender_watermarks s)
validate_content (player_joined player) s = applied (note_player_joined player s)
validate_content (player_left id epoch final) s = applied (note_player_left id epoch final s)
validate_content (player_reconnected id epoch) s = applied (note_player_reconnected id epoch s)
validate_content (game_data from payload seq epoch class key) s =
    record_game_data from seq epoch class key s
validate_content (game_data_binary from encoding payload seq epoch) s =
    record_game_data from seq epoch (binary_class seq epoch) none s
validate_content (delivery_report report) s = applied (record_report report s)
validate_content (relay_stats interval sent dropped backpressure) s =
    applied (record_relay_stats interval sent dropped backpressure s)
validate_content _ s = (ok apply, s)

unfoldable pub validate_server_message :
    {V : Type 0} → ServerMessage V → DeliveryAccountability → Step GameDataDisposition
unfolding validate_content
validate_server_message message s =
    and_then (observe_server_message (is_unsupported_error message) s) λ _. validate_content message

abbrev pub same_encoding : GameDataEncoding → GameDataEncoding → Bool
same_encoding json json = true
same_encoding message_pack message_pack = true
same_encoding rkyv rkyv = true
same_encoding _ _ = false

-- The frame's physical representation is not the negotiated one.
unfoldable pub is_mismatch :
    {V : Type 0} → ServerMessage V → GameDataEncoding → (physical_binary_frame : Bool) → Bool
is_mismatch (game_data _ _ _ _ _ _) negotiated physical = not (same_encoding negotiated json)
is_mismatch (game_data_binary _ encoding _ _ _) negotiated physical =
    not physical || same_encoding negotiated json || not (same_encoding encoding negotiated)
is_mismatch _ negotiated physical = false

-- A game-data frame in the wrong representation still uses up the adjacency obligation.
unfoldable pub validate_server_frame :
    {V : Type 0}
    → ServerMessage V
    → GameDataEncoding
    → (physical_binary_frame : Bool) → DeliveryAccountability
    → Step GameDataDisposition
unfolding is_mismatch validate_server_message
validate_server_frame message negotiated physical s =
    if is_mismatch message negotiated physical
    then and_then (observe_server_message false s) (λ _ s'. (err representation_mismatch, s'))
    else validate_server_message message s

unfoldable pub validate_physical_binary_allowed :
    GameDataEncoding → DeliveryAccountability → Step (Unit {0})
validate_physical_binary_allowed negotiated s =
    if not (same_encoding negotiated json)
    then (ok tt, s)
    else and_then (observe_server_message false s) (λ _ s'. (err physical_binary_mismatch, s'))
