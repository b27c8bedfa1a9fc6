-- ===== src/Core/State.antt =====
-- src/client_core.rs, with the snapshot, statistics, policy and events of src/client.rs and
-- src/event.rs that it works on: the state of the shared client core.
use signal_fish_client_rust.Common.{
  ℕ, ◌+◌, Bool, true, false, ◌&&◌, Option, none, List, ltb, leb, if◌then◌else◌, is_some_and,
  u64_max,
}
use Prim.Native.String.{String}
use signal_fish_client_rust.Protocol.Delivery.{PlayerId, RoomId, GameDataEncoding}
use signal_fish_client_rust.Protocol.ErrorCodes.{ErrorCode}
use signal_fish_client_rust.Protocol.Messages.{ServerMessage}
use signal_fish_client_rust.Accountability.State.{DeliveryAccountability, Violation, new}

pub record ClientSnapshot : Type 0 where
  pub connected : Bool
  pub authenticated : Bool
  pub negotiated_protocol_version : Option ℕ
  pub player_id : Option PlayerId
  pub room_id : Option RoomId
  pub room_code : Option String
  pub reconnection_token : Option String
  pub quarantined : Bool

pub record ClientStats : Type 0 where
  pub game_data_sent : ℕ
  pub game_data_received : ℕ
  pub messages_undecodable : ℕ

pub record ServerErrorInfo : Type 0 where
  pub message : String
  pub error_code : Option ErrorCode

pub data ProtocolViolationPolicy : Type 0 where
  quarantine disconnect observe : ProtocolViolationPolicy

-- The events that the core makes: `SignalFishEvent::from` of a message, and the synthetic ones. What
-- quotes the undecodable input is left out of `decode_failed`, and the kind of a violation, which is
-- a function of its diagnostic.
pub data SignalFishEvent (V : Type 0) : Type 0 where
  connected : SignalFishEvent V
  from_message : ServerMessage V → SignalFishEvent V
  disconnected :
      (reason : Option String) (last_server_error : Option ServerErrorInfo) → SignalFishEvent V
  decode_failed : SignalFishEvent V
  protocol_violation : (diagnostic : Violation) → SignalFishEvent V

pub record FrameOutcome (V : Type 0) : Type 0 where
  pub events : List (SignalFishEvent V)
  pub disconnect : Bool

pub record ClientCore : Type 0 where
  pub snapshot : ClientSnapshot
  pub protocol_info_seen : Bool
  pub mesh_enabled : Bool
  pub game_data_encoding : GameDataEncoding
  pub stats : ClientStats
  pub last_server_error : Option ServerErrorInfo
  pub violation_policy : ProtocolViolationPolicy
  pub accountability : DeliveryAccountability

unfoldable pub new_core : GameDataEncoding → ProtocolViolationPolicy → Bool → ClientCore
unfolding new
new_core encoding policy mesh = record {
  snapshot = record {
    connected = true;
    authenticated = false;
    negotiated_protocol_version = none;
    player_id = none;
    room_id = none;
    room_code = none;
    reconnection_token = none;
    quarantined = false;
  };
  protocol_info_seen = false;
  mesh_enabled = mesh;
  game_data_encoding = encoding;
  stats = record { game_data_sent = 0; game_data_received = 0; messages_undecodable = 0 };
  last_server_error = none;
  violation_policy = policy;
  accountability = new false;
}

abbrev pub is_v3 : Option ℕ → Bool
is_v3 version = is_some_and version (leb 3)

unfoldable pub supports_mesh : ClientCore → Bool
supports_mesh core = core.mesh_enabled && is_v3 core.snapshot.negotiated_protocol_version

-- `saturating_add(1)` on u64.
abbrev pub saturating_inc : ℕ → ℕ
saturating_inc n = if ltb n u64_max then n + 1 else u64_max

unfoldable pub record_game_data_sent : ClientCore → ClientCore
record_game_data_sent core = record core {
  stats = record (core.stats) { game_data_sent = saturating_inc core.stats.game_data_sent };
}

unfoldable pub clear_session : ClientCore → ClientCore
clear_session core = record core {
  snapshot = record (core.snapshot) {
    authenticated = false;
    negotiated_protocol_version = none;
    player_id = none;
    room_id = none;
    room_code = none;
    reconnection_token = none;
    quarantined = false;
  };
  protocol_info_seen = false;
}
