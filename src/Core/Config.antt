-- ===== src/Core/Config.antt =====
-- src/client.rs: `SignalFishConfig` and its builders, the builders of `JoinRoomParams`, and
-- `ClientCore::authenticate`. The version of the crate, an environment variable of its build, is the
-- argument `sdk_version`.
use signal_fish_client_rust.Common.{
  ℕ, Bool, true, false, Option, none, some, List, [], ◌∷◌, ltb, if◌then◌else◌,
}
use Prim.Native.String.{String}
use signal_fish_client_rust.Protocol.Delivery.{GameDataEncoding, json}
use signal_fish_client_rust.Protocol.Types.{RelayTransport, TransportKind, web_rtc, Topology}
use signal_fish_client_rust.Protocol.Messages.{ClientMessage}
use signal_fish_client_rust.Core.State.{ProtocolViolationPolicy, quarantine}
use signal_fish_client_rust.Core.Operations.{JoinRoomParams, CoreCommand, message}

pub record SignalFishConfig : Type 0 where
  pub app_id : String
  pub sdk_version : Option String
  pub platform : Option String
  pub game_data_format : Option GameDataEncoding
  pub protocol_version : Option ℕ
  pub supported_transports : Option (List TransportKind)
  pub supported_topologies : Option (List Topology)
  pub event_channel_capacity : ℕ
  pub command_channel_capacity : ℕ
  pub shutdown_timeout : ℕ
  pub protocol_violation_policy : ProtocolViolationPolicy

-- `usize::max`.
abbrev pub max : ℕ → ℕ → ℕ
max a b = if ltb a b then b else a

-- Durations are in nanoseconds.
abbrev pub default_shutdown_timeout : ℕ
default_shutdown_timeout = 1_000_000_000

unfoldable pub new_config : (sdk_version app_id : String) → SignalFishConfig
new_config sdk_version app_id = record {
  app_id = app_id;
  sdk_version = some sdk_version;
  platform = none;
  game_data_format = none;
  protocol_version = none;
  supported_transports = none;
  supported_topologies = none;
  event_channel_capacity = 256;
  command_channel_capacity = 1024;
  shutdown_timeout = default_shutdown_timeout;
  protocol_violation_policy = quarantine;
}

unfoldable pub with_event_channel_capacity : ℕ → SignalFishConfig → SignalFishConfig
with_event_channel_capacity capacity config = record config {
  event_channel_capacity = max capacity 1;
}

unfoldable pub with_command_channel_capacity : ℕ → SignalFishConfig → SignalFishConfig
with_command_channel_capacity capacity config = record config {
  command_channel_capacity = max capacity 1;
}

unfoldable pub with_shutdown_timeout : ℕ → SignalFishConfig → SignalFishConfig
with_shutdown_timeout timeout config = record config { shutdown_timeout = timeout }

unfoldable pub with_protocol_violation_policy :
    ProtocolViolationPolicy → SignalFishConfig → SignalFishConfig
with_protocol_violation_policy policy config = record config { protocol_violation_policy = policy }

unfoldable pub enable_v3 : SignalFishConfig → SignalFishConfig
enable_v3 config = record config {
  protocol_version = some 3;
  supported_transports = some (TransportKind.relay ∷ []);
  supported_topologies = some (Topology.relay ∷ []);
}

unfoldable pub enable_mesh : SignalFishConfig → SignalFishConfig
unfolding enable_v3
enable_mesh config = record (enable_v3 config) {
  supported_transports = some (web_rtc ∷ TransportKind.relay ∷ []);
  supported_topologies = some (Topology.mesh ∷ Topology.host ∷ Topology.relay ∷ []);
}

unfoldable pub with_protocol_version : ℕ → SignalFishConfig → SignalFishConfig
with_protocol_version version config = record config { protocol_version = some version }

unfoldable pub with_transports : List TransportKind → SignalFishConfig → SignalFishConfig
with_transports transports config = record config { supported_transports = some transports }

unfoldable pub with_topologies : List Topology → SignalFishConfig → SignalFishConfig
with_topologies topologies config = record config { supported_topologies = some topologies }

unfoldable pub authenticate : {V : Type 0} → SignalFishConfig → CoreCommand V
authenticate config = message (
    ClientMessage.authenticate config.app_id config.sdk_version config.platform
      config.game_data_format config.protocol_version config.supported_transports
      config.supported_topologies)

abbrev pub has_web_rtc : List TransportKind → Bool
has_web_rtc [] = false
has_web_rtc (web_rtc ∷ kinds) = true
has_web_rtc (_ ∷ kinds) = has_web_rtc kinds

-- What both drivers compute as `mesh_enabled` and as the requested encoding.
unfoldable pub mesh_enabled : SignalFishConfig → Bool
mesh_enabled config = elim config.supported_transports [
  | none ↦ false
  | some kinds ↦ has_web_rtc kinds
]

unfoldable pub requested_encoding : SignalFishConfig → GameDataEncoding
requested_encoding config = elim config.game_data_format [ none ↦ json | some format ↦ format ]

unfoldable pub new_params : (game_name player_name : String) → JoinRoomParams
new_params game_name player_name = record {
  game_name = game_name;
  player_name = player_name;
  room_code = none;
  max_players = none;
  supports_authority = none;
  relay_transport = none;
}

unfoldable pub with_room_code : String → JoinRoomParams → JoinRoomParams
with_room_code code params = record params { room_code = some code }

unfoldable pub with_max_players : ℕ → JoinRoomParams → JoinRoomParams
with_max_players n params = record params { max_players = some n }

unfoldable pub with_supports_authority : Bool → JoinRoomParams → JoinRoomParams
with_supports_authority b params = record params { supports_authority = some b }

unfoldable pub with_relay_transport : RelayTransport → JoinRoomParams → JoinRoomParams
with_relay_transport transport params = record params { relay_transport = some transport }
