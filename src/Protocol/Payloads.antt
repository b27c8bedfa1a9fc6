-- ===== src/Protocol/Payloads.antt =====
-- src/protocol.rs: the payload structs of the larger messages. `missed_events` of `Reconnected`
-- holds messages, and stands beside the payload in `Messages`.
use Prim.Native.Nat.{ℕ}
use Prim.Native.String.{String}
use mathlib.Core.Bool.{Bool}
use mathlib.Core.Option.{Option}
use mathlib.Core.List.{List}
use signal_fish_client_rust.Protocol.Delivery.{PlayerId, RoomId, GameDataEncoding, SenderWatermark}
use signal_fish_client_rust.Protocol.Types.{
  Topology, TransportKind, MessageTransport, ReplayStatus, LobbyState, SpectatorStateChangeReason,
  PlayerInfo, SpectatorInfo, PlayerNameRulesPayload, IceServer, SessionPeer,
}

pub record ProtocolInfoPayload : Type 0 where
  pub platform : Option String
  pub sdk_version : Option String
  pub minimum_version : Option String
  pub recommended_version : Option String
  pub capabilities : List String
  pub notes : Option String
  pub game_data_formats : List GameDataEncoding
  pub player_name_rules : Option PlayerNameRulesPayload
  pub protocol_version : Option ℕ
  pub min_protocol_version : Option ℕ
  pub max_protocol_version : Option ℕ
  pub transports : Option (List MessageTransport)

pub record RoomJoinedPayload (V : Type 0) : Type 0 where
  pub room_id : RoomId
  pub room_code : String
  pub player_id : PlayerId
  pub game_name : String
  pub max_players : ℕ
  pub supports_authority : Bool
  pub current_players : List (PlayerInfo V)
  pub is_authority : Bool
  pub lobby_state : LobbyState
  pub ready_players : List PlayerId
  pub relay_type : String
  pub current_spectators : List SpectatorInfo
  pub ice_servers : List IceServer
  pub reconnection_token : Option String

pub record ReconnectedPayload (V : Type 0) : Type 0 where
  pub room_id : RoomId
  pub room_code : String
  pub player_id : PlayerId
  pub game_name : String
  pub max_players : ℕ
  pub supports_authority : Bool
  pub current_players : List (PlayerInfo V)
  pub is_authority : Bool
  pub lobby_state : LobbyState
  pub ready_players : List PlayerId
  pub relay_type : String
  pub current_spectators : List SpectatorInfo
  pub ice_servers : List IceServer
  pub replay : Option ReplayStatus
  pub sender_watermarks : List SenderWatermark
  pub reconnection_token : Option String

pub record SpectatorJoinedPayload (V : Type 0) : Type 0 where
  pub room_id : RoomId
  pub room_code : String
  pub spectator_id : PlayerId
  pub game_name : String
  pub current_players : List (PlayerInfo V)
  pub current_spectators : List SpectatorInfo
  pub lobby_state : LobbyState
  pub reason : Option SpectatorStateChangeReason

pub record SessionPlanPayload : Type 0 where
  pub topology : Topology
  pub transport : TransportKind
  pub host : Option PlayerId
  pub peers : List SessionPeer
  pub ice_servers : List IceServer
  pub fallback : TransportKind
