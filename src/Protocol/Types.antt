-- ===== src/Protocol/Types.antt =====
-- src/protocol.rs: enumerations and small structs.
use Prim.Native.Nat.{ℕ}
use Prim.Native.Char.{Char}
use Prim.Native.String.{String}
use mathlib.Core.Bool.{Bool}
use mathlib.Core.Option.{Option}
use mathlib.Core.List.{List}
use signal_fish_client_rust.Protocol.Delivery.{PlayerId}

pub data RelayTransport : Type 0 where
  tcp udp websocket auto : RelayTransport

pub data ReplayStatus : Type 0 where
  complete truncated unavailable : ReplayStatus

pub data Topology : Type 0 where
  relay host mesh : Topology

pub data TransportKind : Type 0 where
  relay direct web_rtc : TransportKind

pub data MessageTransport : Type 0 where
  websocket : MessageTransport

pub data ConnectionInfo (V : Type 0) : Type 0 where
  direct : (host : String) (port : ℕ) → ConnectionInfo V
  unity_relay : (allocation_id connection_data key : String) → ConnectionInfo V
  relay :
      (host : String) (port : ℕ) (transport : RelayTransport) (allocation_id token : String)
      (client_id : Option ℕ)
      → ConnectionInfo V
  web_rtc : (sdp : Option String) (ice_candidates : List String) → ConnectionInfo V
  custom : (payload : V) → ConnectionInfo V

pub data SpectatorStateChangeReason : Type 0 where
  joined voluntary_leave disconnected removed room_closed : SpectatorStateChangeReason

pub data LobbyState : Type 0 where
  waiting lobby finalized : LobbyState

pub record PlayerInfo (V : Type 0) : Type 0 where
  pub id : PlayerId
  pub name : String
  pub is_authority : Bool
  pub is_ready : Bool
  pub connected_at : String
  pub connection_info : Option (ConnectionInfo V)
  pub epoch : Option ℕ
  pub seq : Option ℕ

pub record SpectatorInfo : Type 0 where
  pub id : PlayerId
  pub name : String
  pub connected_at : String

pub record PeerConnectionInfo (V : Type 0) : Type 0 where
  pub player_id : PlayerId
  pub player_name : String
  pub is_authority : Bool
  pub relay_type : String
  pub connection_info : Option (ConnectionInfo V)

pub record RateLimitInfo : Type 0 where
  pub per_minute : ℕ
  pub per_hour : ℕ
  pub per_day : ℕ

pub record PlayerNameRulesPayload : Type 0 where
  pub max_length : ℕ
  pub min_length : ℕ
  pub allow_unicode_alphanumeric : Bool
  pub allow_spaces : Bool
  pub allow_leading_trailing_whitespace : Bool
  pub allowed_symbols : List Char
  pub additional_allowed_characters : Option String

pub record IceServer : Type 0 where
  pub urls : List String
  pub username : Option String
  pub credential : Option String

pub record SessionPeer : Type 0 where
  pub player_id : PlayerId
  pub player_name : String
  pub is_authority : Bool
  pub initiate : Bool
