-- ===== src/Core/Operations.antt =====
-- src/client_core.rs: what the application asks for, and the command that `prepare` makes of it; with
-- `GameDataDelivery` and `JoinRoomParams` of src/client.rs and `PeerSignal` of src/signal.rs.
use signal_fish_client_rust.Common.{
  ℕ, Bool, true, false, not, ◌&&◌, Option, none, some, List, if◌then◌else◌, Result, ok, err, ◌>>◌,
  reject_if,
}
use Prim.Native.String.{String}
use signal_fish_client_rust.Protocol.Delivery.{PlayerId, RoomId, json, DeliveryClass}
use signal_fish_client_rust.Protocol.Types.{RelayTransport, TransportKind, ConnectionInfo}
use signal_fish_client_rust.Protocol.Messages.{ClientMessage}
use signal_fish_client_rust.Accountability.Frame.{same_encoding}
use signal_fish_client_rust.Core.State.{ClientCore, is_v3}

pub data GameDataDelivery : Type 0 where
  reliable : GameDataDelivery
  latest : (key : ℕ) → GameDataDelivery
  volatile : GameDataDelivery

pub record JoinRoomParams : Type 0 where
  pub game_name : String
  pub player_name : String
  pub room_code : Option String
  pub max_players : Option ℕ
  pub supports_authority : Option Bool
  pub relay_transport : Option RelayTransport

pub data PeerSignal : Type 0 where
  offer : (sdp : String) → PeerSignal
  answer : (sdp : String) → PeerSignal
  ice_candidate : (candidate : String) → PeerSignal

pub data ClientOperation (V : Type 0) : Type 0 where
  join_room : JoinRoomParams → ClientOperation V
  leave_room : ClientOperation V
  game_data : (payload : V) → GameDataDelivery → ClientOperation V
  binary : (payload : List ℕ) → ClientOperation V
  set_ready : ClientOperation V
  start_game : ClientOperation V
  request_authority : (become_authority : Bool) → ClientOperation V
  provide_connection_info : ConnectionInfo V → ClientOperation V
  reconnect : PlayerId → RoomId → (auth_token : String) → ClientOperation V
  join_as_spectator : (game_name room_code spectator_name : String) → ClientOperation V
  leave_spectator : ClientOperation V
  ping : ClientOperation V
  signal : (to : PlayerId) → PeerSignal → ClientOperation V
  raw_signal : (to : PlayerId) → V → ClientOperation V
  transport_status : TransportKind → (connected : Bool) → ClientOperation V

pub data CoreCommand (V : Type 0) : Type 0 where
  message : ClientMessage V → CoreCommand V
  raw_binary : List ℕ → CoreCommand V

-- The text of `ProtocolUnsupported`.
pub data Mode : Type 0 where
  relay_only pre_negotiation : Mode

-- The errors of src/error.rs that an operation can meet.
pub data SignalFishError : Type 0 where
  not_connected : SignalFishError
  protocol_unsupported : Mode → SignalFishError
  binary_format_not_negotiated : SignalFishError
  send_buffer_full : (capacity : ℕ) → SignalFishError

unfoldable pub ensure_v3 : ClientCore → Result (Unit {0}) SignalFishError
ensure_v3 core =
    if is_v3 core.snapshot.negotiated_protocol_version
    then ok tt
    else err
        (protocol_unsupported (if core.protocol_info_seen then relay_only else pre_negotiation))

-- The first `match &operation` of `prepare`.
unfoldable pub needs_v3 : {V : Type 0} → ClientOperation V → Bool
needs_v3 (game_data payload (latest key)) = true
needs_v3 (game_data payload volatile) = true
needs_v3 (binary payload) = true
needs_v3 (signal to payload) = true
needs_v3 (raw_signal to payload) = true
needs_v3 (transport_status transport connected) = true
needs_v3 _ = false

abbrev pub is_binary : {V : Type 0} → ClientOperation V → Bool
is_binary (binary payload) = true
is_binary _ = false

abbrev pub class_of : GameDataDelivery → Option DeliveryClass
class_of reliable = none
class_of (latest key) = some DeliveryClass.latest
class_of volatile = some DeliveryClass.volatile

abbrev pub key_of : GameDataDelivery → Option ℕ
key_of (latest key) = some key
key_of _ = none

-- `singleton` is the JSON object of one name and its text that `serde_json::json!` makes.
module _ {V : Type 0} (singleton : String → String → V) where
  abbrev pub signal_value : PeerSignal → V
  signal_value (offer sdp) = singleton "Offer" sdp
  signal_value (answer sdp) = singleton "Answer" sdp
  signal_value (ice_candidate candidate) = singleton "IceCandidate" candidate

  -- The second `match operation` of `prepare`.
  unfoldable pub command_of : ClientOperation V → CoreCommand V
  command_of (join_room params) = message (
      ClientMessage.join_room params.game_name params.room_code params.player_name
        params.max_players params.supports_authority params.relay_transport)
  command_of leave_room = message ClientMessage.leave_room
  command_of (game_data payload delivery) =
      message (ClientMessage.game_data payload (class_of delivery) (key_of delivery))
  command_of (binary payload) = raw_binary payload
  command_of set_ready = message ClientMessage.player_ready
  command_of start_game = message ClientMessage.start_game
  command_of (request_authority become) = message (ClientMessage.authority_request become)
  command_of (provide_connection_info info) = message (ClientMessage.provide_connection_info info)
  command_of (reconnect player room token) = message (ClientMessage.reconnect player room token)
  command_of (join_as_spectator game room name) =
      message (ClientMessage.join_as_spectator game room name)
  command_of leave_spectator = message ClientMessage.leave_spectator
  command_of ping = message ClientMessage.ping
  command_of (signal to payload) = message (ClientMessage.signal to (signal_value payload))
  command_of (raw_signal to payload) = message (ClientMessage.signal to payload)
  command_of (transport_status transport connected) =
      message (ClientMessage.transport_status transport connected)

  unfoldable pub prepare : ClientOperation V → ClientCore → Result (CoreCommand V) SignalFishError
  unfolding ensure_v3 needs_v3 command_of
  prepare operation core =
      if not core.snapshot.connected
      then err not_connected
      else (if needs_v3 operation then ensure_v3 core else ok tt)
        >> reject_if (is_binary operation && same_encoding core.game_data_encoding json)
            binary_format_not_negotiated
        >> ok (command_of operation)
