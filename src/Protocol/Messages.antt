-- ===== src/Protocol/Messages.antt =====
-- src/protocol.rs: the messages of the client and of the server.
use Prim.Native.Nat.{ℕ}
use Prim.Native.String.{String}
use mathlib.Core.Bool.{Bool}
use mathlib.Core.Option.{Option}
use mathlib.Core.List.{List}
use signal_fish_client_rust.Protocol.Delivery.{
  PlayerId, RoomId, GameDataEncoding, DeliveryClass, DeliveryReportPayload,
}
use signal_fish_client_rust.Protocol.ErrorCodes.{ErrorCode}
use signal_fish_client_rust.Protocol.Types.{
  RelayTransport, Topology, TransportKind, LobbyState, SpectatorStateChangeReason, ConnectionInfo,
  PlayerInfo, SpectatorInfo, PeerConnectionInfo, RateLimitInfo,
}
use signal_fish_client_rust.Protocol.Payloads.{
  ProtocolInfoPayload, RoomJoinedPayload, ReconnectedPayload, SpectatorJoinedPayload,
  SessionPlanPayload,
}

pub data ClientMessage (V : Type 0) : Type 0 where
  authenticate :
      (app_id : String) (sdk_version platform : Option String)
      (game_data_format : Option GameDataEncoding) (protocol_version : Option ℕ)
      (supported_transports : Option (List TransportKind))
      (supported_topologies : Option (List Topology))
      → ClientMessage V
  join_room :
      (game_name : String) (room_code : Option String) (player_name : String)
      (max_players : Option ℕ) (supports_authority : Option Bool)
      (relay_transport : Option RelayTransport)
      → ClientMessage V
  leave_room : ClientMessage V
  game_data : (payload : V) (class : Option DeliveryClass) (key : Option ℕ) → ClientMessage V
  authority_request : (become_authority : Bool) → ClientMessage V
  player_ready : ClientMessage V
  provide_connection_info : (connection_info : ConnectionInfo V) → ClientMessage V
  ping : ClientMessage V
  reconnect : (player_id : PlayerId) (room_id : RoomId) (auth_token : String) → ClientMessage V
  join_as_spectator : (game_name room_code spectator_name : String) → ClientMessage V
  leave_spectator : ClientMessage V
  start_game : ClientMessage V
  signal : (to : PlayerId) (payload : V) → ClientMessage V
  transport_status : (transport : TransportKind) (connected : Bool) → ClientMessage V

mutual
  pub data ServerMessage (V : Type 0) : Type 0 where
    authenticated :
        (app_name : String) (organization : Option String) (rate_limits : RateLimitInfo)
        → ServerMessage V
    protocol_info : ProtocolInfoPayload → ServerMessage V
    authentication_error : (error : String) (error_code : ErrorCode) → ServerMessage V
    room_joined : RoomJoinedPayload V → ServerMessage V
    room_join_failed : (reason : String) (error_code : Option ErrorCode) → ServerMessage V
    room_left : ServerMessage V
    player_joined : (player : PlayerInfo V) → ServerMessage V
    player_left : (player_id : PlayerId) (epoch final_seq : Option ℕ) → ServerMessage V
    game_data :
        (from_player : PlayerId) (payload : V) (seq epoch : Option ℕ) (class : Option DeliveryClass)
        (key : Option ℕ)
        → ServerMessage V
    game_data_binary :
        (from_player : PlayerId) (encoding : GameDataEncoding) (payload : List ℕ)
        (seq epoch : Option ℕ)
        → ServerMessage V
    authority_changed :
        (authority_player : Option PlayerId) (you_are_authority : Bool) → ServerMessage V
    authority_response :
        (granted : Bool) (reason : Option String) (error_code : Option ErrorCode) → ServerMessage V
    lobby_state_changed :
        (lobby_state : LobbyState) (ready_players : List PlayerId) (all_ready : Bool)
        → ServerMessage V
    game_starting : (peer_connections : List (PeerConnectionInfo V)) → ServerMessage V
    pong : ServerMessage V
    reconnected :
        (payload : ReconnectedPayload V) (missed_events : ServerMessages V) → ServerMessage V
    reconnection_failed : (reason : String) (error_code : ErrorCode) → ServerMessage V
    player_reconnected : (player_id : PlayerId) (epoch : Option ℕ) → ServerMessage V
    spectator_joined : SpectatorJoinedPayload V → ServerMessage V
    spectator_join_failed : (reason : String) (error_code : Option ErrorCode) → ServerMessage V
    spectator_left :
        (room_id : Option RoomId) (room_code : Option String)
        (reason : Option SpectatorStateChangeReason) (current_spectators : List SpectatorInfo)
        → ServerMessage V
    new_spectator_joined :
        (spectator : SpectatorInfo) (current_spectators : List SpectatorInfo)
        (reason : Option SpectatorStateChangeReason)
        → ServerMessage V
    spectator_disconnected :
        (spectator_id : PlayerId) (reason : Option SpectatorStateChangeReason)
        (current_spectators : List SpectatorInfo)
        → ServerMessage V
    error : (message : String) (error_code : Option ErrorCode) → ServerMessage V
    signal : (from_player : PlayerId) (payload : V) → ServerMessage V
    new_peer : (peer_id : PlayerId) (you_initiate : Bool) → ServerMessage V
    session_plan : SessionPlanPayload → ServerMessage V
    peer_transport_status :
        (peer_id : PlayerId) (transport : TransportKind) (connected : Bool) → ServerMessage V
    relay_stats :
        (interval_ms sent_to_you dropped_for_you backpressure_events : ℕ) → ServerMessage V
    going_away : (deadline_ms : ℕ) (retry_after_secs : Option ℕ) → ServerMessage V
    delivery_report : DeliveryReportPayload → ServerMessage V

  -- `Vec<ServerMessage>`.
  pub data ServerMessages (V : Type 0) : Type 0 where
    nil : ServerMessages V
    cons : ServerMessage V → ServerMessages V → ServerMessages V
