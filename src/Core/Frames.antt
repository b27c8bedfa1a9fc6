-- ===== src/Core/Frames.antt =====
-- src/client_core.rs: what `disconnect`, `push_violation` and `update_state` do to the core.
use signal_fish_client_rust.Common.{ℕ, Bool, true, false, Option, none, some, if◌then◌else◌}
use Prim.Native.String.{String}
use signal_fish_client_rust.Protocol.Delivery.{PlayerId, RoomId, json}
use signal_fish_client_rust.Protocol.Messages.{
  ServerMessage, ServerMessages, nil, cons, authenticated, protocol_info, authentication_error,
  room_joined, room_left, reconnected, spectator_joined, spectator_left, game_data,
  game_data_binary,
}
use signal_fish_client_rust.Accountability.Stream.{observe_terminal}
use signal_fish_client_rust.Accountability.Frame.{is_unsupported_code}
use signal_fish_client_rust.Core.State.{
  ClientCore, SignalFishEvent, disconnected, quarantine, is_v3, saturating_inc, clear_session,
}

-- The event that `disconnect` returns, with the core that it leaves.
unfoldable pub disconnect_core :
    {V : Type 0} → (reason : Option String) → ClientCore → SignalFishEvent V × ClientCore
unfolding clear_session observe_terminal
disconnect_core reason core =
    let closed = record core {
      accountability = observe_terminal core.accountability;
      snapshot = record (core.snapshot) { connected = false };
    } in
    (
      disconnected reason core.last_server_error,
      record (clear_session closed) { last_server_error = none },
    )

unfoldable pub set_quarantined : Bool → ClientCore → ClientCore
set_quarantined b core = record core { snapshot = record (core.snapshot) { quarantined = b } }

-- The state part of `push_violation`; the event goes to the outcome.
unfoldable pub note_violation : ClientCore → ClientCore
unfolding set_quarantined
note_violation core = elim core.violation_policy [
  | quarantine ↦ set_quarantined true core
  | _ ↦ core
]

unfoldable pub set_room :
    PlayerId → RoomId → String → (reconnection_token : Option String) → ClientCore → ClientCore
set_room player room code token core = record core {
  snapshot = record (core.snapshot) {
    player_id = some player;
    room_id = some room;
    room_code = some code;
    reconnection_token = token;
    quarantined = false;
  };
}

unfoldable pub clear_room : ClientCore → ClientCore
clear_room core = record core {
  snapshot = record (core.snapshot) {
    room_id = none;
    room_code = none;
    reconnection_token = none;
    quarantined = false;
  };
}

abbrev pub or_else : Option ℕ → Option ℕ → Option ℕ
or_else none other = other
or_else (some version) other = some version

abbrev pub replayed_version : {V : Type 0} → ServerMessage V → Option ℕ
replayed_version (protocol_info info) = info.protocol_version
replayed_version _ = none

-- `iter().rev().find_map(..)`: the last message that states a version.
unfoldable pub replayed_negotiated_version : {V : Type 0} → ServerMessages V → Option ℕ
replayed_negotiated_version nil = none
replayed_negotiated_version (cons message messages) =
    or_else (replayed_negotiated_version messages) (replayed_version message)

abbrev pub v3_only : Option ℕ → Option ℕ
v3_only version = if is_v3 version then version else none

abbrev pub renegotiate : Option ℕ → ClientCore → ClientCore
renegotiate none core = core
renegotiate (some version) core = record core {
  snapshot = record (core.snapshot) { negotiated_protocol_version = some version };
  protocol_info_seen = true;
}

unfoldable pub update_state : {V : Type 0} → ServerMessage V → ClientCore → ClientCore
unfolding set_room clear_room replayed_negotiated_version
update_state (authenticated name organization limits) core = record core {
  snapshot = record (core.snapshot) { authenticated = true };
}
update_state (ServerMessage.error message code) core = record core {
  game_data_encoding = if is_unsupported_code code then json else core.game_data_encoding;
  last_server_error = some (record { message = message; error_code = code });
}
update_state (authentication_error error code) core = record core {
  last_server_error = some (record { message = error; error_code = some code });
}
update_state (protocol_info payload) core = record core {
  snapshot = record (core.snapshot) {
    negotiated_protocol_version = v3_only payload.protocol_version;
  };
  protocol_info_seen = true;
}
update_state (room_joined payload) core =
    set_room payload.player_id payload.room_id payload.room_code payload.reconnection_token core
update_state room_left core = clear_room core
update_state (reconnected payload missed) core =
    renegotiate (replayed_negotiated_version missed)
      (set_room payload.player_id payload.room_id payload.room_code payload.reconnection_token core)
update_state (spectator_joined payload) core =
    set_room payload.spectator_id payload.room_id payload.room_code none core
update_state (spectator_left room code reason spectators) core = clear_room core
update_state (game_data _ _ _ _ _ _) core = record core {
  stats = record (core.stats) { game_data_received = saturating_inc core.stats.game_data_received };
}
update_state (game_data_binary _ _ _ _ _) core = record core {
  stats = record (core.stats) { game_data_received = saturating_inc core.stats.game_data_received };
}
update_state _ core = core
