-- ===== src/Core/Prepare.antt =====
-- src/client_core.rs: which operations `prepare` takes, and what it never sends.
use signal_fish_client_rust.Common.{
  ℕ, ◌≡◌, refl, ◌∙◌, ap, true, some, is_some, Bool, false, not, ◌&&◌, ◌||◌, Option, none, Result,
  ok, err, arith,
}
use Prim.Native.String.{String}
use signal_fish_client_rust.Protocol.Delivery.{json, DeliveryClass}
use signal_fish_client_rust.Protocol.Messages.{ClientMessage}
use signal_fish_client_rust.Accountability.Frame.{same_encoding}
use signal_fish_client_rust.Accountability.GameData.{validate_class_key}
use signal_fish_client_rust.Core.State.{ClientCore, is_v3}
use signal_fish_client_rust.Core.Operations.{
  ClientOperation, binary, set_ready, request_authority, raw_signal, GameDataDelivery, reliable,
  latest, volatile, CoreCommand, message, raw_binary, SignalFishError, needs_v3, is_binary,
  command_of, signal_value, prepare, ensure_v3,
}

-- What a command says on the wire, read back: the operation that it stands for.
abbrev pub delivery_of : Option DeliveryClass → Option ℕ → Option GameDataDelivery
delivery_of none none = some reliable
delivery_of (some DeliveryClass.latest) (some key) = some (latest key)
delivery_of (some DeliveryClass.volatile) none = some volatile
delivery_of class key = none

abbrev game_data_of : {V : Type 0} → V → Option GameDataDelivery → Option (ClientOperation V)
game_data_of payload none = none
game_data_of payload (some delivery) = some (ClientOperation.game_data payload delivery)

abbrev pub operation_of : {V : Type 0} → CoreCommand V → Option (ClientOperation V)
operation_of (raw_binary bytes) = some (binary bytes)
operation_of (message (ClientMessage.join_room game code name players authority relay)) = some (
    ClientOperation.join_room (record {
      game_name = game;
      player_name = name;
      room_code = code;
      max_players = players;
      supports_authority = authority;
      relay_transport = relay;
    }))
operation_of (message ClientMessage.leave_room) = some ClientOperation.leave_room
operation_of (message (ClientMessage.game_data payload class key)) =
    game_data_of payload (delivery_of class key)
operation_of (message (ClientMessage.authority_request become)) = some (request_authority become)
operation_of (message ClientMessage.player_ready) = some set_ready
operation_of (message (ClientMessage.provide_connection_info info)) =
    some (ClientOperation.provide_connection_info info)
operation_of (message ClientMessage.ping) = some ClientOperation.ping
operation_of (message (ClientMessage.reconnect player room token)) =
    some (ClientOperation.reconnect player room token)
operation_of (message (ClientMessage.join_as_spectator game room name)) =
    some (ClientOperation.join_as_spectator game room name)
operation_of (message ClientMessage.leave_spectator) = some ClientOperation.leave_spectator
operation_of (message ClientMessage.start_game) = some ClientOperation.start_game
operation_of (message (ClientMessage.signal to payload)) = some (raw_signal to payload)
operation_of (message (ClientMessage.transport_status transport connected)) =
    some (ClientOperation.transport_status transport connected)
operation_of (message _) = none

-- What a server of version 2 does not know: binary frames, classes of delivery, signals and reports on a
-- transport.
abbrev pub is_v3_only : {V : Type 0} → CoreCommand V → Bool
is_v3_only (raw_binary bytes) = true
is_v3_only (message (ClientMessage.game_data payload class key)) = is_some class || is_some key
is_v3_only (message (ClientMessage.signal to payload)) = true
is_v3_only (message (ClientMessage.transport_status transport connected)) = true
is_v3_only (message _) = false

abbrev pub is_raw_binary : {V : Type 0} → CoreCommand V → Bool
is_raw_binary (raw_binary bytes) = true
is_raw_binary (message _) = false

-- What the connection carries.
abbrev pub allows : {V : Type 0} → ClientCore → CoreCommand V → Bool
allows core command =
    core.snapshot.connected
    && (not (is_v3_only command) || is_v3 core.snapshot.negotiated_protocol_version)
    && (not (is_raw_binary command) || not (same_encoding core.game_data_encoding json))

abbrev pub is_ok : {A : Type 0} → Result A SignalFishError → Bool
is_ok (ok a) = true
is_ok (err e) = false

module _ {V : Type 0} (singleton : String → String → V) where
  -- The class and the key of game data that is sent fit each other, as the validator asks of the game
  -- data that it receives.
  pub prepare-class_key :
      (operation : ClientOperation V) (core : ClientCore) (payload : V)
      (class : Option DeliveryClass) (key : Option ℕ)
      → prepare singleton operation core ≡ ok (message (ClientMessage.game_data payload class key))
      → validate_class_key class key ≡ ok tt
  unfolding prepare command_of validate_class_key
  prepare-class_key operation core payload class key h = ground arith

  -- A signal reads back as the JSON value that it is sent as.
  abbrev pub as_read : ClientOperation V → ClientOperation V
  as_read (ClientOperation.signal to payload) = raw_signal to (signal_value singleton payload)
  as_read operation = operation

  command_of-operation_of :
      (operation : ClientOperation V)
      → operation_of (command_of singleton operation) ≡ some (as_read operation)
  unfolding command_of
  command_of-operation_of (ClientOperation.game_data payload reliable) = refl
  command_of-operation_of (ClientOperation.game_data payload (latest key)) = refl
  command_of-operation_of (ClientOperation.game_data payload volatile) = refl
  command_of-operation_of _ = refl

  -- The command that an operation yields reads back as this operation, with all that it holds; only a
  -- signal reads back as the JSON value that it is sent as.
  pub prepare-operation_of :
      (operation : ClientOperation V) (core : ClientCore) (command : CoreCommand V)
      → prepare singleton operation core ≡ ok command
      → operation_of command ≡ some (as_read operation)
  unfolding prepare ensure_v3
  prepare-operation_of operation core command h =
      let same : command ≡ command_of singleton operation = ground arith in
      ap operation_of same ∙ command_of-operation_of operation

  command_of-needs :
      (operation : ClientOperation V)
      → (is_v3_only (command_of singleton operation) ≡ needs_v3 operation)
        × (is_raw_binary (command_of singleton operation) ≡ is_binary operation)
  unfolding command_of needs_v3
  command_of-needs (ClientOperation.game_data payload reliable) = (refl, refl)
  command_of-needs (ClientOperation.game_data payload (latest key)) = (refl, refl)
  command_of-needs (ClientOperation.game_data payload volatile) = (refl, refl)
  command_of-needs _ = (refl, refl)

  -- An operation is accepted exactly where its command may be sent: the client is connected, a command
  -- that only a server of version 3 knows waits for this version to be negotiated, and a binary frame
  -- for a binary format.
  pub prepare-allows :
      (operation : ClientOperation V) (core : ClientCore)
      → is_ok (prepare singleton operation core) ≡ allows core (command_of singleton operation)
  unfolding prepare ensure_v3
  prepare-allows operation core =
      let (only, raw) = command_of-needs operation in ground (arith, only, raw)
