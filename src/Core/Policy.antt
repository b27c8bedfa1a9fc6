-- ===== src/Core/Policy.antt =====
-- src/client_core.rs: the violation policy, the events and the counter of received game data, on
-- text frames.
pub mod Binary
pub mod Frames
pub mod Runs
use signal_fish_client_rust.Common.{
  ℕ, ◌≡◌, refl, inl, inr, Bool, true, false, not, ◌&&◌, ◌||◌, Option, none, some, List, [], ◌∷◌,
  ◌++◌, ap, any, if◌then◌else◌, Result, ok, err, Option-cases, Result-cases, Bool-cases, arith,
}
use Prim.Native.String.{String}
use signal_fish_client_rust.Protocol.Messages.{
  ServerMessage, authenticated, protocol_info, authentication_error, room_joined, room_left,
  reconnected, spectator_joined, spectator_left, game_data, game_data_binary,
}
use signal_fish_client_rust.Protocol.Binary.{Wire, decode_binary_server_message}
use signal_fish_client_rust.Accountability.State.{
  DeliveryAccountability, GameDataDisposition, apply, stale, Violation, Step, new,
}
use signal_fish_client_rust.Accountability.Stream.{observe_server_message}
use signal_fish_client_rust.Accountability.Frame.{
  applied, validate_server_message, validate_server_frame, validate_physical_binary_allowed,
}
use signal_fish_client_rust.Core.State.{
  ClientCore, SignalFishEvent, from_message, connected, disconnected, decode_failed,
  protocol_violation, ProtocolViolationPolicy, quarantine, disconnect, observe, is_v3,
  saturating_inc,
}
use signal_fish_client_rust.Core.Frames.{
  set_quarantined, note_violation, renegotiate, update_state, set_room, clear_room,
  replayed_negotiated_version,
}
use signal_fish_client_rust.Transport.{TransportFrame, text, binary}
use signal_fish_client_rust.Core.Process.{
  Processed, is_quarantine, is_disconnect, is_game_data, suppresses, is_baseline, deliver,
  undecodable, finish_text, violated_text, settle_text, restart, is_protocol_info, process_message,
  process_text, finish_binary, settle_binary, process_bytes, process_binary, process_frame,
}

abbrev pub is_data_event : {V : Type 0} → SignalFishEvent V → Bool
is_data_event (from_message message) = is_game_data message
is_data_event _ = false

abbrev pub is_violation_event : {V : Type 0} → SignalFishEvent V → Bool
is_violation_event (protocol_violation v) = true
is_violation_event _ = false

abbrev pub has_data : {V : Type 0} → List (SignalFishEvent V) → Bool
has_data events = any is_data_event events

abbrev pub has_violation : {V : Type 0} → List (SignalFishEvent V) → Bool
has_violation events = any is_violation_event events

-- The events that a driver makes, not the core's work on a frame.
abbrev pub is_connection_event : {V : Type 0} → SignalFishEvent V → Bool
is_connection_event connected = true
is_connection_event (disconnected reason error) = true
is_connection_event _ = false

-- The messages that begin or end a stay in a room.
abbrev pub is_release : {V : Type 0} → ServerMessage V → Bool
is_release (room_joined _) = true
is_release (spectator_joined _) = true
is_release (reconnected _ _) = true
is_release room_left = true
is_release (spectator_left _ _ _ _) = true
is_release _ = false

abbrev pub is_release_event : {V : Type 0} → SignalFishEvent V → Bool
is_release_event (from_message message) = is_release message
is_release_event _ = false

abbrev pub has_release : {V : Type 0} → List (SignalFishEvent V) → Bool
has_release events = any is_release_event events

abbrev pub received : ClientCore → ℕ
received core = core.stats.game_data_received

-- What holds of every frame, `before` being the core that it found.
pub record Obeys {V : Type 0} (before : ClientCore) (r : Processed V) : Type 0 where
  pub policy : r.1.violation_policy ≡ before.violation_policy
  pub counted :
      received r.1
      ≡ (if has_data r.0.events then saturating_inc (received before) else received before)
  pub closes : r.0.disconnect ≡ (is_disconnect before.violation_policy && has_violation r.0.events)
  pub silent :
      before.snapshot.quarantined ≡ true
      → is_quarantine before.violation_policy ≡ true
      → has_data r.0.events ≡ false
  pub quarantines :
      has_violation r.0.events ≡ true
      → is_quarantine before.violation_policy ≡ true
      → (r.1.snapshot.quarantined ≡ true) × (has_data r.0.events ≡ false)
  pub connection : r.1.snapshot.connected ≡ before.snapshot.connected
  pub calm : any is_connection_event r.0.events ≡ false
  pub stays :
      before.snapshot.quarantined ≡ true
      → is_quarantine before.violation_policy ≡ true
      → has_release r.0.events ≡ false
      → r.1.snapshot.quarantined ≡ true

renegotiate-stats : (o : Option ℕ) (core : ClientCore) → (renegotiate o core).stats ≡ core.stats
renegotiate-stats none core = refl
renegotiate-stats (some version) core = refl

renegotiate-policy :
    (o : Option ℕ) (core : ClientCore)
    → (renegotiate o core).violation_policy ≡ core.violation_policy
renegotiate-policy none core = refl
renegotiate-policy (some version) core = refl

renegotiate-connected :
    (o : Option ℕ) (core : ClientCore)
    → (renegotiate o core).snapshot.connected ≡ core.snapshot.connected
renegotiate-connected none core = refl
renegotiate-connected (some version) core = refl

module _ {V : Type 0} where
  pub update_state-received :
      (message : ServerMessage V) (core : ClientCore)
      → received (update_state message core)
        ≡ (if is_game_data message then saturating_inc (received core) else received core)
  unfolding update_state set_room
  update_state-received (reconnected payload missed) core =
      ap (λ stats. stats.game_data_received)
        (renegotiate-stats (replayed_negotiated_version missed) _)
  update_state-received _ core = refl

  pub update_state-policy :
      (message : ServerMessage V) (core : ClientCore)
      → (update_state message core).violation_policy ≡ core.violation_policy
  unfolding update_state set_room
  update_state-policy (reconnected payload missed) core =
      renegotiate-policy (replayed_negotiated_version missed) _
  update_state-policy _ core = refl

  pub update_state-connected :
      (message : ServerMessage V) (core : ClientCore)
      → (update_state message core).snapshot.connected ≡ core.snapshot.connected
  unfolding update_state set_room clear_room
  update_state-connected (reconnected payload missed) core =
      renegotiate-connected (replayed_negotiated_version missed) _
  update_state-connected _ core = refl

  pub update_state-quarantined :
      (message : ServerMessage V) (core : ClientCore)
      → is_release message ≡ false
      → (update_state message core).snapshot.quarantined ≡ core.snapshot.quarantined
  unfolding update_state
  update_state-quarantined (room_joined _) core n = cc
  update_state-quarantined (spectator_joined _) core n = cc
  update_state-quarantined (reconnected _ _) core n = cc
  update_state-quarantined room_left core n = cc
  update_state-quarantined (spectator_left _ _ _ _) core n = cc
  update_state-quarantined _ core n = refl

  baseline-is_release :
      (message : ServerMessage V) → is_baseline message ≡ true → is_release message ≡ true
  baseline-is_release (room_joined _) h = refl
  baseline-is_release (spectator_joined _) h = refl
  baseline-is_release (reconnected _ _) h = refl
  baseline-is_release _ h = cc

  info-is_baseline :
      (message : ServerMessage V) (seen : Bool)
      → (is_protocol_info message && seen) ≡ true
      → is_baseline message ≡ false
  info-is_baseline (protocol_info _) seen h = refl
  info-is_baseline _ seen h = cc

  baseline-is_game_data :
      (message : ServerMessage V) → is_baseline message ≡ true → is_game_data message ≡ false
  baseline-is_game_data (game_data _ _ _ _ _ _) h = absurd (ground arith)
  baseline-is_game_data (game_data_binary _ _ _ _ _) h = absurd (ground arith)
  baseline-is_game_data _ h = refl

  violated_text-Obeys :
      (message : ServerMessage V) (duplicate : Bool) (v : Violation) (core : ClientCore)
      → Obeys core (violated_text message duplicate v core)
  unfolding violated_text finish_text deliver note_violation set_quarantined
  violated_text-Obeys message duplicate v core = record {
    policy = ground (arith, update_state-policy message core);
    counted = ground (arith, update_state-received message core);
    closes = ground arith;
    silent = λ q p. ground arith;
    quarantines = λ v p. ground arith;
    connection = ground (arith, update_state-connected message);
    calm = ground arith;
    stays = λ q p n. ground (arith, update_state-quarantined message);
  }

  -- Nothing that is asked of a frame looks at the validator before it.
  pub from_accountability-Obeys :
      (accountability : DeliveryAccountability) (core : ClientCore) (r : Processed V)
      → Obeys (record core { accountability = accountability }) r
      → Obeys core r
  from_accountability-Obeys accountability core r h = record {
    policy = h.policy;
    counted = h.counted;
    closes = h.closes;
    silent = h.silent;
    quarantines = h.quarantines;
    connection = h.connection;
    calm = h.calm;
    stays = h.stays;
  }

  settle_text-Obeys :
      (message : ServerMessage V) (duplicate : Bool) (r : Step GameDataDisposition)
      (core : ClientCore)
      → (duplicate && is_baseline message) ≡ false
      → Obeys core (settle_text message duplicate r core)
  unfolding settle_text finish_text deliver set_quarantined
  settle_text-Obeys message duplicate (ok d, validated) core u = record {
    policy = ground (arith, update_state-policy message);
    counted = ground (arith, update_state-received message);
    closes = ground arith;
    silent = λ q p. ground (arith, baseline-is_game_data message);
    quarantines = λ v p. absurd (ground arith);
    connection = ground (arith, update_state-connected message);
    calm = ground arith;
    stays = λ q p n. ground (
      arith,
      update_state-quarantined message,
      baseline-is_game_data message,
      baseline-is_release message,
    );
  }
  settle_text-Obeys message duplicate (err v, validated) core u =
      from_accountability-Obeys validated core _
        (violated_text-Obeys message duplicate v (record core { accountability = validated }))

  if-Obeys :
      (core : ClientCore) (b : Bool) (x y : Processed V)
      → (b ≡ true → Obeys core x)
      → Obeys core y
      → Obeys core (if b then x else y)
  if-Obeys core true x y h k = h refl
  if-Obeys core false x y h k = k

  restart-Obeys :
      (message : ServerMessage V) (core : ClientCore) (r : Processed V)
      → Obeys (restart message core) r
      → Obeys core r
  unfolding restart
  restart-Obeys (protocol_info payload) core r h = from_accountability-Obeys _ core r h
  restart-Obeys _ core r h = h

  pub process_message-Obeys :
      (message : ServerMessage V) (core : ClientCore) → Obeys core (process_message message core)
  unfolding process_message
  process_message-Obeys message core =
      if-Obeys core (is_protocol_info message && core.protocol_info_seen) _ _
        (λ info.
          settle_text-Obeys message true
            (applied (observe_server_message false core.accountability)) core
            (info-is_baseline message core.protocol_info_seen info))
        (restart-Obeys message core _
          (settle_text-Obeys message false _ (restart message core) refl))

  pub undecodable-Obeys : (core : ClientCore) → Obeys {V = V} core (undecodable [] core)
  unfolding undecodable note_violation set_quarantined
  undecodable-Obeys core = record {
    policy = ground arith;
    counted = ground arith;
    closes = ground arith;
    silent = λ q p. ground arith;
    quarantines = λ v p. ground arith;
    connection = ground arith;
    calm = ground arith;
    stays = λ q p n. ground arith;
  }
