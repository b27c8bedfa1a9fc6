-- ===== src/Accountability/Frame/Tracking.antt =====
-- src/accountability.rs: waiting departures over any run of frames.
use signal_fish_client_rust.Protocol.Delivery.{PlayerId}
use signal_fish_client_rust.Accountability.State.{DepartedSender}
use signal_fish_client_rust.Common.BTreeMap.{pair_key, nat_key}
use signal_fish_client_rust.Common.{is_some_and, leb}
use signal_fish_client_rust.Common.BTreeMap.{get}
use signal_fish_client_rust.Common.{
  ℕ, ◌>>=◌, ◌≡◌, Bool, true, false, not, none, some, List, [], ◌∷◌, and_then_cases, branch_cases,
  when_ok_cases,
}
use signal_fish_client_rust.Protocol.Delivery.{json}
use signal_fish_client_rust.Protocol.Messages.{
  ServerMessage, room_joined, spectator_joined, reconnected, player_joined, player_left,
  player_reconnected, game_data, game_data_binary, delivery_report, relay_stats,
}
use signal_fish_client_rust.Protocol.Types.{PlayerInfo}
use signal_fish_client_rust.Protocol.Delivery.{SenderWatermark}
use signal_fish_client_rust.Accountability.State.{DeliveryAccountability, Step, Source, new}
use signal_fish_client_rust.Accountability.Stream.{
  observe_server_message, check_relay_stats, relay_snapshot, record_relay_stats,
}
use signal_fish_client_rust.Accountability.Snapshot.{
  scan_players, reconnect_senders, rebaseline_snapshot, rebaseline_reconnected,
}
use signal_fish_client_rust.Accountability.Lifecycle.{note_player_joined, note_player_reconnected}
use signal_fish_client_rust.Accountability.Retire.Tracking.{IsTracked}
use signal_fish_client_rust.Accountability.Lifecycle.Tracking.{
  note_epoch-IsTracked, note_player_left-IsTracked,
}
use signal_fish_client_rust.Accountability.Report.Tracking.{record_report-IsTracked}
use signal_fish_client_rust.Accountability.GameData.Tracking.{record_game_data-IsTracked}
use signal_fish_client_rust.Accountability.Frame.Run.{Input, frame, binary, terminal, present, run}
use signal_fish_client_rust.Accountability.Frame.{
  is_unsupported_error, applied, binary_class, validate_content, validate_server_message,
  is_mismatch, same_encoding,
}

pub observe_server_message-IsTracked :
    (b : Bool) (s : DeliveryAccountability) → IsTracked s → IsTracked (observe_server_message b s).1
unfolding observe_server_message
observe_server_message-IsTracked b s h =
    branch_cases IsTracked (not s.protocol_v3) _ _ (λ _. h) (λ _. h)

applied-IsTracked : (r : Step (Unit {0})) → IsTracked r.1 → IsTracked (applied r).1
applied-IsTracked r h = and_then_cases IsTracked r _ h (λ _ _. h)

record_relay_stats-IsTracked :
    (i t d b : ℕ) (s : DeliveryAccountability)
    → IsTracked s
    → IsTracked (record_relay_stats i t d b s).1
unfolding record_relay_stats
record_relay_stats-IsTracked i t d b s h =
    when_ok_cases IsTracked (check_relay_stats (relay_snapshot i t d b) s) s _ h (λ _ _. h)

module _ {V : Type 0} where
  rebaseline_snapshot-IsTracked :
      (players : List (PlayerInfo V)) (s : DeliveryAccountability)
      → IsTracked s
      → IsTracked (rebaseline_snapshot players s).1
  unfolding rebaseline_snapshot get
  rebaseline_snapshot-IsTracked players s h =
      when_ok_cases IsTracked (scan_players Source.snapshot s.protocol_v3 players [] []) s _ h
        (λ _ _ p e t d. cc)

  rebaseline_reconnected-IsTracked :
      (players : List (PlayerInfo V)) (watermarks : List SenderWatermark)
      (s : DeliveryAccountability)
      → IsTracked s
      → IsTracked (rebaseline_reconnected players watermarks s).1
  unfolding rebaseline_reconnected get
  rebaseline_reconnected-IsTracked players watermarks s h =
      when_ok_cases IsTracked
        (scan_players Source.reconnect_snapshot s.protocol_v3 players [] []
          >>= reconnect_senders s.protocol_v3 watermarks)
        s _ h (λ _ _ p e t d. cc)

  validate_content-IsTracked :
      (message : ServerMessage V) (s : DeliveryAccountability)
      → IsTracked s
      → IsTracked (validate_content message s).1
  unfolding validate_content note_player_joined note_player_reconnected
  validate_content-IsTracked (room_joined payload) s h =
      applied-IsTracked _ (rebaseline_snapshot-IsTracked payload.current_players s h)
  validate_content-IsTracked (spectator_joined payload) s h =
      applied-IsTracked _ (rebaseline_snapshot-IsTracked payload.current_players s h)
  validate_content-IsTracked (reconnected payload missed) s h =
      applied-IsTracked _
        (rebaseline_reconnected-IsTracked payload.current_players payload.sender_watermarks s h)
  validate_content-IsTracked (player_joined player) s h =
      applied-IsTracked _
        (note_epoch-IsTracked Source.player_joined player.id player.epoch player.seq s h)
  validate_content-IsTracked (player_left id epoch final) s h =
      applied-IsTracked _ (note_player_left-IsTracked id epoch final s h)
  validate_content-IsTracked (player_reconnected id epoch) s h =
      applied-IsTracked _ (note_epoch-IsTracked Source.player_reconnected id epoch _ s h)
  validate_content-IsTracked (game_data from payload seq epoch class key) s h =
      record_game_data-IsTracked from seq epoch class key s h
  validate_content-IsTracked (game_data_binary from encoding payload seq epoch) s h =
      record_game_data-IsTracked from seq epoch (binary_class seq epoch) none s h
  validate_content-IsTracked (delivery_report report) s h =
      applied-IsTracked _ (record_report-IsTracked report s h)
  validate_content-IsTracked (relay_stats i t d b) s h =
      applied-IsTracked _ (record_relay_stats-IsTracked i t d b s h)
  validate_content-IsTracked _ s h = h

  validate_server_message-IsTracked :
      (message : ServerMessage V) (s : DeliveryAccountability)
      → IsTracked s
      → IsTracked (validate_server_message message s).1
  unfolding validate_server_message
  validate_server_message-IsTracked message s h =
      let seen = observe_server_message-IsTracked (is_unsupported_error message) s h in
      and_then_cases IsTracked (observe_server_message (is_unsupported_error message) s) _ seen
        λ _ _. validate_content-IsTracked message _ seen

  pub present-IsTracked :
      (i : Input V) (s : DeliveryAccountability) → IsTracked s → IsTracked (present i s)
  unfolding present
  present-IsTracked (frame message negotiated physical) s h =
      let seen = observe_server_message-IsTracked false s h in
      branch_cases IsTracked (is_mismatch message negotiated physical) _ _
        (λ _. and_then_cases IsTracked (observe_server_message false s) _ seen (λ _ _. seen))
        (λ _. validate_server_message-IsTracked message s h)
  present-IsTracked (binary negotiated) s h =
      let seen = observe_server_message-IsTracked false s h in
      branch_cases IsTracked (not (same_encoding negotiated json)) _ _ (λ _. h)
        (λ _. and_then_cases IsTracked (observe_server_message false s) _ seen (λ _ _. seen))
  present-IsTracked terminal s h = h

  -- Every input keeps the departures tracked.
  pub run-IsTracked :
      (inputs : List (Input V)) (s : DeliveryAccountability)
      → IsTracked s
      → IsTracked (run inputs s)
  unfolding run
  run-IsTracked [] s h = h
  run-IsTracked (i ∷ inputs) s h = run-IsTracked inputs (present i s) (present-IsTracked i s h)

pub new-IsTracked : (v3 : Bool) → IsTracked (new v3)
unfolding new get
new-IsTracked v3 p e t d = cc

-- Whatever frames a connection presents, a departure that waits for its tail names a known sender whose
-- cursor has not passed the departed epoch.
pub run-departed :
    {V : Type 0} (v3 : Bool) (inputs : List (Input V)) (p : PlayerId) (epoch : ℕ)
    (t : DepartedSender)
    → get (p, epoch) (run inputs (new v3)).departed_senders ≡ some t
    → is_some_and (get p (run inputs (new v3)).senders) (λ c. leb c.epoch epoch) ≡ true
run-departed v3 inputs = run-IsTracked inputs (new v3) (new-IsTracked v3)
