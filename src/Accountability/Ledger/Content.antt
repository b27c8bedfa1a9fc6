-- ===== src/Accountability/Ledger/Content.antt =====
-- src/accountability.rs: each message that the validator takes, against the ledger.
use signal_fish_client_rust.Common.{
  ℕ, ◌≡◌, refl, none, List, [], ◌∷◌, ◌++◌, Result, ok, err, OnOk, OnErr, not_both, ◌>>=◌, subst,
  sym, when_ok_cases, when_ok-OnErr,
}
use signal_fish_client_rust.Common.BTreeMap.{BTreeMap, nat_key, pair_key}
use signal_fish_client_rust.Protocol.Delivery.{PlayerId, SenderWatermark}
use signal_fish_client_rust.Protocol.Types.{PlayerInfo}
use signal_fish_client_rust.Protocol.Messages.{
  ServerMessage, room_joined, spectator_joined, reconnected, player_joined, player_left,
  player_reconnected, game_data, game_data_binary, delivery_report, relay_stats,
}
use signal_fish_client_rust.Accountability.State.{
  DeliveryAccountability, SenderProgress, Violation, Source, Step,
}
use signal_fish_client_rust.Accountability.Stream.{
  check_relay_stats, relay_snapshot, record_relay_stats,
}
use signal_fish_client_rust.Accountability.Snapshot.{
  scan_players, reconnect_senders, rebaseline_snapshot, rebaseline_reconnected,
}
use signal_fish_client_rust.Accountability.Retire.Tracking.{IsTracked}
use signal_fish_client_rust.Accountability.Lifecycle.{
  zero_seq, note_player_joined, note_player_reconnected, note_player_left,
}
use signal_fish_client_rust.Accountability.Report.{record_report}
use signal_fish_client_rust.Accountability.Frame.{
  applied, binary_class, validate_content, validate_server_frame,
}
use signal_fish_client_rust.Accountability.Frame.Run.{Input, frame, present}
use signal_fish_client_rust.Accountability.Ledger.Defs.{Entry, IsAccounted}
use signal_fish_client_rust.Accountability.Ledger.Record.{
  data_entries, record_game_data-IsAccounted, record_game_data-IsAccounted_refused,
}
use signal_fish_client_rust.Accountability.Ledger.Report.{
  add_reports, record_report-IsAccounted, record_report_refused,
}
use signal_fish_client_rust.Accountability.Ledger.Lifecycle.{
  join_entries, note_epoch-IsAccounted, note_epoch_refused, note_player_left-IsAccounted,
}
use signal_fish_client_rust.Accountability.Ledger.Snapshot.{
  add_players, add_watermarks, rebaseline_snapshot-IsAccounted, rebaseline_reconnected-IsAccounted,
}

abbrev pub if_ok : {A : Type 0} → Result A Violation → List Entry → List Entry → List Entry
if_ok (ok a) accepted refused = accepted
if_ok (err v) accepted refused = refused

-- What an accepted message adds to the ledger; a snapshot opens a new one.
abbrev pub entries_of :
    {V : Type 0} → ServerMessage V → BTreeMap PlayerId SenderProgress → List Entry → List Entry
entries_of (room_joined payload) senders ledger = add_players payload.current_players []
entries_of (spectator_joined payload) senders ledger = add_players payload.current_players []
entries_of (reconnected payload missed) senders ledger = add_watermarks payload.sender_watermarks []
entries_of (player_joined player) senders ledger =
    join_entries senders player.id player.epoch player.seq ++ ledger
entries_of (player_reconnected id epoch) senders ledger =
    join_entries senders id epoch (zero_seq epoch) ++ ledger
entries_of (game_data from payload seq epoch class key) senders ledger =
    data_entries from seq epoch ++ ledger
entries_of (game_data_binary from encoding payload seq epoch) senders ledger =
    data_entries from seq epoch ++ ledger
entries_of (delivery_report report) senders ledger = add_reports report.gaps ledger
entries_of _ senders ledger = ledger

-- The ledger after one input: a refused frame adds nothing.
abbrev pub note : {V : Type 0} → Input V → DeliveryAccountability → List Entry → List Entry
note (frame message negotiated physical) s ledger =
    if_ok (validate_server_frame message negotiated physical s).0
      (entries_of message s.senders ledger) ledger
note _ s ledger = ledger

unfoldable pub ledger_of :
    {V : Type 0} → List (Input V) → DeliveryAccountability → List Entry → List Entry
ledger_of [] s ledger = ledger
ledger_of (i ∷ is) s ledger = ledger_of is (present i s) (note i s ledger)

-- Which of two accounts holds is decided by the result.
settle :
    {A : Type 0} (r : Step A) (accepted refused : List Entry)
    → OnOk (λ _. IsAccounted accepted) r
    → OnErr (IsAccounted refused) r
    → IsAccounted (if_ok r.0 accepted refused) r.1
settle (ok a, s) accepted refused h k = h a refl
settle (err v, s) accepted refused h k = k v refl

settle_applied :
    (r : Step (Unit {0})) (accepted refused : List Entry)
    → OnOk (λ _. IsAccounted accepted) r
    → OnErr (IsAccounted refused) r
    → IsAccounted (if_ok (applied r).0 accepted refused) (applied r).1
settle_applied (ok a, s) accepted refused h k = h a refl
settle_applied (err v, s) accepted refused h k = k v refl

module _ (ledger : List Entry) (s : DeliveryAccountability) (h : IsAccounted ledger s) where
  unchanged : (s' : DeliveryAccountability) → s' ≡ s → IsAccounted ledger s'
  unchanged s' e = subst (IsAccounted ledger) (sym e) h

  rebaseline_snapshot_refused :
      {V : Type 0} (players : List (PlayerInfo V))
      → OnErr (IsAccounted ledger) (rebaseline_snapshot players s)
  unfolding rebaseline_snapshot
  rebaseline_snapshot_refused players =
      when_ok-OnErr (IsAccounted ledger) (scan_players Source.snapshot s.protocol_v3 players [] [])
        s _ h (λ _ _ v bad. absurd (not_both tt v refl bad))

  rebaseline_reconnected_refused :
      {V : Type 0} (players : List (PlayerInfo V)) (ws : List SenderWatermark)
      → OnErr (IsAccounted ledger) (rebaseline_reconnected players ws s)
  unfolding rebaseline_reconnected
  rebaseline_reconnected_refused players ws =
      when_ok-OnErr (IsAccounted ledger)
        (scan_players Source.reconnect_snapshot s.protocol_v3 players [] []
          >>= reconnect_senders s.protocol_v3 ws)
        s _ h (λ _ _ v bad. absurd (not_both tt v refl bad))

  record_relay_stats-IsAccounted :
      (i t d b : ℕ) → IsAccounted ledger (record_relay_stats i t d b s).1
  unfolding record_relay_stats
  record_relay_stats-IsAccounted i t d b =
      when_ok_cases (IsAccounted ledger) (check_relay_stats (relay_snapshot i t d b) s) s _ h
        (λ _ _. record { cursor = h.cursor; pending = h.pending })

  pub validate_content-IsAccounted :
      {V : Type 0} (message : ServerMessage V)
      → IsTracked s
      → IsAccounted
          (if_ok (validate_content message s).0 (entries_of message s.senders ledger) ledger)
          (validate_content message s).1
  unfolding validate_content note_player_joined note_player_reconnected
  validate_content-IsAccounted (room_joined payload) t =
      settle_applied (rebaseline_snapshot payload.current_players s) _ ledger
        (rebaseline_snapshot-IsAccounted payload.current_players s)
        (rebaseline_snapshot_refused payload.current_players)
  validate_content-IsAccounted (spectator_joined payload) t =
      settle_applied (rebaseline_snapshot payload.current_players s) _ ledger
        (rebaseline_snapshot-IsAccounted payload.current_players s)
        (rebaseline_snapshot_refused payload.current_players)
  validate_content-IsAccounted (reconnected payload missed) t =
      settle_applied (rebaseline_reconnected payload.current_players payload.sender_watermarks s) _
        ledger
        (rebaseline_reconnected-IsAccounted payload.current_players payload.sender_watermarks s)
        (rebaseline_reconnected_refused payload.current_players payload.sender_watermarks)
  validate_content-IsAccounted (player_joined player) t =
      settle_applied (note_player_joined player s) _ ledger
        (note_epoch-IsAccounted ledger Source.player_joined player.id player.epoch player.seq s h)
        (λ v bad.
          unchanged _
            (note_epoch_refused Source.player_joined player.id player.epoch player.seq s v bad))
  validate_content-IsAccounted (player_left id epoch final) t =
      settle_applied (note_player_left id epoch final s) ledger ledger
        (λ _ _. note_player_left-IsAccounted ledger id epoch final s h)
        (λ _ _. note_player_left-IsAccounted ledger id epoch final s h)
  validate_content-IsAccounted (player_reconnected id epoch) t =
      settle_applied (note_player_reconnected id epoch s) _ ledger
        (note_epoch-IsAccounted ledger Source.player_reconnected id epoch (zero_seq epoch) s h)
        (λ v bad.
          unchanged _
            (note_epoch_refused Source.player_reconnected id epoch (zero_seq epoch) s v bad))
  validate_content-IsAccounted (game_data from payload seq epoch class key) t =
      settle _ _ ledger (record_game_data-IsAccounted ledger from seq epoch class key s h)
        (record_game_data-IsAccounted_refused ledger from seq epoch class key s t h)
  validate_content-IsAccounted (game_data_binary from encoding payload seq epoch) t =
      settle _ _ ledger
        (record_game_data-IsAccounted ledger from seq epoch (binary_class seq epoch) none s h)
        (record_game_data-IsAccounted_refused ledger from seq epoch (binary_class seq epoch) none s
          t h)
  validate_content-IsAccounted (delivery_report report) t =
      settle_applied (record_report report s) _ ledger (record_report-IsAccounted ledger report s h)
        (λ v bad. unchanged _ (record_report_refused report s v t bad))
  validate_content-IsAccounted (relay_stats i u d b) t =
      settle_applied (record_relay_stats i u d b s) ledger ledger
        (λ _ _. record_relay_stats-IsAccounted i u d b)
        (λ _ _. record_relay_stats-IsAccounted i u d b)
  validate_content-IsAccounted _ t = h
