-- ===== src/Accountability/Frame/Untouched.antt =====
-- src/accountability.rs: no check but that of a report arms the obligation of an unsupported format.
use signal_fish_client_rust.Common.{
  ℕ, ◌>>=◌, ◌≡◌, inl, inr, Bool, true, false, not, ◌||◌, Option, none, some, List, [], ◌∷◌, leb,
  ltb, ok_or, is_some, Option-cases, when_ok_cases, and_then_cases, branch_cases, ◌>>◌,
  if◌then◌else◌, arith,
}
use signal_fish_client_rust.Common.BTreeMap.{nat_key, pair_key, get, keys}
use signal_fish_client_rust.Protocol.Delivery.{PlayerId, DeliveryClass, DeliveryGap}
use signal_fish_client_rust.Protocol.Messages.{
  ServerMessage, room_joined, spectator_joined, reconnected, player_joined, player_left,
  player_reconnected, game_data, game_data_binary, delivery_report, relay_stats,
}
use signal_fish_client_rust.Accountability.State.{
  DeliveryAccountability, SenderProgress, Step, Source, data_sequence_overflow,
}
use signal_fish_client_rust.Accountability.Stream.{
  check_relay_stats, relay_snapshot, record_relay_stats,
}
use signal_fish_client_rust.Accountability.Snapshot.{
  paired_baseline, scan_players, reconnect_senders, rebaseline_snapshot, rebaseline_reconnected,
}
use signal_fish_client_rust.Accountability.Lifecycle.{
  announce, note_known, note_baseline, note_epoch, note_player_joined, note_player_reconnected,
  terminal_watermark, check_left, leave, note_player_left_v3, note_player_left,
}
use signal_fish_client_rust.Accountability.Retire.{try_retire_departed, retire_departed}
use signal_fish_client_rust.Accountability.Retire.Cases.{try_retire_cases}
use signal_fish_client_rust.Accountability.Report.{
  checked_add, store_gap, store_gaps, retire_reported,
}
use signal_fish_client_rust.Accountability.GameData.Cases.{consume_exact_gap_cases}
use signal_fish_client_rust.Accountability.GameData.{
  check_stamp, consume_exact_gap, older_terminals, retire_older, has_older_terminal, enter_epoch,
  continue_epoch, settle_epoch, advance, accept_data, record_stamp, record_game_data,
  validate_class_key, data_stamp,
}
use signal_fish_client_rust.Accountability.Frame.{applied, binary_class, validate_content}

abbrev pub is_report : {V : Type 0} → ServerMessage V → Bool
is_report (delivery_report report) = true
is_report _ = false

module _ (v3 : Bool) (pending : Option DeliveryGap) where
  -- The version and the pending report are these.
  unfoldable pub Has : DeliveryAccountability → Type 0
  Has s = (s.protocol_v3 ≡ v3) × (s.pending_unsupported_error ≡ pending)

  retire_departed-Has :
      (p epoch : ℕ) (s : DeliveryAccountability) → Has s → Has (retire_departed p epoch s)
  unfolding Has retire_departed
  retire_departed-Has p epoch s h = (ground (arith, h.0), ground (arith, h.1))

  try_retire_departed-Has :
      (p epoch : ℕ) (s : DeliveryAccountability) → Has s → Has (try_retire_departed p epoch s).1
  unfolding Has
  try_retire_departed-Has p epoch s h =
      try_retire_cases Has p epoch s h (retire_departed-Has p epoch s h)
        (λ n ps _. retire_departed-Has p epoch _ h)

  pub store_gaps-Has :
      (gaps : List DeliveryGap) (s : DeliveryAccountability) → Has s → Has (store_gaps gaps s)
  unfolding Has store_gaps store_gap
  store_gaps-Has [] s h = h
  store_gaps-Has (gap ∷ gaps) s h = store_gaps-Has gaps (store_gap gap s) h

  pub retire_reported-Has :
      (gaps : List DeliveryGap) (s : DeliveryAccountability)
      → Has s
      → Has (retire_reported gaps s).1
  unfolding retire_reported
  retire_reported-Has [] s h = h
  retire_reported-Has (gap ∷ gaps) s h =
      let kept = try_retire_departed-Has gap.from_player gap.epoch s h in
      and_then_cases Has (try_retire_departed gap.from_player gap.epoch s) _ kept
        λ _ _. retire_reported-Has gaps _ kept

  consume_exact_gap-Has :
      (key : PlayerId × ℕ) (expected received : ℕ) (s : DeliveryAccountability)
      → Has s
      → Has (consume_exact_gap key expected received s).1
  unfolding Has
  consume_exact_gap-Has key expected received s h =
      consume_exact_gap_cases Has key expected received s h λ n gaps _. h

  retire_older-Has :
      (p : PlayerId) (es : List ℕ) (s : DeliveryAccountability)
      → Has s
      → Has (retire_older p es s).1
  unfolding retire_older
  retire_older-Has p [] s h = h
  retire_older-Has p (e ∷ es) s h =
      let kept = try_retire_departed-Has p e s h in
      and_then_cases Has (try_retire_departed p e s) _ kept λ _ _. retire_older-Has p es _ kept

  enter_epoch-Has :
      (p : PlayerId) (seq epoch : ℕ) (s : DeliveryAccountability)
      → Has s
      → Has (enter_epoch p seq epoch s).1
  unfolding enter_epoch Has
  enter_epoch-Has p seq epoch s h =
      let older = older_terminals p epoch (keys s.departed_senders) in
      let kept = retire_older-Has p older s h in
      and_then_cases Has (retire_older p older s) _ kept λ _ _.
        branch_cases Has (has_older_terminal p epoch (retire_older p older s).1) _ _ (λ _. kept)
          (λ _.
            let used = consume_exact_gap-Has (p, epoch) 1 seq _ kept in
            and_then_cases Has (consume_exact_gap (p, epoch) 1 seq (retire_older p older s).1) _
              used (λ _ _. used))

  continue_epoch-Has :
      (p : PlayerId) (seq epoch last : ℕ) (s : DeliveryAccountability)
      → Has s
      → Has (continue_epoch p seq epoch last s).1
  unfolding continue_epoch
  continue_epoch-Has p seq epoch last s h =
      branch_cases Has (leb seq last) _ _ (λ _. h)
        λ _.
          when_ok_cases Has (ok_or (checked_add last 1) data_sequence_overflow) s _ h
            λ expected _. consume_exact_gap-Has (p, epoch) expected seq s h

  accept_data-Has :
      (p : PlayerId) (seq epoch : ℕ) (moved : Bool) (s : DeliveryAccountability)
      → Has s
      → Has (accept_data p seq epoch moved s).1
  unfolding accept_data settle_epoch Has
  accept_data-Has p seq epoch true s h =
      let moved = settle_epoch p epoch (advance p seq epoch s) in
      let kept = try_retire_departed-Has p epoch moved h in
      and_then_cases Has (try_retire_departed p epoch moved) _ kept (λ _ _. kept)
  accept_data-Has p seq epoch false s h =
      let kept = try_retire_departed-Has p epoch (advance p seq epoch s) h in
      and_then_cases Has (try_retire_departed p epoch (advance p seq epoch s)) _ kept (λ _ _. kept)

  record_stamp-Has :
      (p : PlayerId) (seq epoch : ℕ) (c : SenderProgress) (s : DeliveryAccountability)
      → Has s
      → Has (record_stamp p seq epoch c s).1
  unfolding record_stamp
  record_stamp-Has p seq epoch c s h =
      let step =
        if ltb c.epoch epoch
        then enter_epoch p seq epoch s
        else continue_epoch p seq epoch c.last_seq s in
      let entered : Has step.1 =
        branch_cases Has (ltb c.epoch epoch) (enter_epoch p seq epoch s)
          (continue_epoch p seq epoch c.last_seq s) (λ _. enter_epoch-Has p seq epoch s h)
          (λ _. continue_epoch-Has p seq epoch c.last_seq s h) in
      and_then_cases Has step (λ _. accept_data p seq epoch (ltb c.epoch epoch)) entered
        λ _ _. accept_data-Has p seq epoch (ltb c.epoch epoch) step.1 entered

  record_game_data-Has :
      (p : PlayerId) (seq epoch : Option ℕ) (class : Option DeliveryClass) (key : Option ℕ)
      (s : DeliveryAccountability)
      → Has s
      → Has (record_game_data p seq epoch class key s).1
  unfolding record_game_data
  record_game_data-Has p seq epoch class key s h =
      branch_cases Has (not s.protocol_v3) _ _
        (λ _.
          branch_cases Has (is_some seq || is_some epoch || is_some class || is_some key) _ _
            (λ _. h) (λ _. h))
        (λ _.
          when_ok_cases Has (validate_class_key class key >> data_stamp seq epoch) s _ h λ (n, e) _.
            when_ok_cases Has (check_stamp p n e s) s _ h
              λ progress _. record_stamp-Has p n e progress s h)

  note_known-Has :
      (source : Source) (p : PlayerId) (epoch : ℕ) (c : SenderProgress) (s : DeliveryAccountability)
      → Has s
      → Has (note_known source p epoch c s).1
  unfolding note_known announce Has
  note_known-Has source p epoch c s h = (ground (arith, h.0), ground (arith, h.1))

  note_baseline-Has :
      (source : Source) (p : PlayerId) (stamp : Option SenderProgress) (s : DeliveryAccountability)
      → Has s
      → Has (note_baseline source p stamp s).1
  unfolding note_baseline Has
  note_baseline-Has source p none s h = h
  note_baseline-Has source p (some stamp) s h = elim (Option-cases (get p s.senders)) [
    | inl f ↦ rw (f, note_baseline) h
    | inr (c, f) ↦ rw (f, note_baseline) (note_known-Has source p stamp.epoch c s h)
  ]

  note_epoch-Has :
      (source : Source) (p : PlayerId) (epoch seq : Option ℕ) (s : DeliveryAccountability)
      → Has s
      → Has (note_epoch source p epoch seq s).1
  unfolding note_epoch
  note_epoch-Has source p epoch seq s h =
      when_ok_cases Has (paired_baseline source s.protocol_v3 epoch seq) s _ h
        λ stamp _. note_baseline-Has source p stamp s h

  note_player_left-Has :
      (p : PlayerId) (epoch final : Option ℕ) (s : DeliveryAccountability)
      → Has s
      → Has (note_player_left p epoch final s).1
  unfolding note_player_left note_player_left_v3 leave Has
  note_player_left-Has p epoch final s h =
      branch_cases Has (not s.protocol_v3) _ _
        (λ _. branch_cases Has (is_some epoch || is_some final) _ _ (λ _. h) (λ _. h))
        (λ _. when_ok_cases Has (terminal_watermark epoch final) s _ h λ (e, f) _.
          when_ok_cases Has (check_left p e f s) s _ h
            λ _ _. try_retire_departed-Has p e (leave p e f s) h)

  pub applied-Has : (r : Step (Unit {0})) → Has r.1 → Has (applied r).1
  applied-Has r h = and_then_cases Has r _ h (λ _ _. h)

  -- The check of a message that is no report leaves them alone.
  pub validate_content-Has :
      {V : Type 0} (message : ServerMessage V) (s : DeliveryAccountability)
      → is_report message ≡ false
      → Has s
      → Has (validate_content message s).1
  unfolding validate_content note_player_joined note_player_reconnected rebaseline_snapshot
      rebaseline_reconnected record_relay_stats Has
  validate_content-Has (room_joined payload) s n h = applied-Has _ (
      when_ok_cases Has (scan_players Source.snapshot s.protocol_v3 payload.current_players [] []) s
        _ h (λ _ _. h))
  validate_content-Has (spectator_joined payload) s n h = applied-Has _ (
      when_ok_cases Has (scan_players Source.snapshot s.protocol_v3 payload.current_players [] []) s
        _ h (λ _ _. h))
  validate_content-Has (reconnected payload missed) s n h = applied-Has _ (
      when_ok_cases Has
        (scan_players Source.reconnect_snapshot s.protocol_v3 payload.current_players [] []
          >>= reconnect_senders s.protocol_v3 payload.sender_watermarks)
        s _ h (λ _ _. h))
  validate_content-Has (player_joined player) s n h =
      applied-Has _ (note_epoch-Has Source.player_joined player.id player.epoch player.seq s h)
  validate_content-Has (player_left id epoch final) s n h =
      applied-Has _ (note_player_left-Has id epoch final s h)
  validate_content-Has (player_reconnected id epoch) s n h =
      applied-Has _ (note_epoch-Has Source.player_reconnected id epoch _ s h)
  validate_content-Has (game_data from payload seq epoch class key) s n h =
      record_game_data-Has from seq epoch class key s h
  validate_content-Has (game_data_binary from encoding payload seq epoch) s n h =
      record_game_data-Has from seq epoch (binary_class seq epoch) none s h
  validate_content-Has (delivery_report report) s n h = absurd (ground arith)
  validate_content-Has (relay_stats i t d b) s n h =
      applied-Has _
        (when_ok_cases Has (check_relay_stats (relay_snapshot i t d b) s) s _ h (λ _ _. h))
  validate_content-Has _ s n h = h
