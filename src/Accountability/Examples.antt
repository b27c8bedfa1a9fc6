-- ===== src/Accountability/Examples.antt =====
-- src/accountability.rs: the validator on a small room, for the theorems about it.
use signal_fish_client_rust.Accountability.Stream.{observe_server_message}
use signal_fish_client_rust.Common.{
  ℕ, ◌≡◌, refl, inr, true, false, none, some, List, [], ◌∷◌, any, ok, is_err, is_some_and, leb,
  arith,
}
use signal_fish_client_rust.Common.BTreeMap.{remove, insert, nat_key, pair_key, get}
use signal_fish_client_rust.Protocol.Delivery.{
  DeliveryGap, volatile_dropped, unsupported_format, latest_dropped_full, DeliveryReportPayload,
  no_deliveries, json,
}
use signal_fish_client_rust.Protocol.Types.{PlayerInfo}
use signal_fish_client_rust.Protocol.Messages.{
  ServerMessage, player_joined, player_left, game_data, delivery_report,
}
use signal_fish_client_rust.Accountability.State.{
  DeliveryAccountability, SenderProgress, Source, apply, new, omitted_baseline, counters_mismatch,
}
use signal_fish_client_rust.Accountability.Retire.{gaps_at, try_retire_departed}
use signal_fish_client_rust.Accountability.Retire.Tail.{resolved, try_retire_departed-resolved}
use signal_fish_client_rust.Accountability.Retire.Tracking.{try_retire_departed-ok}
use signal_fish_client_rust.Accountability.Lifecycle.{
  note_player_left, note_player_joined, note_epoch,
}
use signal_fish_client_rust.Accountability.Report.{scan_gap, record_report, prior_counters}
use signal_fish_client_rust.Accountability.Report.Counters.{Conserves, record_report-Conserves}
use signal_fish_client_rust.Accountability.GameData.{in_gap, consume_exact_gap, record_game_data}
use signal_fish_client_rust.Accountability.GameData.Coverage.{consume_exact_gap-covers}
use signal_fish_client_rust.Accountability.GameData.Replay.{
  record_game_data-passed, consume_exact_gap-accepts_reported,
}
use signal_fish_client_rust.Protocol.ErrorCodes.{ErrorCode}
use signal_fish_client_rust.Accountability.Frame.{is_unsupported_error, validate_server_frame}
use signal_fish_client_rust.Accountability.Frame.Adjacency.{stands_after, run-adjacent}
use signal_fish_client_rust.Accountability.Frame.Run.{Input, frame, run}
use signal_fish_client_rust.Accountability.Frame.Tracking.{
  run-IsTracked, run-departed, new-IsTracked,
}
use signal_fish_client_rust.Accountability.Ledger.Defs.{accounted}
use signal_fish_client_rust.Accountability.Ledger.Content.{ledger_of}
use signal_fish_client_rust.Accountability.Ledger.Lifecycle.{note_epoch_refused}
use signal_fish_client_rust.Accountability.Ledger.Report.{record_report_refused}
use signal_fish_client_rust.Accountability.Ledger.Run.{run_accounts}

abbrev player : PlayerInfo (Unit {0})
player = record {
  id = 7;
  name = "ada";
  is_authority = false;
  is_ready = true;
  connected_at = "";
  connection_info = none;
  epoch = some 1;
  seq = some 0;
}

abbrev lost : DeliveryGap
lost = record { from_player = 7; epoch = 1; from_seq = 2; to_seq = 3; reason = volatile_dropped }

abbrev named : DeliveryGap
named = record {
  from_player = 7;
  epoch = 1;
  from_seq = 4;
  to_seq = 5;
  reason = latest_dropped_full;
}

abbrev report : DeliveryReportPayload
report = record {
  per_class = record (no_deliveries) {
    volatile = record { delivered = 0; dropped = 2; abandoned = 0; unsupported_format = 0 };
  };
  gaps = lost ∷ [];
}

abbrev both : DeliveryReportPayload
both = record {
  per_class = record (no_deliveries) {
    latest = record {
      delivered = 0;
      superseded = 0;
      dropped_full = 2;
      abandoned = 0;
      unsupported_format = 0;
    };
    volatile = record { delivered = 0; dropped = 2; abandoned = 0; unsupported_format = 0 };
  };
  gaps = lost ∷ named ∷ [];
}

-- The gaps of `report` without the counters that they add to.
abbrev bare_report : DeliveryReportPayload
bare_report = record { per_class = no_deliveries; gaps = lost ∷ [] }

abbrev text_frame : ServerMessage (Unit {0}) → Input (Unit {0})
text_frame message = frame message json false

abbrev data_at : ℕ → ServerMessage (Unit {0})
data_at n = game_data 7 tt (some n) (some 1) none none

abbrev joined : List (Input (Unit {0}))
joined = text_frame (player_joined player) ∷ text_frame (data_at 1) ∷ []

abbrev skipped : List (Input (Unit {0}))
skipped =
    text_frame (player_joined player)
    ∷ text_frame (data_at 1)
    ∷ text_frame (delivery_report report)
    ∷ text_frame (data_at 4)
    ∷ []

-- The player leaves at 3, with 2 and 3 still open.
abbrev left_open : List (Input (Unit {0}))
left_open =
    text_frame (player_joined player)
    ∷ text_frame (data_at 1)
    ∷ text_frame (player_left 7 (some 1) (some 3))
    ∷ []

abbrev at_one : SenderProgress
at_one = record { epoch = 1; last_seq = 1 }

abbrev at_four : SenderProgress
at_four = record { epoch = 1; last_seq = 4 }

-- A room in which the gaps 2 to 3 and 4 to 5 wait.
abbrev waiting : DeliveryAccountability
waiting = record (new true) {
  senders = (7, at_one) ∷ [];
  pending_gaps = ((7, 1), lost ∷ named ∷ []) ∷ [];
}

-- The same, with a departure at 5.
abbrev leaving : DeliveryAccountability
leaving = record waiting { departed_senders = ((7, 1), record { final_seq = 5 }) ∷ [] }

abbrev room : DeliveryAccountability
room = run joined (new true)

run_accounts_example : accounted (ledger_of skipped (new true) []) 7 1 3 ≡ true
unfolding run get observe_server_message new note_player_joined record_game_data insert
    try_retire_departed record_report scan_gap
run_accounts_example = run_accounts true skipped 7 at_four 3 refl (ground arith) (ground arith)

record_report-Conserves_example :
    ((record_report both room).1.counters ≡ some both.per_class)
    × Conserves (prior_counters room) both.per_class both.gaps
unfolding record_report run observe_server_message new note_player_joined get record_game_data
    insert try_retire_departed scan_gap
record_report-Conserves_example = record_report-Conserves both room refl

record_report_refused_example : (record_report bare_report room).1 ≡ room
unfolding record_report run observe_server_message new note_player_joined get record_game_data
    insert try_retire_departed scan_gap
record_report_refused_example =
    record_report_refused bare_report room counters_mismatch
      (run-IsTracked joined (new true) (new-IsTracked true)) refl

record_game_data-passed_example :
    (is_err (record_game_data 7 (some 1) (some 1) none none waiting).0 ≡ true)
    × ((record_game_data 7 (some 1) (some 1) none none waiting).1 ≡ waiting)
unfolding new get
record_game_data-passed_example =
    record_game_data-passed 7 1 1 none none waiting at_one refl refl (inr (refl, ground arith))

try_retire_departed-resolved_example : resolved at_one 7 1 4 leaving ≡ true
unfolding try_retire_departed new get remove
try_retire_departed-resolved_example =
    try_retire_departed-resolved 7 1 4 at_one (record { final_seq = 5 }) leaving refl refl refl
      (ground arith) (ground arith)

consume_exact_gap-covers_example : any (in_gap 3) (gaps_at (7, 1) waiting) ≡ true
unfolding consume_exact_gap get
consume_exact_gap-covers_example =
    consume_exact_gap-covers (7, 1) 2 4 waiting 3 refl (ground arith) (ground arith)

consume_exact_gap-accepts_reported_example :
    ((consume_exact_gap (7, 1) 2 4 waiting).0 ≡ ok tt)
    × (get (7, 1) (consume_exact_gap (7, 1) 2 4 waiting).1.pending_gaps ≡ some (named ∷ []))
    × (in_gap 4 named ≡ true)
unfolding get new
consume_exact_gap-accepts_reported_example =
    consume_exact_gap-accepts_reported (7, 1) 2 4 lost named [] waiting refl refl (ground arith)
      refl (ground arith) refl (ground arith)

run-departed_example :
    is_some_and (get 7 (run left_open (new true)).senders) (λ c. leb c.epoch 1) ≡ true
unfolding run get observe_server_message new note_player_joined record_game_data insert
    try_retire_departed note_player_left
run-departed_example = run-departed true left_open 7 1 (record { final_seq = 3 }) refl

try_retire_departed-ok_example : (try_retire_departed 7 1 (run left_open (new true))).0 ≡ ok tt
try_retire_departed-ok_example =
    try_retire_departed-ok 7 1 (run left_open (new true))
      (run-IsTracked left_open (new true) (new-IsTracked true))

-- A report of a format that the receiver does not support stands last.
abbrev unsupported_report : DeliveryReportPayload
unsupported_report = record {
  per_class = record (no_deliveries) {
    volatile = record { delivered = 0; dropped = 0; abandoned = 0; unsupported_format = 1 };
  };
  gaps = record (lost) { to_seq = 2; reason = unsupported_format } ∷ [];
}

abbrev unsupported : List (Input (Unit {0}))
unsupported =
    text_frame (player_joined player)
    ∷ text_frame (data_at 1)
    ∷ text_frame (delivery_report unsupported_report)
    ∷ []

abbrev unsupported_error : ServerMessage (Unit {0})
unsupported_error = ServerMessage.error "" (some ErrorCode.unsupported_game_data_format)

run-adjacent_example :
    is_unsupported_error unsupported_error ≡ stands_after unsupported false (new true)
unfolding run new validate_server_frame observe_server_message note_player_joined get
    record_game_data insert try_retire_departed record_report scan_gap
run-adjacent_example = run-adjacent unsupported unsupported_error json false apply refl

note_epoch_refused_example : (note_epoch Source.player_joined 8 (some 1) none waiting).1 ≡ waiting
unfolding note_epoch new
note_epoch_refused_example =
    note_epoch_refused Source.player_joined 8 (some 1) none waiting
      (omitted_baseline Source.player_joined) refl
