-- ===== src/Accountability/State.antt =====
-- src/accountability.rs: the validator's state, its resets, and the reasons of a refusal.
use signal_fish_client_rust.Common.{ℕ, Bool, Option, none, List, [], ◌==◌, Result, reject_if}
use signal_fish_client_rust.Common.BTreeMap.{BTreeMap, BTreeSet}
use signal_fish_client_rust.Protocol.Delivery.{PlayerId, DeliveryGap, DeliveryCountersByClass}

pub record SenderProgress : Type 0 where
  pub epoch : ℕ
  pub last_seq : ℕ

pub record RelayStatsSnapshot : Type 0 where
  pub interval_ms : ℕ
  pub sent_to_you : ℕ
  pub dropped_for_you : ℕ
  pub backpressure_events : ℕ

pub record DepartedSender : Type 0 where
  pub final_seq : ℕ

pub data GameDataDisposition : Type 0 where
  apply stale : GameDataDisposition

pub record DeliveryAccountability : Type 0 where
  pub protocol_v3 : Bool
  pub senders : BTreeMap PlayerId SenderProgress
  pub announced_epochs : BTreeMap PlayerId (BTreeSet ℕ)
  pub stale_senders : BTreeSet PlayerId
  pub departed_senders : BTreeMap (PlayerId × ℕ) DepartedSender
  pub pending_gaps : BTreeMap (PlayerId × ℕ) (List DeliveryGap)
  pub pending_unsupported_error : Option DeliveryGap
  pub counters : Option DeliveryCountersByClass
  pub last_relay_stats : Option RelayStatsSnapshot

-- The `source` argument of the shared checks, which their diagnostics spell out.
pub data Source : Type 0 where
  snapshot reconnect_snapshot reconnect_watermark : Source
  player_joined player_reconnected player_left : Source

-- One constructor for each diagnostic text, without the numbers that the text quotes.
pub data Violation : Type 0 where
  epoch_zero : Source → Violation
  omitted_baseline : Source → Violation
  exposed_baseline : Source → Violation
  duplicate_player : Source → Violation
  v2_watermarks : Violation
  duplicate_watermark : Violation
  watermark_disagrees : Violation
  watermark_outside_snapshot : Violation
  watermarks_incomplete : Violation
  epoch_not_newer : Source → Violation
  epoch_not_newer_than_announced : Source → Violation
  v2_terminal : Violation
  omitted_terminal : Violation
  left_unknown_sender : Violation
  left_epoch_backward : Violation
  left_unannounced_epoch : Violation
  left_final_backward : Violation
  left_terminal_changed : Violation
  left_after_newer_leave : Violation
  left_before_reported_gap : Violation
  unresolved_departure : Violation
  gap_state_disappeared : Violation
  unsupported_not_followed : Violation
  unsupported_without_report : Violation
  v2_relay_stats : Violation
  relay_interval_zero : Violation
  relay_interval_changed : Violation
  relay_counters_backward : Violation
  v2_report : Violation
  report_before_error : Violation
  too_many_gaps : Violation
  counters_backward : Violation
  gap_length_overflow : Violation
  unsupported_not_single : Violation
  causal_count_overflow : Violation
  overlap_in_report : Violation
  unsupported_delta_overflow : Violation
  counters_mismatch : Violation
  gap_invalid : Violation
  gap_unknown_sender : Violation
  gap_epoch_backward : Violation
  gap_unannounced_epoch : Violation
  gap_beyond_terminal : Violation
  gap_after_data : Violation
  gap_overlap : Violation
  class_key_invalid : Violation
  v2_game_data : Violation
  data_stamp_omitted : Violation
  data_stamp_unpaired : Violation
  data_stamp_zero : Violation
  data_before_baseline : Violation
  data_epoch_backward : Violation
  data_unannounced_epoch : Violation
  data_beyond_terminal : Violation
  data_before_older_tails : Violation
  data_duplicate : Violation
  data_sequence_overflow : Violation
  gap_unexplained : Violation
  gap_includes_delivered : Violation
  gap_range_overflow : Violation
  gap_not_covered : Violation
  representation_mismatch : Violation
  physical_binary_mismatch : Violation

-- What a method on `&mut self` returns, with the state that it leaves.
abbrev pub Step : Type 0 → Type 0
Step A = Result A Violation × DeliveryAccountability

unfoldable pub new : Bool → DeliveryAccountability
new protocol_v3 = record {
  protocol_v3 = protocol_v3;
  senders = [];
  announced_epochs = [];
  stale_senders = [];
  departed_senders = [];
  pending_gaps = [];
  pending_unsupported_error = none;
  counters = none;
  last_relay_stats = none;
}

-- Delivery counters stay: they are cumulative for the connection.
unfoldable pub reset_room : DeliveryAccountability → DeliveryAccountability
reset_room s = record s {
  senders = [];
  announced_epochs = [];
  stale_senders = [];
  departed_senders = [];
  pending_gaps = [];
}

unfoldable pub reset_connection : DeliveryAccountability → DeliveryAccountability
unfolding reset_room
reset_connection s = record (reset_room s) {
  pending_unsupported_error = none;
  counters = none;
  last_relay_stats = none;
}

unfoldable pub validate_epoch : ℕ → Source → Result (Unit {0}) Violation
validate_epoch epoch source = reject_if (epoch == 0) (epoch_zero source)
