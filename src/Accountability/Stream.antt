-- ===== src/Accountability/Stream.antt =====
-- src/accountability.rs: what is checked of the stream of frames as such: the error that must follow
-- an unsupported-format report, and the relay's own statistics.
use signal_fish_client_rust.Common.{
  ℕ, Bool, true, false, not, ◌||◌, Option, none, some, ◌==◌, ltb, if◌then◌else◌, Result, ok, err,
  ◌>>◌, reject_if, when_ok,
}
use signal_fish_client_rust.Protocol.Delivery.{DeliveryGap}
use signal_fish_client_rust.Accountability.State.{
  DeliveryAccountability, RelayStatsSnapshot, Violation, Step, unsupported_not_followed,
  unsupported_without_report, v2_relay_stats, relay_interval_zero, relay_interval_changed,
  relay_counters_backward,
}

-- The `match` on the pending report and the kind of the frame.
unfoldable pub adjacency : Option DeliveryGap → Bool → Result (Unit {0}) Violation
adjacency (some gap) true = ok tt
adjacency (some gap) false = err unsupported_not_followed
adjacency none true = err unsupported_without_report
adjacency none false = ok tt

-- `take` clears the pending report whatever the result.
unfoldable pub observe_server_message :
    (is_unsupported_format_error : Bool) → DeliveryAccountability → Step (Unit {0})
unfolding adjacency
observe_server_message is_error s = if not s.protocol_v3 then (ok tt, s) else (
  adjacency s.pending_unsupported_error is_error,
  record s { pending_unsupported_error = none },
)

unfoldable pub observe_terminal : DeliveryAccountability → DeliveryAccountability
observe_terminal s = record s { pending_unsupported_error = none }

abbrev pub relay_backward : RelayStatsSnapshot → RelayStatsSnapshot → Bool
relay_backward next previous =
    ltb next.sent_to_you previous.sent_to_you
    || ltb next.dropped_for_you previous.dropped_for_you
    || ltb next.backpressure_events previous.backpressure_events

continues : Option RelayStatsSnapshot → RelayStatsSnapshot → Result (Unit {0}) Violation
continues none next = ok tt
continues (some previous) next =
    reject_if (not (next.interval_ms == previous.interval_ms)) relay_interval_changed
    >> reject_if (relay_backward next previous) relay_counters_backward

unfoldable pub check_relay_stats :
    RelayStatsSnapshot → DeliveryAccountability → Result (Unit {0}) Violation
unfolding continues
check_relay_stats next s =
    reject_if (not s.protocol_v3) v2_relay_stats
    >> reject_if (next.interval_ms == 0) relay_interval_zero
    >> continues s.last_relay_stats next

abbrev pub relay_snapshot : (interval sent dropped backpressure : ℕ) → RelayStatsSnapshot
relay_snapshot interval sent dropped backpressure = record {
  interval_ms = interval;
  sent_to_you = sent;
  dropped_for_you = dropped;
  backpressure_events = backpressure;
}

unfoldable pub record_relay_stats :
    (interval_ms sent_to_you dropped_for_you backpressure_events : ℕ)
    → DeliveryAccountability
    → Step (Unit {0})
unfolding check_relay_stats
record_relay_stats interval sent dropped backpressure s =
    let next = relay_snapshot interval sent dropped backpressure in
    when_ok (check_relay_stats next s) s (λ _. (ok tt, record s { last_relay_stats = some next }))
