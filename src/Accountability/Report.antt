-- ===== src/Accountability/Report.antt =====
-- src/accountability.rs: `record_report`. A report names exact gaps and the counters that they add to.
pub mod Tracking
pub mod Unsupported
pub mod Counters
use signal_fish_client_rust.Common.{
  ℕ, ◌+◌, ◌-◌, Bool, true, false, not, ◌&&◌, ◌||◌, Option, none, some, List, [], ◌∷◌, ◌++◌, ◌==◌,
  ltb, leb, if◌then◌else◌, is_some, is_some_and, unwrap_or, any, length, u64_max, Result, ok, ◌>>=◌,
  ◌>>◌, reject_if, ok_or, when_ok, and_then,
}
use signal_fish_client_rust.Common.BTreeMap.{BTreeMap, nat_key, pair_key, get, insert}
use signal_fish_client_rust.Protocol.Delivery.{
  PlayerId, DeliveryGap, DeliveryGapReason, latest_superseded, latest_dropped_full,
  volatile_dropped, unsupported_format, DeliveryCountersByClass, DeliveryReportPayload,
  delivery_report_max_gaps, no_deliveries,
}
use signal_fish_client_rust.Accountability.State.{
  DeliveryAccountability, Violation, Step, v2_report, report_before_error, too_many_gaps,
  counters_backward, gap_length_overflow, unsupported_not_single, causal_count_overflow,
  overlap_in_report, unsupported_delta_overflow, counters_mismatch, gap_invalid, gap_unknown_sender,
  gap_epoch_backward, gap_unannounced_epoch, gap_beyond_terminal, gap_after_data, gap_overlap,
}
use signal_fish_client_rust.Accountability.Retire.{gaps_at, try_retire_departed}
use signal_fish_client_rust.Accountability.Lifecycle.{is_announced}

-- Every counter of `next` is at least that of `previous`.
unfoldable pub monotonic : DeliveryCountersByClass → DeliveryCountersByClass → Bool
monotonic previous next =
    leb previous.reliable.delivered next.reliable.delivered
    && leb previous.reliable.abandoned next.reliable.abandoned
    && leb previous.reliable.unsupported_format next.reliable.unsupported_format
    && leb previous.latest.delivered next.latest.delivered
    && leb previous.latest.superseded next.latest.superseded
    && leb previous.latest.dropped_full next.latest.dropped_full
    && leb previous.latest.abandoned next.latest.abandoned
    && leb previous.latest.unsupported_format next.latest.unsupported_format
    && leb previous.volatile.delivered next.volatile.delivered
    && leb previous.volatile.dropped next.volatile.dropped
    && leb previous.volatile.abandoned next.volatile.abandoned
    && leb previous.volatile.unsupported_format next.volatile.unsupported_format

unfoldable pub validate_monotonic_counters :
    DeliveryCountersByClass → DeliveryCountersByClass → Result (Unit {0}) Violation
unfolding monotonic
validate_monotonic_counters previous next =
    reject_if (not (monotonic previous next)) counters_backward

-- Two closed ranges of sequence numbers meet.
abbrev pub overlaps : (from to from' to' : ℕ) → Bool
overlaps from to from' to' = leb from to' && leb from' to

unfoldable pub validate_gap : DeliveryAccountability → DeliveryGap → Result (Unit {0}) Violation
validate_gap s gap = do
  reject_if (gap.epoch == 0 || gap.from_seq == 0 || ltb gap.to_seq gap.from_seq) gap_invalid
  progress ← ok_or (get gap.from_player s.senders) gap_unknown_sender
  reject_if (ltb gap.epoch progress.epoch) gap_epoch_backward
  reject_if (ltb progress.epoch gap.epoch && not (is_announced gap.from_player gap.epoch s))
      gap_unannounced_epoch
  reject_if
      (is_some_and (get (gap.from_player, gap.epoch) s.departed_senders)
        (λ t. ltb t.final_seq gap.to_seq))
      gap_beyond_terminal
  reject_if (progress.epoch == gap.epoch && leb gap.from_seq progress.last_seq) gap_after_data
  reject_if
      (any (λ g. overlaps gap.from_seq gap.to_seq g.from_seq g.to_seq)
        (gaps_at (gap.from_player, gap.epoch) s))
      gap_overlap

-- `checked_add` and `checked_sub` on u64.
unfoldable pub checked_add : ℕ → ℕ → Option ℕ
checked_add a b = if leb (a + b) u64_max then some (a + b) else none

unfoldable pub checked_sub : ℕ → ℕ → Option ℕ
checked_sub a b = if ltb a b then none else some (a - b)

abbrev pub and_then_some : Option ℕ → (ℕ → Option ℕ) → Option ℕ
and_then_some none f = none
and_then_some (some n) f = f n

-- `[0u64; 4]`, by the category that each index stands for.
pub record CausalCounts : Type 0 where
  pub superseded : ℕ
  pub dropped_full : ℕ
  pub dropped : ℕ
  pub unsupported : ℕ

abbrev pub count_of : DeliveryGapReason → CausalCounts → ℕ
count_of latest_superseded c = c.superseded
count_of latest_dropped_full c = c.dropped_full
count_of volatile_dropped c = c.dropped
count_of unsupported_format c = c.unsupported

abbrev pub set_count : DeliveryGapReason → ℕ → CausalCounts → CausalCounts
set_count latest_superseded n c = record c { superseded = n }
set_count latest_dropped_full n c = record c { dropped_full = n }
set_count volatile_dropped n c = record c { dropped = n }
set_count unsupported_format n c = record c { unsupported = n }

-- What the loop over a report's gaps carries.
pub record Scan : Type 0 where
  pub report_ranges : BTreeMap (PlayerId × ℕ) (List (ℕ × ℕ))
  pub causal_counts : CausalCounts
  pub unsupported_seen : Bool

abbrev pub is_unsupported : DeliveryGapReason → Bool
is_unsupported unsupported_format = true
is_unsupported _ = false

-- An unsupported-format gap must be the report's only one, and name one sequence.
unfoldable pub check_unsupported : ℕ → DeliveryGap → Scan → Result (Unit {0}) Violation
check_unsupported gaps_len gap acc =
    reject_if
      (is_unsupported gap.reason
        && (acc.unsupported_seen || not (gap.from_seq == gap.to_seq) || not (gaps_len == 1)))
      unsupported_not_single

unfoldable pub gap_length : DeliveryGap → Option ℕ
unfolding checked_add checked_sub
gap_length gap =
    and_then_some (checked_sub gap.to_seq gap.from_seq) (λ length. checked_add length 1)

abbrev pub ranges_at : PlayerId × ℕ → Scan → List (ℕ × ℕ)
ranges_at key acc = unwrap_or (get key acc.report_ranges) []

-- One round of the loop over the report's gaps.
unfoldable pub scan_gap : DeliveryAccountability → ℕ → DeliveryGap → Scan → Result Scan Violation
unfolding validate_gap check_unsupported gap_length checked_add
scan_gap s gaps_len gap acc = do
  validate_gap s gap
  count ← ok_or (gap_length gap) gap_length_overflow
  check_unsupported gaps_len gap acc
  total ← ok_or (checked_add (count_of gap.reason acc.causal_counts) count) causal_count_overflow
  reject_if
      (any (λ r. overlaps gap.from_seq gap.to_seq r.0 r.1)
        (ranges_at (gap.from_player, gap.epoch) acc))
      overlap_in_report
  ok (record {
    report_ranges =
        insert (gap.from_player, gap.epoch)
          (ranges_at (gap.from_player, gap.epoch) acc ++ (gap.from_seq, gap.to_seq) ∷ [])
          acc.report_ranges;
    causal_counts = set_count gap.reason total acc.causal_counts;
    unsupported_seen = acc.unsupported_seen || is_unsupported gap.reason;
  })

unfoldable pub scan_gaps :
    DeliveryAccountability → ℕ → List DeliveryGap → Scan → Result Scan Violation
scan_gaps s gaps_len [] acc = ok acc
scan_gaps s gaps_len (gap ∷ gaps) acc = do
  acc' ← scan_gap s gaps_len gap acc
  scan_gaps s gaps_len gaps acc'

abbrev pub empty_scan : Scan
empty_scan = record {
  report_ranges = [];
  causal_counts = record { superseded = 0; dropped_full = 0; dropped = 0; unsupported = 0 };
  unsupported_seen = false;
}

-- `next - prior` in each category; the counters were checked to be monotonic.
unfoldable pub counter_deltas :
    DeliveryCountersByClass → DeliveryCountersByClass → Result CausalCounts Violation
unfolding checked_add
counter_deltas next prior = do
  unsupported ←
      ok_or
        (and_then_some
          (checked_add (next.reliable.unsupported_format - prior.reliable.unsupported_format)
            (next.latest.unsupported_format - prior.latest.unsupported_format))
          (λ sum.
            checked_add sum (next.volatile.unsupported_format - prior.volatile.unsupported_format)))
        unsupported_delta_overflow
  ok (record {
    superseded = next.latest.superseded - prior.latest.superseded;
    dropped_full = next.latest.dropped_full - prior.latest.dropped_full;
    dropped = next.volatile.dropped - prior.volatile.dropped;
    unsupported = unsupported;
  })

abbrev pub same_counts : CausalCounts → CausalCounts → Bool
same_counts a b =
    a.superseded == b.superseded
    && a.dropped_full == b.dropped_full
    && a.dropped == b.dropped
    && a.unsupported == b.unsupported

abbrev pub prior_counters : DeliveryAccountability → DeliveryCountersByClass
prior_counters s = unwrap_or s.counters no_deliveries

-- Everything that `record_report` checks before it writes; the result is `unsupported_seen`.
unfoldable pub check_report : DeliveryReportPayload → DeliveryAccountability → Result Bool Violation
unfolding validate_monotonic_counters scan_gaps counter_deltas
check_report report s = do
  reject_if (not s.protocol_v3) v2_report
  reject_if (is_some s.pending_unsupported_error) report_before_error
  reject_if (ltb delivery_report_max_gaps (length report.gaps)) too_many_gaps
  validate_monotonic_counters (prior_counters s) report.per_class
  scan ← scan_gaps s (length report.gaps) report.gaps empty_scan
  deltas ← counter_deltas report.per_class (prior_counters s)
  reject_if (not (same_counts deltas scan.causal_counts)) counters_mismatch
  ok scan.unsupported_seen

-- `gaps.push(gap)` and `sort_unstable_by_key(|candidate| candidate.from_seq)`.
unfoldable pub insert_by_from : DeliveryGap → List DeliveryGap → List DeliveryGap
insert_by_from gap [] = gap ∷ []
insert_by_from gap (g ∷ gs) =
    if ltb gap.from_seq g.from_seq then gap ∷ g ∷ gs else g ∷ insert_by_from gap gs

unfoldable pub sort_by_from : List DeliveryGap → List DeliveryGap
unfolding insert_by_from
sort_by_from [] = []
sort_by_from (g ∷ gs) = insert_by_from g (sort_by_from gs)

unfoldable pub store_gap : DeliveryGap → DeliveryAccountability → DeliveryAccountability
unfolding sort_by_from
store_gap gap s = record s {
  pending_gaps =
      insert (gap.from_player, gap.epoch)
        (sort_by_from (gaps_at (gap.from_player, gap.epoch) s ++ gap ∷ [])) s.pending_gaps;
}

unfoldable pub store_gaps : List DeliveryGap → DeliveryAccountability → DeliveryAccountability
unfolding store_gap
store_gaps [] s = s
store_gaps (gap ∷ gaps) s = store_gaps gaps (store_gap gap s)

unfoldable pub retire_reported : List DeliveryGap → DeliveryAccountability → Step (Unit {0})
retire_reported [] s = (ok tt, s)
retire_reported (gap ∷ gaps) s =
    and_then (try_retire_departed gap.from_player gap.epoch s) (λ _. retire_reported gaps)

abbrev pub first_gap : List DeliveryGap → Option DeliveryGap
first_gap [] = none
first_gap (gap ∷ gaps) = some gap

-- The writes of an accepted report, before the departed senders are looked at.
unfoldable pub store_report :
    DeliveryReportPayload → Bool → DeliveryAccountability → DeliveryAccountability
unfolding store_gaps
store_report report unsupported_seen s =
    let stored = store_gaps report.gaps s in
    record stored {
      pending_unsupported_error =
          if unsupported_seen then first_gap report.gaps else stored.pending_unsupported_error;
      counters = some report.per_class;
    }

unfoldable pub record_report : DeliveryReportPayload → DeliveryAccountability → Step (Unit {0})
unfolding check_report store_report retire_reported
record_report report s =
    when_ok (check_report report s) s
      λ unsupported_seen. retire_reported report.gaps (store_report report unsupported_seen s)
