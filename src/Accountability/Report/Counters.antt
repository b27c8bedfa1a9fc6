-- ===== src/Accountability/Report/Counters.antt =====
-- src/accountability.rs: the counters of a report against its exact gaps.
use signal_fish_client_rust.Common.{
  ℕ, ◌+◌, ◌-◌, ◌≡◌, refl, ◌∙◌, Bool, true, false, not, Option, none, some, List, [], ◌∷◌, ltb,
  is_some, length, any, ok, ok_or, reject_if, >>=-eq-ok, and_then_cases, when_ok-OnOk,
  if◌then◌else◌, arith,
}
use signal_fish_client_rust.Protocol.Delivery.{
  DeliveryGap, DeliveryGapReason, latest_superseded, latest_dropped_full, volatile_dropped,
  unsupported_format, DeliveryCountersByClass, DeliveryReportPayload, delivery_report_max_gaps,
}
use signal_fish_client_rust.Accountability.State.{
  DeliveryAccountability, v2_report, report_before_error, too_many_gaps, gap_length_overflow,
  causal_count_overflow, overlap_in_report, counters_mismatch,
}
use signal_fish_client_rust.Accountability.Retire.{try_retire_departed, retire_departed}
use signal_fish_client_rust.Accountability.Retire.Cases.{try_retire_cases}
use signal_fish_client_rust.Accountability.Report.{
  monotonic, validate_monotonic_counters, validate_gap, checked_add, gap_length, CausalCounts,
  count_of, set_count, Scan, empty_scan, check_unsupported, overlaps, ranges_at, scan_gap,
  scan_gaps, counter_deltas, same_counts, prior_counters, check_report, store_gap, store_gaps,
  store_report, retire_reported, record_report,
}

abbrev pub same_reason : DeliveryGapReason → DeliveryGapReason → Bool
same_reason latest_superseded latest_superseded = true
same_reason latest_dropped_full latest_dropped_full = true
same_reason volatile_dropped volatile_dropped = true
same_reason unsupported_format unsupported_format = true
same_reason _ _ = false

-- The sequence numbers that the gaps of one reason name.
abbrev pub units : DeliveryGapReason → List DeliveryGap → ℕ
units reason [] = 0
units reason (gap ∷ gaps) =
    (if same_reason reason gap.reason then gap.to_seq + 1 - gap.from_seq else 0) + units reason gaps

gap_length-units :
    (gap : DeliveryGap) (n : ℕ) → gap_length gap ≡ some n → n ≡ gap.to_seq + 1 - gap.from_seq
unfolding gap_length
gap_length-units gap n h = ground arith

checked_add-sum : (a b n : ℕ) → checked_add a b ≡ some n → n ≡ a + b
unfolding checked_add
checked_add-sum a b n h = ground arith

ok_or-eq-ok {ℓ μ} :
    {A : Type ℓ} {E : Type μ} (o : Option A) (e : E) (a : A) → ok_or o e ≡ ok a → o ≡ some a
ok_or-eq-ok none e a h = cc
ok_or-eq-ok (some b) e a h = cc

set_count-count :
    (r g : DeliveryGapReason) (n : ℕ) (c : CausalCounts)
    → count_of r (set_count g n c) ≡ (if same_reason r g then n else count_of r c)
set_count-count r g n c = ground arith

scan_gap-count :
    (s : DeliveryAccountability) (len : ℕ) (gap : DeliveryGap) (acc acc' : Scan)
    (reason : DeliveryGapReason)
    → scan_gap s len gap acc ≡ ok acc'
    → count_of reason acc'.causal_counts
      ≡ count_of reason acc.causal_counts + units reason (gap ∷ [])
unfolding scan_gap
scan_gap-count s len gap acc acc' reason h =
    let (_, _, e1) = >>=-eq-ok (validate_gap s gap) _ h in
    let (n, sized, e2) = >>=-eq-ok (ok_or (gap_length gap) gap_length_overflow) _ e1 in
    let (_, _, e3) = >>=-eq-ok (check_unsupported len gap acc) _ e2 in
    let (total, summed, e4) =
      >>=-eq-ok
        (ok_or (checked_add (count_of gap.reason acc.causal_counts) n) causal_count_overflow) _
        e3 in
    let (_, _, e5) =
      >>=-eq-ok
        (reject_if
          (any (λ r. overlaps gap.from_seq gap.to_seq r.0 r.1)
            (ranges_at (gap.from_player, gap.epoch) acc))
          overlap_in_report)
        _ e4 in
    let n-eq = gap_length-units gap n (ok_or-eq-ok (gap_length gap) gap_length_overflow n sized) in
    let total-eq = checked_add-sum (count_of gap.reason acc.causal_counts) n total (
      ok_or-eq-ok (checked_add (count_of gap.reason acc.causal_counts) n) causal_count_overflow
        total summed) in
    ground (arith, set_count-count reason gap.reason total acc.causal_counts)

scan_gaps-count :
    (s : DeliveryAccountability) (len : ℕ) (gaps : List DeliveryGap) (acc acc' : Scan)
    (reason : DeliveryGapReason)
    → scan_gaps s len gaps acc ≡ ok acc'
    → count_of reason acc'.causal_counts ≡ count_of reason acc.causal_counts + units reason gaps
unfolding scan_gaps
scan_gaps-count s len [] acc acc' reason h = ground arith
scan_gaps-count s len (gap ∷ gaps) acc acc' reason h =
    let (mid, first, rest) = >>=-eq-ok (scan_gap s len gap acc) _ h in
    omega (
      arith,
      scan_gap-count s len gap acc mid reason first,
      scan_gaps-count s len gaps mid acc' reason rest,
    )

-- The counters of the report after it, over the counters before it.
pub record Conserves (prior next : DeliveryCountersByClass) (gaps : List DeliveryGap) : Type 0 where
  pub superseded : next.latest.superseded ≡ prior.latest.superseded + units latest_superseded gaps
  pub dropped_full :
      next.latest.dropped_full ≡ prior.latest.dropped_full + units latest_dropped_full gaps
  pub dropped : next.volatile.dropped ≡ prior.volatile.dropped + units volatile_dropped gaps
  pub unsupported :
      next.reliable.unsupported_format + next.latest.unsupported_format
        + next.volatile.unsupported_format
      ≡ prior.reliable.unsupported_format
        + prior.latest.unsupported_format
        + prior.volatile.unsupported_format
        + units unsupported_format gaps

deltas-Conserves :
    (prior next : DeliveryCountersByClass) (gaps : List DeliveryGap) (deltas : CausalCounts)
    (scan : Scan)
    → monotonic prior next ≡ true
    → counter_deltas next prior ≡ ok deltas
    → same_counts deltas scan.causal_counts ≡ true
    → ((reason : DeliveryGapReason) → count_of reason scan.causal_counts ≡ units reason gaps)
    → Conserves prior next gaps
unfolding monotonic counter_deltas
deltas-Conserves prior next gaps deltas scan m d e counts = record {
  superseded = ground (arith, counts latest_superseded);
  dropped_full = ground (arith, counts latest_dropped_full);
  dropped = ground (arith, counts volatile_dropped);
  unsupported = ground (arith, counts unsupported_format);
}

store_gaps-counters :
    (gaps : List DeliveryGap) (s : DeliveryAccountability)
    → (store_gaps gaps s).counters ≡ s.counters
unfolding store_gaps
store_gaps-counters [] s = refl
store_gaps-counters (gap ∷ gaps) s = store_gaps-counters gaps (store_gap gap s)

retire_departed-counters :
    (p epoch : ℕ) (s : DeliveryAccountability) → (retire_departed p epoch s).counters ≡ s.counters
unfolding retire_departed
retire_departed-counters p epoch s = ground arith

retire_reported-counters :
    (gaps : List DeliveryGap) (s : DeliveryAccountability)
    → (retire_reported gaps s).1.counters ≡ s.counters
unfolding retire_reported
retire_reported-counters [] s = refl
retire_reported-counters (gap ∷ gaps) s =
    let P = λ (s' : DeliveryAccountability). s'.counters ≡ s.counters in
    let kept =
      try_retire_cases P gap.from_player gap.epoch s refl
        (retire_departed-counters gap.from_player gap.epoch s)
        (λ n ps _. retire_departed-counters gap.from_player gap.epoch _) in
    and_then_cases P (try_retire_departed gap.from_player gap.epoch s) _ kept
      λ _ _. retire_reported-counters gaps _ ∙ kept

count_of_empty : (r : DeliveryGapReason) (n : ℕ) → count_of r empty_scan.causal_counts + n ≡ n
count_of_empty r n = ground arith

check_report-Conserves :
    (report : DeliveryReportPayload) (s : DeliveryAccountability) (seen : Bool)
    → check_report report s ≡ ok seen
    → Conserves (prior_counters s) report.per_class report.gaps
unfolding check_report validate_monotonic_counters
check_report-Conserves report s seen h =
    let prior = prior_counters s in
    let (_, _, e1) = >>=-eq-ok (reject_if (not s.protocol_v3) v2_report) _ h in
    let (_, _, e2) =
      >>=-eq-ok (reject_if (is_some s.pending_unsupported_error) report_before_error) _ e1 in
    let (_, _, e3) =
      >>=-eq-ok (reject_if (ltb delivery_report_max_gaps (length report.gaps)) too_many_gaps) _
        e2 in
    let (_, m, e4) = >>=-eq-ok (validate_monotonic_counters prior report.per_class) _ e3 in
    let (scan, scanned, e5) =
      >>=-eq-ok (scan_gaps s (length report.gaps) report.gaps empty_scan) _ e4 in
    let (deltas, d, e6) = >>=-eq-ok (counter_deltas report.per_class prior) _ e5 in
    let (_, same, _) =
      >>=-eq-ok (reject_if (not (same_counts deltas scan.causal_counts)) counters_mismatch) _ e6 in
    deltas-Conserves prior report.per_class report.gaps deltas scan (ground arith) d (ground arith)
      λ reason.
        scan_gaps-count s (length report.gaps) report.gaps empty_scan scan reason scanned
        ∙ count_of_empty reason (units reason report.gaps)

-- An accepted report moves the loss counters by exactly the numbers that its gaps name, reason by
-- reason, and its counters are the ones kept.
pub record_report-Conserves :
    (report : DeliveryReportPayload) (s : DeliveryAccountability)
    → (record_report report s).0 ≡ ok tt
    → ((record_report report s).1.counters ≡ some report.per_class)
      × Conserves (prior_counters s) report.per_class report.gaps
unfolding record_report store_report
record_report-Conserves report s h =
    when_ok-OnOk
      (λ _ s'.
        (s'.counters ≡ some report.per_class)
        × Conserves (prior_counters s) report.per_class report.gaps)
      (check_report report s) s _
      (λ seen e _ _.
        (retire_reported-counters report.gaps _, check_report-Conserves report s seen e))
      tt h
