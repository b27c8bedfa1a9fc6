-- ===== src/Accountability/Report/Unsupported.antt =====
-- src/accountability.rs: what a report does to the obligation of an unsupported format.
use signal_fish_client_rust.Common.{
  ℕ, ◌≡◌, refl, ◌∙◌, ap, inl, inr, Bool, true, false, not, ◌&&◌, ◌||◌, none, List, [], ◌∷◌, any,
  ltb, length, if◌then◌else◌, is_some, Result, ok, err, reject_if, ok_or, >>=-eq-ok, Result-cases,
  arith,
}
use signal_fish_client_rust.Protocol.Delivery.{
  DeliveryGap, DeliveryReportPayload, delivery_report_max_gaps,
}
use signal_fish_client_rust.Accountability.State.{
  DeliveryAccountability, Violation, v2_report, report_before_error, too_many_gaps,
  gap_length_overflow, causal_count_overflow, overlap_in_report,
}
use signal_fish_client_rust.Accountability.Report.{
  Scan, empty_scan, is_unsupported, overlaps, ranges_at, count_of, checked_add, gap_length,
  validate_gap, check_unsupported, scan_gap, scan_gaps, first_gap, prior_counters,
  validate_monotonic_counters, check_report, store_report, record_report,
}
use signal_fish_client_rust.Accountability.Report.Tracking.{record_report-ok}
use signal_fish_client_rust.Accountability.Retire.Tracking.{IsTracked}
use signal_fish_client_rust.Accountability.Frame.Untouched.{
  Has, store_gaps-Has, retire_reported-Has,
}

abbrev pub is_accepted : {A : Type 0} → Result A Violation → Bool
is_accepted (ok a) = true
is_accepted (err v) = false

abbrev pub names_unsupported : DeliveryReportPayload → Bool
names_unsupported report = any (λ gap. is_unsupported gap.reason) report.gaps

scan_gap-seen :
    (s : DeliveryAccountability) (len : ℕ) (gap : DeliveryGap) (acc acc' : Scan)
    → scan_gap s len gap acc ≡ ok acc'
    → acc'.unsupported_seen ≡ (acc.unsupported_seen || is_unsupported gap.reason)
unfolding scan_gap
scan_gap-seen s len gap acc acc' h =
    let (_, _, e1) = >>=-eq-ok (validate_gap s gap) _ h in
    let (n, _, e2) = >>=-eq-ok (ok_or (gap_length gap) gap_length_overflow) _ e1 in
    let (_, _, e3) = >>=-eq-ok (check_unsupported len gap acc) _ e2 in
    let (total, _, e4) =
      >>=-eq-ok
        (ok_or (checked_add (count_of gap.reason acc.causal_counts) n) causal_count_overflow) _
        e3 in
    let (_, _, e5) =
      >>=-eq-ok
        (reject_if
          (any (λ r. overlaps gap.from_seq gap.to_seq r.0 r.1)
            (ranges_at (gap.from_player, gap.epoch) acc))
          overlap_in_report)
        _ e4 in
    ground arith

scan_gaps-seen :
    (s : DeliveryAccountability) (len : ℕ) (gaps : List DeliveryGap) (acc acc' : Scan)
    → scan_gaps s len gaps acc ≡ ok acc'
    → acc'.unsupported_seen ≡ (acc.unsupported_seen || any (λ gap. is_unsupported gap.reason) gaps)
unfolding scan_gaps
scan_gaps-seen s len [] acc acc' h = ground arith
scan_gaps-seen s len (gap ∷ gaps) acc acc' h =
    let (mid, first, rest) = >>=-eq-ok (scan_gap s len gap acc) _ h in
    ground (arith, scan_gap-seen s len gap acc mid first, scan_gaps-seen s len gaps mid acc' rest)

check_report-seen :
    (report : DeliveryReportPayload) (s : DeliveryAccountability) (seen : Bool)
    → check_report report s ≡ ok seen
    → seen ≡ names_unsupported report
unfolding check_report
check_report-seen report s seen h =
    let (_, _, e1) = >>=-eq-ok (reject_if (not s.protocol_v3) v2_report) _ h in
    let (_, _, e2) =
      >>=-eq-ok (reject_if (is_some s.pending_unsupported_error) report_before_error) _ e1 in
    let (_, _, e3) =
      >>=-eq-ok (reject_if (ltb delivery_report_max_gaps (length report.gaps)) too_many_gaps) _
        e2 in
    let (_, _, e4) =
      >>=-eq-ok (validate_monotonic_counters (prior_counters s) report.per_class) _ e3 in
    let (scan, scanned, e5) =
      >>=-eq-ok (scan_gaps s (length report.gaps) report.gaps empty_scan) _ e4 in
    ground (arith, scan_gaps-seen s (length report.gaps) report.gaps empty_scan scan scanned)

first_gap-some :
    (gaps : List DeliveryGap)
    → any (λ gap. is_unsupported gap.reason) gaps ≡ true
    → is_some (first_gap gaps) ≡ true
first_gap-some [] h = h
first_gap-some (gap ∷ gaps) h = refl

-- The obligation that stands once the report is stored.
store_report-Has :
    (report : DeliveryReportPayload) (seen : Bool) (s : DeliveryAccountability)
    → Has true none s
    → Has true (if seen then first_gap report.gaps else none) (store_report report seen s)
unfolding store_report Has
store_report-Has report true s h = ((store_gaps-Has true none report.gaps s h).0, refl)
store_report-Has report false s h = store_gaps-Has true none report.gaps s h

-- A report that finds no obligation leaves one exactly when it is accepted and names a gap of that kind.
pub record_report-arms :
    (report : DeliveryReportPayload) (s : DeliveryAccountability)
    → IsTracked s
    → Has true none s
    → ((record_report report s).1.protocol_v3 ≡ true)
      × (is_some (record_report report s).1.pending_unsupported_error
          ≡ (is_accepted (record_report report s).0 && names_unsupported report))
unfolding Has
record_report-arms report s t h = elim (Result-cases (check_report report s)) [
  | inl (seen, e) ↦
      let accepted = record_report-ok report s seen t e in
      let armed : Has true (if seen then first_gap report.gaps else none)
          (record_report report s).1 =
        unfold record_report in
        rw (e, record_report)
          (retire_reported-Has true (if seen then first_gap report.gaps else none) report.gaps _
            (store_report-Has report seen s h)) in
      let named = check_report-seen report s seen e in
      (armed.0, ap is_some armed.1 ∙ ground (arith, first_gap-some report.gaps))
  | inr (v, e) ↦ unfold record_report in rw (e, record_report) (h.0, ap is_some h.1)
]
