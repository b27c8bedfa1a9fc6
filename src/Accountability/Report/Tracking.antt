-- ===== src/Accountability/Report/Tracking.antt =====
-- src/accountability.rs: waiting departures and delivery reports.
use signal_fish_client_rust.Common.{
  ◌≡◌, refl, Bool, List, [], ◌∷◌, ok, when_ok_cases, and_then_cases, and_then-eq_of_ok,
}
use signal_fish_client_rust.Protocol.Delivery.{DeliveryGap, DeliveryReportPayload}
use signal_fish_client_rust.Accountability.State.{DeliveryAccountability}
use signal_fish_client_rust.Accountability.Retire.{try_retire_departed}
use signal_fish_client_rust.Accountability.Retire.Tracking.{
  IsTracked, try_retire_departed-IsTracked, try_retire_departed-ok,
}
use signal_fish_client_rust.Accountability.Report.{
  store_gap, store_gaps, retire_reported, store_report, check_report, record_report,
}

store_gaps-IsTracked :
    (gaps : List DeliveryGap) (s : DeliveryAccountability)
    → IsTracked s
    → IsTracked (store_gaps gaps s)
unfolding store_gaps
store_gaps-IsTracked [] s h = h
store_gaps-IsTracked (gap ∷ gaps) s h = store_gaps-IsTracked gaps (store_gap gap s) h

retire_reported-IsTracked :
    (gaps : List DeliveryGap) (s : DeliveryAccountability)
    → IsTracked s
    → IsTracked (retire_reported gaps s).1
unfolding retire_reported
retire_reported-IsTracked [] s h = h
retire_reported-IsTracked (gap ∷ gaps) s h =
    let kept = try_retire_departed-IsTracked gap.from_player gap.epoch s h in
    and_then_cases IsTracked (try_retire_departed gap.from_player gap.epoch s) _ kept
      λ _ _. retire_reported-IsTracked gaps _ kept

store_report-IsTracked :
    (report : DeliveryReportPayload) (seen : Bool) (s : DeliveryAccountability)
    → IsTracked s
    → IsTracked (store_report report seen s)
unfolding store_report
store_report-IsTracked report seen s h = store_gaps-IsTracked report.gaps s h

pub record_report-IsTracked :
    (report : DeliveryReportPayload) (s : DeliveryAccountability)
    → IsTracked s
    → IsTracked (record_report report s).1
unfolding record_report
record_report-IsTracked report s h =
    when_ok_cases IsTracked (check_report report s) s _ h
      λ seen _. retire_reported-IsTracked report.gaps _ (store_report-IsTracked report seen s h)

retire_reported-ok :
    (gaps : List DeliveryGap) (s : DeliveryAccountability)
    → IsTracked s
    → (retire_reported gaps s).0 ≡ ok tt
unfolding retire_reported
retire_reported-ok [] s h = refl
retire_reported-ok (gap ∷ gaps) s h =
    rw
      (and_then-eq_of_ok (try_retire_departed gap.from_player gap.epoch s) _ tt
        (try_retire_departed-ok gap.from_player gap.epoch s h))
      (retire_reported-ok gaps _ (try_retire_departed-IsTracked gap.from_player gap.epoch s h))

-- Once its checks pass, a report is recorded whole.
pub record_report-ok :
    (report : DeliveryReportPayload) (s : DeliveryAccountability) (seen : Bool)
    → IsTracked s
    → check_report report s ≡ ok seen
    → (record_report report s).0 ≡ ok tt
unfolding record_report
record_report-ok report s seen h e =
    rw (e, record_report)
      (retire_reported-ok report.gaps _ (store_report-IsTracked report seen s h))
