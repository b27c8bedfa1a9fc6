-- ===== src/Accountability/Ledger/Report.antt =====
-- src/accountability.rs: `record_report` against the ledger.
use signal_fish_client_rust.Accountability.State.{Violation}
use signal_fish_client_rust.Common.{
  ℕ, ◌≡◌, refl, Bool, true, ◌||◌, List, [], ◌∷◌, ◌++◌, any, any-append, err, OnOk, Result-cases,
  inl, inr, not_both, and_then_cases, when_ok-OnOk, arith,
}
use signal_fish_client_rust.Common.BTreeMap.{nat_key, pair_key, get-insert}
use signal_fish_client_rust.Protocol.Delivery.{PlayerId, DeliveryGap, DeliveryReportPayload}
use signal_fish_client_rust.Accountability.State.{DeliveryAccountability}
use signal_fish_client_rust.Accountability.Retire.{gaps_at, try_retire_departed}
use signal_fish_client_rust.Accountability.Retire.Tracking.{IsTracked}
use signal_fish_client_rust.Accountability.Report.{
  insert_by_from, sort_by_from, store_gap, store_gaps, store_report, retire_reported, check_report,
  record_report,
}
use signal_fish_client_rust.Accountability.Report.Tracking.{record_report-ok}
use signal_fish_client_rust.Accountability.GameData.{in_gap}
use signal_fish_client_rust.Accountability.Ledger.Defs.{Entry, reported, accounted, IsAccounted}
use signal_fish_client_rust.Accountability.Ledger.Closed.{try_retire_departed-IsAccounted}

-- Each gap of an accepted report joins the ledger.
abbrev pub add_reports : List DeliveryGap → List Entry → List Entry
add_reports [] ledger = ledger
add_reports (gap ∷ gaps) ledger = add_reports gaps (reported gap ∷ ledger)

any-insert_by_from :
    (q : DeliveryGap → Bool) (gap : DeliveryGap) (gaps : List DeliveryGap)
    → any q (insert_by_from gap gaps) ≡ (q gap || any q gaps)
unfolding insert_by_from
any-insert_by_from q gap [] = refl
any-insert_by_from q gap (g ∷ gs) = ground (arith, any-insert_by_from q gap gs)

-- Sorting keeps the gaps.
any-sort_by_from :
    (q : DeliveryGap → Bool) (gaps : List DeliveryGap) → any q (sort_by_from gaps) ≡ any q gaps
unfolding sort_by_from
any-sort_by_from q [] = refl
any-sort_by_from q (g ∷ gs) =
    ground (arith, any-insert_by_from q g (sort_by_from gs), any-sort_by_from q gs)

module _ (ledger : List Entry) where
  gaps_at-explained :
      (p : PlayerId) (e n : ℕ) (s : DeliveryAccountability)
      → IsAccounted ledger s
      → any (in_gap n) (gaps_at (p, e) s) ≡ true
      → accounted ledger p e n ≡ true
  gaps_at-explained p e n s h k = ground (arith, h.pending p e (gaps_at (p, e) s) n)

  store_gap-IsAccounted :
      (gap : DeliveryGap) (s : DeliveryAccountability)
      → IsAccounted ledger s
      → IsAccounted (reported gap ∷ ledger) (store_gap gap s)
  unfolding store_gap
  store_gap-IsAccounted gap s h = record {
    cursor = λ p c n g lo hi. ground (arith, h.cursor p c n g lo hi);
    pending = λ p e gaps n g k.
        let here = gaps_at (gap.from_player, gap.epoch) s ++ gap ∷ [] in
        ground (
          arith,
          get-insert (gap.from_player, gap.epoch) (p, e) (sort_by_from here) s.pending_gaps,
          any-sort_by_from (in_gap n) here,
          any-append (in_gap n) (gaps_at (gap.from_player, gap.epoch) s) (gap ∷ []),
          gaps_at-explained gap.from_player gap.epoch n s h,
          h.pending p e gaps n,
        );
  }

  retire_reported-IsAccounted :
      (gaps : List DeliveryGap) (s : DeliveryAccountability)
      → IsAccounted ledger s
      → IsAccounted ledger (retire_reported gaps s).1
  unfolding retire_reported
  retire_reported-IsAccounted [] s h = h
  retire_reported-IsAccounted (gap ∷ gaps) s h =
      let kept = try_retire_departed-IsAccounted ledger gap.from_player gap.epoch s h in
      and_then_cases (IsAccounted ledger) (try_retire_departed gap.from_player gap.epoch s) _ kept
        λ _ _. retire_reported-IsAccounted gaps _ kept

store_gaps-IsAccounted :
    (ledger : List Entry) (gaps : List DeliveryGap) (s : DeliveryAccountability)
    → IsAccounted ledger s
    → IsAccounted (add_reports gaps ledger) (store_gaps gaps s)
unfolding store_gaps
store_gaps-IsAccounted ledger [] s h = h
store_gaps-IsAccounted ledger (gap ∷ gaps) s h =
    store_gaps-IsAccounted (reported gap ∷ ledger) gaps (store_gap gap s)
      (store_gap-IsAccounted ledger gap s h)

store_report-IsAccounted :
    (ledger : List Entry) (report : DeliveryReportPayload) (seen : Bool)
    (s : DeliveryAccountability)
    → IsAccounted ledger s
    → IsAccounted (add_reports report.gaps ledger) (store_report report seen s)
unfolding store_report
store_report-IsAccounted ledger report seen s h =
    let kept = store_gaps-IsAccounted ledger report.gaps s h in
    record { cursor = kept.cursor; pending = kept.pending }

-- The gaps of an accepted report join the ledger, which explains those that wait.
pub record_report-IsAccounted :
    (ledger : List Entry) (report : DeliveryReportPayload) (s : DeliveryAccountability)
    → IsAccounted ledger s
    → OnOk (λ _. IsAccounted (add_reports report.gaps ledger)) (record_report report s)
unfolding record_report
record_report-IsAccounted ledger report s h =
    when_ok-OnOk (λ _. IsAccounted (add_reports report.gaps ledger)) (check_report report s) s _
      λ seen _ _ _.
        retire_reported-IsAccounted (add_reports report.gaps ledger) report.gaps _
          (store_report-IsAccounted ledger report seen s h)

-- Where departures are tracked, a refused report writes nothing.
pub record_report_refused :
    (report : DeliveryReportPayload) (s : DeliveryAccountability) (v : Violation)
    → IsTracked s
    → (record_report report s).0 ≡ err v
    → (record_report report s).1 ≡ s
record_report_refused report s v t bad = elim (Result-cases (check_report report s)) [
  | inl (seen, e) ↦ absurd (not_both tt v (record_report-ok report s seen t e) bad)
  | inr (w, e) ↦ unfold record_report in rw (e, record_report) refl
]
