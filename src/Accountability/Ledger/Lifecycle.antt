-- ===== src/Accountability/Ledger/Lifecycle.antt =====
-- src/accountability.rs: the lifecycle messages against the ledger.
use signal_fish_client_rust.Accountability.State.{Violation}
use signal_fish_client_rust.Common.{
  ℕ, ◌≡◌, refl, sym, subst, inl, inr, Bool, not, ◌||◌, Option, none, some, List, [], ◌∷◌, ◌++◌, ok,
  err, is_some, OnOk, OnErr, not_both, when_ok_cases, branch_cases, when_ok-OnOk, when_ok-OnErr,
  Option-cases, arith,
}
use signal_fish_client_rust.Common.BTreeMap.{BTreeMap, nat_key, get, insert, remove, get-insert}
use signal_fish_client_rust.Protocol.Delivery.{PlayerId}
use signal_fish_client_rust.Accountability.State.{DeliveryAccountability, SenderProgress, Source}
use signal_fish_client_rust.Accountability.Snapshot.{paired_baseline}
use signal_fish_client_rust.Accountability.Lifecycle.{
  note_known, note_baseline, note_epoch, terminal_watermark, check_left, leave, note_player_left_v3,
  note_player_left,
}
use signal_fish_client_rust.Accountability.Ledger.Defs.{
  Entry, baseline, IsAccounted, IsAccounted-append,
}
use signal_fish_client_rust.Accountability.Ledger.Closed.{try_retire_departed-IsAccounted}

abbrev pub baseline_entries : PlayerId → (epoch seq : Option ℕ) → List Entry
baseline_entries p (some epoch) (some seq) = baseline p epoch seq ∷ []
baseline_entries p _ _ = []

abbrev pub if_unknown : Option SenderProgress → List Entry → List Entry
if_unknown none entries = entries
if_unknown (some c) entries = []

-- A join sets a baseline for a sender that is not known yet, and for no other.
abbrev pub join_entries :
    BTreeMap PlayerId SenderProgress → PlayerId → (epoch seq : Option ℕ) → List Entry
join_entries senders p epoch seq = if_unknown (get p senders) (baseline_entries p epoch seq)

note_known_refused :
    (source : Source) (p : PlayerId) (epoch : ℕ) (c : SenderProgress) (s : DeliveryAccountability)
    → OnErr (λ s'. s' ≡ s) (note_known source p epoch c s)
unfolding note_known
note_known_refused source p epoch c s v bad = ground arith

note_baseline_refused :
    (source : Source) (p : PlayerId) (stamp : Option SenderProgress) (s : DeliveryAccountability)
    → OnErr (λ s'. s' ≡ s) (note_baseline source p stamp s)
unfolding note_baseline
note_baseline_refused source p none s = λ v bad. refl
note_baseline_refused source p (some stamp) s = elim (Option-cases (get p s.senders)) [
  | inl f ↦ rw (f, note_baseline) (λ v bad. absurd (not_both tt v refl bad))
  | inr (c, f) ↦ rw (f, note_baseline) (note_known_refused source p stamp.epoch c s)
]

-- A refused join or reconnect writes nothing.
pub note_epoch_refused :
    (source : Source) (p : PlayerId) (epoch seq : Option ℕ) (s : DeliveryAccountability)
    (v : Violation)
    → (note_epoch source p epoch seq s).0 ≡ err v
    → (note_epoch source p epoch seq s).1 ≡ s
unfolding note_epoch
note_epoch_refused source p epoch seq s =
    when_ok-OnErr (λ s'. s' ≡ s) (paired_baseline source s.protocol_v3 epoch seq) s _ refl
      λ stamp _. note_baseline_refused source p stamp s

pub paired_baseline-entries :
    (source : Source) (v3 : Bool) (p : PlayerId) (epoch seq : Option ℕ) (stamp : SenderProgress)
    → paired_baseline source v3 epoch seq ≡ ok (some stamp)
    → baseline_entries p epoch seq ≡ baseline p stamp.epoch stamp.last_seq ∷ []
unfolding paired_baseline
paired_baseline-entries source v3 p epoch seq stamp h = ground arith

module _ (ledger : List Entry) where
  note_known-IsAccounted :
      (source : Source) (p : PlayerId) (epoch : ℕ) (c : SenderProgress) (s : DeliveryAccountability)
      → IsAccounted ledger s
      → IsAccounted ledger (note_known source p epoch c s).1
  unfolding note_known
  note_known-IsAccounted source p epoch c s h = record {
    cursor = λ q d n g lo hi. ground (arith, h.cursor q d n);
    pending = λ q e gaps n g k. ground (arith, h.pending q e gaps n);
  }

  new_sender-IsAccounted :
      (p : PlayerId) (stamp : SenderProgress) (s : DeliveryAccountability)
      → IsAccounted ledger s
      → IsAccounted (baseline p stamp.epoch stamp.last_seq ∷ ledger) (record s {
        senders = insert p stamp s.senders;
        stale_senders = remove p s.stale_senders;
      })
  new_sender-IsAccounted p stamp s h = record {
    cursor = λ q c n g lo hi. ground (arith, get-insert p q stamp s.senders, h.cursor q c n);
    pending = λ q e gaps n g k. ground (arith, h.pending q e gaps n g k);
  }

  note_baseline-IsAccounted :
      (source : Source) (p : PlayerId) (c : SenderProgress) (stamp : Option SenderProgress)
      (s : DeliveryAccountability)
      → get p s.senders ≡ some c
      → IsAccounted ledger s
      → IsAccounted ledger (note_baseline source p stamp s).1
  unfolding note_baseline
  note_baseline-IsAccounted source p c none s f h = h
  note_baseline-IsAccounted source p c (some stamp) s f h =
      rw (f, note_baseline) (note_known-IsAccounted source p stamp.epoch c s h)

  note_new-IsAccounted :
      (source : Source) (v3 : Bool) (p : PlayerId) (epoch seq : Option ℕ)
      (stamp : Option SenderProgress) (s : DeliveryAccountability)
      → get p s.senders ≡ none
      → paired_baseline source v3 epoch seq ≡ ok stamp
      → IsAccounted ledger s
      → IsAccounted (baseline_entries p epoch seq ++ ledger) (note_baseline source p stamp s).1
  unfolding note_baseline
  note_new-IsAccounted source v3 p epoch seq none s f e h =
      IsAccounted-append (baseline_entries p epoch seq) ledger s h
  note_new-IsAccounted source v3 p epoch seq (some stamp) s f e h =
      rw (paired_baseline-entries source v3 p epoch seq stamp e)
        (rw (f, note_baseline) (new_sender-IsAccounted p stamp s h))

  -- An accepted join or reconnect adds a baseline for a sender that was unknown, and none else.
  pub note_epoch-IsAccounted :
      (source : Source) (p : PlayerId) (epoch seq : Option ℕ) (s : DeliveryAccountability)
      → IsAccounted ledger s
      → OnOk
          (λ _. IsAccounted (join_entries s.senders p epoch seq ++ ledger))
          (note_epoch source p epoch seq s)
  unfolding note_epoch
  note_epoch-IsAccounted source p epoch seq s h =
      let entries = baseline_entries p epoch seq in
      let Q = λ (o : Option SenderProgress).
        OnOk (λ _. IsAccounted (if_unknown o entries ++ ledger))
          (note_epoch source p epoch seq s) in
      elim (Option-cases (get p s.senders)) [
        | inl f ↦ subst Q (sym f) (
            when_ok-OnOk (λ _. IsAccounted (entries ++ ledger))
              (paired_baseline source s.protocol_v3 epoch seq) s _
              λ stamp e _ _. note_new-IsAccounted source s.protocol_v3 p epoch seq stamp s f e h)
        | inr (c, f) ↦ subst Q (sym f) (
            when_ok-OnOk (λ _. IsAccounted ledger) (paired_baseline source s.protocol_v3 epoch seq)
              s _ λ stamp e _ _. note_baseline-IsAccounted source p c stamp s f h)
      ]

  pub note_player_left-IsAccounted :
      (p : PlayerId) (epoch final : Option ℕ) (s : DeliveryAccountability)
      → IsAccounted ledger s
      → IsAccounted ledger (note_player_left p epoch final s).1
  unfolding note_player_left note_player_left_v3 leave
  note_player_left-IsAccounted p epoch final s h =
      branch_cases (IsAccounted ledger) (not s.protocol_v3) _ _
        (λ _.
          branch_cases (IsAccounted ledger) (is_some epoch || is_some final) _ _ (λ _. h) (λ _. h))
        λ _. when_ok_cases (IsAccounted ledger) (terminal_watermark epoch final) s _ h λ (e, f) _.
          when_ok_cases (IsAccounted ledger) (check_left p e f s) s _ h λ _ _.
            try_retire_departed-IsAccounted ledger p e _
              (record { cursor = h.cursor; pending = h.pending })
