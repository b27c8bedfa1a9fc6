-- ===== src/Accountability/Ledger/GameData.antt =====
-- src/accountability.rs: the cursor behind accepted game data against the ledger.
use signal_fish_client_rust.Common.{
  ℕ, ◌+◌, ◌<◌, ◌≡◌, sym, subst, inl, inr, Bool, true, false, some, List, [], ◌∷◌, any, leb, ok,
  ok_or, OnOk, and_then_cases, when_ok_cases, branch_cases, and_then-OnOk, when_ok-OnOk,
  branch-OnOk, Option-cases, Bool-cases, arith,
}
use signal_fish_client_rust.Common.BTreeMap.{
  nat_key, pair_key, get, get-insert, retain_keys, get-retain_keys, keys,
}
use signal_fish_client_rust.Protocol.Delivery.{PlayerId}
use signal_fish_client_rust.Accountability.State.{
  DeliveryAccountability, SenderProgress, data_sequence_overflow,
}
use signal_fish_client_rust.Accountability.Retire.{gaps_at, try_retire_departed}
use signal_fish_client_rust.Accountability.Report.{checked_add}
use signal_fish_client_rust.Accountability.GameData.{
  in_gap, consume_exact_gap, older_terminals, retire_older, has_older_terminal, keeps_gaps,
  enter_epoch, continue_epoch, settle_epoch, advance, accept_data,
}
use signal_fish_client_rust.Accountability.GameData.Cases.{consume_exact_gap_cases}
use signal_fish_client_rust.Accountability.GameData.Coverage.{consume_exact_gap-covers}
use signal_fish_client_rust.Accountability.Ledger.Defs.{Entry, received, accounted, IsAccounted}
use signal_fish_client_rust.Accountability.Ledger.Closed.{
  drained-IsAccounted, try_retire_departed-IsAccounted,
}

-- Every earlier number of the epoch is explained.
abbrev pub ExplainedBelow : List Entry → PlayerId → ℕ → ℕ → Type 0
ExplainedBelow ledger p epoch seq = (m : ℕ) → 0 < m → m < seq → accounted ledger p epoch m ≡ true

module _ (ledger : List Entry) where
  gaps_at-accounted :
      (p : PlayerId) (e m : ℕ) (s : DeliveryAccountability)
      → IsAccounted ledger s
      → any (in_gap m) (gaps_at (p, e) s) ≡ true
      → accounted ledger p e m ≡ true
  gaps_at-accounted p e m s h k = elim (Option-cases (get (p, e) s.pending_gaps)) [
    | inl f ↦ absurd (ground arith)
    | inr (gaps, f) ↦ h.pending p e gaps m f (ground arith)
  ]

  consume_exact_gap-IsAccounted :
      (key : PlayerId × ℕ) (expected seq : ℕ) (s : DeliveryAccountability)
      → IsAccounted ledger s
      → IsAccounted ledger (consume_exact_gap key expected seq s).1
  consume_exact_gap-IsAccounted key expected seq s h =
      consume_exact_gap_cases (IsAccounted ledger) key expected seq s h
        λ n gaps found. drained-IsAccounted ledger key n gaps s found h

  retire_older-IsAccounted :
      (p : PlayerId) (es : List ℕ) (s : DeliveryAccountability)
      → IsAccounted ledger s
      → IsAccounted ledger (retire_older p es s).1
  unfolding retire_older
  retire_older-IsAccounted p [] s h = h
  retire_older-IsAccounted p (e ∷ es) s h =
      let kept = try_retire_departed-IsAccounted ledger p e s h in
      and_then_cases (IsAccounted ledger) (try_retire_departed p e s) _ kept
        λ _ _. retire_older-IsAccounted p es _ kept

  retain-IsAccounted :
      (p : PlayerId) (epoch : ℕ) (s : DeliveryAccountability)
      → IsAccounted ledger s
      → IsAccounted ledger
          (record s { pending_gaps = retain_keys (keeps_gaps p epoch) s.pending_gaps })
  retain-IsAccounted p epoch s h = record {
    cursor = h.cursor;
    pending = λ q e gaps n g k.
        h.pending q e gaps n
          (ground (arith, get-retain_keys (keeps_gaps p epoch) (q, e) s.pending_gaps)) k;
  }

  pub enter_epoch-IsAccounted :
      (p : PlayerId) (seq epoch : ℕ) (s : DeliveryAccountability)
      → IsAccounted ledger s
      → IsAccounted ledger (enter_epoch p seq epoch s).1
  unfolding enter_epoch
  enter_epoch-IsAccounted p seq epoch s h =
      let terminals = older_terminals p epoch (keys s.departed_senders) in
      let older = retire_older p terminals s in
      let kept = retire_older-IsAccounted p terminals s h in
      let used = consume_exact_gap-IsAccounted (p, epoch) 1 seq older.1 kept in
      and_then_cases (IsAccounted ledger) older _ kept λ _ _.
        branch_cases (IsAccounted ledger) (has_older_terminal p epoch older.1) _ _ (λ _. kept)
          λ _.
            and_then_cases (IsAccounted ledger) (consume_exact_gap (p, epoch) 1 seq older.1) _ used
              λ _ _. retain-IsAccounted p epoch _ used

  -- The first data of an epoch comes after reported numbers only.
  pub enter_epoch-ExplainedBelow :
      (p : PlayerId) (seq epoch : ℕ) (s : DeliveryAccountability)
      → IsAccounted ledger s
      → OnOk (λ _ _. ExplainedBelow ledger p epoch seq) (enter_epoch p seq epoch s)
  unfolding enter_epoch
  enter_epoch-ExplainedBelow p seq epoch s h =
      let terminals = older_terminals p epoch (keys s.departed_senders) in
      let older = retire_older p terminals s in
      let kept = retire_older-IsAccounted p terminals s h in
      and_then-OnOk (λ _ _. ExplainedBelow ledger p epoch seq) older _
        λ _ _.
          branch-OnOk (λ _ _. ExplainedBelow ledger p epoch seq)
            (has_older_terminal p epoch older.1) _ _ (λ _ _ e. cc)
            λ _.
              and_then-OnOk (λ _ _. ExplainedBelow ledger p epoch seq)
                (consume_exact_gap (p, epoch) 1 seq older.1) _
                λ _ consumed _ _ m lo hi. gaps_at-accounted p epoch m older.1 kept (
                  consume_exact_gap-covers (p, epoch) 1 seq older.1 m (ground arith) (omega arith)
                    hi)

  pub continue_epoch-IsAccounted :
      (p : PlayerId) (seq epoch last : ℕ) (s : DeliveryAccountability)
      → IsAccounted ledger s
      → IsAccounted ledger (continue_epoch p seq epoch last s).1
  unfolding continue_epoch
  continue_epoch-IsAccounted p seq epoch last s h =
      branch_cases (IsAccounted ledger) (leb seq last) _ _ (λ _. h)
        λ _.
          when_ok_cases (IsAccounted ledger) (ok_or (checked_add last 1) data_sequence_overflow) s _
            h λ expected _. consume_exact_gap-IsAccounted (p, epoch) expected seq s h

  checked_add-eq : (a b c : ℕ) → ok_or (checked_add a b) data_sequence_overflow ≡ ok c → c ≡ a + b
  unfolding checked_add
  checked_add-eq a b c h = ground arith

  -- Further data comes after the cursor and reported numbers only.
  pub continue_epoch-ExplainedBelow :
      (p : PlayerId) (c : SenderProgress) (seq epoch : ℕ) (s : DeliveryAccountability)
      → IsAccounted ledger s
      → get p s.senders ≡ some c
      → epoch ≡ c.epoch
      → OnOk (λ _ _. ExplainedBelow ledger p epoch seq) (continue_epoch p seq epoch c.last_seq s)
  unfolding continue_epoch
  continue_epoch-ExplainedBelow p c seq epoch s h g current =
      let Q = λ (_ : Unit {0}) (_ : DeliveryAccountability). ExplainedBelow ledger p epoch seq in
      branch-OnOk Q (leb seq c.last_seq) _ _ (λ _ _ e. cc)
        λ _.
          when_ok-OnOk Q (ok_or (checked_add c.last_seq 1) data_sequence_overflow) s _
            λ expected sum _ consumed m lo hi. elim (Bool-cases (leb m c.last_seq)) [
              | inl old ↦
                  subst (λ e. accounted ledger p e m ≡ true) (sym current)
                    (h.cursor p c m g lo (ground arith))
              | inr new ↦ gaps_at-accounted p epoch m s h (
                  consume_exact_gap-covers (p, epoch) expected seq s m (ground arith)
                    (ground (arith, checked_add-eq c.last_seq 1 expected sum)) hi)
            ]

  advance-IsAccounted :
      (p : PlayerId) (seq epoch : ℕ) (s : DeliveryAccountability)
      → ExplainedBelow ledger p epoch seq
      → IsAccounted ledger s
      → IsAccounted (received p epoch seq ∷ ledger) (advance p seq epoch s)
  advance-IsAccounted p seq epoch s below h = record {
    cursor = λ q c n g lo hi. ground (
      arith,
      get-insert p q (record { epoch = epoch; last_seq = seq }) s.senders,
      h.cursor q c n,
      below n,
    );
    pending = λ q e gaps n g k. ground (arith, h.pending q e gaps n g k);
  }

  pub accept_data-IsAccounted :
      (p : PlayerId) (seq epoch : ℕ) (moved : Bool) (s : DeliveryAccountability)
      → ExplainedBelow ledger p epoch seq
      → IsAccounted ledger s
      → IsAccounted (received p epoch seq ∷ ledger) (accept_data p seq epoch moved s).1
  unfolding accept_data
  accept_data-IsAccounted p seq epoch true s below h =
      let moved = settle_epoch p epoch (advance p seq epoch s) in
      let now = advance-IsAccounted p seq epoch s below h in
      let kept =
        try_retire_departed-IsAccounted (received p epoch seq ∷ ledger) p epoch moved
          (record { cursor = now.cursor; pending = now.pending }) in
      and_then_cases (IsAccounted (received p epoch seq ∷ ledger))
        (try_retire_departed p epoch moved) _ kept (λ _ _. kept)
  accept_data-IsAccounted p seq epoch false s below h =
      let kept =
        try_retire_departed-IsAccounted (received p epoch seq ∷ ledger) p epoch
          (advance p seq epoch s) (advance-IsAccounted p seq epoch s below h) in
      and_then_cases (IsAccounted (received p epoch seq ∷ ledger))
        (try_retire_departed p epoch (advance p seq epoch s)) _ kept (λ _ _. kept)
