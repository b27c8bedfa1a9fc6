-- ===== src/Accountability/GameData.antt =====
-- src/accountability.rs: `record_game_data` and the consumption of exact gaps.
pub mod Cases
pub mod Coverage
pub mod Replay
pub mod Tracking
use signal_fish_client_rust.Common.{
  ℕ, suc, ◌+◌, Bool, true, false, not, ◌&&◌, ◌||◌, Option, none, some, List, [], ◌∷◌, ◌==◌, ltb,
  leb, if◌then◌else◌, is_some, is_some_and, is_empty, any, Result, ok, err, ◌>>=◌, ◌>>◌, reject_if,
  ok_or, when_ok, and_then,
}
use signal_fish_client_rust.Common.BTreeMap.{
  BTreeMap, BTreeSet, nat_key, pair_key, get, insert, remove, any_key, keys, contains_key,
  retain_keys,
}
use signal_fish_client_rust.Protocol.Delivery.{PlayerId, DeliveryClass, DeliveryGap}
use signal_fish_client_rust.Accountability.State.{
  DeliveryAccountability, SenderProgress, GameDataDisposition, apply, stale, Violation, Step,
  class_key_invalid, v2_game_data, data_stamp_omitted, data_stamp_unpaired, data_stamp_zero,
  data_before_baseline, data_epoch_backward, data_unannounced_epoch, data_beyond_terminal,
  data_before_older_tails, data_duplicate, data_sequence_overflow, gap_unexplained,
  gap_includes_delivered, gap_range_overflow, gap_not_covered,
}
use signal_fish_client_rust.Accountability.Retire.{drain_gaps, try_retire_departed}
use signal_fish_client_rust.Accountability.Lifecycle.{is_announced}
use signal_fish_client_rust.Accountability.Report.{checked_add}

unfoldable pub validate_class_key : Option DeliveryClass → Option ℕ → Result (Unit {0}) Violation
validate_class_key none none = ok tt
validate_class_key (some DeliveryClass.reliable) none = ok tt
validate_class_key (some DeliveryClass.volatile) none = ok tt
validate_class_key (some DeliveryClass.latest) (some key) = ok tt
validate_class_key _ _ = err class_key_invalid

unfoldable pub data_stamp : Option ℕ → Option ℕ → Result (ℕ × ℕ) Violation
data_stamp none none = err data_stamp_omitted
data_stamp (some seq) (some epoch) = do
  reject_if (seq == 0 || epoch == 0) data_stamp_zero
  ok (seq, epoch)
data_stamp _ _ = err data_stamp_unpaired

-- The checks of a stamp against the cursor, the announcements and the terminal of its sender.
unfoldable pub check_stamp :
    PlayerId → (seq epoch : ℕ) → DeliveryAccountability → Result SenderProgress Violation
check_stamp p seq epoch s = do
  progress ← ok_or (get p s.senders) data_before_baseline
  reject_if (ltb epoch progress.epoch) data_epoch_backward
  reject_if (ltb progress.epoch epoch && not (is_announced p epoch s)) data_unannounced_epoch
  reject_if (is_some_and (get (p, epoch) s.departed_senders) (λ t. ltb t.final_seq seq))
      data_beyond_terminal
  ok progress

abbrev pub in_gap : ℕ → DeliveryGap → Bool
in_gap n gap = leb gap.from_seq n && leb n gap.to_seq

-- The loop over the pending gaps: the sequence that they lead to from `next`, and how many were used.
unfoldable pub consume_gaps :
    (received : ℕ) → List DeliveryGap → (next consumed : ℕ) → Result (ℕ × ℕ) Violation
unfolding checked_add
consume_gaps received [] next consumed = ok (next, consumed)
consume_gaps received (gap ∷ gaps) next consumed =
    let rest = consume_gaps received gaps (gap.to_seq + 1) (suc consumed) in
    if not (gap.from_seq == next) || leb received gap.to_seq then ok (next, consumed) else do
      next' ← ok_or (checked_add gap.to_seq 1) gap_range_overflow
      if next' == received then ok (next', suc consumed) else rest

unfoldable pub consume_range :
    PlayerId × ℕ
    → (expected received : ℕ) → List DeliveryGap
    → DeliveryAccountability
    → Step (Unit {0})
unfolding consume_gaps drain_gaps
consume_range key expected received gaps s =
    when_ok
      (do
        (next, consumed) ← consume_gaps received gaps expected 0
        reject_if (not (next == received)) gap_not_covered
        ok consumed)
      s λ consumed. (ok tt, record s { pending_gaps = drain_gaps key consumed gaps s.pending_gaps })

unfoldable pub consume_exact_gap :
    PlayerId × ℕ → (expected received : ℕ) → DeliveryAccountability → Step (Unit {0})
unfolding consume_range
consume_exact_gap key expected received s = elim (get key s.pending_gaps) [
  | none ↦ (if received == expected then ok tt else err gap_unexplained, s)
  | some gaps ↦
      if received == expected
      then (reject_if (any (in_gap received) gaps) gap_includes_delivered, s)
      else consume_range key expected received gaps s
]

-- The terminals of a sender that are older than the epoch of its data.
unfoldable pub older_terminals : PlayerId → ℕ → List (PlayerId × ℕ) → List ℕ
older_terminals p epoch [] = []
older_terminals p epoch (k ∷ ks) =
    let rest = older_terminals p epoch ks in if k.0 == p && ltb k.1 epoch then k.1 ∷ rest else rest

unfoldable pub retire_older : PlayerId → List ℕ → DeliveryAccountability → Step (Unit {0})
retire_older p [] s = (ok tt, s)
retire_older p (e ∷ es) s = and_then (try_retire_departed p e s) (λ _. retire_older p es)

abbrev pub has_older_terminal : PlayerId → ℕ → DeliveryAccountability → Bool
has_older_terminal p epoch s = any_key (λ k. k.0 == p && ltb k.1 epoch) s.departed_senders

abbrev pub keeps_gaps : PlayerId → ℕ → PlayerId × ℕ → Bool
keeps_gaps p epoch k = not (k.0 == p) || leb epoch k.1

-- The first data of a newer epoch: its sequence numbers begin at 1.
unfoldable pub enter_epoch : PlayerId → (seq epoch : ℕ) → DeliveryAccountability → Step (Unit {0})
unfolding older_terminals retire_older consume_exact_gap
enter_epoch p seq epoch s =
    and_then (retire_older p (older_terminals p epoch (keys s.departed_senders)) s) λ _ s.
      if has_older_terminal p epoch s
      then (err data_before_older_tails, s)
      else and_then (consume_exact_gap (p, epoch) 1 seq s) λ _ s.
        (ok tt, record s { pending_gaps = retain_keys (keeps_gaps p epoch) s.pending_gaps })

-- Further data of the same epoch.
unfoldable pub continue_epoch :
    PlayerId → (seq epoch last_seq : ℕ) → DeliveryAccountability → Step (Unit {0})
unfolding checked_add consume_exact_gap
continue_epoch p seq epoch last_seq s =
    if leb seq last_seq
    then (err data_duplicate, s)
    else when_ok (ok_or (checked_add last_seq 1) data_sequence_overflow) s
        λ expected. consume_exact_gap (p, epoch) expected seq s

abbrev pub later_epochs : ℕ → BTreeSet ℕ → BTreeSet ℕ
later_epochs epoch = retain_keys (λ announced. ltb epoch announced)

-- What an epoch change clears: announcements up to it, and the sender's mark as stale.
unfoldable pub prune_announced :
    PlayerId → ℕ → BTreeMap PlayerId (BTreeSet ℕ) → BTreeMap PlayerId (BTreeSet ℕ)
prune_announced p epoch announced = elim (get p announced) [
  | none ↦ announced
  | some epochs ↦ insert p (later_epochs epoch epochs) announced
]

abbrev pub no_newer_announcement : PlayerId → ℕ → DeliveryAccountability → Bool
no_newer_announcement p epoch s = elim (get p s.announced_epochs) [
  | none ↦ true
  | some epochs ↦ is_empty (later_epochs epoch epochs)
]

unfoldable pub settle_epoch : PlayerId → ℕ → DeliveryAccountability → DeliveryAccountability
unfolding prune_announced
settle_epoch p epoch s = record s {
  announced_epochs = prune_announced p epoch s.announced_epochs;
  stale_senders =
      if no_newer_announcement p epoch s && not (contains_key (p, epoch) s.departed_senders)
      then remove p s.stale_senders
      else s.stale_senders;
}

-- The data belongs to an incarnation that has left or been replaced.
abbrev pub is_stale : PlayerId → ℕ → DeliveryAccountability → Bool
is_stale p epoch s =
    contains_key (p, epoch) s.departed_senders
    || is_some_and (get p s.announced_epochs) (any_key (λ announced. ltb epoch announced))

abbrev pub disposition_of : Bool → GameDataDisposition
disposition_of true = stale
disposition_of false = apply

abbrev pub advance : PlayerId → (seq epoch : ℕ) → DeliveryAccountability → DeliveryAccountability
advance p seq epoch s = record s {
  senders = insert p (record { epoch = epoch; last_seq = seq }) s.senders;
}

-- From `self.senders.insert` to the end.
unfoldable pub accept_data :
    PlayerId → (seq epoch : ℕ) → Bool → DeliveryAccountability → Step GameDataDisposition
unfolding settle_epoch
accept_data p seq epoch transitioned s =
    let settled =
      if transitioned
      then settle_epoch p epoch (advance p seq epoch s)
      else advance p seq epoch s in
    and_then (try_retire_departed p epoch settled)
      λ _ s'. (ok (disposition_of (is_stale p epoch settled)), s')

unfoldable pub record_stamp :
    PlayerId → (seq epoch : ℕ) → SenderProgress → DeliveryAccountability → Step GameDataDisposition
unfolding enter_epoch continue_epoch accept_data
record_stamp p seq epoch progress s =
    and_then
      (if ltb progress.epoch epoch
        then enter_epoch p seq epoch s
        else continue_epoch p seq epoch progress.last_seq s)
      λ _. accept_data p seq epoch (ltb progress.epoch epoch)

unfoldable pub record_game_data :
    PlayerId
    → (seq epoch : Option ℕ) → Option DeliveryClass
    → (key : Option ℕ) → DeliveryAccountability
    → Step GameDataDisposition
unfolding validate_class_key data_stamp check_stamp record_stamp
record_game_data p seq epoch class key s =
    if not s.protocol_v3
    then (if is_some seq || is_some epoch || is_some class || is_some key
        then (err v2_game_data, s)
        else (ok apply, s))
    else when_ok (validate_class_key class key >> data_stamp seq epoch) s
        λ (n, e). when_ok (check_stamp p n e s) s λ progress. record_stamp p n e progress s
