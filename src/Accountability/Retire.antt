-- ===== src/Accountability/Retire.antt =====
-- src/accountability.rs: `retire_departed` and `try_retire_departed`. A player that left is forgotten
-- when everything up to its final sequence was delivered or reported lost.
pub mod Cases
pub mod Drain
pub mod Tail
pub mod Tracking
use signal_fish_client_rust.Common.{
  ℕ, zero, suc, ◌+◌, Bool, not, ◌&&◌, ◌||◌, Option, none, some, List, [], ◌∷◌, ◌==◌, ltb, leb,
  if◌then◌else◌, is_empty, unwrap_or, drop, ok, err,
}
use signal_fish_client_rust.Common.BTreeMap.{
  BTreeMap, BTreeSet, nat_key, pair_key, get, insert, remove, any_key, contains_key,
}
use signal_fish_client_rust.Protocol.Delivery.{PlayerId, DeliveryGap}
use signal_fish_client_rust.Accountability.State.{
  DeliveryAccountability, SenderProgress, Step, unresolved_departure, gap_state_disappeared,
}

-- `announced.remove(&epoch)`, and the entry goes when it was the last.
unfoldable pub forget_announced :
    PlayerId → ℕ → BTreeMap PlayerId (BTreeSet ℕ) → BTreeMap PlayerId (BTreeSet ℕ)
forget_announced p epoch announced = elim (get p announced) [
  | none ↦ announced
  | some epochs ↦
      if is_empty (remove epoch epochs)
      then remove p announced
      else insert p (remove epoch epochs) announced
]

-- The last step of `retire_departed`: a sender with nothing left to come is dropped.
unfoldable pub drop_sender : PlayerId → DeliveryAccountability → DeliveryAccountability
drop_sender p s =
    if not (any_key (λ k. k.0 == p) s.departed_senders) && not (contains_key p s.announced_epochs)
    then record s { senders = remove p s.senders; stale_senders = remove p s.stale_senders }
    else s

unfoldable pub retire_departed : PlayerId → ℕ → DeliveryAccountability → DeliveryAccountability
unfolding forget_announced drop_sender
retire_departed p epoch s = drop_sender p (record s {
  departed_senders = remove (p, epoch) s.departed_senders;
  pending_gaps = remove (p, epoch) s.pending_gaps;
  announced_epochs = forget_announced p epoch s.announced_epochs;
})

-- The gaps reported for a sender's epoch, none if there is no entry.
abbrev pub gaps_at : PlayerId × ℕ → DeliveryAccountability → List DeliveryGap
gaps_at key s = unwrap_or (get key s.pending_gaps) []

-- The `while next <= final_seq` loop, over the gaps that are left: the number consumed when they
-- reach `final`. Each round consumes a gap, and `gap.to_seq + 1` stays at most `final`.
unfoldable pub cover_tail : (final : ℕ) → List DeliveryGap → (next consumed : ℕ) → Bool → Option ℕ
cover_tail final [] next consumed covered =
    if leb next final then none else if covered then some consumed else none
cover_tail final (gap ∷ gaps) next consumed covered =
    let rest = cover_tail final gaps (gap.to_seq + 1) (suc consumed) covered in
    if leb next final
    then (if not (gap.from_seq == next) || ltb final gap.to_seq
        then none
        else if gap.to_seq == final
        then some (suc consumed)
        else rest)
    else if covered
    then some consumed
    else none

-- `gaps.drain(..consumed)`, and the entry goes when nothing is left of it.
unfoldable pub drain_gaps :
    PlayerId × ℕ
    → ℕ
    → List DeliveryGap
    → BTreeMap (PlayerId × ℕ) (List DeliveryGap)
    → BTreeMap (PlayerId × ℕ) (List DeliveryGap)
drain_gaps key consumed gaps pending =
    if is_empty (drop consumed gaps)
    then remove key pending
    else insert key (drop consumed gaps) pending

unfoldable pub retire_covered : PlayerId → ℕ → ℕ → DeliveryAccountability → Step (Unit {0})
unfolding drain_gaps retire_departed
retire_covered p epoch zero s = (ok tt, retire_departed p epoch s)
retire_covered p epoch (suc n) s = elim (get (p, epoch) s.pending_gaps) [
  | none ↦ (err gap_state_disappeared, s)
  | some gaps ↦ (
    ok tt,
    retire_departed p epoch
        (record s { pending_gaps = drain_gaps (p, epoch) (suc n) gaps s.pending_gaps }),
  )
]

-- From `next` on, the tail must be covered by the reported gaps.
unfoldable pub retire_from : PlayerId → ℕ → ℕ → ℕ → DeliveryAccountability → Step (Unit {0})
unfolding cover_tail retire_covered
retire_from p epoch final next s =
    elim (cover_tail final (gaps_at (p, epoch) s) next 0 (final == 0)) [
      | none ↦ (ok tt, s)
      | some consumed ↦ retire_covered p epoch consumed s
    ]

unfoldable pub retire_at :
    PlayerId → ℕ → ℕ → SenderProgress → DeliveryAccountability → Step (Unit {0})
unfolding retire_from retire_departed
retire_at p epoch final progress s =
    if final == 0 || ltb progress.epoch epoch
    then retire_from p epoch final 1 s
    else if progress.epoch == epoch
    then (if leb final progress.last_seq
        then (ok tt, retire_departed p epoch s)
        else retire_from p epoch final (progress.last_seq + 1) s)
    else (err unresolved_departure, s)

unfoldable pub try_retire_departed : PlayerId → ℕ → DeliveryAccountability → Step (Unit {0})
unfolding retire_at
try_retire_departed p epoch s = elim (get (p, epoch) s.departed_senders) [
  | none ↦ (ok tt, s)
  | some terminal ↦ elim (get p s.senders) [
    | none ↦ (ok tt, s)
    | some progress ↦ retire_at p epoch terminal.final_seq progress s
  ]
]
