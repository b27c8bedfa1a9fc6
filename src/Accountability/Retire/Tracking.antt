-- ===== src/Accountability/Retire/Tracking.antt =====
-- src/accountability.rs: the tracking of a player that left and whose departure is not resolved.
use signal_fish_client_rust.Common.{
  ℕ, zero, suc, ◌+◌, ◌≡◌, refl, ◌≢◌, inl, inr, Bool, true, some, [], ◌==◌, leb, is_some_and, ok,
  Option-cases, arith,
}
use signal_fish_client_rust.Common.BTreeMap.{nat_key, pair_key, get, any_key-get, get-remove}
use signal_fish_client_rust.Protocol.Delivery.{PlayerId}
use signal_fish_client_rust.Accountability.State.{
  DeliveryAccountability, SenderProgress, DepartedSender,
}
use signal_fish_client_rust.Accountability.Retire.Cases.{try_retire_cases}
use signal_fish_client_rust.Accountability.Retire.{
  drop_sender, retire_departed, retire_covered, retire_from, retire_at, try_retire_departed,
  cover_tail, gaps_at,
}

-- The sender is known, and its cursor stands in the epoch or before it.
abbrev pub reaches : PlayerId → ℕ → DeliveryAccountability → Bool
reaches p epoch s = is_some_and (get p s.senders) (λ c. leb c.epoch epoch)

-- Every departure that waits names a sender whose cursor has not passed it.
abbrev pub IsTracked : DeliveryAccountability → Type 0
IsTracked s =
    (p epoch : ℕ) (t : DepartedSender)
    → get (p, epoch) s.departed_senders ≡ some t
    → reaches p epoch s ≡ true

drop_sender-IsTracked :
    (p : PlayerId) (s : DeliveryAccountability) → IsTracked s → IsTracked (drop_sender p s)
unfolding drop_sender
drop_sender-IsTracked p s h q e t d = ground (
  arith,
  get-remove p q s.senders,
  any_key-get (λ k. k.0 == p) (q, e) s.departed_senders {v = t},
  h q e t,
)

pub retire_departed-IsTracked :
    (p : PlayerId) (epoch : ℕ) (s : DeliveryAccountability)
    → IsTracked s
    → IsTracked (retire_departed p epoch s)
unfolding retire_departed
retire_departed-IsTracked p epoch s h =
    drop_sender-IsTracked p _
      λ q e t d. h q e t (ground (arith, get-remove (p, epoch) (q, e) s.departed_senders))

-- Looking at a departure again keeps all departures tracked.
pub try_retire_departed-IsTracked :
    (p : PlayerId) (epoch : ℕ) (s : DeliveryAccountability)
    → IsTracked s
    → IsTracked (try_retire_departed p epoch s).1
try_retire_departed-IsTracked p epoch s h =
    try_retire_cases IsTracked p epoch s h (retire_departed-IsTracked p epoch s h)
      λ n gaps _. retire_departed-IsTracked p epoch _ h

cover_tail-nil :
    (final next n : ℕ) (covered : Bool) → cover_tail final [] next 0 covered ≢ some (suc n)
unfolding cover_tail
cover_tail-nil final next n covered e = ground arith

retire_covered-ok :
    (p : PlayerId) (epoch final next n : ℕ) (s : DeliveryAccountability)
    → cover_tail final (gaps_at (p, epoch) s) next 0 (final == 0) ≡ some n
    → (retire_covered p epoch n s).0 ≡ ok tt
unfolding retire_covered
retire_covered-ok p epoch final next zero s e = refl
retire_covered-ok p epoch final next (suc n) s e =
    ground (arith, cover_tail-nil final next n (final == 0))

retire_from-ok :
    (p : PlayerId) (epoch final next : ℕ) (s : DeliveryAccountability)
    → (retire_from p epoch final next s).0 ≡ ok tt
unfolding retire_from
retire_from-ok p epoch final next s =
    elim (Option-cases (cover_tail final (gaps_at (p, epoch) s) next 0 (final == 0))) [
      | inl e ↦ rw (e, retire_from) refl
      | inr (n, e) ↦ rw (e, retire_from) (retire_covered-ok p epoch final next n s e)
    ]

retire_at-ok :
    (p : PlayerId) (epoch final : ℕ) (c : SenderProgress) (s : DeliveryAccountability)
    → leb c.epoch epoch ≡ true
    → (retire_at p epoch final c s).0 ≡ ok tt
unfolding retire_at
retire_at-ok p epoch final c s h =
    ground
      (arith, retire_from-ok p epoch final 1 s, retire_from-ok p epoch final (c.last_seq + 1) s)

-- While departures are tracked, looking at one again is never refused.
pub try_retire_departed-ok :
    (p : PlayerId) (epoch : ℕ) (s : DeliveryAccountability)
    → IsTracked s
    → (try_retire_departed p epoch s).0 ≡ ok tt
unfolding try_retire_departed
try_retire_departed-ok p epoch s h = elim (Option-cases (get (p, epoch) s.departed_senders)) [
  | inl e ↦ rw (e, try_retire_departed) refl
  | inr (t, e) ↦ elim (Option-cases (get p s.senders)) [
    | inl f ↦ rw (e, try_retire_departed) (rw (f, try_retire_departed) refl)
    | inr (c, f) ↦
        rw (e, try_retire_departed)
          (rw (f, try_retire_departed)
            (retire_at-ok p epoch t.final_seq c s (ground (arith, h p epoch t))))
  ]
]
