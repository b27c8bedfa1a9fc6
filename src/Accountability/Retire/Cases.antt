-- ===== src/Accountability/Retire/Cases.antt =====
-- src/accountability.rs: the states that `try_retire_departed` can leave.
use signal_fish_client_rust.Common.{
  ℕ, zero, suc, ◌+◌, ◌≡◌, inl, inr, some, List, ◌==◌, leb, ltb, ◌||◌, Option-cases, Bool-cases,
}
use signal_fish_client_rust.Common.BTreeMap.{nat_key, pair_key, get}
use signal_fish_client_rust.Protocol.Delivery.{PlayerId, DeliveryGap}
use signal_fish_client_rust.Accountability.State.{DeliveryAccountability, SenderProgress}
use signal_fish_client_rust.Accountability.Retire.{
  drain_gaps, retire_departed, retire_covered, retire_from, retire_at, try_retire_departed,
  cover_tail, gaps_at,
}

abbrev drained :
    PlayerId → ℕ → ℕ → List DeliveryGap → DeliveryAccountability → DeliveryAccountability
drained p epoch n gaps s = record s { pending_gaps = drain_gaps (p, epoch) n gaps s.pending_gaps }

module _ {ℓ} (P : DeliveryAccountability → Type ℓ) (p : PlayerId) (epoch : ℕ)
    (s : DeliveryAccountability) (kept : P s) (retired : P (retire_departed p epoch s))
    (covered : (n : ℕ) (gaps : List DeliveryGap)
      → get (p, epoch) s.pending_gaps ≡ some gaps
      → P (retire_departed p epoch (drained p epoch n gaps s))) where
  retire_covered_cases : (n : ℕ) → P (retire_covered p epoch n s).1
  unfolding retire_covered
  retire_covered_cases zero = retired
  retire_covered_cases (suc n) = elim (Option-cases (get (p, epoch) s.pending_gaps)) [
    | inl e ↦ rw (e, retire_covered) kept
    | inr (gaps, e) ↦ rw (e, retire_covered) (covered (suc n) gaps e)
  ]

  retire_from_cases : (final next : ℕ) → P (retire_from p epoch final next s).1
  unfolding retire_from
  retire_from_cases final next =
      elim (Option-cases (cover_tail final (gaps_at (p, epoch) s) next 0 (final == 0))) [
        | inl e ↦ rw (e, retire_from) kept
        | inr (n, e) ↦ rw (e, retire_from) (retire_covered_cases n)
      ]

  retire_at_cases : (final : ℕ) (c : SenderProgress) → P (retire_at p epoch final c s).1
  unfolding retire_at
  retire_at_cases final c = elim (Bool-cases (final == 0 || ltb c.epoch epoch)) [
    | inl e ↦ rw e (retire_from_cases final 1)
    | inr e ↦ rw e (elim (Bool-cases (c.epoch == epoch)) [
      | inl f ↦ rw f (elim (Bool-cases (leb final c.last_seq)) [
        | inl g ↦ rw g retired
        | inr g ↦ rw g (retire_from_cases final (c.last_seq + 1))
      ])
      | inr f ↦ rw f kept
    ])
  ]

  -- What holds of the state before, of it with the departure resolved, and of it with the departure
  -- resolved by a run of gaps, holds of the state that is left.
  pub try_retire_cases : P (try_retire_departed p epoch s).1
  unfolding try_retire_departed
  try_retire_cases = elim (Option-cases (get (p, epoch) s.departed_senders)) [
    | inl e ↦ rw (e, try_retire_departed) kept
    | inr (t, e) ↦ elim (Option-cases (get p s.senders)) [
      | inl f ↦ rw (e, try_retire_departed) (rw (f, try_retire_departed) kept)
      | inr (c, f) ↦
          rw (e, try_retire_departed) (rw (f, try_retire_departed) (retire_at_cases t.final_seq c))
    ]
  ]
