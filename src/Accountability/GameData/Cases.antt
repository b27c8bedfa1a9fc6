-- ===== src/Accountability/GameData/Cases.antt =====
-- src/accountability.rs: the states that `consume_exact_gap` can leave.
use signal_fish_client_rust.Common.{
  ℕ, ◌≡◌, inl, inr, some, List, ◌==◌, branch_cases, Option-cases, when_ok_cases,
}
use signal_fish_client_rust.Common.BTreeMap.{pair_key, get}
use signal_fish_client_rust.Protocol.Delivery.{PlayerId, DeliveryGap}
use signal_fish_client_rust.Accountability.State.{DeliveryAccountability}
use signal_fish_client_rust.Accountability.Retire.{drain_gaps}
use signal_fish_client_rust.Accountability.GameData.{consume_range, consume_exact_gap}

module _ {ℓ} (P : DeliveryAccountability → Type ℓ) (key : PlayerId × ℕ) (expected received : ℕ)
    (s : DeliveryAccountability) (kept : P s)
    (drained : (n : ℕ) (gaps : List DeliveryGap)
      → get key s.pending_gaps ≡ some gaps
      → P (record s { pending_gaps = drain_gaps key n gaps s.pending_gaps })) where
  -- Consuming gaps leaves the state, or takes a run of the sender's gaps out of it.
  pub consume_exact_gap_cases : P (consume_exact_gap key expected received s).1
  unfolding consume_exact_gap consume_range
  consume_exact_gap_cases = elim (Option-cases (get key s.pending_gaps)) [
    | inl e ↦ rw (e, consume_exact_gap) kept
    | inr (gaps, e) ↦
        rw (e, consume_exact_gap)
          (branch_cases P (received == expected) _ _ (λ _. kept)
            λ _. when_ok_cases P _ s _ kept λ n _. drained n gaps e)
  ]
