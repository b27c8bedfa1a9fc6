-- ===== src/Accountability/GameData/Coverage.antt =====
-- src/accountability.rs: what `consume_exact_gap` promises.
use signal_fish_client_rust.Common.{
  ℕ, suc, ◌+◌, ◌≤◌, ◌<◌, ◌≡◌, inl, inr, true, List, [], ◌∷◌, any, ok, Option-cases, Result-cases,
  arith,
}
use signal_fish_client_rust.Common.BTreeMap.{pair_key, get}
use signal_fish_client_rust.Protocol.Delivery.{PlayerId, DeliveryGap}
use signal_fish_client_rust.Accountability.State.{DeliveryAccountability}
use signal_fish_client_rust.Accountability.Retire.{gaps_at}
use signal_fish_client_rust.Accountability.GameData.{
  in_gap, consume_gaps, consume_range, consume_exact_gap,
}

-- Gaps that lead from `next` to `received` hold every sequence between.
consume_gaps-covers :
    (received : ℕ) (gaps : List DeliveryGap) (next consumed used m : ℕ)
    → consume_gaps received gaps next consumed ≡ ok (received, used)
    → next ≤ m
    → m < received
    → any (in_gap m) gaps ≡ true
unfolding consume_gaps
consume_gaps-covers received [] next consumed used m e lo hi = absurd (ground arith)
consume_gaps-covers received (gap ∷ gaps) next consumed used m e lo hi =
    ground (arith, consume_gaps-covers received gaps (gap.to_seq + 1) (suc consumed) used m)

consume_range-covers :
    (key : PlayerId × ℕ) (expected received : ℕ) (gaps : List DeliveryGap)
    (s : DeliveryAccountability) (m : ℕ)
    → (consume_range key expected received gaps s).0 ≡ ok tt
    → expected ≤ m
    → m < received
    → any (in_gap m) gaps ≡ true
unfolding consume_range
consume_range-covers key expected received gaps s m e lo hi =
    elim (Result-cases (consume_gaps received gaps expected 0)) [
      | inl ((next, used), f) ↦ ground (arith, consume_gaps-covers received gaps expected 0 used m)
      | inr (v, f) ↦ absurd (ground arith)
    ]

-- Data is taken past the expected sequence only where the pending gaps hold all that was skipped.
pub consume_exact_gap-covers :
    (key : PlayerId × ℕ) (expected received : ℕ) (s : DeliveryAccountability) (m : ℕ)
    → (consume_exact_gap key expected received s).0 ≡ ok tt
    → expected ≤ m
    → m < received
    → any (in_gap m) (gaps_at key s) ≡ true
unfolding consume_exact_gap
consume_exact_gap-covers key expected received s m e lo hi =
    elim (Option-cases (get key s.pending_gaps)) [
      | inl f ↦ absurd (ground arith)
      | inr (gaps, f) ↦ ground (arith, consume_range-covers key expected received gaps s m)
    ]
