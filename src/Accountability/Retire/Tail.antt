-- ===== src/Accountability/Retire/Tail.antt =====
-- src/accountability.rs: what a resolved departure has had explained.
use signal_fish_client_rust.Common.{
  ℕ, suc, ◌+◌, ◌≤◌, ◌<◌, ◌≡◌, inl, inr, Bool, true, none, some, List, [], ◌∷◌, ◌==◌, any, leb, ◌||◌,
  ◌&&◌, Option-cases, arith,
}
use signal_fish_client_rust.Common.BTreeMap.{nat_key, pair_key, get}
use signal_fish_client_rust.Protocol.Delivery.{PlayerId, DeliveryGap}
use signal_fish_client_rust.Accountability.State.{
  DeliveryAccountability, SenderProgress, DepartedSender,
}
use signal_fish_client_rust.Accountability.Retire.{
  gaps_at, cover_tail, retire_from, retire_at, try_retire_departed,
}

abbrev pub holds : ℕ → DeliveryGap → Bool
holds n gap = leb gap.from_seq n && leb n gap.to_seq

-- A tail that is covered up to `final` is held by the gaps, number for number.
cover_tail-covers :
    (final : ℕ) (gaps : List DeliveryGap) (next used : ℕ) (covered : Bool) (k n : ℕ)
    → cover_tail final gaps next used covered ≡ some k
    → next ≤ n
    → n ≤ final
    → any (holds n) gaps ≡ true
unfolding cover_tail
cover_tail-covers final [] next used covered k n e lo hi = absurd (ground arith)
cover_tail-covers final (gap ∷ gaps) next used covered k n e lo hi =
    ground (arith, cover_tail-covers final gaps (gap.to_seq + 1) (suc used) covered k n)

-- The number was passed by the cursor in this epoch, or is held by a reported gap.
abbrev pub resolved : SenderProgress → PlayerId → ℕ → ℕ → DeliveryAccountability → Bool
resolved c p epoch n s =
    (c.epoch == epoch && leb n c.last_seq) || any (holds n) (gaps_at (p, epoch) s)

retire_from-resolved :
    (p : PlayerId) (epoch final next n : ℕ) (s : DeliveryAccountability) (t : DepartedSender)
    → get (p, epoch) s.departed_senders ≡ some t
    → get (p, epoch) (retire_from p epoch final next s).1.departed_senders ≡ none
    → next ≤ n
    → n ≤ final
    → any (holds n) (gaps_at (p, epoch) s) ≡ true
unfolding retire_from
retire_from-resolved p epoch final next n s t was gone lo hi =
    elim (Option-cases (cover_tail final (gaps_at (p, epoch) s) next 0 (final == 0))) [
      | inl e ↦ absurd (ground arith)
      | inr (k, e) ↦ cover_tail-covers final (gaps_at (p, epoch) s) next 0 (final == 0) k n e lo hi
    ]

retire_at-resolved :
    (p : PlayerId) (epoch final n : ℕ) (c : SenderProgress) (s : DeliveryAccountability)
    (t : DepartedSender)
    → get (p, epoch) s.departed_senders ≡ some t
    → get (p, epoch) (retire_at p epoch final c s).1.departed_senders ≡ none
    → 0 < n
    → n ≤ final
    → resolved c p epoch n s ≡ true
unfolding retire_at
retire_at-resolved p epoch final n c s t was gone lo hi = ground (
  arith,
  retire_from-resolved p epoch final 1 n s t,
  retire_from-resolved p epoch final (c.last_seq + 1) n s t,
)

-- A departure is resolved only when each number up to its final sequence was passed by the cursor or
-- is held by a reported gap.
pub try_retire_departed-resolved :
    (p : PlayerId) (epoch n : ℕ) (c : SenderProgress) (t : DepartedSender)
    (s : DeliveryAccountability)
    → get p s.senders ≡ some c
    → get (p, epoch) s.departed_senders ≡ some t
    → get (p, epoch) (try_retire_departed p epoch s).1.departed_senders ≡ none
    → 0 < n
    → n ≤ t.final_seq
    → resolved c p epoch n s ≡ true
unfolding try_retire_departed
try_retire_departed-resolved p epoch n c t s g was gone lo hi =
    retire_at-resolved p epoch t.final_seq n c s t was (ground arith) lo hi
