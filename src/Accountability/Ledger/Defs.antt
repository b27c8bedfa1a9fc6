-- ===== src/Accountability/Ledger/Defs.antt =====
-- The ledger of a room, and what it says of a validator's state.
use signal_fish_client_rust.Common.{
  ℕ, ◌≤◌, ◌<◌, ◌≡◌, Bool, true, ◌&&◌, some, List, ◌++◌, ◌==◌, leb, any, any-append, arith,
}
use signal_fish_client_rust.Common.BTreeMap.{nat_key, pair_key, get}
use signal_fish_client_rust.Protocol.Delivery.{PlayerId, DeliveryGap}
use signal_fish_client_rust.Accountability.State.{DeliveryAccountability, SenderProgress}
use signal_fish_client_rust.Accountability.GameData.{in_gap}

-- A sequence number lies in a sender's baseline, was received, or was reported lost.
pub data Entry : Type 0 where
  baseline : (p : PlayerId) (epoch seq : ℕ) → Entry
  received : (p : PlayerId) (epoch seq : ℕ) → Entry
  reported : DeliveryGap → Entry

abbrev pub explains : PlayerId → ℕ → ℕ → Entry → Bool
explains p e n (baseline q f seq) = q == p && f == e && leb n seq
explains p e n (received q f seq) = q == p && f == e && n == seq
explains p e n (reported gap) = gap.from_player == p && gap.epoch == e && in_gap n gap

abbrev pub accounted : List Entry → PlayerId → ℕ → ℕ → Bool
accounted ledger p e n = any (explains p e n) ledger

-- The cursor of a sender stands behind explained numbers only.
abbrev pub CursorExplained : List Entry → DeliveryAccountability → Type 0
CursorExplained ledger s =
    (p : PlayerId) (c : SenderProgress) (n : ℕ)
    → get p s.senders ≡ some c
    → 0 < n
    → n ≤ c.last_seq
    → accounted ledger p c.epoch n ≡ true

-- The gaps that wait were reported.
abbrev pub PendingExplained : List Entry → DeliveryAccountability → Type 0
PendingExplained ledger s =
    (p : PlayerId) (e : ℕ) (gaps : List DeliveryGap) (n : ℕ)
    → get (p, e) s.pending_gaps ≡ some gaps
    → any (in_gap n) gaps ≡ true
    → accounted ledger p e n ≡ true

pub record IsAccounted (ledger : List Entry) (s : DeliveryAccountability) : Type 0 where
  pub cursor : CursorExplained ledger s
  pub pending : PendingExplained ledger s

pub accounted-append :
    (xs ys : List Entry) (p : PlayerId) (e n : ℕ)
    → accounted ys p e n ≡ true
    → accounted (xs ++ ys) p e n ≡ true
accounted-append xs ys p e n h = ground (arith, any-append (explains p e n) xs ys)

-- More entries explain no less.
pub IsAccounted-append :
    (xs ys : List Entry) (s : DeliveryAccountability) → IsAccounted ys s → IsAccounted (xs ++ ys) s
IsAccounted-append xs ys s h = record {
  cursor = λ p c n g lo hi. accounted-append xs ys p c.epoch n (h.cursor p c n g lo hi);
  pending = λ p e gaps n g k. accounted-append xs ys p e n (h.pending p e gaps n g k);
}
