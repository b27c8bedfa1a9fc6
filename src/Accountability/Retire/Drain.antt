-- ===== src/Accountability/Retire/Drain.antt =====
-- src/accountability.rs: what is left of the pending gaps after some were used.
use signal_fish_client_rust.Common.{ℕ, ◌≡◌, none, some, List, is_empty, drop, if◌then◌else◌, arith}
use signal_fish_client_rust.Common.BTreeMap.{
  BTreeMap, pair_key, pair_eq, get, get-insert, get-remove, pair_eq_iff,
}
use signal_fish_client_rust.Protocol.Delivery.{DeliveryGap}
use signal_fish_client_rust.Accountability.Retire.{drain_gaps}

-- The entry keeps what stands behind the gaps that were used, and goes when nothing does.
pub get-drain_gaps :
    (key k : ℕ × ℕ) (n : ℕ) (gaps : List DeliveryGap)
    (pending : BTreeMap (ℕ × ℕ) (List DeliveryGap))
    → get k (drain_gaps key n gaps pending) ≡ (
        if pair_eq key k
        then (if is_empty (drop n gaps) then none else some (drop n gaps))
        else get k pending)
unfolding drain_gaps
get-drain_gaps key k n gaps pending = ground (
  arith,
  get-insert key k (drop n gaps) pending,
  get-remove key k pending,
  pair_eq_iff key k,
  pair_eq_iff k key,
)
