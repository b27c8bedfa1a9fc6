-- ===== src/Accountability/Ledger/Closed.antt =====
-- src/accountability.rs: resolved departures and used gaps against the ledger.
use signal_fish_client_rust.Common.{ℕ, ◌≡◌, some, List, any-drop, arith}
use signal_fish_client_rust.Common.BTreeMap.{nat_key, pair_key, get, get-remove, pair_eq_iff}
use signal_fish_client_rust.Protocol.Delivery.{PlayerId, DeliveryGap}
use signal_fish_client_rust.Accountability.State.{DeliveryAccountability}
use signal_fish_client_rust.Accountability.Retire.{
  drain_gaps, drop_sender, retire_departed, try_retire_departed,
}
use signal_fish_client_rust.Accountability.Retire.Drain.{get-drain_gaps}
use signal_fish_client_rust.Accountability.Retire.Cases.{try_retire_cases}
use signal_fish_client_rust.Accountability.GameData.{in_gap}
use signal_fish_client_rust.Accountability.Ledger.Defs.{Entry, IsAccounted}

module _ (ledger : List Entry) where
  drop_sender-IsAccounted :
      (p : PlayerId) (s : DeliveryAccountability)
      → IsAccounted ledger s
      → IsAccounted ledger (drop_sender p s)
  unfolding drop_sender
  drop_sender-IsAccounted p s h = record {
    cursor = λ q c n g lo hi. h.cursor q c n (ground (arith, get-remove p q s.senders)) lo hi;
    pending = λ q e gaps n g k. h.pending q e gaps n (ground arith) k;
  }

  pub retire_departed-IsAccounted :
      (p : PlayerId) (epoch : ℕ) (s : DeliveryAccountability)
      → IsAccounted ledger s
      → IsAccounted ledger (retire_departed p epoch s)
  unfolding retire_departed
  retire_departed-IsAccounted p epoch s h = drop_sender-IsAccounted p _ (record {
    cursor = h.cursor;
    pending = λ q e gaps n g k.
        h.pending q e gaps n (ground (arith, get-remove (p, epoch) (q, e) s.pending_gaps)) k;
  })

  pub drained-IsAccounted :
      (key : PlayerId × ℕ) (used : ℕ) (gaps : List DeliveryGap) (s : DeliveryAccountability)
      → get key s.pending_gaps ≡ some gaps
      → IsAccounted ledger s
      → IsAccounted ledger (record s { pending_gaps = drain_gaps key used gaps s.pending_gaps })
  drained-IsAccounted key used gaps s found h = record {
    cursor = h.cursor;
    pending = λ q e rest n g k. ground (
      arith,
      get-drain_gaps key (q, e) used gaps s.pending_gaps,
      pair_eq_iff key (q, e),
      any-drop (in_gap n) used gaps,
      h.pending q e gaps n,
      h.pending q e rest n,
    );
  }

  pub try_retire_departed-IsAccounted :
      (p : PlayerId) (epoch : ℕ) (s : DeliveryAccountability)
      → IsAccounted ledger s
      → IsAccounted ledger (try_retire_departed p epoch s).1
  try_retire_departed-IsAccounted p epoch s h =
      try_retire_cases (IsAccounted ledger) p epoch s h (retire_departed-IsAccounted p epoch s h)
        λ n gaps found.
          retire_departed-IsAccounted p epoch _ (drained-IsAccounted (p, epoch) n gaps s found h)
