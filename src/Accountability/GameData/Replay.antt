-- ===== src/Accountability/GameData/Replay.antt =====
-- src/accountability.rs: stamps that were passed already, and stamps that a report named.
use signal_fish_client_rust.Common.{
  ℕ, ◌+◌, ◌≤◌, ◌<◌, ◌≡◌, ◌⊎◌, inl, inr, true, Option, some, List, ◌∷◌, is_err, u64_max, ok, err,
  arith,
}
use signal_fish_client_rust.Common.BTreeMap.{nat_key, pair_key, pair_eq_iff, get}
use signal_fish_client_rust.Protocol.Delivery.{PlayerId, DeliveryClass, DeliveryGap}
use signal_fish_client_rust.Accountability.State.{
  DeliveryAccountability, SenderProgress, data_duplicate,
}
use signal_fish_client_rust.Accountability.Retire.Drain.{get-drain_gaps}
use signal_fish_client_rust.Accountability.GameData.{
  in_gap, check_stamp, consume_gaps, consume_range, consume_exact_gap, continue_epoch, record_stamp,
  record_game_data, data_stamp,
}

-- The stamp does not lie ahead of the cursor.
abbrev pub IsPassed : SenderProgress → (seq epoch : ℕ) → Type 0
IsPassed c seq epoch = (epoch < c.epoch) ⊎ ((epoch ≡ c.epoch) × (seq ≤ c.last_seq))

record_stamp-passed :
    (p : PlayerId) (seq epoch : ℕ) (c : SenderProgress) (s : DeliveryAccountability)
    → epoch ≡ c.epoch
    → seq ≤ c.last_seq
    → record_stamp p seq epoch c s ≡ (err data_duplicate, s)
unfolding record_stamp continue_epoch
record_stamp-passed p seq epoch c s e le = ground arith

-- Exactly once: on a v3 connection, data whose stamp its sender's cursor has passed is refused, and
-- nothing is written.
pub record_game_data-passed :
    (p : PlayerId) (seq epoch : ℕ) (class : Option DeliveryClass) (key : Option ℕ)
    (s : DeliveryAccountability) (c : SenderProgress)
    → s.protocol_v3 ≡ true
    → get p s.senders ≡ some c
    → IsPassed c seq epoch
    → (is_err (record_game_data p (some seq) (some epoch) class key s).0 ≡ true)
      × ((record_game_data p (some seq) (some epoch) class key s).1 ≡ s)
unfolding record_game_data check_stamp data_stamp
record_game_data-passed p seq epoch class key s c v3 g (inl older) =
    ground (arith, record_stamp-passed p seq epoch c s)
record_game_data-passed p seq epoch class key s c v3 g (inr (e, le)) =
    ground (arith, record_stamp-passed p seq epoch c s e le)

consume_gaps-adjacent :
    (expected received : ℕ) (lost : DeliveryGap) (gaps : List DeliveryGap)
    → lost.from_seq ≡ expected
    → expected < received
    → lost.to_seq + 1 ≡ received
    → received ≤ u64_max
    → consume_gaps received (lost ∷ gaps) expected 0 ≡ ok (received, 1)
unfolding consume_gaps
consume_gaps-adjacent expected received lost gaps a b c d = ground arith

-- Where a reported gap runs from the expected number to right before the received one, which is
-- later and fits a u64, and the next reported gap begins with the received number, the data is
-- accepted, and the second gap goes on waiting although its first number was delivered.
pub consume_exact_gap-accepts_reported :
    (key : PlayerId × ℕ) (expected received : ℕ) (lost named : DeliveryGap)
    (gaps : List DeliveryGap) (s : DeliveryAccountability)
    → get key s.pending_gaps ≡ some (lost ∷ named ∷ gaps)
    → lost.from_seq ≡ expected
    → expected < received
    → lost.to_seq + 1 ≡ received
    → received ≤ u64_max
    → named.from_seq ≡ received
    → received ≤ named.to_seq
    → ((consume_exact_gap key expected received s).0 ≡ ok tt)
      × (get key (consume_exact_gap key expected received s).1.pending_gaps ≡ some (named ∷ gaps))
      × (in_gap received named ≡ true)
unfolding consume_exact_gap consume_range
consume_exact_gap-accepts_reported key expected received lost named gaps s g a b c d e f =
    let used = consume_gaps-adjacent expected received lost (named ∷ gaps) a b c d in
    ground (
      arith,
      used,
      get-drain_gaps key key 1 (lost ∷ named ∷ gaps) s.pending_gaps,
      pair_eq_iff key key,
    )
