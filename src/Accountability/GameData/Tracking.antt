-- ===== src/Accountability/GameData/Tracking.antt =====
-- src/accountability.rs: waiting departures and received game data.
use signal_fish_client_rust.Common.{
  ℕ, ◌≡◌, inl, inr, Bool, true, false, not, ◌&&◌, Option, some, List, [], ◌∷◌, ◌==◌, leb, ltb, ok,
  ok_or, OnOk, OnErr, not_both, and_then-OnOk, and_then-OnErr, branch-OnOk, and_then-eq_of_ok, ◌>>◌,
  ◌||◌, ◌≤◌, is_some, when_ok_cases, and_then_cases, branch_cases, Bool-cases, arith,
}
use signal_fish_client_rust.Common.BTreeMap.{nat_key, pair_key, get, get-insert, any_key-get, keys}
use signal_fish_client_rust.Protocol.Delivery.{PlayerId, DeliveryClass}
use signal_fish_client_rust.Accountability.State.{
  DeliveryAccountability, SenderProgress, DepartedSender, GameDataDisposition,
  data_sequence_overflow,
}
use signal_fish_client_rust.Accountability.Retire.{try_retire_departed}
use signal_fish_client_rust.Accountability.Retire.Tracking.{
  IsTracked, try_retire_departed-IsTracked, try_retire_departed-ok,
}
use signal_fish_client_rust.Accountability.Report.{checked_add}
use signal_fish_client_rust.Accountability.GameData.Cases.{consume_exact_gap_cases}
use signal_fish_client_rust.Accountability.GameData.{
  disposition_of, is_stale, check_stamp, consume_exact_gap, older_terminals, retire_older,
  has_older_terminal, enter_epoch, continue_epoch, settle_epoch, advance, accept_data, record_stamp,
  record_game_data, validate_class_key, data_stamp,
}

consume_exact_gap-IsTracked :
    (key : PlayerId × ℕ) (expected received : ℕ) (s : DeliveryAccountability)
    → IsTracked s
    → IsTracked (consume_exact_gap key expected received s).1
consume_exact_gap-IsTracked key expected received s h =
    consume_exact_gap_cases IsTracked key expected received s h λ n gaps _. h

retire_older-IsTracked :
    (p : PlayerId) (es : List ℕ) (s : DeliveryAccountability)
    → IsTracked s
    → IsTracked (retire_older p es s).1
unfolding retire_older
retire_older-IsTracked p [] s h = h
retire_older-IsTracked p (e ∷ es) s h =
    let kept = try_retire_departed-IsTracked p e s h in
    and_then_cases IsTracked (try_retire_departed p e s) _ kept
      λ _ _. retire_older-IsTracked p es _ kept

enter_epoch-IsTracked :
    (p : PlayerId) (seq epoch : ℕ) (s : DeliveryAccountability)
    → IsTracked s
    → IsTracked (enter_epoch p seq epoch s).1
unfolding enter_epoch
enter_epoch-IsTracked p seq epoch s h =
    let older = older_terminals p epoch (keys s.departed_senders) in
    let kept = retire_older-IsTracked p older s h in
    and_then_cases IsTracked (retire_older p older s) _ kept λ _ _.
      branch_cases IsTracked (has_older_terminal p epoch (retire_older p older s).1) _ _ (λ _. kept)
        (λ _.
          let used = consume_exact_gap-IsTracked (p, epoch) 1 seq _ kept in
          and_then_cases IsTracked (consume_exact_gap (p, epoch) 1 seq (retire_older p older s).1) _
            used (λ _ _. used))

continue_epoch-IsTracked :
    (p : PlayerId) (seq epoch last : ℕ) (s : DeliveryAccountability)
    → IsTracked s
    → IsTracked (continue_epoch p seq epoch last s).1
unfolding continue_epoch
continue_epoch-IsTracked p seq epoch last s h =
    branch_cases IsTracked (leb seq last) _ _ (λ _. h)
      λ _.
        when_ok_cases IsTracked (ok_or (checked_add last 1) data_sequence_overflow) s _ h
          λ expected _. consume_exact_gap-IsTracked (p, epoch) expected seq s h

-- No departure of the player is older than the epoch.
abbrev pub NoOlder : PlayerId → ℕ → DeliveryAccountability → Type 0
NoOlder p epoch s =
    (e : ℕ) (t : DepartedSender) → get (p, e) s.departed_senders ≡ some t → leb epoch e ≡ true

advance-IsTracked :
    (p : PlayerId) (seq epoch : ℕ) (s : DeliveryAccountability)
    → NoOlder p epoch s
    → IsTracked s
    → IsTracked (advance p seq epoch s)
advance-IsTracked p seq epoch s older h q e t d = ground (
  arith,
  h q e t d,
  older e t,
  get-insert p q (record { epoch = epoch; last_seq = seq }) s.senders,
)

-- Once data is admitted, a departure of its sender is never an obstacle.
accept_data-IsTracked :
    (p : PlayerId) (seq epoch : ℕ) (moved : Bool) (s : DeliveryAccountability)
    → NoOlder p epoch s
    → IsTracked s
    → IsTracked (accept_data p seq epoch moved s).1
unfolding accept_data
accept_data-IsTracked p seq epoch true s older h =
    let moved = settle_epoch p epoch (advance p seq epoch s) in
    let kept =
      try_retire_departed-IsTracked p epoch moved (advance-IsTracked p seq epoch s older h) in
    and_then_cases IsTracked (try_retire_departed p epoch moved) _ kept (λ _ _. kept)
accept_data-IsTracked p seq epoch false s older h =
    let moved = advance p seq epoch s in
    let kept =
      try_retire_departed-IsTracked p epoch moved (advance-IsTracked p seq epoch s older h) in
    and_then_cases IsTracked (try_retire_departed p epoch moved) _ kept (λ _ _. kept)

has_older-NoOlder :
    (p : PlayerId) (epoch : ℕ) (s : DeliveryAccountability)
    → has_older_terminal p epoch s ≡ false
    → NoOlder p epoch s
has_older-NoOlder p epoch s h e t d =
    ground (arith, any_key-get (λ k. k.0 == p && ltb k.1 epoch) (p, e) s.departed_senders {v = t})

-- A player enters a new epoch only once its older departures are resolved.
enter_epoch-NoOlder :
    (p : PlayerId) (seq epoch : ℕ) (s : DeliveryAccountability)
    → OnOk (λ _. NoOlder p epoch) (enter_epoch p seq epoch s)
unfolding enter_epoch
enter_epoch-NoOlder p seq epoch s =
    let older = retire_older p (older_terminals p epoch (keys s.departed_senders)) s in
    and_then-OnOk (λ _. NoOlder p epoch) older _
      λ _ _.
        branch-OnOk (λ _. NoOlder p epoch) (has_older_terminal p epoch older.1) _ _ (λ _ _ e. cc)
          λ none_left.
            and_then-OnOk (λ _. NoOlder p epoch) (consume_exact_gap (p, epoch) 1 seq older.1) _
              λ _ _ _ _.
                consume_exact_gap_cases (NoOlder p epoch) (p, epoch) 1 seq older.1
                  (has_older-NoOlder p epoch older.1 none_left)
                  λ n gaps _. has_older-NoOlder p epoch older.1 none_left

IsTracked-NoOlder :
    (p : PlayerId) (c : SenderProgress) (epoch : ℕ) (s : DeliveryAccountability)
    → IsTracked s
    → get p s.senders ≡ some c
    → epoch ≤ c.epoch
    → NoOlder p epoch s
IsTracked-NoOlder p c epoch s h g le e t d = ground (arith, h p e t)

continue_epoch-NoOlder :
    (p : PlayerId) (c : SenderProgress) (seq epoch last : ℕ) (s : DeliveryAccountability)
    → IsTracked s
    → get p s.senders ≡ some c
    → epoch ≤ c.epoch
    → NoOlder p epoch (continue_epoch p seq epoch last s).1
unfolding continue_epoch
continue_epoch-NoOlder p c seq epoch last s h g le =
    let kept = IsTracked-NoOlder p c epoch s h g le in
    branch_cases (NoOlder p epoch) (leb seq last) _ _ (λ _. kept)
      λ _.
        when_ok_cases (NoOlder p epoch) (ok_or (checked_add last 1) data_sequence_overflow) s _ kept
          λ expected _.
            consume_exact_gap_cases (NoOlder p epoch) (p, epoch) expected seq s kept
              λ n gaps _. kept

record_stamp-IsTracked :
    (p : PlayerId) (seq epoch : ℕ) (c : SenderProgress) (s : DeliveryAccountability)
    → get p s.senders ≡ some c
    → IsTracked s
    → IsTracked (record_stamp p seq epoch c s).1
unfolding record_stamp
record_stamp-IsTracked p seq epoch c s g h = elim (Bool-cases (ltb c.epoch epoch)) [
  | inl newer ↦
      rw (newer, record_stamp)
        (let kept = enter_epoch-IsTracked p seq epoch s h in
          and_then_cases IsTracked (enter_epoch p seq epoch s) _ kept λ a e.
            accept_data-IsTracked p seq epoch true _ (enter_epoch-NoOlder p seq epoch s a e) kept)
  | inr same ↦
      rw (same, record_stamp)
        (let kept = continue_epoch-IsTracked p seq epoch c.last_seq s h in
          and_then_cases IsTracked (continue_epoch p seq epoch c.last_seq s) _ kept λ a e.
            accept_data-IsTracked p seq epoch false _
              (continue_epoch-NoOlder p c seq epoch c.last_seq s h g (ground arith)) kept)
]

pub check_stamp-get :
    (p : PlayerId) (seq epoch : ℕ) (s : DeliveryAccountability) (c : SenderProgress)
    → check_stamp p seq epoch s ≡ ok c
    → get p s.senders ≡ some c
unfolding check_stamp
check_stamp-get p seq epoch s c h = ground arith

-- Admitted data that is not of a newer epoch is of the cursor's.
pub check_stamp-current :
    (p : PlayerId) (seq epoch : ℕ) (s : DeliveryAccountability) (c : SenderProgress)
    → check_stamp p seq epoch s ≡ ok c
    → ltb c.epoch epoch ≡ false
    → epoch ≡ c.epoch
unfolding check_stamp
check_stamp-current p seq epoch s c h same = ground arith

pub record_game_data-IsTracked :
    (p : PlayerId) (seq epoch : Option ℕ) (class : Option DeliveryClass) (key : Option ℕ)
    (s : DeliveryAccountability)
    → IsTracked s
    → IsTracked (record_game_data p seq epoch class key s).1
unfolding record_game_data
record_game_data-IsTracked p seq epoch class key s h =
    branch_cases IsTracked (not s.protocol_v3) _ _
      (λ _.
        branch_cases IsTracked (is_some seq || is_some epoch || is_some class || is_some key) _ _
          (λ _. h) (λ _. h))
      λ _.
        when_ok_cases IsTracked (validate_class_key class key >> data_stamp seq epoch) s _ h
          λ (n, e) _.
            when_ok_cases IsTracked (check_stamp p n e s) s _ h
              λ c admitted. record_stamp-IsTracked p n e c s (check_stamp-get p n e s c admitted) h

accept_data-ok :
    (p : PlayerId) (seq epoch : ℕ) (moved : Bool) (s : DeliveryAccountability)
    → NoOlder p epoch s
    → IsTracked s
    → (d : GameDataDisposition) × ((accept_data p seq epoch moved s).0 ≡ ok d)
unfolding accept_data
accept_data-ok p seq epoch true s older h =
    let moved = settle_epoch p epoch (advance p seq epoch s) in
    (
      disposition_of (is_stale p epoch moved),
      rw (
          and_then-eq_of_ok (try_retire_departed p epoch moved) _ tt
            (try_retire_departed-ok p epoch moved (advance-IsTracked p seq epoch s older h))),
    )
accept_data-ok p seq epoch false s older h =
    let moved = advance p seq epoch s in
    (
      disposition_of (is_stale p epoch moved),
      rw (
          and_then-eq_of_ok (try_retire_departed p epoch moved) _ tt
            (try_retire_departed-ok p epoch moved (advance-IsTracked p seq epoch s older h))),
    )

-- Where stamped data is refused, the sender's cursor was not moved: the refusal is one of the checks
-- before it.
pub record_stamp-OnErr {ℓ} :
    (P : DeliveryAccountability → Type ℓ) (p : PlayerId) (seq epoch : ℕ) (c : SenderProgress)
    (s : DeliveryAccountability)
    → get p s.senders ≡ some c
    → IsTracked s
    → P (enter_epoch p seq epoch s).1
    → P (continue_epoch p seq epoch c.last_seq s).1
    → OnErr P (record_stamp p seq epoch c s)
unfolding record_stamp
record_stamp-OnErr P p seq epoch c s g h entered continued = elim (Bool-cases (ltb c.epoch epoch)) [
  | inl newer ↦
      rw (newer, record_stamp)
        (and_then-OnErr P (enter_epoch p seq epoch s) _ (λ _ _. entered)
          λ a e v bad.
            let (d, fine) =
              accept_data-ok p seq epoch true _ (enter_epoch-NoOlder p seq epoch s a e)
                (enter_epoch-IsTracked p seq epoch s h) in
            absurd (not_both d v fine bad))
  | inr same ↦
      rw (same, record_stamp)
        (and_then-OnErr P (continue_epoch p seq epoch c.last_seq s) _ (λ _ _. continued)
          λ a e v bad.
            let (d, fine) =
              accept_data-ok p seq epoch false _
                (continue_epoch-NoOlder p c seq epoch c.last_seq s h g (ground arith))
                (continue_epoch-IsTracked p seq epoch c.last_seq s h) in
            absurd (not_both d v fine bad))
]
