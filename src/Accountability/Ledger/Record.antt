-- ===== src/Accountability/Ledger/Record.antt =====
-- src/accountability.rs: `record_game_data` against the ledger, accepted or refused.
use signal_fish_client_rust.Common.{
  ℕ, ◌≡◌, inl, inr, true, false, not, ◌||◌, Option, none, some, List, [], ◌∷◌, ◌++◌, ltb, ok, ◌>>◌,
  is_some, OnOk, OnErr, and_then-OnOk, when_ok-OnOk, branch-OnOk, when_ok-OnErr, branch-OnErr,
  Bool-cases, arith,
}
use signal_fish_client_rust.Common.BTreeMap.{nat_key}
use signal_fish_client_rust.Protocol.Delivery.{PlayerId, DeliveryClass}
use signal_fish_client_rust.Accountability.State.{
  DeliveryAccountability, SenderProgress, GameDataDisposition,
}
use signal_fish_client_rust.Accountability.Retire.Tracking.{IsTracked}
use signal_fish_client_rust.Accountability.GameData.{
  validate_class_key, data_stamp, check_stamp, enter_epoch, continue_epoch, record_stamp,
  record_game_data,
}
use signal_fish_client_rust.Accountability.GameData.Tracking.{
  check_stamp-get, check_stamp-current, record_stamp-OnErr,
}
use signal_fish_client_rust.Accountability.Ledger.Defs.{
  Entry, received, IsAccounted, IsAccounted-append,
}
use signal_fish_client_rust.Accountability.Ledger.GameData.{
  enter_epoch-IsAccounted, enter_epoch-ExplainedBelow, continue_epoch-IsAccounted,
  continue_epoch-ExplainedBelow, accept_data-IsAccounted,
}

-- Accepted data is received under its stamp, if it has one.
abbrev pub data_entries : PlayerId → (seq epoch : Option ℕ) → List Entry
data_entries p (some seq) (some epoch) = received p epoch seq ∷ []
data_entries p _ _ = []

data_stamp-entries :
    (p : PlayerId) (seq epoch : Option ℕ) (class : Option DeliveryClass) (key : Option ℕ) (n e : ℕ)
    → (validate_class_key class key >> data_stamp seq epoch) ≡ ok (n, e)
    → data_entries p seq epoch ≡ received p e n ∷ []
unfolding data_stamp validate_class_key
data_stamp-entries p (some seq) (some epoch) class key n e h = ground arith
data_stamp-entries p none none class key n e h = absurd (ground arith)
data_stamp-entries p none (some epoch) class key n e h = absurd (ground arith)
data_stamp-entries p (some seq) none class key n e h = absurd (ground arith)

module _ (ledger : List Entry) where
  record_stamp-IsAccounted :
      (p : PlayerId) (seq epoch : ℕ) (c : SenderProgress) (s : DeliveryAccountability)
      → IsAccounted ledger s
      → check_stamp p seq epoch s ≡ ok c
      → OnOk (λ _. IsAccounted (received p epoch seq ∷ ledger)) (record_stamp p seq epoch c s)
  unfolding record_stamp
  record_stamp-IsAccounted p seq epoch c s h admitted = elim (Bool-cases (ltb c.epoch epoch)) [
    | inl newer ↦
        rw (newer, record_stamp)
          (and_then-OnOk (λ _. IsAccounted (received p epoch seq ∷ ledger))
            (enter_epoch p seq epoch s) _
            λ a e _ _.
              accept_data-IsAccounted ledger p seq epoch true _
                (enter_epoch-ExplainedBelow ledger p seq epoch s h a e)
                (enter_epoch-IsAccounted ledger p seq epoch s h))
    | inr same ↦
        rw (same, record_stamp)
          (and_then-OnOk (λ _. IsAccounted (received p epoch seq ∷ ledger))
            (continue_epoch p seq epoch c.last_seq s) _
            λ a e _ _.
              accept_data-IsAccounted ledger p seq epoch false _
                (continue_epoch-ExplainedBelow ledger p c seq epoch s h
                  (check_stamp-get p seq epoch s c admitted)
                  (check_stamp-current p seq epoch s c admitted same) a e)
                (continue_epoch-IsAccounted ledger p seq epoch c.last_seq s h))
  ]

  -- Accepted data joins the ledger, and the ledger explains all that the cursor has passed.
  pub record_game_data-IsAccounted :
      (p : PlayerId) (seq epoch : Option ℕ) (class : Option DeliveryClass) (key : Option ℕ)
      (s : DeliveryAccountability)
      → IsAccounted ledger s
      → OnOk
          (λ _. IsAccounted (data_entries p seq epoch ++ ledger))
          (record_game_data p seq epoch class key s)
  unfolding record_game_data
  record_game_data-IsAccounted p seq epoch class key s h =
      let Q = λ (_ : GameDataDisposition). IsAccounted (data_entries p seq epoch ++ ledger) in
      branch-OnOk Q (not s.protocol_v3) _ _
        (λ _.
          branch-OnOk Q (is_some seq || is_some epoch || is_some class || is_some key) _ _
            (λ _ _ bad. cc) (λ _ _ _. IsAccounted-append (data_entries p seq epoch) ledger s h))
        λ _.
          when_ok-OnOk Q (validate_class_key class key >> data_stamp seq epoch) s _
            λ (n, e) stamped. when_ok-OnOk Q (check_stamp p n e s) s _ λ c admitted.
              rw (data_stamp-entries p seq epoch class key n e stamped)
                (record_stamp-IsAccounted p n e c s h admitted)

  -- Refused data leaves the account as it was.
  pub record_game_data-IsAccounted_refused :
      (p : PlayerId) (seq epoch : Option ℕ) (class : Option DeliveryClass) (key : Option ℕ)
      (s : DeliveryAccountability)
      → IsTracked s
      → IsAccounted ledger s
      → OnErr (IsAccounted ledger) (record_game_data p seq epoch class key s)
  unfolding record_game_data
  record_game_data-IsAccounted_refused p seq epoch class key s t h =
      branch-OnErr (IsAccounted ledger) (not s.protocol_v3) _ _
        (λ _.
          branch-OnErr (IsAccounted ledger)
            (is_some seq || is_some epoch || is_some class || is_some key) _ _ (λ _ _ _. h)
            (λ _ _ _. h))
        λ _.
          when_ok-OnErr (IsAccounted ledger) (validate_class_key class key >> data_stamp seq epoch)
            s _ h
            λ (n, e) _. when_ok-OnErr (IsAccounted ledger) (check_stamp p n e s) s _ h λ c admitted.
              record_stamp-OnErr (IsAccounted ledger) p n e c s (check_stamp-get p n e s c admitted)
                t (enter_epoch-IsAccounted ledger p n e s h)
                (continue_epoch-IsAccounted ledger p n e c.last_seq s h)
