-- ===== src/Accountability/Ledger/Run.antt =====
-- src/accountability.rs: the validator against the ledger over a whole connection.
use signal_fish_client_rust.Common.{
  ℕ, ◌≤◌, ◌<◌, ◌≡◌, Bool, true, false, not, some, List, [], ◌∷◌, ok, err, inl, inr, Bool-cases,
  subst, sym, if◌then◌else◌, and_then, and_then_cases, branch_cases, arith,
}
use signal_fish_client_rust.Common.BTreeMap.{nat_key, pair_key, get}
use signal_fish_client_rust.Protocol.Delivery.{PlayerId, json}
use signal_fish_client_rust.Protocol.Messages.{ServerMessage}
use signal_fish_client_rust.Accountability.State.{
  DeliveryAccountability, SenderProgress, GameDataDisposition, Step, new, representation_mismatch,
}
use signal_fish_client_rust.Accountability.Stream.{observe_server_message}
use signal_fish_client_rust.Accountability.Retire.Tracking.{IsTracked}
use signal_fish_client_rust.Accountability.Frame.{
  is_unsupported_error, validate_content, validate_server_message, is_mismatch, same_encoding,
}
use signal_fish_client_rust.Accountability.Frame.Run.{Input, frame, binary, terminal, present, run}
use signal_fish_client_rust.Accountability.Frame.Tracking.{
  observe_server_message-IsTracked, present-IsTracked, new-IsTracked,
}
use signal_fish_client_rust.Accountability.Ledger.Defs.{Entry, accounted, IsAccounted}
use signal_fish_client_rust.Accountability.Ledger.Content.{
  if_ok, entries_of, note, ledger_of, validate_content-IsAccounted,
}

observe_server_message-senders :
    (b : Bool) (s : DeliveryAccountability) → (observe_server_message b s).1.senders ≡ s.senders
unfolding observe_server_message
observe_server_message-senders b s = ground arith

observe_server_message-IsAccounted :
    (ledger : List Entry) (b : Bool) (s : DeliveryAccountability)
    → IsAccounted ledger s
    → IsAccounted ledger (observe_server_message b s).1
unfolding observe_server_message
observe_server_message-IsAccounted ledger b s h = record {
  cursor = λ p c n g lo hi. ground (arith, h.cursor p c n);
  pending = λ p e gaps n g k. ground (arith, h.pending p e gaps n);
}

-- What holds of a check that runs only where the observed frame is in order.
after_observed :
    (ledger : List Entry) (accepted : List Entry) (m : Step (Unit {0}))
    (f : Unit {0} → DeliveryAccountability → Step GameDataDisposition)
    → IsAccounted ledger m.1
    → IsAccounted (if_ok (f tt m.1).0 accepted ledger) (f tt m.1).1
    → IsAccounted (if_ok (and_then m f).0 accepted ledger) (and_then m f).1
after_observed ledger accepted (ok u, s) f h k = k
after_observed ledger accepted (err v, s) f h k = h

-- `validate_server_frame`, by the outcome of its test.
abbrev framed :
    {V : Type 0} → Bool → ServerMessage V → DeliveryAccountability → Step GameDataDisposition
framed b message s =
    if b
    then and_then (observe_server_message false s) (λ _ s'. (err representation_mismatch, s'))
    else validate_server_message message s

module _ {V : Type 0} (ledger : List Entry) where
  validate_server_message-IsAccounted :
      (message : ServerMessage V) (s : DeliveryAccountability)
      → IsTracked s
      → IsAccounted ledger s
      → IsAccounted
          (if_ok (validate_server_message message s).0 (entries_of message s.senders ledger) ledger)
          (validate_server_message message s).1
  unfolding validate_server_message
  validate_server_message-IsAccounted message s t h =
      let b = is_unsupported_error message in
      let seen = observe_server_message b s in
      let kept = observe_server_message-IsAccounted ledger b s h in
      after_observed ledger (entries_of message s.senders ledger) seen
        (λ _. validate_content message) kept
        (subst
          (λ senders.
            IsAccounted
              (if_ok (validate_content message seen.1).0 (entries_of message senders ledger) ledger)
              (validate_content message seen.1).1)
          (observe_server_message-senders b s)
          (validate_content-IsAccounted ledger seen.1 kept message
            (observe_server_message-IsTracked b s t)))

  present-IsAccounted :
      (i : Input V) (s : DeliveryAccountability)
      → IsTracked s
      → IsAccounted ledger s
      → IsAccounted (note i s ledger) (present i s)
  unfolding present
  present-IsAccounted (frame message negotiated physical) s t h =
      elim (Bool-cases (is_mismatch message negotiated physical)) [
        | inl bad ↦
            subst
              (λ b.
                IsAccounted
                  (if_ok (framed b message s).0 (entries_of message s.senders ledger) ledger)
                  (framed b message s).1)
              (sym bad)
              (after_observed ledger (entries_of message s.senders ledger)
                (observe_server_message false s) (λ _ s'. (err representation_mismatch, s'))
                (observe_server_message-IsAccounted ledger false s h)
                (observe_server_message-IsAccounted ledger false s h))
        | inr good ↦
            subst
              (λ b.
                IsAccounted
                  (if_ok (framed b message s).0 (entries_of message s.senders ledger) ledger)
                  (framed b message s).1)
              (sym good) (validate_server_message-IsAccounted message s t h)
      ]
  present-IsAccounted (binary negotiated) s t h =
      let kept = observe_server_message-IsAccounted ledger false s h in
      branch_cases (IsAccounted ledger) (not (same_encoding negotiated json)) _ _ (λ _. h)
        (λ _.
          and_then_cases (IsAccounted ledger) (observe_server_message false s) _ kept (λ _ _. kept))
  present-IsAccounted terminal s t h = record { cursor = h.cursor; pending = h.pending }

run-IsAccounted :
    {V : Type 0} (inputs : List (Input V)) (s : DeliveryAccountability) (ledger : List Entry)
    → IsTracked s
    → IsAccounted ledger s
    → IsAccounted (ledger_of inputs s ledger) (run inputs s)
unfolding run ledger_of
run-IsAccounted [] s ledger t h = h
run-IsAccounted (i ∷ inputs) s ledger t h =
    run-IsAccounted inputs (present i s) (note i s ledger) (present-IsTracked i s t)
      (present-IsAccounted ledger i s t h)

new-IsAccounted : (v3 : Bool) → IsAccounted [] (new v3)
unfolding new get
new-IsAccounted v3 = record { cursor = λ p c n g lo hi. cc; pending = λ p e gaps n g k. cc }

-- No silent loss. Whatever frames a connection presents, in whatever order, accepted or refused: every
-- sequence number that a tracked sender's cursor has passed in its epoch lies in the baseline that the
-- room's messages stated for the sender, or was received, or was named by an accepted gap report.
pub run_accounts :
    {V : Type 0} (v3 : Bool) (inputs : List (Input V)) (p : PlayerId) (c : SenderProgress) (n : ℕ)
    → get p (run inputs (new v3)).senders ≡ some c
    → 0 < n
    → n ≤ c.last_seq
    → accounted (ledger_of inputs (new v3) []) p c.epoch n ≡ true
run_accounts v3 inputs =
    (run-IsAccounted inputs (new v3) [] (new-IsTracked v3) (new-IsAccounted v3)).cursor
