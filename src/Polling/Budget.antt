-- ===== src/Polling/Budget.antt =====
-- src/polling_client.rs: the receive budget ends the receive loops.
pub mod Sends
use signal_fish_client_rust.Common.{
  ℕ, zero, suc, ◌+◌, ◌≤◌, ◌≡◌, ◌⊎◌, inl, inr, refl, sym, subst, Bool, true, false, Option, none,
  some, List, [], ◌∷◌, ◌++◌, is_some, u64_max, if_cases, arith,
}
use signal_fish_client_rust.Transport.{TransportFrame}
use signal_fish_client_rust.Core.State.{SignalFishEvent}
use signal_fish_client_rust.Core.Process.{process_frame}
use signal_fish_client_rust.Polling.State.{Environment, PollingClient, saturating_add}
use signal_fish_client_rust.Polling.Close.{
  Inbound, frame, failed, ended, idle, exhaust_receive, inbound_over_budget, take_inbound, discard,
  drain_loop, receive_fuel,
}
use signal_fish_client_rust.Polling.Drive.{Received, after_frame, receive_round, receive_loop}
use signal_fish_client_rust.Polling.Rules.Fixed.{take_inbound-Fixed}

-- The frames received so far, and the fuel for the rest.
pub record Fuelled (limit fuel frames : ℕ) : Type 0 where
  pub enough : limit + 2 ≤ fuel + frames
  pub few : frames ≤ limit + 1
  pub word : limit ≤ u64_max

module _ {V T : Type 0} where
  next-Fuelled :
      (fuel frames bytes : ℕ) (x : TransportFrame) (c : PollingClient V T)
      → inbound_over_budget x frames bytes c ≡ false
      → Fuelled c.options.work_budget.receive_frames (suc fuel) frames
      → Fuelled c.options.work_budget.receive_frames fuel (saturating_add frames 1)
  unfolding inbound_over_budget
  next-Fuelled fuel frames bytes x c n h = record {
    enough = ground (arith, h.enough, h.few, h.word);
    few = ground (arith, h.enough, h.few, h.word);
    word = h.word;
  }

  module _ {E : Type 0} (env : Environment V T E) where
    abbrev limit : PollingClient V T → ℕ
    limit c = c.options.work_budget.receive_frames

    discard-returns :
        (i : Inbound E) (fuel frames bytes : ℕ) (c : PollingClient V T)
        (rest : (f b : ℕ) → PollingClient V T → Option (PollingClient V T))
        → Fuelled (limit c) (suc fuel) frames
        → ((f b : ℕ) → Fuelled (limit c) fuel f → is_some (rest f b c) ≡ true)
        → is_some (discard env i frames bytes c rest) ≡ true
    unfolding discard
    discard-returns (frame x) fuel frames bytes c rest h k =
        if_cases (λ (o : Option (PollingClient V T)). is_some o ≡ true)
          (inbound_over_budget x frames bytes c) _ _ (λ y. refl)
          (λ n. k _ _ (next-Fuelled fuel frames bytes x c n h))
    discard-returns (failed e) fuel frames bytes c rest h k = refl
    discard-returns ended fuel frames bytes c rest h k = refl
    discard-returns idle fuel frames bytes c rest h k = refl

    take_inbound-Fuelled :
        (fuel frames : ℕ) (c : PollingClient V T)
        → Fuelled (limit c) fuel frames
        → Fuelled (limit (take_inbound env c).1) fuel frames
    take_inbound-Fuelled fuel frames c h =
        subst (λ o. Fuelled o.work_budget.receive_frames fuel frames)
          (sym (take_inbound-Fixed env c).options) h

    drain_loop-returns :
        (fuel frames bytes : ℕ) (c : PollingClient V T)
        → Fuelled (limit c) fuel frames
        → is_some (drain_loop env fuel frames bytes c) ≡ true
    unfolding drain_loop
    drain_loop-returns zero frames bytes c h = absurd (ground (arith, h.enough, h.few))
    drain_loop-returns (suc fuel) frames bytes c h =
        let taken = (take_inbound env c).1 in
        discard-returns (take_inbound env c).0 fuel frames bytes taken (drain_loop env fuel)
          (take_inbound-Fuelled (suc fuel) frames c h)
          (λ f b k. drain_loop-returns fuel f b taken k)

    receive_round-returns :
        (now : ℕ) (i : Inbound E) (fuel frames bytes : ℕ) (events : List (SignalFishEvent V))
        (c : PollingClient V T)
        (rest : (f b : ℕ) → List (SignalFishEvent V) → PollingClient V T → Option (Received V T))
        → Fuelled (limit c) (suc fuel) frames
        → ((f b : ℕ) (events' : List (SignalFishEvent V)) (c' : PollingClient V T)
            → Fuelled (limit c') fuel f
            → is_some (rest f b events' c') ≡ true)
        → is_some (receive_round env now i frames bytes events c rest) ≡ true
    unfolding receive_round after_frame
    receive_round-returns now (frame x) fuel frames bytes events c rest h k =
        if_cases (λ (o : Option (Received V T)). is_some o ≡ true)
          (inbound_over_budget x frames bytes c) _ _ (λ y. refl)
          (λ n.
            if_cases (λ (o : Option (Received V T)). is_some o ≡ true)
              (process_frame env.parse env.wire x c.core).0.disconnect _ _ (λ y. refl)
              (λ m. k _ _ _ _ (next-Fuelled fuel frames bytes x c n h)))
    receive_round-returns now (failed e) fuel frames bytes events c rest h k = refl
    receive_round-returns now ended fuel frames bytes events c rest h k = refl
    receive_round-returns now idle fuel frames bytes events c rest h k = refl

    receive_loop-returns :
        (now fuel frames bytes : ℕ) (events : List (SignalFishEvent V)) (c : PollingClient V T)
        → Fuelled (limit c) fuel frames
        → is_some (receive_loop env now fuel frames bytes events c) ≡ true
    unfolding receive_loop
    receive_loop-returns now zero frames bytes events c h = absurd (ground (arith, h.enough, h.few))
    receive_loop-returns now (suc fuel) frames bytes events c h =
        receive_round-returns now (take_inbound env c).0 fuel frames bytes events
          (take_inbound env c).1 (receive_loop env now fuel)
          (take_inbound-Fuelled (suc fuel) frames c h) (receive_loop-returns now fuel)

    -- With a receive budget that is a machine word, the fuel is enough for the receive loop of a poll
    -- and for that of a close: each ends by the budget where the transport never runs dry.
    pub receive_loops-return :
        (now : ℕ) (events : List (SignalFishEvent V)) (c : PollingClient V T)
        → c.options.work_budget.receive_frames ≤ u64_max
        → (is_some (receive_loop env now (receive_fuel env c) 0 0 events c) ≡ true)
          × (is_some (drain_loop env (receive_fuel env c) 0 0 c) ≡ true)
    receive_loops-return now events c w =
        let start : Fuelled (limit c) (receive_fuel env c) 0 = record {
          enough = ground arith;
          few = ground arith;
          word = w;
        } in
        (
          receive_loop-returns now (receive_fuel env c) 0 0 events c start,
          drain_loop-returns (receive_fuel env c) 0 0 c start,
        )
