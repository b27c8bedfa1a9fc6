-- ===== src/Polling/Rules/Outbound.antt =====
-- src/polling_client.rs: `drive_outbound` keeps what each of its steps keeps.
use signal_fish_client_rust.Common.{
  ℕ, ◌≡◌, refl, ◌∙◌, inl, inr, Bool, false, Option, none, some, List, [], ◌∷◌, is_some, Result, ok,
  err, Option-cases, branch_cases, arith,
}
use signal_fish_client_rust.Transport.{TransportFrame, Poll, ready, pending}
use signal_fish_client_rust.Polling.State.{Environment, PollingClient, QueuedCommand}
use signal_fish_client_rust.Polling.Outbound.{
  Round, stop, again, count_sent, after_round, send_round, frame_of, load, popped, drain,
  outbound_loop, landed, drive_in_flight, drive_outbound,
}
use signal_fish_client_rust.Polling.Rules.{
  OutboundRules, send_round-queue, send_round-again, load-settled, drop-settled,
}

pub is_some-none : {A : Type 0} (o : Option A) → is_some o ≡ false → o ≡ none
is_some-none none h = refl
is_some-none (some a) h = absurd (ground arith)

module _ {V T E : Type 0} (P : PollingClient V T → Type 0) where
  after_round-cases :
      (r : Round E × PollingClient V T)
      (rest : (f b : ℕ) → PollingClient V T → Result (Unit {0}) E × PollingClient V T)
      → P r.1
      → ((f b : ℕ) → r.0 ≡ again f b → P (rest f b r.1).1)
      → P (after_round r rest).1
  after_round-cases (stop result, c) rest h k = h
  after_round-cases (again f b, c) rest h k = k f b refl

  module _ (env : Environment V T E) (rules : OutboundRules env P) where
    drain-keeps :
        (now : ℕ) (queue : List (QueuedCommand V)) (frames bytes : ℕ) (c : PollingClient V T)
        → c.pending_frame ≡ none
        → c.cmd_queue ≡ queue
        → P c
        → P (drain env now queue frames bytes c).1
    unfolding drain
    drain-keeps now [] frames bytes c n e h = h
    drain-keeps now (q ∷ queue) frames bytes c n e h =
        elim (Option-cases (frame_of env q.command)) [
          | inl f ↦
              let (queued, kept) = drop-settled env now q queue c in
              rw (f, drain)
                (drain-keeps now queue frames bytes _ (kept ∙ n) queued
                  (rules.drops now q queue c n e f h))
          | inr (frame, f) ↦
              let loaded = load env now q frame (popped env q queue c) in
              let (queued, held) = load-settled env now q queue frame c in
              let sent =
                rules.sends now frames bytes loaded held
                  (rules.loads now q queue frame c n e f h) in
              rw (f, drain)
                (after_round-cases (send_round env now frames bytes loaded) _ sent λ f' b' a.
                  drain-keeps now queue f' b' _
                    (send_round-again env now frames bytes f' b' loaded a)
                    (send_round-queue env now frames bytes loaded ∙ queued) sent)
        ]

    outbound_loop-keeps : (now : ℕ) (c : PollingClient V T) → P c → P (outbound_loop env now c).1
    unfolding outbound_loop
    outbound_loop-keeps now c h =
        branch_cases P (is_some c.pending_frame) _ _
          (λ s. after_round-cases (send_round env now 0 0 c) _ (rules.sends now 0 0 c s h) λ f b a.
            drain-keeps now c.cmd_queue f b _ (send_round-again env now 0 0 f b c a)
              (send_round-queue env now 0 0 c) (rules.sends now 0 0 c s h))
          (λ n. drain-keeps now c.cmd_queue 0 0 c (is_some-none c.pending_frame n) refl h)

    drive_in_flight-keeps :
        (now : ℕ) (c : PollingClient V T)
        → P c
        → P
            (drive_in_flight env
              (env.transport.poll_send none c.transport)
              c
              (outbound_loop env now)).1
    unfolding drive_in_flight
    drive_in_flight-keeps now c h =
        let sent = env.transport.poll_send none c.transport in
        settled sent.result sent.slot sent.transport (rules.waits c h) (λ b. rules.lands b c h)
      where
        settled :
            (result : Poll (Result (Unit {0}) E)) (slot : Option TransportFrame) (t : T)
            → P (record c { transport = t })
            → ((b : Bool) → P (landed env t (count_sent b c)))
            → P
                (drive_in_flight env
                  (record { result = result; slot = slot; transport = t })
                  c
                  (outbound_loop env now)).1
        settled (ready (ok _)) slot t w l = outbound_loop-keeps now _ (l c.in_flight_is_game_data)
        settled (ready (err e)) slot t w l = l false
        settled pending slot t w l = w

    pub drive_outbound-keeps :
        (now : ℕ) (c : PollingClient V T) → P c → P (drive_outbound env now c).1
    unfolding drive_outbound
    drive_outbound-keeps now c h =
        branch_cases P c.send_in_flight _ _ (λ y. drive_in_flight-keeps now c h)
          (λ n. outbound_loop-keeps now c h)
