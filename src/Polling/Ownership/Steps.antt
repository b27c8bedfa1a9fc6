-- ===== src/Polling/Ownership/Steps.antt =====
-- src/polling_client.rs: what each step does to the frames that the client owns.
use signal_fish_client_rust.Common.{
  ℕ, ◌≡◌, refl, ◌∙◌, ap, Bool, true, false, not, Option, none, some, List, [], ◌∷◌, ◌++◌, Result,
  ok, err, append_assoc, arith, if_cases, is_some,
}
use signal_fish_client_rust.Transport.{
  TransportFrame, TakesOnce, TakesFrames, kept, taken, Poll, ready, pending, Sent,
}
use signal_fish_client_rust.Core.State.{record_game_data_sent}
use signal_fish_client_rust.Polling.State.{
  Environment, PollingClient, QueuedCommand, record_serialization_failure_at,
  refresh_queue_diagnostics_at,
}
use signal_fish_client_rust.Polling.Outbound.{
  Round, stop, frame_of, exhaust_send, over_budget, finish_round, after_send, send_round, load,
  popped, landed, count_sent,
}
use signal_fish_client_rust.Polling.Ownership.{of_slot, made, waiting, owned}

module _ {V T E : Type 0} (env : Environment V T E) (log : T → List TransportFrame) where
  finish_round-owned :
      (result : Poll (Result (Unit {0}) E)) (transferred : Bool) (frames bytes : ℕ)
      (c : PollingClient V T)
      → owned env log (finish_round result transferred frames bytes c).1 ≡ owned env log c
  unfolding finish_round record_game_data_sent
  finish_round-owned (ready (ok _)) true frames bytes c = ground arith
  finish_round-owned (ready (ok _)) false frames bytes c = refl
  finish_round-owned (ready (err e)) transferred frames bytes c = refl
  finish_round-owned pending true frames bytes c = refl
  finish_round-owned pending false frames bytes c = refl

  after_send-owned :
      (now : ℕ) (sent : Sent T E) (c : PollingClient V T)
      → owned env log (after_send now sent c)
        ≡ log sent.transport ++ (of_slot sent.slot ++ made env c.cmd_queue)
  unfolding after_send refresh_queue_diagnostics_at
  after_send-owned now sent c = ground arith

  TakesOnce-sum :
      (slot slot' : Option TransportFrame) (before after rest : List TransportFrame)
      → TakesOnce slot slot' before after
      → after ++ (of_slot slot' ++ rest) ≡ before ++ (of_slot slot ++ rest)
  TakesOnce-sum slot slot' before after rest (kept s l) = cc
  TakesOnce-sum slot slot' before after rest (taken frame s s' l) =
      rw (s, s', l) (append_assoc before (frame ∷ []) rest)

  TakesOnce-none :
      (slot' : Option TransportFrame) (before after : List TransportFrame)
      → TakesOnce none slot' before after
      → after ≡ before
  TakesOnce-none slot' before after (kept s l) = l
  TakesOnce-none slot' before after (taken frame s s' l) = absurd (ground arith)

  module _ (takes : TakesFrames env.transport log) where
    -- A call with an empty slot drives the frame in flight on.
    pub poll_none-log : (t : T) → log (env.transport.poll_send none t).transport ≡ log t
    poll_none-log t = TakesOnce-none _ _ _ (takes.sends none t)

    pub wait-owned :
        (c : PollingClient V T)
        → let t = (env.transport.poll_send none c.transport).transport in
          owned env log (record c { transport = t }) ≡ owned env log c
    wait-owned c = ap (λ frames. frames ++ waiting env c) (poll_none-log c.transport)

    pub land-owned :
        (b : Bool) (c : PollingClient V T)
        → let t = (env.transport.poll_send none c.transport).transport in
          owned env log (landed env t (count_sent b c)) ≡ owned env log c
    land-owned true c = wait-owned c
    land-owned false c = wait-owned c

    pub send_round-owned :
        (now frames bytes : ℕ) (c : PollingClient V T)
        → owned env log (send_round env now frames bytes c).1 ≡ owned env log c
    unfolding send_round exhaust_send
    send_round-owned now frames bytes c =
        let sent = env.transport.poll_send c.pending_frame c.transport in
        let handed = not (is_some sent.slot) in
        if_cases (λ (r : Round E × PollingClient V T). owned env log r.1 ≡ owned env log c)
          (over_budget frames bytes c) (stop (ok tt), exhaust_send c) _ (λ y. refl)
          (λ n.
            finish_round-owned sent.result handed _ _ (after_send now sent c)
            ∙ after_send-owned now sent c
            ∙ TakesOnce-sum c.pending_frame sent.slot (log c.transport) (log sent.transport)
                (made env c.cmd_queue) (takes.sends c.pending_frame c.transport))

  pub load-owned :
      (now : ℕ) (q : QueuedCommand V) (queue : List (QueuedCommand V)) (frame : TransportFrame)
      (c : PollingClient V T)
      → c.pending_frame ≡ none
      → c.cmd_queue ≡ q ∷ queue
      → frame_of env q.command ≡ some frame
      → owned env log (load env now q frame (popped env q queue c)) ≡ owned env log c
  unfolding load refresh_queue_diagnostics_at made
  load-owned now q queue frame c n e f = cc

  pub drop-owned :
      (now : ℕ) (q : QueuedCommand V) (queue : List (QueuedCommand V)) (c : PollingClient V T)
      → c.pending_frame ≡ none
      → c.cmd_queue ≡ q ∷ queue
      → frame_of env q.command ≡ none
      → owned env log (record_serialization_failure_at now (popped env q queue c)) ≡ owned env log c
  unfolding record_serialization_failure_at refresh_queue_diagnostics_at made
  drop-owned now q queue c n e f = cc
