-- ===== src/Polling/Budget/Sends.antt =====
-- src/polling_client.rs: the send budget bounds what `drive_outbound` hands to the transport.
use signal_fish_client_rust.Common.{
  ℕ, suc, ◌+◌, ◌≤◌, ◌≡◌, inl, inr, refl, sym, ◌∙◌, subst, Bool, true, false, not, Option, none,
  List, [], ◌∷◌, Result, ok, err, is_some, length, ap, u64_max, if◌then◌else◌, length-append,
  if_cases, branch_cases, Option-cases, Bool-cases, arith,
}
use signal_fish_client_rust.Transport.{
  TransportFrame, TakesOnce, TakesFrames, kept, taken, Poll, ready, pending, Sent,
}
use signal_fish_client_rust.Polling.State.{
  Environment, PollingClient, QueuedCommand, saturating_add, refresh_queue_diagnostics_at,
}
use signal_fish_client_rust.Polling.Outbound.{
  Round, stop, again, exhaust_send, over_budget, finish_round, after_send, send_round, frame_of,
  load, popped, next_bytes, after_round, drain, outbound_loop, landed, count_sent, drive_in_flight,
  drive_outbound,
}
use signal_fish_client_rust.Polling.Rules.{
  send_round-again, send_round-queue, load-settled, drop-settled,
}
use signal_fish_client_rust.Polling.Rules.Outbound.{is_some-none}
use signal_fish_client_rust.Polling.Ownership.Steps.{poll_none-log}
use signal_fish_client_rust.Polling.Rules.Fixed.{send_round-Fixed, count_sent-Fixed}

module _ {V T E : Type 0} where
  finish_round-transport :
      (result : Poll (Result (Unit {0}) E)) (transferred : Bool) (frames bytes : ℕ)
      (c : PollingClient V T)
      → (finish_round result transferred frames bytes c).1.transport ≡ c.transport
  unfolding finish_round
  finish_round-transport (ready (ok _)) true frames bytes c = ground arith
  finish_round-transport (ready (ok _)) false frames bytes c = refl
  finish_round-transport (ready (err e)) transferred frames bytes c = refl
  finish_round-transport pending true frames bytes c = refl
  finish_round-transport pending false frames bytes c = refl

  -- Where the loop goes on, it goes on with the counts that it was given and with budget left.
  finish_round-counts :
      (result : Poll (Result (Unit {0}) E)) (transferred : Bool) (frames bytes f b : ℕ)
      (c : PollingClient V T)
      → (finish_round result transferred frames bytes c).0 ≡ again f b
      → (transferred ≡ true) × (f ≡ frames)
  unfolding finish_round
  finish_round-counts (ready (ok _)) true frames bytes f b c h = (refl, ground arith)
  finish_round-counts (ready (ok _)) false frames bytes f b c h = absurd (ground arith)
  finish_round-counts (ready (err e)) transferred frames bytes f b c h = absurd (ground arith)
  finish_round-counts pending true frames bytes f b c h = absurd (ground arith)
  finish_round-counts pending false frames bytes f b c h = absurd (ground arith)

  after_send-transport :
      (now : ℕ) (sent : Sent T E) (c : PollingClient V T)
      → (after_send now sent c).transport ≡ sent.transport
  unfolding after_send refresh_queue_diagnostics_at
  after_send-transport now sent c = ground arith

-- What a call took, counted.
TakesOnce-length :
    (slot slot' : Option TransportFrame) (before after : List TransportFrame)
    → TakesOnce slot slot' before after
    → length after ≤ length before + 1
TakesOnce-length slot slot' before after (kept s l) = ground arith
TakesOnce-length slot slot' before after (taken frame s s' l) =
    ground (arith, length-append before (frame ∷ []))

module _ {V T E : Type 0} (env : Environment V T E) (log : T → List TransportFrame) where
  abbrev taken_by : PollingClient V T → ℕ
  taken_by c = length (log c.transport)

  -- One round: where the budget is used up, nothing is handed over.
  record RoundBound (frames bytes : ℕ) (c : PollingClient V T) (r : Round E × PollingClient V T)
      : Type 0 where
    none_over : over_budget frames bytes c ≡ true → taken_by r.1 ≡ taken_by c
    one : taken_by r.1 ≤ taken_by c + 1
    counts :
        (f b : ℕ)
        → r.0 ≡ again f b
        → (over_budget frames bytes c ≡ false) × (f ≡ saturating_add frames 1)

  module _ (takes : TakesFrames env.transport log) where
    send_round-RoundBound :
        (now frames bytes : ℕ) (c : PollingClient V T)
        → RoundBound frames bytes c (send_round env now frames bytes c)
    unfolding send_round exhaust_send
    send_round-RoundBound now frames bytes c =
        let sent = env.transport.poll_send c.pending_frame c.transport in
        let handed = not (is_some sent.slot) in
        let after = after_send now sent c in
        let frames' = if handed then saturating_add frames 1 else frames in
        let bytes' = if handed then next_bytes bytes c else bytes in
        let same : (finish_round sent.result handed frames' bytes' after).1.transport
            ≡ sent.transport =
          finish_round-transport sent.result handed frames' bytes' after
          ∙ after_send-transport now sent c in
        if_cases (RoundBound frames bytes c) (over_budget frames bytes c) _ _
          (λ y. record {
            none_over = λ o. refl;
            one = ground arith;
            counts = λ f b h. absurd (ground arith);
          })
          (λ n. record {
            none_over = λ o. absurd (ground arith);
            one =
                subst (λ t. length (log t) ≤ taken_by c + 1) (sym same)
                  (TakesOnce-length c.pending_frame sent.slot _ _
                    (takes.sends c.pending_frame c.transport));
            counts = λ f b h. (
              n,
              ground (arith, finish_round-counts sent.result handed frames' bytes' f b after h),
            );
          })

    within_budget :
        (frames bytes : ℕ) (c : PollingClient V T)
        → over_budget frames bytes c ≡ false
        → suc frames ≤ c.options.work_budget.send_frames
    unfolding over_budget
    within_budget frames bytes c n = ground arith

    abbrev limit : PollingClient V T → ℕ
    limit c = c.options.work_budget.send_frames

    -- What the transport takes from `frames` frames on.
    abbrev Limited : ℕ → PollingClient V T → PollingClient V T → Type 0
    Limited frames c c' = taken_by c' + frames ≤ taken_by c + limit c

    after_round-Limited :
        (now frames bytes : ℕ) (c : PollingClient V T) (r : Round E × PollingClient V T)
        (rest : (f b : ℕ) → PollingClient V T → Result (Unit {0}) E × PollingClient V T)
        → RoundBound frames bytes c r
        → r.1.options ≡ c.options
        → frames ≤ limit c
        → limit c ≤ u64_max
        → ((f b : ℕ)
            → r.0 ≡ again f b
            → f ≤ limit r.1
            → limit r.1 ≤ u64_max
            → Limited f r.1 (rest f b r.1).1)
        → Limited frames c (after_round r rest).1
    after_round-Limited now frames bytes c (stop result, c') rest h o l w k =
        elim (Bool-cases (over_budget frames bytes c)) [
          | inl y ↦ ground (arith, h.none_over y)
          | inr n ↦ ground (arith, h.one, within_budget frames bytes c n)
        ]
    after_round-Limited now frames bytes c (again f b, c') rest h o l w k =
        let (n, e) = h.counts f b refl in
        let more = within_budget frames bytes c n in
        let same : limit c' ≡ limit c = ap (λ options. options.work_budget.send_frames) o in
        ground (arith, h.one, k f b refl (ground arith) (ground arith))

    drain-Limited :
        (now : ℕ) (queue : List (QueuedCommand V)) (frames bytes : ℕ) (c : PollingClient V T)
        → c.pending_frame ≡ none
        → c.cmd_queue ≡ queue
        → frames ≤ limit c
        → limit c ≤ u64_max
        → Limited frames c (drain env now queue frames bytes c).1
    unfolding drain
    drain-Limited now [] frames bytes c n e l w = ground arith
    drain-Limited now (q ∷ queue) frames bytes c n e l w =
        elim (Option-cases (frame_of env q.command)) [
          | inl f ↦
              let (queued, held) = drop-settled env now q queue c in
              rw (f, drain) (drain-Limited now queue frames bytes _ (held ∙ n) queued l w)
          | inr (frame, f) ↦
              let loaded = load env now q frame (popped env q queue c) in
              let (queued, held) = load-settled env now q queue frame c in
              rw (f, drain)
                (after_round-Limited now frames bytes loaded _ (drain env now queue)
                  (send_round-RoundBound now frames bytes loaded)
                  (send_round-Fixed env now frames bytes loaded).options l w
                  λ f' b' a l' w'.
                    drain-Limited now queue f' b' _
                      (send_round-again env now frames bytes f' b' loaded a)
                      (send_round-queue env now frames bytes loaded ∙ queued) l' w')
        ]

    outbound_loop-Limited :
        (now : ℕ) (c : PollingClient V T)
        → limit c ≤ u64_max
        → Limited 0 c (outbound_loop env now c).1
    unfolding outbound_loop
    outbound_loop-Limited now c w =
        branch_cases (Limited 0 c) (is_some c.pending_frame) _ _
          (λ s.
            after_round-Limited now 0 0 c _ (drain env now c.cmd_queue)
              (send_round-RoundBound now 0 0 c) (send_round-Fixed env now 0 0 c).options
              (ground arith) w
              λ f b a l' w'.
                drain-Limited now c.cmd_queue f b _ (send_round-again env now 0 0 f b c a)
                  (send_round-queue env now 0 0 c) l' w')
          (λ n.
            drain-Limited now c.cmd_queue 0 0 c (is_some-none c.pending_frame n) refl (ground arith)
              w)

    drive_in_flight-Limited :
        (now : ℕ) (c : PollingClient V T)
        → limit c ≤ u64_max
        → Limited 0 c
            (drive_in_flight env
              (env.transport.poll_send none c.transport)
              c
              (outbound_loop env now)).1
    unfolding drive_in_flight
    drive_in_flight-Limited now c w =
        let sent = env.transport.poll_send none c.transport in
        settled sent.result sent.slot sent.transport (poll_none-log env log takes c.transport)
          (λ b. outbound_loop-Limited now (landed env sent.transport (count_sent b c)))
      where
        settled :
            (result : Poll (Result (Unit {0}) E)) (slot : Option TransportFrame) (t : T)
            → log t ≡ log c.transport
            → ((b : Bool)
                → let c' = landed env t (count_sent b c) in
                  limit c' ≤ u64_max → Limited 0 c' (outbound_loop env now c').1)
            → Limited 0 c
                (drive_in_flight env
                  (record { result = result; slot = slot; transport = t })
                  c
                  (outbound_loop env now)).1
        settled (ready (ok _)) slot t s k =
            let fixed = count_sent-Fixed c.in_flight_is_game_data c in
            let same : limit (count_sent c.in_flight_is_game_data c) ≡ limit c =
              ap (λ options. options.work_budget.send_frames) fixed.options in
            ground (arith, k c.in_flight_is_game_data (ground arith), ap length s)
        settled (ready (err e)) slot t s k = ground arith
        settled pending slot t s k = ground arith

    -- One call hands at most as many frames to the transport as the send budget says, a frame that was
    -- already in flight not counted. The budget is a machine word, and the transport keeps its contract
    -- on the ownership of frames.
    pub drive_outbound-Limited :
        (now : ℕ) (c : PollingClient V T)
        → c.options.work_budget.send_frames ≤ u64_max
        → length (log (drive_outbound env now c).1.transport)
          ≤ length (log c.transport) + c.options.work_budget.send_frames
    unfolding drive_outbound
    drive_outbound-Limited now c w =
        let bound : Limited 0 c (drive_outbound env now c).1 =
          branch_cases (Limited 0 c) c.send_in_flight _ _ (λ y. drive_in_flight-Limited now c w)
            (λ n. outbound_loop-Limited now c w) in
        ground (arith, bound)
