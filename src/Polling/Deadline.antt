-- ===== src/Polling/Deadline.antt =====
-- src/polling_client.rs: a close ends by its deadline, and a closed client stays closed.
pub mod Silence
use signal_fish_client_rust.Common.{
  ℕ, ◌+◌, ◌-◌, ◌≤◌, ◌≡◌, ◌⊎◌, inl, inr, refl, sym, ◌∙◌, ap, Bool, true, false, not, some, List, [],
  ◌∷◌, ◌++◌, Result, ok, err, leb, length, if_cases, arith,
}
use signal_fish_client_rust.Core.State.{SignalFishEvent, clear_session}
use signal_fish_client_rust.Core.Frames.{disconnect_core}
use signal_fish_client_rust.Core.Policy.{Obeys}
use signal_fish_client_rust.Core.Policy.Frames.{process_frame-Obeys}
use signal_fish_client_rust.Core.Process.{process_frame}
use signal_fish_client_rust.Core.Operations.{CoreCommand, SignalFishError, prepare}
use signal_fish_client_rust.Polling.State.{
  Environment, PollingClient, PollingClosePolicy, abandon, flush, ClosePhase, open_phase, flushing,
  closing, closed, record_serialization_failure_at, refresh_queue_diagnostics_at,
  reset_queue_age_peak_at, abandon_client_owned, queue_prepared, queue_command_at, queue_operation,
}
use signal_fish_client_rust.Polling.Outbound.{send_round, load, landed, count_sent}
use signal_fish_client_rust.Polling.Close.{
  take_inbound, exhaust_receive, expire, in_flight_phase, begin_cycle, start_close, drive_close_in,
  drive_close_at, close_open, close_from, close_at,
}
use signal_fish_client_rust.Polling.Drive.{poll_in, poll_at}
use signal_fish_client_rust.Polling.Calls.{
  Call, poll_call, operation_call, close_call, reset_call, call, run,
}
use signal_fish_client_rust.Polling.Rules.{OutboundRules}
use signal_fish_client_rust.Polling.Rules.Fixed.{
  Fixed, send_round-Fixed, take_inbound-Fixed, count_sent-Fixed,
}
use signal_fish_client_rust.Polling.Rules.Client.{ClientRules}
use signal_fish_client_rust.Polling.Rules.Closing.{drive_close_at-keeps}
use signal_fish_client_rust.Polling.Rules.Cycle.{poll_at-keeps}

-- The client has been closing since `t`, with the timeout `k`, or it is closed.
pub record Leaving {V T : Type 0} (t k : ℕ) (c : PollingClient V T) : Type 0 where
  pub gone : c.core.snapshot.connected ≡ false
  pub timeout : c.shutdown_timeout ≡ k
  pub phase : (c.close_phase ≡ flushing t) ⊎ (c.close_phase ≡ closing t) ⊎ (c.close_phase ≡ closed)

module _ {V T : Type 0} (t k : ℕ) where
  Leaving-same :
      (c c' : PollingClient V T)
      → c'.core.snapshot.connected ≡ c.core.snapshot.connected
      → c'.shutdown_timeout ≡ c.shutdown_timeout
      → c'.close_phase ≡ c.close_phase
      → Leaving t k c
      → Leaving t k c'
  Leaving-same c c' s o p h = record {
    gone = s ∙ h.gone;
    timeout = o ∙ h.timeout;
    phase = rw p h.phase;
  }

  Leaving-on :
      (c c' : PollingClient V T)
      → c'.core.snapshot.connected ≡ c.core.snapshot.connected
      → c'.shutdown_timeout ≡ c.shutdown_timeout
      → (c'.close_phase ≡ flushing t) ⊎ (c'.close_phase ≡ closing t) ⊎ (c'.close_phase ≡ closed)
      → Leaving t k c
      → Leaving t k c'
  Leaving-on c c' s o p h = record { gone = s ∙ h.gone; timeout = o ∙ h.timeout; phase = p }

  since :
      (s : ℕ) (c : PollingClient V T)
      → (c.close_phase ≡ flushing s) ⊎ (c.close_phase ≡ closing s)
      → Leaving t k c
      → s ≡ t
  since s c e h = ground (arith, h.phase)

  module _ {E : Type 0} (env : Environment V T E) where
    Leaving-OutboundRules : OutboundRules env (Leaving t k)
    unfolding load refresh_queue_diagnostics_at record_serialization_failure_at
    Leaving-OutboundRules = record {
      sends = λ now frames bytes c p h.
          let fixed = send_round-Fixed env now frames bytes c in
          Leaving-same c _ fixed.connected fixed.timeout fixed.phase h;
      loads = λ now q queue frame c n e f h. Leaving-same c _ refl refl refl h;
      drops = λ now q queue c n e f h. Leaving-same c _ refl refl refl h;
      waits = λ c h. Leaving-same c _ refl refl refl h;
      lands = λ b c h.
          let fixed = count_sent-Fixed b c in
          Leaving-same c _ fixed.connected fixed.timeout fixed.phase h;
    }

    Leaving-ClientRules : ClientRules env (λ events. Leaving t k)
    unfolding exhaust_receive refresh_queue_diagnostics_at expire abandon_client_owned
    Leaving-ClientRules = record {
      outbound = λ events. Leaving-OutboundRules;
      takes = λ events c h.
          let fixed = take_inbound-Fixed env c in
          Leaving-same c _ fixed.connected fixed.timeout fixed.phase h;
      exhausts = λ events f c h. Leaving-same c _ refl refl refl h;
      processes = λ events f c h.
          let o : Obeys c.core (process_frame env.parse env.wire f c.core) =
            process_frame-Obeys env.parse env.wire f c.core in
          Leaving-same c _ o.connection refl refl h;
      cuts_off = λ events reason now c e h. absurd (ground (arith, h.gone));
      starts = λ events c s h. Leaving-same c _ refl refl refl h;
      refreshes = λ events now c h. Leaving-same c _ refl refl refl h;
      expires = λ events now c p h. Leaving-on c _ refl refl (inr (inr refl)) h;
      gives_up = λ events now s c p h.
          Leaving-on c _ refl refl (inr (inl (ap closing (since s c (inl p) h)))) h;
      finishes = λ events s c p h.
          Leaving-on c _ refl refl (inr (inl (ap closing (since s c (inl p) h)))) h;
      closes = λ events s c p h.
          (Leaving-same c _ refl refl refl h, Leaving-on c _ refl refl (inr (inr refl)) h);
    }

    -- Closing begins it.
    start_close-Leaving :
        (policy : PollingClosePolicy) (c : PollingClient V T)
        → c.shutdown_timeout ≡ k
        → Leaving t k (
            begin_cycle env (
              start_close env policy t
                (record c { core = (disconnect_core {V = V} (some "client closed") c.core).1 })))
    unfolding disconnect_core clear_session abandon_client_owned refresh_queue_diagnostics_at
    start_close-Leaving abandon c o = record {
      gone = refl;
      timeout = o;
      phase = chosen c.send_in_flight;
    }
      where
        chosen :
            (b : Bool)
            → (in_flight_phase b t ≡ flushing t)
              ⊎ (in_flight_phase b t ≡ closing t)
              ⊎ (in_flight_phase b t ≡ closed)
        chosen true = inl refl
        chosen false = inr (inl refl)
    start_close-Leaving flush c o = record { gone = refl; timeout = o; phase = inl refl }

    close_from-Leaving :
        (phase : ClosePhase) (c : PollingClient V T)
        → phase ≡ open_phase
        → c.shutdown_timeout ≡ k
        → Leaving t k (close_from env phase t c)
    unfolding close_from close_open
    close_from-Leaving open_phase c p o =
        if_cases (Leaving t k) (not c.core.snapshot.connected) _ _
          (λ y. record { gone = ground arith; timeout = o; phase = inr (inr refl) })
          (λ n.
            drive_close_at-keeps env (λ events. Leaving t k) Leaving-ClientRules [] t _
              (start_close-Leaving c.options.close_policy c o))
    close_from-Leaving (flushing s) c p o = absurd (ground arith)
    close_from-Leaving (closing s) c p o = absurd (ground arith)
    close_from-Leaving closed c p o = absurd (ground arith)

    queue_prepared-Leaving :
        (r : Result (CoreCommand V) SignalFishError) (now : ℕ) (c : PollingClient V T)
        → Leaving t k c
        → Leaving t k (queue_prepared r now c).1
    unfolding queue_command_at
    queue_prepared-Leaving (err e) now c h = h
    queue_prepared-Leaving (ok command) now c h =
        if_cases (λ (r : Result (Unit {0}) SignalFishError × PollingClient V T). Leaving t k r.1)
          (not c.core.snapshot.connected) _ _ (λ y. h) (λ n. absurd (ground (arith, h.gone)))

    -- A later close finds the client closing.
    close_again-Leaving :
        (phase : ClosePhase) (now : ℕ) (c : PollingClient V T)
        → c.close_phase ≡ phase
        → Leaving t k c
        → Leaving t k (close_from env phase now c)
    unfolding close_from
    close_again-Leaving open_phase now c e h = absurd (ground (arith, h.phase))
    close_again-Leaving (flushing s) now c e h = h
    close_again-Leaving (closing s) now c e h = h
    close_again-Leaving closed now c e h = h

    call-Leaving :
        (x : Call V) (c : PollingClient V T) → Leaving t k c → Leaving t k (call env x c).1
    unfolding call queue_operation close_at reset_queue_age_peak_at refresh_queue_diagnostics_at
    call-Leaving (poll_call now) c h =
        poll_at-keeps env (λ events. Leaving t k) Leaving-ClientRules now c h
    call-Leaving (operation_call operation now) c h =
        queue_prepared-Leaving (prepare env.singleton operation c.core) now c h
    call-Leaving (close_call now) c h = close_again-Leaving c.close_phase now c refl h
    call-Leaving (reset_call now) c h = Leaving-same c _ refl refl refl h

    run-Leaving :
        (calls : List (Call V)) (c : PollingClient V T)
        → Leaving t k c
        → Leaving t k (run env calls c).1
    unfolding run
    run-Leaving [] c h = h
    run-Leaving (x ∷ calls) c h = run-Leaving calls (call env x c).1 (call-Leaving x c h)

    drive_close_in-expires :
        (phase : ClosePhase) (now : ℕ) (c : PollingClient V T)
        → c.close_phase ≡ phase
        → Leaving t k c
        → k ≤ now - t
        → (drive_close_in env phase now c).close_phase ≡ closed
    unfolding drive_close_in expire
    drive_close_in-expires open_phase now c e h l = absurd (ground (arith, h.phase))
    drive_close_in-expires (flushing s) now c e h l =
        if_cases (λ (c' : PollingClient V T). c'.close_phase ≡ closed)
          (leb c.shutdown_timeout (now - s)) _ _ (λ y. refl)
          (λ n. absurd (ground (arith, since s c (inl e) h, h.timeout)))
    drive_close_in-expires (closing s) now c e h l =
        if_cases (λ (c' : PollingClient V T). c'.close_phase ≡ closed)
          (leb c.shutdown_timeout (now - s)) _ _ (λ y. refl)
          (λ n. absurd (ground (arith, since s c (inr e) h, h.timeout)))
    drive_close_in-expires closed now c e h l = e

    poll_in-expires :
        (phase : ClosePhase) (now : ℕ) (c : PollingClient V T)
        → c.close_phase ≡ phase
        → Leaving t k c
        → k ≤ now - t
        → (poll_in env phase now c).1.close_phase ≡ closed
    unfolding poll_in drive_close_at
    poll_in-expires open_phase now c e h l = absurd (ground (arith, h.phase))
    poll_in-expires (flushing s) now c e h l = drive_close_in-expires c.close_phase now c refl h l
    poll_in-expires (closing s) now c e h l = drive_close_in-expires c.close_phase now c refl h l
    poll_in-expires closed now c e h l = drive_close_in-expires c.close_phase now c refl h l

module _ {V T E : Type 0} (env : Environment V T E) where
  -- An open client that is closed at `t`, connected or not, is closed for good after the first poll
  -- that comes a timeout later or more, whatever calls stand between and whatever the transport does.
  pub close-deadline :
      (t now : ℕ) (c : PollingClient V T) (calls : List (Call V))
      → c.close_phase ≡ open_phase
      → c.shutdown_timeout ≤ now - t
      → (poll_at env now (run env (close_call t ∷ calls) c).1).1.close_phase ≡ closed
  unfolding poll_at run call close_at refresh_queue_diagnostics_at
  close-deadline t now c calls p l =
      let k = c.shutdown_timeout in
      let left = run-Leaving t k env calls _ (close_from-Leaving t k env c.close_phase c p refl) in
      let last = (run env calls (close_at env t c)).1 in
      poll_in-expires t k env _ now (begin_cycle env (refresh_queue_diagnostics_at now last)) refl
        (Leaving-same t k last _ refl refl refl left) l
