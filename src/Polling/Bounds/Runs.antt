-- ===== src/Polling/Bounds/Runs.antt =====
-- src/polling_client.rs: the bounds of the command queue over any calls.
use signal_fish_client_rust.Common.{
  ℕ, ◌≡◌, refl, ap, Bool, true, false, not, some, List, [], ◌∷◌, ◌++◌, Result, ok, err, leb, length,
  length-append, arith, if_cases, is_some,
}
use signal_fish_client_rust.Core.Config.{SignalFishConfig}
use signal_fish_client_rust.Core.Frames.{disconnect_core}
use signal_fish_client_rust.Core.Operations.{CoreCommand, SignalFishError, prepare}
use signal_fish_client_rust.Polling.State.{
  Environment, PollingClient, PollingClientOptions, PollingClosePolicy, abandon, flush,
  QueuedCommand, refresh_queue_diagnostics_at, abandon_client_owned, queue_command_at,
  queue_operation, queue_prepared, new_with_options, reset_queue_age_peak_at,
}
use signal_fish_client_rust.Polling.Close.{
  take_inbound, exhaust_receive, expire, begin_cycle, start_close,
}
use signal_fish_client_rust.Polling.Calls.{
  Call, poll_call, operation_call, close_call, reset_call, call, run,
}
use signal_fish_client_rust.Polling.Rules.Client.{ClientRules, CloseRules}
use signal_fish_client_rust.Polling.Rules.Cycle.{poll_at-keeps, close_at-keeps}
use signal_fish_client_rust.Polling.Bounds.{
  Bounded, refresh-Diagnosed, same-Diagnosed, Bounded-OutboundRules,
}

module _ {V T : Type 0} where
  -- A step that leaves the queue and what is in flight as they are.
  pub same-Bounded :
      (c c' : PollingClient V T)
      → c'.cmd_queue ≡ c.cmd_queue
      → c'.command_capacity ≡ c.command_capacity
      → c'.pending_frame ≡ c.pending_frame
      → c'.pending_frame_is_game_data ≡ c.pending_frame_is_game_data
      → c'.polling_stats.current_queue_depth ≡ c.polling_stats.current_queue_depth
      → c'.polling_stats.peak_queue_depth ≡ c.polling_stats.peak_queue_depth
      → c'.queue_age_stats ≡ c.queue_age_stats
      → c'.in_flight_is_game_data ≡ c.in_flight_is_game_data
      → c'.send_in_flight ≡ c.send_in_flight
      → Bounded c
      → Bounded c'
  same-Bounded c c' q k p g s d a f i h = record {
    diagnosed =
        same-Diagnosed c c' q k (ap is_some p) s d a
          (λ e. ground (arith, h.diagnosed.in_flight_flag)) h.diagnosed;
    pending_flag = λ e. ground (arith, h.pending_flag);
  }

  abandon-Bounded :
      (include_in_flight : Bool) (now : ℕ) (c : PollingClient V T)
      → Bounded c
      → Bounded (abandon_client_owned include_in_flight now c)
  unfolding abandon_client_owned refresh_queue_diagnostics_at
  abandon-Bounded include_in_flight now c h = record {
    diagnosed = record {
      capacity = ground arith;
      depth = refl;
      peak = ground arith;
      oldest = ground arith;
      in_flight_flag = ground (arith, h.diagnosed.in_flight_flag);
    };
    pending_flag = λ (f : false ≡ true). absurd (ground arith);
  }

  refresh-Bounded :
      (now : ℕ) (c : PollingClient V T) → Bounded c → Bounded (refresh_queue_diagnostics_at now c)
  unfolding refresh_queue_diagnostics_at
  refresh-Bounded now c h = record {
    diagnosed = refresh-Diagnosed now c h.diagnosed.capacity h.diagnosed.in_flight_flag;
    pending_flag = h.pending_flag;
  }

  enqueue-Bounded :
      (q : QueuedCommand V) (now : ℕ) (c : PollingClient V T)
      → leb c.command_capacity (length c.cmd_queue) ≡ false
      → Bounded c
      → Bounded (refresh_queue_diagnostics_at now (record c { cmd_queue = c.cmd_queue ++ q ∷ [] }))
  unfolding refresh_queue_diagnostics_at
  enqueue-Bounded q now c l h = record {
    diagnosed = record {
      capacity = ground (arith, length-append c.cmd_queue (q ∷ []));
      depth = refl;
      peak = ground arith;
      oldest = ground arith;
      in_flight_flag = h.diagnosed.in_flight_flag;
    };
    pending_flag = h.pending_flag;
  }

  queue_prepared-Bounded :
      (r : Result (CoreCommand V) SignalFishError) (now : ℕ) (c : PollingClient V T)
      → Bounded c
      → Bounded (queue_prepared r now c).1
  unfolding queue_command_at
  queue_prepared-Bounded (err e) now c h = h
  queue_prepared-Bounded (ok command) now c h =
      let P : Result (Unit {0}) SignalFishError × PollingClient V T → Type 0 = λ r. Bounded r.1 in
      if_cases P (not c.core.snapshot.connected) _ _ (λ y. h)
        (λ n.
          if_cases P (leb c.command_capacity (length c.cmd_queue)) _ _ (λ y. h)
            (λ l. enqueue-Bounded (record { command = command; enqueued_at = now }) now c l h))

  module _ {E : Type 0} (env : Environment V T E) where
    take_inbound-Bounded : (c : PollingClient V T) → Bounded c → Bounded (take_inbound env c).1
    unfolding take_inbound
    take_inbound-Bounded c h =
        same-Bounded c (take_inbound env c).1 (ground arith) (ground arith) (ground arith)
          (ground arith) (ground arith) (ground arith) (ground arith) (ground arith) (ground arith)
          h

    Bounded-ClientRules : ClientRules env (λ events. Bounded)
    unfolding exhaust_receive expire disconnect_core
    Bounded-ClientRules = record {
      outbound = λ events. Bounded-OutboundRules env;
      takes = λ events c h. take_inbound-Bounded c h;
      exhausts = λ events f c h. same-Bounded c _ refl refl refl refl refl refl refl refl refl h;
      processes = λ events f c h. same-Bounded c _ refl refl refl refl refl refl refl refl refl h;
      cuts_off = λ events reason now c e h.
          same-Bounded (abandon_client_owned false now c) _ refl refl refl refl refl refl refl refl
            refl (abandon-Bounded false now c h);
      starts = λ events c s h. same-Bounded c _ refl refl refl refl refl refl refl refl refl h;
      refreshes = λ events now c h.
          same-Bounded (refresh_queue_diagnostics_at now c) _ refl refl refl refl refl refl refl
            refl refl (refresh-Bounded now c h);
      expires = λ events now c p h.
          same-Bounded (abandon_client_owned true now c) _ refl refl refl refl refl refl refl refl
            refl (abandon-Bounded true now c h);
      gives_up = λ events now started_at c p h.
          same-Bounded (abandon_client_owned false now c) _ refl refl refl refl refl refl refl refl
            refl (abandon-Bounded false now c h);
      finishes = λ events started_at c p h.
          same-Bounded c _ refl refl refl refl refl refl refl refl refl h;
      closes = λ events started_at c p h. (
        same-Bounded c _ refl refl refl refl refl refl refl refl refl h,
        same-Bounded c _ refl refl refl refl refl refl refl refl refl h,
      );
    }

    Bounded-CloseRules : CloseRules env (λ events. Bounded)
    unfolding disconnect_core
    Bounded-CloseRules = record {
      shuts = λ events c p s h. same-Bounded c _ refl refl refl refl refl refl refl refl refl h;
      leaves = λ events now c p s h. leaves c.options.close_policy now c h;
    }
      where
        leaves :
            (policy : PollingClosePolicy) (now : ℕ) (c : PollingClient V T)
            → Bounded c
            → Bounded (
                begin_cycle env (
                  start_close env policy now (record c {
                    core = (disconnect_core {V = V} (some "client closed") c.core).1;
                  })))
        leaves abandon now c h =
            let left : PollingClient V T = record c {
              core = (disconnect_core {V = V} (some "client closed") c.core).1;
            } in
            same-Bounded (abandon_client_owned false now left) _ refl refl refl refl refl refl refl
              refl refl
              (abandon-Bounded false now left
                (same-Bounded c left refl refl refl refl refl refl refl refl refl h))
        leaves flush now c h = same-Bounded c _ refl refl refl refl refl refl refl refl refl h

    reset-Bounded :
        (now : ℕ) (c : PollingClient V T) → Bounded c → Bounded (reset_queue_age_peak_at now c)
    unfolding reset_queue_age_peak_at refresh_queue_diagnostics_at
    reset-Bounded now c h =
        let d = refresh-Diagnosed now c h.diagnosed.capacity h.diagnosed.in_flight_flag in
        record {
          diagnosed = record {
            capacity = d.capacity;
            depth = d.depth;
            peak = d.peak;
            oldest = omega arith;
            in_flight_flag = d.in_flight_flag;
          };
          pending_flag = h.pending_flag;
        }

    call-Bounded : (x : Call V) (c : PollingClient V T) → Bounded c → Bounded (call env x c).1
    unfolding call queue_operation
    call-Bounded (poll_call now) c h =
        poll_at-keeps env (λ events. Bounded) Bounded-ClientRules now c h
    call-Bounded (operation_call operation now) c h =
        queue_prepared-Bounded (prepare env.singleton operation c.core) now c h
    call-Bounded (close_call now) c h =
        close_at-keeps env (λ events. Bounded) Bounded-ClientRules Bounded-CloseRules [] now c h
    call-Bounded (reset_call now) c h = reset-Bounded now c h

    pub run-Bounded :
        (calls : List (Call V)) (c : PollingClient V T) → Bounded c → Bounded (run env calls c).1
    unfolding run
    run-Bounded [] c h = h
    run-Bounded (x ∷ calls) c h = run-Bounded calls (call env x c).1 (call-Bounded x c h)

    pub new-Bounded :
        (t : T) (config : SignalFishConfig) (options : PollingClientOptions) (now : ℕ)
        → Bounded {V = V} (new_with_options t config options now)
    unfolding new_with_options refresh_queue_diagnostics_at
    new-Bounded t config options now = record {
      diagnosed = record {
        capacity = ground arith;
        depth = refl;
        peak = ground arith;
        oldest = ground arith;
        in_flight_flag = λ (f : false ≡ true). absurd (ground arith);
      };
      pending_flag = λ (f : false ≡ true). absurd (ground arith);
    }
