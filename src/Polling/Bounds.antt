-- ===== src/Polling/Bounds.antt =====
-- src/polling_client.rs: the bounds of the command queue and its diagnostics, over every operation.
pub mod Runs
use signal_fish_client_rust.Common.{
  ℕ, ◌+◌, ◌≤◌, ◌≡◌, refl, ◌∙◌, ap, sym, Bool, true, false, not, Option, none, some, List, [], ◌∷◌,
  ◌++◌, Result, ok, err, leb, length, arith, if_cases, is_some,
}
use signal_fish_client_rust.Transport.{Transport, TransportFrame, Poll, ready, pending, Sent}
use signal_fish_client_rust.Core.State.{record_game_data_sent}
use signal_fish_client_rust.Core.Config.{max}
use signal_fish_client_rust.Polling.State.{
  Environment, PollingClient, QueuedCommand, queue_depth, from_bool, refresh_queue_diagnostics_at,
  record_serialization_failure_at, saturating_add,
}
use signal_fish_client_rust.Polling.Outbound.{
  Round, stop, again, is_spent, exhaust_send, over_budget, finish_round, after_send, send_round,
  frame_of, load, popped, landed, count_sent,
}
use signal_fish_client_rust.Polling.Rules.{OutboundRules}

-- The queue holds what its capacity admits, the diagnostics agree with it, and the flag of the frame in
-- flight is set only while there is one.
pub record Diagnosed {V T : Type 0} (c : PollingClient V T) : Type 0 where
  pub capacity : length c.cmd_queue ≤ c.command_capacity
  pub depth : c.polling_stats.current_queue_depth ≡ queue_depth c
  pub peak : c.polling_stats.current_queue_depth ≤ c.polling_stats.peak_queue_depth
  pub oldest : c.queue_age_stats.current_oldest_queue_age ≤ c.queue_age_stats.peak_oldest_queue_age
  pub in_flight_flag : c.in_flight_is_game_data ≡ true → c.send_in_flight ≡ true

-- So between two rounds: then the flag of the pending frame, too, is set only beside a frame.
pub record Bounded {V T : Type 0} (c : PollingClient V T) : Type 0 where
  pub diagnosed : Diagnosed c
  pub pending_flag : c.pending_frame_is_game_data ≡ true → is_some c.pending_frame ≡ true

module _ {V T : Type 0} where
  -- A refresh makes the diagnostics agree.
  pub refresh-Diagnosed :
      (now : ℕ) (c : PollingClient V T)
      → length c.cmd_queue ≤ c.command_capacity
      → (c.in_flight_is_game_data ≡ true → c.send_in_flight ≡ true)
      → Diagnosed (refresh_queue_diagnostics_at now c)
  unfolding refresh_queue_diagnostics_at
  refresh-Diagnosed now c l f = record {
    capacity = l;
    depth = refl;
    peak = ground arith;
    oldest = ground arith;
    in_flight_flag = f;
  }

  -- What the diagnostics look at is the same.
  pub same-Diagnosed :
      (c c' : PollingClient V T)
      → c'.cmd_queue ≡ c.cmd_queue
      → c'.command_capacity ≡ c.command_capacity
      → is_some c'.pending_frame ≡ is_some c.pending_frame
      → c'.polling_stats.current_queue_depth ≡ c.polling_stats.current_queue_depth
      → c'.polling_stats.peak_queue_depth ≡ c.polling_stats.peak_queue_depth
      → c'.queue_age_stats ≡ c.queue_age_stats
      → (c'.in_flight_is_game_data ≡ true → c'.send_in_flight ≡ true)
      → Diagnosed c
      → Diagnosed c'
  same-Diagnosed c c' q k s d p a f h = record {
    capacity = ground (arith, h.capacity);
    depth = ground (arith, h.depth);
    peak = ground (arith, h.peak);
    oldest = ground (arith, h.oldest);
    in_flight_flag = f;
  }

  after_send-Diagnosed :
      {E : Type 0} (now : ℕ) (sent : Sent T E) (c : PollingClient V T)
      → is_some c.pending_frame ≡ true
      → Diagnosed c
      → Diagnosed (after_send now sent c)
  unfolding after_send
  after_send-Diagnosed now sent c s h =
      if_cases Diagnosed (is_some sent.slot) _ _
        (λ y.
          same-Diagnosed c (record c { transport = sent.transport; pending_frame = sent.slot }) refl
            refl (y ∙ sym s) refl refl refl h.in_flight_flag h)
        (λ n.
          refresh-Diagnosed now
            (record c {
              transport = sent.transport;
              pending_frame = sent.slot;
              pending_frame_enqueued_at = none;
            })
            h.capacity h.in_flight_flag)

  after_send-slot :
      {E : Type 0} (now : ℕ) (sent : Sent T E) (c : PollingClient V T)
      → is_some (after_send now sent c).pending_frame ≡ not (not (is_some sent.slot))
  unfolding after_send refresh_queue_diagnostics_at
  after_send-slot now sent c = ground arith

  counted-Diagnosed : (b : Bool) (c : PollingClient V T) → Diagnosed c → Diagnosed (count_sent b c)
  unfolding record_game_data_sent
  counted-Diagnosed true c h = same-Diagnosed c _ refl refl refl refl refl refl h.in_flight_flag h
  counted-Diagnosed false c h = h

  exhaust_send-Bounded : (c : PollingClient V T) → Bounded c → Bounded (exhaust_send c)
  unfolding exhaust_send
  exhaust_send-Bounded c h = record {
    diagnosed =
        same-Diagnosed c (exhaust_send c) refl refl refl refl refl refl h.diagnosed.in_flight_flag
          h.diagnosed;
    pending_flag = h.pending_flag;
  }

  finish_round-Bounded :
      {E : Type 0} (result : Poll (Result (Unit {0}) E)) (transferred : Bool) (frames bytes : ℕ)
      (c : PollingClient V T)
      → is_some c.pending_frame ≡ not transferred
      → Diagnosed c
      → Bounded (finish_round result transferred frames bytes c).1
  unfolding finish_round exhaust_send
  finish_round-Bounded {E} (ready (ok _)) true frames bytes c s h =
      let counted = record (count_sent c.pending_frame_is_game_data c) {
        pending_frame_is_game_data = false;
      } in
      let k = counted-Diagnosed c.pending_frame_is_game_data c h in
      let settled : Bounded counted = record {
        diagnosed =
            same-Diagnosed (count_sent c.pending_frame_is_game_data c) counted refl refl refl refl
              refl refl k.in_flight_flag k;
        pending_flag = λ (f : false ≡ true). absurd (ground arith);
      } in
      if_cases (λ (r : Round E × PollingClient V T). Bounded r.1) (is_spent frames bytes counted)
        (stop (ok tt), exhaust_send counted) (again frames bytes, counted)
        (λ y. exhaust_send-Bounded counted settled) (λ n. settled)
  finish_round-Bounded (ready (ok _)) false frames bytes c s h = record {
    diagnosed = h;
    pending_flag = λ f. s;
  }
  finish_round-Bounded (ready (err e)) true frames bytes c s h = record {
    diagnosed = same-Diagnosed c _ refl refl refl refl refl refl h.in_flight_flag h;
    pending_flag = λ (f : false ≡ true). absurd (ground arith);
  }
  finish_round-Bounded (ready (err e)) false frames bytes c s h = record {
    diagnosed = h;
    pending_flag = λ f. s;
  }
  finish_round-Bounded pending true frames bytes c s h = record {
    diagnosed = same-Diagnosed c _ refl refl refl refl refl refl (λ f. refl) h;
    pending_flag = λ (f : false ≡ true). absurd (ground arith);
  }
  finish_round-Bounded pending false frames bytes c s h = record {
    diagnosed = h;
    pending_flag = λ f. s;
  }

  load-Bounded :
      {E : Type 0} (env : Environment V T E) (now : ℕ) (q : QueuedCommand V)
      (queue : List (QueuedCommand V)) (frame : TransportFrame) (c : PollingClient V T)
      → c.cmd_queue ≡ q ∷ queue
      → Bounded c
      → Bounded (load env now q frame (popped env q queue c))
  unfolding load refresh_queue_diagnostics_at
  load-Bounded env now q queue frame c e h = record {
    diagnosed = record {
      capacity = ground (arith, h.diagnosed.capacity);
      depth = refl;
      peak = ground arith;
      oldest = ground arith;
      in_flight_flag = h.diagnosed.in_flight_flag;
    };
    pending_flag = λ f. refl;
  }

  drop-Bounded :
      {E : Type 0} (env : Environment V T E) (now : ℕ) (q : QueuedCommand V)
      (queue : List (QueuedCommand V)) (c : PollingClient V T)
      → c.cmd_queue ≡ q ∷ queue
      → Bounded c
      → Bounded (record_serialization_failure_at now (popped env q queue c))
  unfolding record_serialization_failure_at refresh_queue_diagnostics_at
  drop-Bounded env now q queue c e h = record {
    diagnosed = record {
      capacity = ground (arith, h.diagnosed.capacity);
      depth = refl;
      peak = ground arith;
      oldest = ground arith;
      in_flight_flag = h.diagnosed.in_flight_flag;
    };
    pending_flag = h.pending_flag;
  }

  land-Bounded :
      {E : Type 0} (env : Environment V T E) (b : Bool) (c : PollingClient V T)
      → Bounded c
      → Bounded (landed env (env.transport.poll_send none c.transport).transport (count_sent b c))
  unfolding record_game_data_sent
  land-Bounded env true c h = record {
    diagnosed =
        same-Diagnosed c _ refl refl refl refl refl refl
          (λ (f : false ≡ true). absurd (ground arith)) h.diagnosed;
    pending_flag = h.pending_flag;
  }
  land-Bounded env false c h = record {
    diagnosed =
        same-Diagnosed c _ refl refl refl refl refl refl
          (λ (f : false ≡ true). absurd (ground arith)) h.diagnosed;
    pending_flag = h.pending_flag;
  }

  pub Bounded-OutboundRules : {E : Type 0} (env : Environment V T E) → OutboundRules env Bounded
  unfolding send_round exhaust_send
  Bounded-OutboundRules {E} env = record {
    sends = λ now frames bytes c p h.
        let sent = env.transport.poll_send c.pending_frame c.transport in
        if_cases (λ (r : Round E × PollingClient V T). Bounded r.1) (over_budget frames bytes c)
          (stop (ok tt), exhaust_send c) _ (λ y. exhaust_send-Bounded c h)
          (λ n.
            finish_round-Bounded sent.result (not (is_some sent.slot)) _ _ (after_send now sent c)
              (after_send-slot now sent c) (after_send-Diagnosed now sent c p h.diagnosed));
    loads = λ now q queue frame c n e f h. load-Bounded env now q queue frame c e h;
    drops = λ now q queue c n e f h. drop-Bounded env now q queue c e h;
    waits = λ c h. record {
      diagnosed =
          same-Diagnosed c _ refl refl refl refl refl refl h.diagnosed.in_flight_flag h.diagnosed;
      pending_flag = h.pending_flag;
    };
    lands = λ b c h. land-Bounded env b c h;
  }
