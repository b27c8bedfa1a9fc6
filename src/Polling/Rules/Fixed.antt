-- ===== src/Polling/Rules/Fixed.antt =====
-- src/polling_client.rs: what the sends and the look for an inbound frame never change.
use signal_fish_client_rust.Common.{
  ℕ, ◌≡◌, refl, ◌∙◌, Bool, true, false, not, is_some, Result, ok, err, if_cases, arith,
}
use signal_fish_client_rust.Transport.{Poll, ready, pending, Sent}
use signal_fish_client_rust.Core.State.{record_game_data_sent}
use signal_fish_client_rust.Polling.State.{
  Environment, PollingClient, refresh_queue_diagnostics_at, record_serialization_failure_at,
}
use signal_fish_client_rust.Polling.Outbound.{
  stop, exhaust_send, over_budget, count_sent, finish_round, after_send, send_round, load,
  drive_outbound,
}
use signal_fish_client_rust.Polling.Close.{take_inbound}
use signal_fish_client_rust.Polling.Rules.Outbound.{drive_outbound-keeps}

-- The fields of the first client that the second one still has.
pub record Fixed {V T : Type 0} (before c : PollingClient V T) : Type 0 where
  pub phase : c.close_phase ≡ before.close_phase
  pub connected : c.core.snapshot.connected ≡ before.core.snapshot.connected
  pub capacity : c.command_capacity ≡ before.command_capacity
  pub options : c.options ≡ before.options
  pub timeout : c.shutdown_timeout ≡ before.shutdown_timeout
  pub started : c.started ≡ before.started

module _ {V T : Type 0} where
  pub Fixed-refl : (c : PollingClient V T) → Fixed c c
  Fixed-refl c = record {
    phase = refl;
    connected = refl;
    capacity = refl;
    options = refl;
    timeout = refl;
    started = refl;
  }

  pub Fixed-trans : (a b c : PollingClient V T) → Fixed a b → Fixed b c → Fixed a c
  Fixed-trans a b c f g = record {
    phase = g.phase ∙ f.phase;
    connected = g.connected ∙ f.connected;
    capacity = g.capacity ∙ f.capacity;
    options = g.options ∙ f.options;
    timeout = g.timeout ∙ f.timeout;
    started = g.started ∙ f.started;
  }

  pub count_sent-Fixed : (b : Bool) (c : PollingClient V T) → Fixed c (count_sent b c)
  unfolding record_game_data_sent
  count_sent-Fixed true c = record {
    phase = refl;
    connected = refl;
    capacity = refl;
    options = refl;
    timeout = refl;
    started = refl;
  }
  count_sent-Fixed false c = Fixed-refl c

module _ {V T E : Type 0} where
  finish_round-Fixed :
      (result : Poll (Result (Unit {0}) E)) (transferred : Bool) (frames bytes : ℕ)
      (c : PollingClient V T)
      → Fixed c (finish_round result transferred frames bytes c).1
  unfolding finish_round record_game_data_sent
  finish_round-Fixed (ready (ok _)) true frames bytes c = record {
    phase = ground arith;
    connected = ground arith;
    capacity = ground arith;
    options = ground arith;
    timeout = ground arith;
    started = ground arith;
  }
  finish_round-Fixed (ready (ok _)) false frames bytes c = Fixed-refl c
  finish_round-Fixed (ready (err e)) transferred frames bytes c = record {
    phase = refl;
    connected = refl;
    capacity = refl;
    options = refl;
    timeout = refl;
    started = refl;
  }
  finish_round-Fixed pending true frames bytes c = record {
    phase = refl;
    connected = refl;
    capacity = refl;
    options = refl;
    timeout = refl;
    started = refl;
  }
  finish_round-Fixed pending false frames bytes c = Fixed-refl c

  after_send-Fixed :
      (now : ℕ) (sent : Sent T E) (c : PollingClient V T) → Fixed c (after_send now sent c)
  unfolding after_send refresh_queue_diagnostics_at
  after_send-Fixed now sent c = record {
    phase = ground arith;
    connected = ground arith;
    capacity = ground arith;
    options = ground arith;
    timeout = ground arith;
    started = ground arith;
  }

  module _ (env : Environment V T E) where
    pub send_round-Fixed :
        (now frames bytes : ℕ) (c : PollingClient V T)
        → Fixed c (send_round env now frames bytes c).1
    unfolding send_round exhaust_send
    send_round-Fixed now frames bytes c =
        let sent = env.transport.poll_send c.pending_frame c.transport in
        let handed = not (is_some sent.slot) in
        let after = after_send now sent c in
        if_cases (λ r. Fixed c r.1) (over_budget frames bytes c) (stop (ok tt), exhaust_send c)
          (finish_round sent.result handed _ _ after)
          (λ y. record {
            phase = refl;
            connected = refl;
            capacity = refl;
            options = refl;
            timeout = refl;
            started = refl;
          })
          (λ n.
            Fixed-trans c after _ (after_send-Fixed now sent c)
              (finish_round-Fixed sent.result handed _ _ after))

    pub drive_outbound-Fixed :
        (now : ℕ) (c : PollingClient V T) → Fixed c (drive_outbound env now c).1
    unfolding load refresh_queue_diagnostics_at record_serialization_failure_at
        record_game_data_sent
    drive_outbound-Fixed now c =
        drive_outbound-keeps (Fixed c) env
          (record {
            sends = λ now frames bytes c' p h.
                Fixed-trans c c' _ h (send_round-Fixed now frames bytes c');
            loads = λ now q queue frame c' n e f h. Fixed-trans c c' _ h (record {
              phase = refl;
              connected = refl;
              capacity = refl;
              options = refl;
              timeout = refl;
              started = refl;
            });
            drops = λ now q queue c' n e f h. Fixed-trans c c' _ h (record {
              phase = refl;
              connected = refl;
              capacity = refl;
              options = refl;
              timeout = refl;
              started = refl;
            });
            waits = λ c' h. Fixed-trans c c' _ h (record {
              phase = refl;
              connected = refl;
              capacity = refl;
              options = refl;
              timeout = refl;
              started = refl;
            });
            lands = λ b c' h.
                let counted = count_sent b c' in
                Fixed-trans c c' _ h (
                  Fixed-trans c' counted _ (count_sent-Fixed b c') (record {
                    phase = refl;
                    connected = refl;
                    capacity = refl;
                    options = refl;
                    timeout = refl;
                    started = refl;
                  }));
          })
          now c (Fixed-refl c)

    pub take_inbound-Fixed : (c : PollingClient V T) → Fixed c (take_inbound env c).1
    unfolding take_inbound
    take_inbound-Fixed c = record {
      phase = ground arith;
      connected = ground arith;
      capacity = ground arith;
      options = ground arith;
      timeout = ground arith;
      started = ground arith;
    }
