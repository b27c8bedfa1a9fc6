-- ===== src/Polling/Rules/Client.antt =====
-- src/polling_client.rs: one traversal of `poll_at`, `close_at` and what they call for every property of
-- the client, and of the events so far, that each step keeps.
use signal_fish_client_rust.Common.{ℕ, ◌≡◌, true, false, Option, none, some, List, [], ◌∷◌, ◌++◌}
use Prim.Native.String.{String}
use signal_fish_client_rust.Transport.{TransportFrame}
use signal_fish_client_rust.Core.State.{SignalFishEvent, connected}
use signal_fish_client_rust.Core.Frames.{disconnect_core}
use signal_fish_client_rust.Core.Process.{process_frame}
use signal_fish_client_rust.Polling.State.{
  Environment, PollingClient, open_phase, flushing, closing, closed, refresh_queue_diagnostics_at,
  abandon_client_owned, is_closing,
}
use signal_fish_client_rust.Polling.Close.{
  exhaust_receive, take_inbound, expire, in_flight_phase, begin_cycle, start_close,
}
use signal_fish_client_rust.Polling.Rules.{OutboundRules}

-- The client that a connection's end leaves, before the close is driven.
abbrev pub cut_off :
    {V T : Type 0} → Option String → ℕ → PollingClient V T → SignalFishEvent V × PollingClient V T
cut_off reason now c =
    let abandoned = abandon_client_owned false now c in
    let (event, core) = disconnect_core reason abandoned.core in
    (
      event,
      record abandoned {
        pending_inbound = none;
        close_phase = in_flight_phase abandoned.send_in_flight now;
        core = core;
      },
    )

pub record ClientRules {V T E : Type 0} (env : Environment V T E)
    (P : List (SignalFishEvent V) → PollingClient V T → Type 0) : Type 0 where
  pub outbound : (events : List (SignalFishEvent V)) → OutboundRules env (P events)
  pub takes :
      (events : List (SignalFishEvent V)) (c : PollingClient V T)
      → P events c
      → P events (take_inbound env c).1
  pub exhausts :
      (events : List (SignalFishEvent V)) (f : TransportFrame) (c : PollingClient V T)
      → P events c
      → P events (exhaust_receive f c)
  pub processes :
      (events : List (SignalFishEvent V)) (f : TransportFrame) (c : PollingClient V T)
      → P events c
      → let (outcome, core) = process_frame env.parse env.wire f c.core in
        P (events ++ outcome.events) (record c { core = core })
  pub cuts_off :
      (events : List (SignalFishEvent V)) (reason : Option String) (now : ℕ) (c : PollingClient V T)
      → c.core.snapshot.connected ≡ true
      → P events c
      → let (event, cut) = cut_off reason now c in P (events ++ event ∷ []) cut
  pub starts :
      (events : List (SignalFishEvent V)) (c : PollingClient V T)
      → c.started ≡ false
      → P events c
      → P (connected ∷ events) (record c { started = true })
  pub refreshes :
      (events : List (SignalFishEvent V)) (now : ℕ) (c : PollingClient V T)
      → P events c
      → P events (begin_cycle env (refresh_queue_diagnostics_at now c))
  pub expires :
      (events : List (SignalFishEvent V)) (now : ℕ) (c : PollingClient V T)
      → is_closing c ≡ true
      → P events c
      → P events (expire env now c)
  pub gives_up :
      (events : List (SignalFishEvent V)) (now started_at : ℕ) (c : PollingClient V T)
      → c.close_phase ≡ flushing started_at
      → P events c
      → P events (record (abandon_client_owned false now c) { close_phase = closing started_at })
  pub finishes :
      (events : List (SignalFishEvent V)) (started_at : ℕ) (c : PollingClient V T)
      → c.close_phase ≡ flushing started_at
      → P events c
      → P events (record c { close_phase = closing started_at })
  pub closes :
      (events : List (SignalFishEvent V)) (started_at : ℕ) (c : PollingClient V T)
      → c.close_phase ≡ closing started_at
      → P events c
      → let t = (env.transport.poll_close c.transport).1 in
        P events (record c { transport = t })
        × P events (record c { transport = t; close_phase = closed })

-- What `close` adds.
pub record CloseRules {V T E : Type 0} (env : Environment V T E)
    (P : List (SignalFishEvent V) → PollingClient V T → Type 0) : Type 0 where
  pub shuts :
      (events : List (SignalFishEvent V)) (c : PollingClient V T)
      → c.close_phase ≡ open_phase
      → c.core.snapshot.connected ≡ false
      → P events c
      → P events (record c { close_phase = closed })
  pub leaves :
      (events : List (SignalFishEvent V)) (now : ℕ) (c : PollingClient V T)
      → c.close_phase ≡ open_phase
      → c.core.snapshot.connected ≡ true
      → P events c
      → P events (
          begin_cycle env (
            start_close env c.options.close_policy now
              (record c { core = (disconnect_core {V = V} (some "client closed") c.core).1 })))
