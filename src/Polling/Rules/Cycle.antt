-- ===== src/Polling/Rules/Cycle.antt =====
-- src/polling_client.rs: `poll_at` and `close_at` keep what each of their steps keeps.
use signal_fish_client_rust.Common.{
  if_cases, ℕ, zero, suc, ◌≡◌, refl, ◌∙◌, true, not, ◌&&◌, Option, none, some, List, [], ◌++◌,
  Result, ok, err, arith,
}
use signal_fish_client_rust.Transport.{TransportFrame}
use signal_fish_client_rust.Core.State.{SignalFishEvent}
use signal_fish_client_rust.Core.Process.{process_frame}
use signal_fish_client_rust.Polling.State.{
  Environment, PollingClient, ClosePhase, open_phase, flushing, closing, closed,
}
use signal_fish_client_rust.Polling.Outbound.{drive_outbound}
use signal_fish_client_rust.Polling.Close.{
  Inbound, frame, failed, ended, idle, inbound_over_budget, take_inbound, receive_fuel, close_open,
  close_from, close_at,
}
use signal_fish_client_rust.Polling.Drive.{
  Received, close_reason, after_frame, receive_round, receive_loop, received_or, receive_all,
  announce_connected, after_outbound, poll_open, poll_in, poll_at,
}
use signal_fish_client_rust.Polling.Rules.Outbound.{drive_outbound-keeps}
use signal_fish_client_rust.Polling.Rules.Fixed.{drive_outbound-Fixed, take_inbound-Fixed}
use signal_fish_client_rust.Polling.Rules.Client.{ClientRules, CloseRules}
use signal_fish_client_rust.Core.Policy.{Obeys}
use signal_fish_client_rust.Core.Policy.Frames.{process_frame-Obeys}
use signal_fish_client_rust.Polling.Rules.Closing.{
  WhereSome, drive_close_at-keeps, handle_disconnect_at-keeps,
}

module _ {V T E : Type 0} (env : Environment V T E)
    (P : List (SignalFishEvent V) → PollingClient V T → Type 0) (rules : ClientRules env P) where
  after_frame-keeps :
      (now : ℕ) (x : TransportFrame) (events : List (SignalFishEvent V)) (c : PollingClient V T)
      (rest : List (SignalFishEvent V) → PollingClient V T → Option (Received V T))
      → c.core.snapshot.connected ≡ true
      → P events c
      → ((events' : List (SignalFishEvent V)) (c' : PollingClient V T)
          → c'.core.snapshot.connected ≡ true
          → P events' c'
          → WhereSome (λ r. P r.events r.client) (rest events' c'))
      → WhereSome
          (λ r. P r.events r.client)
          (after_frame env now (process_frame env.parse env.wire x c.core) events c rest)
  unfolding after_frame
  after_frame-keeps now x events c rest e h k =
      let step = process_frame env.parse env.wire x c.core in
      let kept = record c { core = step.1 } in
      let o : Obeys c.core step = process_frame-Obeys env.parse env.wire x c.core in
      let processed = rules.processes events x c h in
      if_cases (WhereSome (λ r. P r.events r.client)) step.0.disconnect _ _
        (λ y.
          handle_disconnect_at-keeps env P rules (events ++ step.0.events)
            (some "protocol accountability violation") now kept (o.connection ∙ e) processed)
        (λ n. k _ kept (o.connection ∙ e) processed)

  receive_round-keeps :
      (now : ℕ) (i : Inbound E) (frames bytes : ℕ) (events : List (SignalFishEvent V))
      (c : PollingClient V T)
      (rest : (f b : ℕ) → List (SignalFishEvent V) → PollingClient V T → Option (Received V T))
      → c.core.snapshot.connected ≡ true
      → P events c
      → ((f b : ℕ) (events' : List (SignalFishEvent V)) (c' : PollingClient V T)
          → c'.core.snapshot.connected ≡ true
          → P events' c'
          → WhereSome (λ r. P r.events r.client) (rest f b events' c'))
      → WhereSome (λ r. P r.events r.client) (receive_round env now i frames bytes events c rest)
  unfolding receive_round
  receive_round-keeps now (frame x) frames bytes events c rest e h k =
      if_cases (WhereSome (λ r. P r.events r.client)) (inbound_over_budget x frames bytes c) _ _
        (λ y. rules.exhausts events x c h) (λ n. after_frame-keeps now x events c _ e h (k _ _))
  receive_round-keeps now (failed x) frames bytes events c rest e h k =
      handle_disconnect_at-keeps env P rules events (some (env.receive_error x)) now c e h
  receive_round-keeps now ended frames bytes events c rest e h k =
      handle_disconnect_at-keeps env P rules events (close_reason env c.transport) now c e h
  receive_round-keeps now idle frames bytes events c rest e h k = h

  receive_loop-keeps :
      (now fuel frames bytes : ℕ) (events : List (SignalFishEvent V)) (c : PollingClient V T)
      → c.core.snapshot.connected ≡ true
      → P events c
      → WhereSome (λ r. P r.events r.client) (receive_loop env now fuel frames bytes events c)
  unfolding receive_loop
  receive_loop-keeps now zero frames bytes events c e h = tt
  receive_loop-keeps now (suc fuel) frames bytes events c e h =
      receive_round-keeps now (take_inbound env c).0 frames bytes events (take_inbound env c).1
        (receive_loop env now fuel) ((take_inbound-Fixed env c).connected ∙ e)
        (rules.takes events c h) (receive_loop-keeps now fuel)

  announce_connected-keeps :
      (r : Received V T)
      → P r.events r.client
      → let (events, c) = announce_connected env r in P events c
  unfolding announce_connected
  announce_connected-keeps r h =
      if_cases (λ (s : List (SignalFishEvent V) × PollingClient V T). P s.0 s.1)
        (not r.returns && (not r.client.started && env.transport.is_ready r.client.transport)) _ _
        (λ y. rules.starts r.events r.client (ground arith) h) (λ n. h)

  received_or-keeps :
      (c : PollingClient V T) (o : Option (Received V T))
      → P [] c
      → WhereSome (λ r. P r.events r.client) o
      → P (received_or env c o).events (received_or env c o).client
  received_or-keeps c none h k = h
  received_or-keeps c (some r) h k = k

  after_outbound-keeps :
      (now : ℕ) (r : Result (Unit {0}) E × PollingClient V T)
      → r.1.core.snapshot.connected ≡ true
      → P [] r.1
      → let (events, c) = after_outbound env now r in P events c
  unfolding after_outbound
  after_outbound-keeps now (err x, c) e h =
      handle_disconnect_at-keeps env P rules [] (some (env.send_error x)) now c e h
  after_outbound-keeps now (ok _, c) e h =
      announce_connected-keeps (receive_all env now c)
        (received_or-keeps c _ h (receive_loop-keeps now (receive_fuel env c) 0 0 [] c e h))

  poll_open-keeps :
      (now : ℕ) (c : PollingClient V T)
      → P [] c
      → let (events, c') = poll_open env now c in P events c'
  unfolding poll_open
  poll_open-keeps now c h =
      if_cases (λ (s : List (SignalFishEvent V) × PollingClient V T). P s.0 s.1)
        (not c.core.snapshot.connected) _ _ (λ y. h)
        (λ n.
          after_outbound-keeps now (drive_outbound env now c)
            ((drive_outbound-Fixed env now c).connected ∙ ground arith)
            (drive_outbound-keeps (P []) env (rules.outbound []) now c h))

  poll_in-keeps :
      (phase : ClosePhase) (now : ℕ) (c : PollingClient V T)
      → P [] c
      → let (events, c') = poll_in env phase now c in P events c'
  unfolding poll_in
  poll_in-keeps open_phase now c h = poll_open-keeps now c h
  poll_in-keeps (flushing t) now c h = drive_close_at-keeps env P rules [] now c h
  poll_in-keeps (closing t) now c h = drive_close_at-keeps env P rules [] now c h
  poll_in-keeps closed now c h = drive_close_at-keeps env P rules [] now c h

  pub poll_at-keeps :
      (now : ℕ) (c : PollingClient V T)
      → P [] c
      → let (events, c') = poll_at env now c in P events c'
  unfolding poll_at
  poll_at-keeps now c h = poll_in-keeps _ now _ (rules.refreshes [] now c h)

  module _ (shutting : CloseRules env P) where
    close_from-keeps :
        (events : List (SignalFishEvent V)) (phase : ClosePhase) (now : ℕ) (c : PollingClient V T)
        → c.close_phase ≡ phase
        → P events c
        → P events (close_from env phase now c)
    unfolding close_from close_open
    close_from-keeps events open_phase now c e h =
        if_cases (P events) (not c.core.snapshot.connected) _ _
          (λ y. shutting.shuts events c e (ground arith) h)
          (λ n.
            drive_close_at-keeps env P rules events now _
              (shutting.leaves events now c e (ground arith) h))
    close_from-keeps events (flushing t) now c e h = h
    close_from-keeps events (closing t) now c e h = h
    close_from-keeps events closed now c e h = h

    pub close_at-keeps :
        (events : List (SignalFishEvent V)) (now : ℕ) (c : PollingClient V T)
        → P events c
        → P events (close_at env now c)
    unfolding close_at
    close_at-keeps events now c h = close_from-keeps events c.close_phase now c refl h
