-- ===== src/Polling/Rules/Closing.antt =====
-- src/polling_client.rs: `drive_close_at` and `handle_disconnect_at` keep what each of their steps keeps.
use signal_fish_client_rust.Common.{
  if_cases, unwrap_or, ℕ, zero, suc, ◌-◌, ◌≡◌, refl, ◌∙◌, true, not, Option, none, some, List, [],
  ◌∷◌, ◌++◌, leb, Result, ok, err, arith,
}
use Prim.Native.String.{String}
use signal_fish_client_rust.Transport.{Poll, ready, pending}
use signal_fish_client_rust.Core.State.{SignalFishEvent}
use signal_fish_client_rust.Polling.State.{
  Environment, PollingClient, ClosePhase, open_phase, flushing, closing, closed, is_closing,
  has_outbound_work,
}
use signal_fish_client_rust.Polling.Outbound.{drive_outbound}
use signal_fish_client_rust.Polling.Close.{
  Inbound, frame, failed, ended, idle, exhaust_receive, inbound_over_budget, take_inbound, discard,
  drain_loop, receive_fuel, drain_closing_inbound, closed_by, close_in, close_transport,
  after_flush, drive_close_in, drive_close_at, handle_disconnect_at,
}
use signal_fish_client_rust.Polling.Rules.Outbound.{drive_outbound-keeps}
use signal_fish_client_rust.Polling.Rules.Fixed.{
  Fixed, Fixed-refl, Fixed-trans, drive_outbound-Fixed, take_inbound-Fixed,
}
use signal_fish_client_rust.Polling.Rules.Client.{ClientRules, cut_off}

-- `P` of the client, where there is one.
abbrev pub WhereSome : {A : Type 0} → (A → Type 0) → Option A → Type 0
WhereSome P none = Unit {0}
WhereSome P (some a) = P a

module _ {V T E : Type 0} (env : Environment V T E)
    (P : List (SignalFishEvent V) → PollingClient V T → Type 0) (rules : ClientRules env P) where
  discard-keeps :
      (events : List (SignalFishEvent V)) (i : Inbound E) (frames bytes : ℕ)
      (before c : PollingClient V T)
      (rest : (f b : ℕ) → PollingClient V T → Option (PollingClient V T))
      → Fixed before c
      → P events c
      → ((f b : ℕ) → WhereSome (λ c'. Fixed before c' × P events c') (rest f b c))
      → WhereSome (λ c'. Fixed before c' × P events c') (discard env i frames bytes c rest)
  unfolding discard exhaust_receive
  discard-keeps events (frame x) frames bytes before c rest f h k =
      if_cases (WhereSome (λ c'. Fixed before c' × P events c'))
        (inbound_over_budget x frames bytes c) _ _
        (λ y. (
          record {
            phase = f.phase;
            connected = f.connected;
            capacity = f.capacity;
            options = f.options;
            timeout = f.timeout;
            started = f.started;
          },
          rules.exhausts events x c h,
        ))
        (λ n. k _ _)
  discard-keeps events (failed e) frames bytes before c rest f h k = (f, h)
  discard-keeps events ended frames bytes before c rest f h k = (f, h)
  discard-keeps events idle frames bytes before c rest f h k = (f, h)

  drain_loop-keeps :
      (events : List (SignalFishEvent V)) (fuel frames bytes : ℕ) (c before : PollingClient V T)
      → Fixed before c
      → P events c
      → WhereSome (λ c'. Fixed before c' × P events c') (drain_loop env fuel frames bytes c)
  unfolding drain_loop
  drain_loop-keeps events zero frames bytes c before f h = tt
  drain_loop-keeps events (suc fuel) frames bytes c before f h =
      let taken = (take_inbound env c).1 in
      let fixed = Fixed-trans before c taken f (take_inbound-Fixed env c) in
      let held = rules.takes events c h in
      discard-keeps events (take_inbound env c).0 frames bytes before taken (drain_loop env fuel)
        fixed held (λ f' b. drain_loop-keeps events fuel f' b taken before fixed held)

  unwrapped :
      (Q : PollingClient V T → Type 0) (o : Option (PollingClient V T)) (c : PollingClient V T)
      → WhereSome Q o
      → Q c
      → Q (unwrap_or o c)
  unwrapped Q none c h k = k
  unwrapped Q (some c') c h k = h

  drain_closing_inbound-keeps :
      (events : List (SignalFishEvent V)) (c : PollingClient V T)
      → P events c
      → Fixed c (drain_closing_inbound env c) × P events (drain_closing_inbound env c)
  unfolding drain_closing_inbound
  drain_closing_inbound-keeps events c h =
      unwrapped (λ c'. Fixed c c' × P events c') (drain_loop env (receive_fuel env c) 0 0 c) c
        (drain_loop-keeps events (receive_fuel env c) 0 0 c c (Fixed-refl c) h) (Fixed-refl c, h)

  closed_by-keeps :
      (events : List (SignalFishEvent V)) (r : Poll (Result (Unit {0}) E) × T)
      (c : PollingClient V T)
      → P events (record c { transport = r.1 })
      → P events (record c { transport = r.1; close_phase = closed })
      → P events (closed_by env r c)
  closed_by-keeps events (ready _, t) c h k = k
  closed_by-keeps events (pending, t) c h k = h

  close_in-keeps :
      (events : List (SignalFishEvent V)) (phase : ClosePhase) (c : PollingClient V T)
      → c.close_phase ≡ phase
      → P events c
      → P events (close_in env phase c)
  unfolding close_in
  close_in-keeps events (closing started_at) c e h =
      let (waits, ends) = rules.closes events started_at c e h in
      closed_by-keeps events (env.transport.poll_close c.transport) c waits ends
  close_in-keeps events (flushing started_at) c e h = h
  close_in-keeps events open_phase c e h = h
  close_in-keeps events closed c e h = h

  close_transport-keeps :
      (events : List (SignalFishEvent V)) (c : PollingClient V T)
      → P events c
      → P events (close_transport env c)
  unfolding close_transport
  close_transport-keeps events c h = close_in-keeps events c.close_phase c refl h

  after_flush-keeps :
      (events : List (SignalFishEvent V)) (now started_at : ℕ)
      (r : Result (Unit {0}) E × PollingClient V T)
      → r.1.close_phase ≡ flushing started_at
      → P events r.1
      → P events (after_flush env now started_at r)
  unfolding after_flush
  after_flush-keeps events now started_at (err e, c) f h =
      close_transport-keeps events _ (rules.gives_up events now started_at c f h)
  after_flush-keeps events now started_at (ok _, c) f h =
      if_cases (P events) (not (has_outbound_work c)) _ _
        (λ y. close_transport-keeps events _ (rules.finishes events started_at c f h)) (λ n. h)

  drive_close_in-keeps :
      (events : List (SignalFishEvent V)) (phase : ClosePhase) (now : ℕ) (c : PollingClient V T)
      → c.close_phase ≡ phase
      → P events c
      → P events (drive_close_in env phase now c)
  unfolding drive_close_in is_closing
  drive_close_in-keeps events (flushing started_at) now c e h =
      let (fixed, drained) = drain_closing_inbound-keeps events c h in
      let c' = drain_closing_inbound env c in
      if_cases (P events) (leb c.shutdown_timeout (now - started_at)) _ _
        (λ y. rules.expires events now c (ground arith) h)
        (λ n.
          after_flush-keeps events now started_at (drive_outbound env now c')
            ((drive_outbound-Fixed env now c').phase ∙ fixed.phase ∙ e)
            (drive_outbound-keeps (P events) env (rules.outbound events) now c' drained))
  drive_close_in-keeps events (closing started_at) now c e h =
      if_cases (P events) (leb c.shutdown_timeout (now - started_at)) _ _
        (λ y. rules.expires events now c (ground arith) h)
        (λ n. close_transport-keeps events _ (drain_closing_inbound-keeps events c h).1)
  drive_close_in-keeps events open_phase now c e h = h
  drive_close_in-keeps events closed now c e h = h

  pub drive_close_at-keeps :
      (events : List (SignalFishEvent V)) (now : ℕ) (c : PollingClient V T)
      → P events c
      → P events (drive_close_at env now c)
  unfolding drive_close_at
  drive_close_at-keeps events now c h = drive_close_in-keeps events c.close_phase now c refl h

  pub handle_disconnect_at-keeps :
      (events : List (SignalFishEvent V)) (reason : Option String) (now : ℕ) (c : PollingClient V T)
      → c.core.snapshot.connected ≡ true
      → P events c
      → let (event, c') = handle_disconnect_at env reason now c in P (events ++ event ∷ []) c'
  unfolding handle_disconnect_at
  handle_disconnect_at-keeps events reason now c e h =
      let (event, cut) = cut_off reason now c in
      drive_close_at-keeps (events ++ event ∷ []) now cut (rules.cuts_off events reason now c e h)
