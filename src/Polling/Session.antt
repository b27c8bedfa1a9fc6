-- ===== src/Polling/Session.antt =====
-- src/polling_client.rs: the events `Connected` and `Disconnected` of a client.
pub mod Runs
use signal_fish_client_rust.Common.{
  ℕ, ◌+◌, ◌≤◌, ◌≡◌, refl, ◌∙◌, ap, sym, subst, Bool, true, false, not, Option, none, some, List, [],
  ◌∷◌, ◌++◌, any, count, count-append, count-none, arith,
}
use signal_fish_client_rust.Transport.{TransportFrame}
use signal_fish_client_rust.Core.Policy.{Obeys, is_connection_event}
use signal_fish_client_rust.Core.Policy.Frames.{process_frame-Obeys}
use signal_fish_client_rust.Core.State.{
  SignalFishEvent, connected, disconnected, record_game_data_sent, clear_session,
}
use signal_fish_client_rust.Core.Frames.{disconnect_core}
use signal_fish_client_rust.Core.Process.{process_frame}
use signal_fish_client_rust.Polling.State.{
  Environment, PollingClient, PollingClosePolicy, abandon, flush, from_bool,
  record_serialization_failure_at, refresh_queue_diagnostics_at, abandon_client_owned,
}
use signal_fish_client_rust.Polling.Outbound.{send_round, load, popped, count_sent, landed}
use signal_fish_client_rust.Polling.Close.{
  take_inbound, exhaust_receive, expire, begin_cycle, start_close,
}
use signal_fish_client_rust.Polling.Drive.{poll_at}
use signal_fish_client_rust.Polling.Rules.Cycle.{poll_at-keeps, close_at-keeps}
use signal_fish_client_rust.Polling.Rules.{OutboundRules}
use signal_fish_client_rust.Polling.Rules.Fixed.{
  Fixed, send_round-Fixed, take_inbound-Fixed, count_sent-Fixed,
}
use signal_fish_client_rust.Polling.Rules.Client.{ClientRules, CloseRules, cut_off}

abbrev pub is_connected_event : {V : Type 0} → SignalFishEvent V → Bool
is_connected_event connected = true
is_connected_event _ = false

abbrev pub is_disconnected_event : {V : Type 0} → SignalFishEvent V → Bool
is_disconnected_event (disconnected reason error) = true
is_disconnected_event _ = false

module _ {V T : Type 0} where
  -- The ends of the connection, with the one to come.
  abbrev pub ends : List (SignalFishEvent V) → PollingClient V T → ℕ
  ends events c = count is_disconnected_event events + from_bool c.core.snapshot.connected

  -- The starts, with the one to come.
  abbrev pub starts : List (SignalFishEvent V) → PollingClient V T → ℕ
  starts events c = count is_connected_event events + from_bool (not c.started)

module _ {V : Type 0} where
  connected-is_connection :
      (x : SignalFishEvent V) → is_connection_event x ≡ false → is_connected_event x ≡ false
  connected-is_connection connected n = n
  connected-is_connection _ n = refl

  disconnected-is_connection :
      (x : SignalFishEvent V) → is_connection_event x ≡ false → is_disconnected_event x ≡ false
  disconnected-is_connection (disconnected reason error) n = n
  disconnected-is_connection _ n = refl

  calm-connected :
      (events : List (SignalFishEvent V))
      → any is_connection_event events ≡ false
      → count is_connected_event events ≡ 0
  calm-connected events h =
      count-none is_connection_event is_connected_event connected-is_connection events h

  calm-disconnected :
      (events : List (SignalFishEvent V))
      → any is_connection_event events ≡ false
      → count is_disconnected_event events ≡ 0
  calm-disconnected events h =
      count-none is_connection_event is_disconnected_event disconnected-is_connection events h

module _ {V T E : Type 0} (env : Environment V T E) (R : ℕ → ℕ → Type 0) where
  -- `R` of the two counts.
  abbrev pub Counted : List (SignalFishEvent V) → PollingClient V T → Type 0
  Counted events c = R (ends events c) (starts events c)

  Counted-same :
      (events : List (SignalFishEvent V)) (c c' : PollingClient V T)
      → c'.core.snapshot.connected ≡ c.core.snapshot.connected
      → c'.started ≡ c.started
      → Counted events c
      → Counted events c'
  Counted-same events c c' s t h = rw (s, t) h

  Counted-OutboundRules : (events : List (SignalFishEvent V)) → OutboundRules env (Counted events)
  unfolding load refresh_queue_diagnostics_at record_serialization_failure_at
  Counted-OutboundRules events = record {
    sends = λ now frames bytes c p h.
        let fixed = send_round-Fixed env now frames bytes c in
        Counted-same events c (send_round env now frames bytes c).1 fixed.connected fixed.started h;
    loads = λ now q queue frame c n e f h. h;
    drops = λ now q queue c n e f h. h;
    waits = λ c h. h;
    lands = λ b c h.
        let fixed = count_sent-Fixed b c in
        Counted-same events c
          (landed env (env.transport.poll_send none c.transport).transport (count_sent b c))
          fixed.connected fixed.started h;
  }

  processed-Counted :
      (events new : List (SignalFishEvent V)) (c c' : PollingClient V T)
      → any is_connection_event new ≡ false
      → c'.core.snapshot.connected ≡ c.core.snapshot.connected
      → c'.started ≡ c.started
      → Counted events c
      → Counted (events ++ new) c'
  processed-Counted events new c c' n s t h =
      let disconnects : ends (events ++ new) c' ≡ ends events c =
        ground (arith, count-append is_disconnected_event events new, calm-disconnected new n) in
      let connects : starts (events ++ new) c' ≡ starts events c =
        ground (arith, count-append is_connected_event events new, calm-connected new n) in
      rw (disconnects, connects) h

  -- The end of the connection trades the end to come for the event.
  cut_off-Counted :
      (events : List (SignalFishEvent V)) (event : SignalFishEvent V) (c c' : PollingClient V T)
      → is_disconnected_event event ≡ true
      → is_connected_event event ≡ false
      → c.core.snapshot.connected ≡ true
      → c'.core.snapshot.connected ≡ false
      → c'.started ≡ c.started
      → Counted events c
      → Counted (events ++ event ∷ []) c'
  cut_off-Counted events event c c' d k s s' t h =
      let disconnects : ends (events ++ event ∷ []) c' ≡ ends events c =
        ground (arith, count-append is_disconnected_event events (event ∷ [])) in
      let connects : starts (events ++ event ∷ []) c' ≡ starts events c =
        ground (arith, count-append is_connected_event events (event ∷ [])) in
      rw (disconnects, connects) h

  started-Counted :
      (events : List (SignalFishEvent V)) (c : PollingClient V T)
      → c.started ≡ false
      → Counted events c
      → Counted (connected ∷ events) (record c { started = true })
  started-Counted events c s h =
      let connects : starts (connected ∷ events) (record c { started = true }) ≡ starts events c =
        ground arith in
      rw connects h

  pub Counted-ClientRules : ClientRules env Counted
  unfolding exhaust_receive refresh_queue_diagnostics_at expire abandon_client_owned disconnect_core
      clear_session
  Counted-ClientRules = record {
    outbound = Counted-OutboundRules;
    takes = λ events c h.
        let fixed = take_inbound-Fixed env c in
        Counted-same events c (take_inbound env c).1 fixed.connected fixed.started h;
    exhausts = λ events f c h. h;
    processes = λ events f c h.
        let o : Obeys c.core (process_frame env.parse env.wire f c.core) =
          process_frame-Obeys env.parse env.wire f c.core in
        processed-Counted events (process_frame env.parse env.wire f c.core).0.events c
          (record c { core = (process_frame env.parse env.wire f c.core).1 }) o.calm o.connection
          refl h;
    cuts_off = λ events reason now c e h.
        cut_off-Counted events (cut_off reason now c).0 c (cut_off reason now c).1 refl refl e refl
          refl h;
    starts = λ events c s h. started-Counted events c s h;
    refreshes = λ events now c h. h;
    expires = λ events now c p h. h;
    gives_up = λ events now started_at c p h. h;
    finishes = λ events started_at c p h. h;
    closes = λ events started_at c p h. (h, h);
  }

module _ {V T E : Type 0} (env : Environment V T E) where
  -- A poll reports `Disconnected` exactly if it ends the connection, and `Connected` exactly if it sets
  -- the mark that it has been reported; each once at most.
  pub poll_at-Counted :
      (now : ℕ) (c : PollingClient V T)
      → let (events, c') = poll_at env now c in
        (ends events c' ≡ from_bool c.core.snapshot.connected)
        × (starts events c' ≡ from_bool (not c.started))
  poll_at-Counted now c =
      let R : ℕ → ℕ → Type 0 =
        λ m n. (m ≡ from_bool c.core.snapshot.connected) × (n ≡ from_bool (not c.started)) in
      poll_at-keeps env (Counted env R) (Counted-ClientRules env R) now c
        (ground arith, ground arith)
