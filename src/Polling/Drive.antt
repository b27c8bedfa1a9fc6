-- ===== src/Polling/Drive.antt =====
-- src/polling_client.rs: `poll_at`.
use signal_fish_client_rust.Common.{
  ℕ, zero, suc, Bool, true, false, not, ◌&&◌, Option, none, some, List, [], ◌∷◌, ◌++◌,
  if◌then◌else◌, Result, ok, err,
}
use Prim.Native.String.{String}
use signal_fish_client_rust.Core.State.{SignalFishEvent, connected, FrameOutcome, ClientCore}
use signal_fish_client_rust.Core.Process.{process_frame}
use signal_fish_client_rust.Polling.State.{
  Environment, PollingClient, ClosePhase, open_phase, saturating_add, refresh_queue_diagnostics_at,
}
use signal_fish_client_rust.Polling.Outbound.{drive_outbound}
use signal_fish_client_rust.Polling.Close.{
  Inbound, frame, failed, ended, idle, exhaust_receive, inbound_over_budget, add_bytes,
  take_inbound, receive_fuel, drive_close_at, handle_disconnect_at, begin_cycle,
}

-- The events of a poll so far; `returns` where the method returns before its last statements.
pub record Received (V T : Type 0) : Type 0 where
  pub events : List (SignalFishEvent V)
  pub returns : Bool
  pub client : PollingClient V T

abbrev pub received :
    {V T : Type 0}
    → List (SignalFishEvent V)
    → Bool
    → SignalFishEvent V × PollingClient V T
    → Received V T
received events returns (event, c) = record {
  events = events ++ event ∷ [];
  returns = returns;
  client = c;
}

abbrev pub quiet : {V T : Type 0} → List (SignalFishEvent V) → PollingClient V T → Received V T
quiet events c = record { events = events; returns = false; client = c }

module _ {V T E : Type 0} (env : Environment V T E) where
  abbrev pub close_reason : T → Option String
  close_reason t = elim (env.transport.close_info t) [
    | none ↦ none
    | some info ↦ some (env.closed_by_server info)
  ]

  -- What the core made of a frame.
  unfoldable pub after_frame :
      (now : ℕ)
      → FrameOutcome V × ClientCore
      → List (SignalFishEvent V)
      → PollingClient V T
      → (List (SignalFishEvent V) → PollingClient V T → Option (Received V T))
      → Option (Received V T)
  unfolding handle_disconnect_at
  after_frame now (outcome, core) events c rest =
      let seen = events ++ outcome.events in
      let kept = record c { core = core } in
      if outcome.disconnect
      then some (
          received seen true
            (handle_disconnect_at env (some "protocol accountability violation") now kept))
      else rest seen kept

  -- One round of the loop of `poll_at`, `rest` being the rounds behind it.
  unfoldable pub receive_round :
      (now : ℕ)
      → Inbound E
      → (received_frames received_bytes : ℕ) → List (SignalFishEvent V)
      → PollingClient V T
      → ((received_frames received_bytes : ℕ)
          → List (SignalFishEvent V)
          → PollingClient V T
          → Option (Received V T))
      → Option (Received V T)
  unfolding inbound_over_budget exhaust_receive after_frame handle_disconnect_at
  receive_round now (frame f) frames bytes events c rest =
      if inbound_over_budget f frames bytes c
      then some (quiet events (exhaust_receive f c))
      else after_frame now (process_frame env.parse env.wire f c.core) events c
          (rest (saturating_add frames 1) (add_bytes bytes f))
  receive_round now (failed e) frames bytes events c rest =
      some (received events false (handle_disconnect_at env (some (env.receive_error e)) now c))
  receive_round now ended frames bytes events c rest =
      some (received events false (handle_disconnect_at env (close_reason c.transport) now c))
  receive_round now idle frames bytes events c rest = some (quiet events c)

  -- `none` where the fuel runs out.
  unfoldable pub receive_loop :
      (now fuel received_frames received_bytes : ℕ)
      → List (SignalFishEvent V)
      → PollingClient V T
      → Option (Received V T)
  unfolding receive_round take_inbound
  receive_loop now zero frames bytes events c = none
  receive_loop now (suc fuel) frames bytes events c =
      let (inbound, taken) = take_inbound env c in
      receive_round now inbound frames bytes events taken (receive_loop now fuel)

  abbrev pub received_or : PollingClient V T → Option (Received V T) → Received V T
  received_or c (some r) = r
  received_or c none = quiet [] c

  abbrev pub receive_all : ℕ → PollingClient V T → Received V T
  receive_all now c = received_or c (receive_loop now (receive_fuel env c) 0 0 [] c)

  -- `Connected` comes first in the batch.
  unfoldable pub announce_connected : Received V T → List (SignalFishEvent V) × PollingClient V T
  announce_connected r =
      if not r.returns && (not r.client.started && env.transport.is_ready r.client.transport)
      then (connected ∷ r.events, record (r.client) { started = true })
      else (r.events, r.client)

  -- The result of the sends of a poll.
  unfoldable pub after_outbound :
      ℕ → Result (Unit {0}) E × PollingClient V T → List (SignalFishEvent V) × PollingClient V T
  unfolding handle_disconnect_at receive_loop announce_connected
  after_outbound now (err e, c) =
      let (event, c) = handle_disconnect_at env (some (env.send_error e)) now c in (event ∷ [], c)
  after_outbound now (ok _, c) = announce_connected (receive_all now c)

  unfoldable pub poll_open : ℕ → PollingClient V T → List (SignalFishEvent V) × PollingClient V T
  unfolding after_outbound drive_outbound
  poll_open now c =
      if not c.core.snapshot.connected
      then ([], c)
      else after_outbound now (drive_outbound env now c)

  unfoldable pub poll_in :
      ClosePhase → ℕ → PollingClient V T → List (SignalFishEvent V) × PollingClient V T
  unfolding poll_open drive_close_at
  poll_in open_phase now c = poll_open now c
  poll_in _ now c = ([], drive_close_at env now c)

  unfoldable pub poll_at : ℕ → PollingClient V T → List (SignalFishEvent V) × PollingClient V T
  unfolding refresh_queue_diagnostics_at poll_in
  poll_at now c =
      let begun = begin_cycle env (refresh_queue_diagnostics_at now c) in
      poll_in begun.close_phase now begun
