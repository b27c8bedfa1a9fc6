-- ===== src/Polling/Close.antt =====
-- src/polling_client.rs: `close`, `drive_close_at` and `drain_closing_inbound`.
use signal_fish_client_rust.Common.{
  ℕ, zero, suc, ◌+◌, ◌-◌, Bool, true, false, not, ◌&&◌, ◌||◌, Option, none, some, ltb, leb,
  if◌then◌else◌, u64_max, unwrap_or, Result, ok, err,
}
use Prim.Native.String.{String}
use signal_fish_client_rust.Transport.{TransportFrame, frame_payload_len, Poll, ready, pending}
use signal_fish_client_rust.Accountability.Report.{checked_add}
use signal_fish_client_rust.Core.State.{SignalFishEvent}
use signal_fish_client_rust.Core.Frames.{disconnect_core}
use signal_fish_client_rust.Polling.State.{
  Environment, PollingClient, PollingClosePolicy, abandon, flush, ClosePhase, open_phase, flushing,
  closing, closed, saturating_add, has_outbound_work, abandon_client_owned,
}
use signal_fish_client_rust.Polling.Outbound.{drive_outbound}

-- What the client finds when it looks for the next frame.
pub data Inbound (E : Type 0) : Type 0 where
  frame : TransportFrame → Inbound E
  failed : E → Inbound E
  ended idle : Inbound E

abbrev pub inbound_of : {E : Type 0} → Poll (Option (Result TransportFrame E)) → Inbound E
inbound_of (ready (some (ok f))) = frame f
inbound_of (ready (some (err e))) = failed e
inbound_of (ready none) = ended
inbound_of pending = idle

abbrev pub add_bytes : ℕ → TransportFrame → ℕ
add_bytes bytes f = unwrap_or (checked_add bytes (frame_payload_len f)) u64_max

abbrev pub in_flight_phase : Bool → ℕ → ClosePhase
in_flight_phase true now = flushing now
in_flight_phase false now = closing now

module _ {V T : Type 0} where
  unfoldable pub exhaust_receive : TransportFrame → PollingClient V T → PollingClient V T
  exhaust_receive f c = record c {
    pending_inbound = some f;
    polling_stats = record (c.polling_stats) {
      receive_budget_exhaustions = saturating_add c.polling_stats.receive_budget_exhaustions 1;
    };
  }

  -- A cycle takes its first frame in any case.
  unfoldable pub inbound_over_budget :
      TransportFrame → (received_frames received_bytes : ℕ) → PollingClient V T → Bool
  unfolding checked_add
  inbound_over_budget f frames bytes c =
      ltb 0 frames
      && (leb c.options.work_budget.receive_frames frames
          || (elim (checked_add bytes (frame_payload_len f)) [
            | none ↦ true
            | some next ↦ ltb c.options.work_budget.receive_bytes next
          ]))

  module _ {E : Type 0} (env : Environment V T E) where
    unfoldable pub take_inbound : PollingClient V T → Inbound E × PollingClient V T
    take_inbound c = elim c.pending_inbound [
      | some f ↦ (frame f, record c { pending_inbound = none })
      | none ↦
          let (result, t) = env.transport.poll_recv c.transport in
          (inbound_of result, record c { transport = t })
    ]

    -- One round of the loop, `rest` being the rounds behind it.
    unfoldable pub discard :
        Inbound E
        → (received_frames received_bytes : ℕ) → PollingClient V T
        → ((received_frames received_bytes : ℕ) → PollingClient V T → Option (PollingClient V T))
        → Option (PollingClient V T)
    unfolding inbound_over_budget exhaust_receive
    discard (frame f) frames bytes c rest =
        if inbound_over_budget f frames bytes c
        then some (exhaust_receive f c)
        else rest (saturating_add frames 1) (add_bytes bytes f) c
    discard _ frames bytes c rest = some c

    -- `none` where the fuel runs out.
    unfoldable pub drain_loop :
        (fuel received_frames received_bytes : ℕ) → PollingClient V T → Option (PollingClient V T)
    unfolding discard take_inbound
    drain_loop zero frames bytes c = none
    drain_loop (suc fuel) frames bytes c =
        let (inbound, taken) = take_inbound c in
        discard inbound frames bytes taken (drain_loop fuel)

    -- A round that goes on has counted a frame, so that the budget ends the loop.
    abbrev pub receive_fuel : PollingClient V T → ℕ
    receive_fuel c = c.options.work_budget.receive_frames + 2

    unfoldable pub drain_closing_inbound : PollingClient V T → PollingClient V T
    unfolding drain_loop
    drain_closing_inbound c = unwrap_or (drain_loop (receive_fuel c) 0 0 c) c

    abbrev pub closed_by : Poll (Result (Unit {0}) E) × T → PollingClient V T → PollingClient V T
    closed_by (ready _, t) c = record c { transport = t; close_phase = closed }
    closed_by (pending, t) c = record c { transport = t }

    unfoldable pub close_in : ClosePhase → PollingClient V T → PollingClient V T
    close_in (closing started_at) c = closed_by (env.transport.poll_close c.transport) c
    close_in _ c = c

    -- The end of `drive_close_at`.
    unfoldable pub close_transport : PollingClient V T → PollingClient V T
    unfolding close_in
    close_transport c = close_in c.close_phase c

    -- The result of the sends of a flush.
    unfoldable pub after_flush :
        (now started_at : ℕ) → Result (Unit {0}) E × PollingClient V T → PollingClient V T
    unfolding close_transport abandon_client_owned has_outbound_work
    after_flush now started_at (err e, c) =
        close_transport
          (record (abandon_client_owned false now c) { close_phase = closing started_at })
    after_flush now started_at (ok _, c) =
        if not (has_outbound_work c)
        then close_transport (record c { close_phase = closing started_at })
        else c

    unfoldable pub expire : ℕ → PollingClient V T → PollingClient V T
    unfolding abandon_client_owned
    expire now c =
        let abandoned = abandon_client_owned true now c in
        record abandoned {
          transport = env.transport.abort abandoned.transport;
          polling_stats = record (abandoned.polling_stats) {
            close_deadline_expirations =
                saturating_add abandoned.polling_stats.close_deadline_expirations 1;
          };
          close_phase = closed;
        }

    unfoldable pub drive_close_in : ClosePhase → ℕ → PollingClient V T → PollingClient V T
    unfolding expire drain_closing_inbound after_flush drive_outbound close_transport
    drive_close_in (flushing started_at) now c =
        if leb c.shutdown_timeout (now - started_at)
        then expire now c
        else after_flush now started_at (drive_outbound env now (drain_closing_inbound c))
    drive_close_in (closing started_at) now c =
        if leb c.shutdown_timeout (now - started_at)
        then expire now c
        else close_transport (drain_closing_inbound c)
    drive_close_in _ now c = c

    unfoldable pub drive_close_at : ℕ → PollingClient V T → PollingClient V T
    unfolding drive_close_in
    drive_close_at now c = drive_close_in c.close_phase now c

    unfoldable pub handle_disconnect_at :
        (reason : Option String) → ℕ → PollingClient V T → SignalFishEvent V × PollingClient V T
    unfolding abandon_client_owned disconnect_core drive_close_at
    handle_disconnect_at reason now c =
        let abandoned = abandon_client_owned false now c in
        let (event, core) = disconnect_core reason abandoned.core in
        (
          event,
          drive_close_at now (record abandoned {
            pending_inbound = none;
            close_phase = in_flight_phase abandoned.send_in_flight now;
            core = core;
          }),
        )

    abbrev pub begin_cycle : PollingClient V T → PollingClient V T
    begin_cycle c = record c { transport = env.transport.begin_poll_cycle c.transport }

    abbrev pub start_close : PollingClosePolicy → ℕ → PollingClient V T → PollingClient V T
    start_close abandon now c =
        let abandoned = abandon_client_owned false now c in
        record abandoned { close_phase = in_flight_phase abandoned.send_in_flight now }
    start_close flush now c = record c { close_phase = flushing now }

    unfoldable pub close_open : ℕ → PollingClient V T → PollingClient V T
    unfolding abandon_client_owned disconnect_core drive_close_at
    close_open now c =
        if not c.core.snapshot.connected
        then record c { close_phase = closed }
        else (let (event, core) = disconnect_core {V = V} (some "client closed") c.core in
            drive_close_at now
              (begin_cycle (start_close c.options.close_policy now (record c { core = core }))))

    unfoldable pub close_from : ClosePhase → ℕ → PollingClient V T → PollingClient V T
    unfolding close_open
    close_from open_phase now c = close_open now c
    close_from _ now c = c

    unfoldable pub close_at : ℕ → PollingClient V T → PollingClient V T
    unfolding close_from
    close_at now c = close_from c.close_phase now c
