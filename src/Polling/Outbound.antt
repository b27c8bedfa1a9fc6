-- ===== src/Polling/Outbound.antt =====
-- src/polling_client.rs: `drive_outbound`. A round of its loop either stops or goes on; the loop
-- recurs on the queue, since a round that goes on has handed the pending frame over.
use signal_fish_client_rust.Common.{
  ℕ, Bool, true, false, not, ◌&&◌, ◌||◌, Option, none, some, List, [], ◌∷◌, ltb, leb, if◌then◌else◌,
  is_some, u64_max, unwrap_or, Result, ok, err,
}
use signal_fish_client_rust.Protocol.Messages.{ClientMessage, game_data}
use signal_fish_client_rust.Transport.{
  TransportFrame, text, binary, frame_payload_len, Poll, ready, pending, Sent,
}
use signal_fish_client_rust.Accountability.Report.{checked_add}
use signal_fish_client_rust.Core.State.{record_game_data_sent}
use signal_fish_client_rust.Core.Operations.{CoreCommand, message, raw_binary}
use signal_fish_client_rust.Polling.State.{
  Environment, PollingClient, QueuedCommand, saturating_add, refresh_queue_diagnostics_at,
  has_outbound_work, record_serialization_failure_at,
}

-- How a round ends, with the frames and bytes sent so far where it goes on.
pub data Round (E : Type 0) : Type 0 where
  stop : Result (Unit {0}) E → Round E
  again : (sent_frames sent_bytes : ℕ) → Round E

abbrev pub is_game_data_message : {V : Type 0} → ClientMessage V → Bool
is_game_data_message (game_data _ _ _) = true
is_game_data_message _ = false

abbrev pub slot_len : Option TransportFrame → ℕ
slot_len none = 0
slot_len (some frame) = frame_payload_len frame

module _ {V T : Type 0} where
  unfoldable pub exhaust_send : PollingClient V T → PollingClient V T
  exhaust_send c = record c {
    polling_stats = record (c.polling_stats) {
      send_budget_exhaustions = saturating_add c.polling_stats.send_budget_exhaustions 1;
    };
  }

  abbrev pub count_sent : Bool → PollingClient V T → PollingClient V T
  count_sent true c = record c { core = record_game_data_sent c.core }
  count_sent false c = c

  -- The budget does not admit the pending frame.
  unfoldable pub over_budget : (sent_frames sent_bytes : ℕ) → PollingClient V T → Bool
  unfolding checked_add
  over_budget frames bytes c =
      leb c.options.work_budget.send_frames frames
      || ltb 0 frames && (elim (checked_add bytes (slot_len c.pending_frame)) [
        | none ↦ true
        | some next ↦ ltb c.options.work_budget.send_bytes next
      ])

  -- The budget is spent, and there is more to send.
  abbrev pub is_spent : (sent_frames sent_bytes : ℕ) → PollingClient V T → Bool
  is_spent frames bytes c =
      (leb c.options.work_budget.send_frames frames || leb c.options.work_budget.send_bytes bytes)
      && has_outbound_work c

  -- What the `match result` does, `c` being the client after the call.
  unfoldable pub finish_round :
      {E : Type 0}
      → Poll (Result (Unit {0}) E)
      → (transferred : Bool) → (sent_frames sent_bytes : ℕ) → PollingClient V T
      → Round E × PollingClient V T
  unfolding exhaust_send has_outbound_work record_game_data_sent
  finish_round (ready (ok _)) false frames bytes c = (stop (ok tt), c)
  finish_round (ready (ok _)) true frames bytes c =
      let counted = record (count_sent c.pending_frame_is_game_data c) {
        pending_frame_is_game_data = false;
      } in
      if is_spent frames bytes counted
      then (stop (ok tt), exhaust_send counted)
      else (again frames bytes, counted)
  finish_round (ready (err e)) transferred frames bytes c = (
    stop (err e),
    record c {
      pending_frame_is_game_data = if transferred then false else c.pending_frame_is_game_data;
    },
  )
  finish_round pending false frames bytes c = (stop (ok tt), c)
  finish_round pending true frames bytes c = (
    stop (ok tt),
    record c {
      send_in_flight = true;
      in_flight_is_game_data = c.pending_frame_is_game_data;
      pending_frame_is_game_data = false;
    },
  )

  -- The client after `poll_send`.
  unfoldable pub after_send : {E : Type 0} → ℕ → Sent T E → PollingClient V T → PollingClient V T
  unfolding refresh_queue_diagnostics_at
  after_send now sent c =
      let handed = record c { transport = sent.transport; pending_frame = sent.slot } in
      if is_some sent.slot
      then handed
      else refresh_queue_diagnostics_at now (record handed { pending_frame_enqueued_at = none })

  abbrev pub next_bytes : ℕ → PollingClient V T → ℕ
  next_bytes bytes c = unwrap_or (checked_add bytes (slot_len c.pending_frame)) u64_max

  abbrev pub after_round :
      {E : Type 0}
      → Round E × PollingClient V T
      → ((sent_frames sent_bytes : ℕ) → PollingClient V T → Result (Unit {0}) E × PollingClient V T)
      → Result (Unit {0}) E × PollingClient V T
  after_round (stop result, c) rest = (result, c)
  after_round (again frames bytes, c) rest = rest frames bytes c

  module _ {E : Type 0} (env : Environment V T E) where
    unfoldable pub send_round :
        (now sent_frames sent_bytes : ℕ) → PollingClient V T → Round E × PollingClient V T
    unfolding over_budget exhaust_send after_send finish_round
    send_round now frames bytes c =
        if over_budget frames bytes c
        then (stop (ok tt), exhaust_send c)
        else (let sent = env.transport.poll_send c.pending_frame c.transport in
            let transferred = not (is_some sent.slot) in
            finish_round sent.result transferred
              (if transferred then saturating_add frames 1 else frames)
              (if transferred then next_bytes bytes c else bytes) (after_send now sent c))

    -- The frame that a command becomes; a message that does not serialize becomes none.
    unfoldable pub frame_of : CoreCommand V → Option TransportFrame
    frame_of (message m) = elim (env.to_json m) [ none ↦ none | some json ↦ some (text json) ]
    frame_of (raw_binary payload) = some (binary payload)

    abbrev pub is_game_data_command : CoreCommand V → Bool
    is_game_data_command (message m) = is_game_data_message m
    is_game_data_command (raw_binary payload) = true

    -- The front of the queue has been taken off it and becomes the pending frame.
    unfoldable pub load :
        ℕ → QueuedCommand V → TransportFrame → PollingClient V T → PollingClient V T
    unfolding refresh_queue_diagnostics_at
    load now q frame c = refresh_queue_diagnostics_at now (record c {
      pending_frame = some frame;
      pending_frame_is_game_data = is_game_data_command q.command;
    })

    abbrev pub popped :
        QueuedCommand V → List (QueuedCommand V) → PollingClient V T → PollingClient V T
    popped q queue c = record c {
      cmd_queue = queue;
      pending_frame_enqueued_at = some q.enqueued_at;
    }

    -- The loop from where no frame is pending, `queue` being the client's queue.
    unfoldable pub drain :
        ℕ
        → List (QueuedCommand V)
        → (sent_frames sent_bytes : ℕ) → PollingClient V T
        → Result (Unit {0}) E × PollingClient V T
    unfolding frame_of load send_round record_serialization_failure_at
    drain now [] frames bytes c = (ok tt, c)
    drain now (q ∷ queue) frames bytes c = elim (frame_of q.command) [
      | none ↦ drain now queue frames bytes (record_serialization_failure_at now (popped q queue c))
      | some frame ↦
          after_round (send_round now frames bytes (load now q frame (popped q queue c)))
            (drain now queue)
    ]

    unfoldable pub outbound_loop : ℕ → PollingClient V T → Result (Unit {0}) E × PollingClient V T
    unfolding drain send_round
    outbound_loop now c =
        if is_some c.pending_frame
        then after_round (send_round now 0 0 c) (drain now c.cmd_queue)
        else drain now c.cmd_queue 0 0 c

    abbrev pub landed : T → PollingClient V T → PollingClient V T
    landed t c = record c { transport = t; send_in_flight = false; in_flight_is_game_data = false }

    -- The frame in flight, if there is one, is driven on first.
    unfoldable pub drive_in_flight :
        Sent T E
        → PollingClient V T
        → (PollingClient V T → Result (Unit {0}) E × PollingClient V T)
        → Result (Unit {0}) E × PollingClient V T
    unfolding record_game_data_sent
    drive_in_flight sent c rest = elim sent.result [
      | pending ↦ (ok tt, record c { transport = sent.transport })
      | ready r ↦ elim r [
        | ok _ ↦ rest (landed sent.transport (count_sent c.in_flight_is_game_data c))
        | err e ↦ (err e, landed sent.transport c)
      ]
    ]

    unfoldable pub drive_outbound : ℕ → PollingClient V T → Result (Unit {0}) E × PollingClient V T
    unfolding drive_in_flight outbound_loop
    drive_outbound now c =
        if c.send_in_flight
        then drive_in_flight (env.transport.poll_send none c.transport) c (outbound_loop now)
        else outbound_loop now c
