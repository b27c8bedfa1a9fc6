-- ===== src/Polling/Rules.antt =====
-- src/polling_client.rs: one traversal of `drive_outbound` for every property of the client that each
-- of its steps keeps.
pub mod Outbound
pub mod Fixed
pub mod Closing
pub mod Cycle
pub mod Client
use signal_fish_client_rust.Common.{
  ℕ, ◌≡◌, refl, ◌∙◌, sym, subst, inl, inr, Bool, true, false, not, Option, none, some, List, [],
  ◌∷◌, is_some, Result, ok, err, Option-cases, Bool-cases, arith,
}
use signal_fish_client_rust.Transport.{TransportFrame, Poll, ready, pending, Sent}
use signal_fish_client_rust.Polling.State.{
  Environment, PollingClient, QueuedCommand, refresh_queue_diagnostics_at,
  record_serialization_failure_at,
}
use signal_fish_client_rust.Polling.Outbound.{
  Round, stop, again, count_sent, finish_round, after_send, after_round, send_round, frame_of, load,
  popped, drain, outbound_loop, landed, drive_in_flight, drive_outbound,
}

pub record OutboundRules {V T E : Type 0} (env : Environment V T E) (P : PollingClient V T → Type 0)
    : Type 0 where
  pub sends :
      (now frames bytes : ℕ) (c : PollingClient V T)
      → is_some c.pending_frame ≡ true
      → P c
      → P (send_round env now frames bytes c).1
  pub loads :
      (now : ℕ) (q : QueuedCommand V) (queue : List (QueuedCommand V)) (frame : TransportFrame)
      (c : PollingClient V T)
      → c.pending_frame ≡ none
      → c.cmd_queue ≡ q ∷ queue
      → frame_of env q.command ≡ some frame
      → P c
      → P (load env now q frame (popped env q queue c))
  pub drops :
      (now : ℕ) (q : QueuedCommand V) (queue : List (QueuedCommand V)) (c : PollingClient V T)
      → c.pending_frame ≡ none
      → c.cmd_queue ≡ q ∷ queue
      → frame_of env q.command ≡ none
      → P c
      → P (record_serialization_failure_at now (popped env q queue c))
  pub waits :
      (c : PollingClient V T)
      → P c
      → P (record c { transport = (env.transport.poll_send none c.transport).transport })
  pub lands :
      (b : Bool) (c : PollingClient V T)
      → P c
      → P (landed env (env.transport.poll_send none c.transport).transport (count_sent b c))

module _ {V T E : Type 0} where
  finish_round-queue :
      (result : Poll (Result (Unit {0}) E)) (transferred : Bool) (frames bytes : ℕ)
      (c : PollingClient V T)
      → (finish_round result transferred frames bytes c).1.cmd_queue ≡ c.cmd_queue
  unfolding finish_round
  finish_round-queue (ready (ok _)) false frames bytes c = refl
  finish_round-queue (ready (ok _)) true frames bytes c = ground arith
  finish_round-queue (ready (err e)) transferred frames bytes c = refl
  finish_round-queue pending false frames bytes c = refl
  finish_round-queue pending true frames bytes c = refl

  finish_round-pending :
      (result : Poll (Result (Unit {0}) E)) (transferred : Bool) (frames bytes : ℕ)
      (c : PollingClient V T)
      → (finish_round result transferred frames bytes c).1.pending_frame ≡ c.pending_frame
  unfolding finish_round
  finish_round-pending (ready (ok _)) false frames bytes c = refl
  finish_round-pending (ready (ok _)) true frames bytes c = ground arith
  finish_round-pending (ready (err e)) transferred frames bytes c = refl
  finish_round-pending pending false frames bytes c = refl
  finish_round-pending pending true frames bytes c = refl

  finish_round-again :
      (result : Poll (Result (Unit {0}) E)) (transferred : Bool) (frames bytes f b : ℕ)
      (c : PollingClient V T)
      → (finish_round result transferred frames bytes c).0 ≡ again f b
      → transferred ≡ true
  unfolding finish_round
  finish_round-again (ready (ok _)) false frames bytes f b c h = cc
  finish_round-again (ready (ok _)) true frames bytes f b c h = refl
  finish_round-again (ready (err e)) transferred frames bytes f b c h = cc
  finish_round-again pending false frames bytes f b c h = cc
  finish_round-again pending true frames bytes f b c h = cc

  after_send-queue :
      (now : ℕ) (sent : Sent T E) (c : PollingClient V T)
      → ((after_send now sent c).cmd_queue ≡ c.cmd_queue)
        × ((after_send now sent c).pending_frame ≡ sent.slot)
  unfolding after_send
  after_send-queue now sent c = ground arith

  module _ (env : Environment V T E) where
    pub send_round-queue :
        (now frames bytes : ℕ) (c : PollingClient V T)
        → (send_round env now frames bytes c).1.cmd_queue ≡ c.cmd_queue
    unfolding send_round
    send_round-queue now frames bytes c =
        let sent = env.transport.poll_send c.pending_frame c.transport in
        ground (
          arith,
          finish_round-queue sent.result (not (is_some sent.slot)) _ _ (after_send now sent c),
          after_send-queue now sent c,
        )

    -- A round that goes on has handed the frame over.
    pub send_round-again :
        (now frames bytes f b : ℕ) (c : PollingClient V T)
        → (send_round env now frames bytes c).0 ≡ again f b
        → (send_round env now frames bytes c).1.pending_frame ≡ none
    unfolding send_round
    send_round-again now frames bytes f b c h =
        let sent = env.transport.poll_send c.pending_frame c.transport in
        let handed = not (is_some sent.slot) in
        ground (
          arith,
          finish_round-pending sent.result handed _ _ (after_send now sent c),
          finish_round-again sent.result handed _ _ f b (after_send now sent c),
          after_send-queue now sent c,
        )

    pub load-settled :
        (now : ℕ) (q : QueuedCommand V) (queue : List (QueuedCommand V)) (frame : TransportFrame)
        (c : PollingClient V T)
        → let loaded = load env now q frame (popped env q queue c) in
          (loaded.cmd_queue ≡ queue) × (is_some loaded.pending_frame ≡ true)
    unfolding load refresh_queue_diagnostics_at
    load-settled now q queue frame c = (refl, refl)

    pub drop-settled :
        (now : ℕ) (q : QueuedCommand V) (queue : List (QueuedCommand V)) (c : PollingClient V T)
        → let dropped = record_serialization_failure_at now (popped env q queue c) in
          (dropped.cmd_queue ≡ queue) × (dropped.pending_frame ≡ c.pending_frame)
    unfolding record_serialization_failure_at refresh_queue_diagnostics_at
    drop-settled now q queue c = (refl, refl)
