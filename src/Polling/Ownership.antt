-- ===== src/Polling/Ownership.antt =====
-- src/polling_client.rs: which frames the client owes its transport. The command queue with its pending
-- frame is compared with a first-in first-out queue of frames.
pub mod Steps
pub mod Rules
pub mod Runs
use signal_fish_client_rust.Common.{
  ℕ, ◌≡◌, refl, ◌∙◌, ap, sym, Bool, true, false, Option, none, some, List, [], ◌∷◌, ◌++◌, Result,
  ok, err, append_assoc, append-nil, arith,
}
use signal_fish_client_rust.Transport.{TransportFrame, TakesOnce, kept, taken}
use signal_fish_client_rust.Polling.State.{Environment, PollingClient, QueuedCommand, open_phase}
use signal_fish_client_rust.Polling.Outbound.{frame_of}

abbrev pub of_slot : Option TransportFrame → List TransportFrame
of_slot none = []
of_slot (some frame) = frame ∷ []

module _ {V T E : Type 0} (env : Environment V T E) where
  -- The frames that the queue will become; a command that does not serialize becomes none.
  unfoldable pub made : List (QueuedCommand V) → List TransportFrame
  unfolding frame_of
  made [] = []
  made (q ∷ queue) = of_slot (frame_of env q.command) ++ made queue

  abbrev pub waiting : PollingClient V T → List TransportFrame
  waiting c = of_slot c.pending_frame ++ made c.cmd_queue

  pub made-append :
      (queue : List (QueuedCommand V)) (q : QueuedCommand V)
      → made (queue ++ q ∷ []) ≡ made queue ++ of_slot (frame_of env q.command)
  unfolding made
  made-append [] q = append-nil _
  made-append (x ∷ queue) q =
      ap (λ frames. of_slot (frame_of env x.command) ++ frames) (made-append queue q)
      ∙ sym (append_assoc (of_slot (frame_of env x.command)) _ _)

  -- What the transport took, then what waits for it.
  abbrev pub owned : (T → List TransportFrame) → PollingClient V T → List TransportFrame
  owned log c = log c.transport ++ waiting c

-- `all` is what the client owns and then what it gave up, which is nothing while it is connected;
-- then its close has not begun either.
pub record Owed {V T E : Type 0} (env : Environment V T E) (log : T → List TransportFrame)
    (all : List TransportFrame) (c : PollingClient V T) : Type 0 where
  pub abandoned : List TransportFrame
  pub sum : owned env log c ++ abandoned ≡ all
  pub none_abandoned : c.core.snapshot.connected ≡ true → abandoned ≡ []
  pub is_open : c.core.snapshot.connected ≡ true → c.close_phase ≡ open_phase
