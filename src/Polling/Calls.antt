-- ===== src/Polling/Calls.antt =====
-- src/polling_client.rs: the calls that an application makes of a client, one after another.
use signal_fish_client_rust.Common.{ℕ, List, [], ◌∷◌, ◌++◌, Result, ok, err}
use signal_fish_client_rust.Core.State.{SignalFishEvent}
use signal_fish_client_rust.Core.Operations.{ClientOperation, CoreCommand, SignalFishError, prepare}
use signal_fish_client_rust.Polling.State.{
  Environment, PollingClient, queue_command_at, queue_operation, reset_queue_age_peak_at,
}
use signal_fish_client_rust.Polling.Close.{close_at}
use signal_fish_client_rust.Polling.Drive.{poll_at}

-- Each with the time at which it is made.
pub data Call (V : Type 0) : Type 0 where
  poll_call : (now : ℕ) → Call V
  operation_call : ClientOperation V → (now : ℕ) → Call V
  close_call : (now : ℕ) → Call V
  reset_call : (now : ℕ) → Call V

module _ {V T E : Type 0} (env : Environment V T E) where
  -- The events that a call returns, and the client that it leaves.
  unfoldable pub call : Call V → PollingClient V T → List (SignalFishEvent V) × PollingClient V T
  unfolding poll_at queue_operation close_at reset_queue_age_peak_at
  call (poll_call now) c = poll_at env now c
  call (operation_call operation now) c = ([], (queue_operation env operation now c).1)
  call (close_call now) c = ([], close_at env now c)
  call (reset_call now) c = ([], reset_queue_age_peak_at now c)

  unfoldable pub run :
      List (Call V) → PollingClient V T → List (SignalFishEvent V) × PollingClient V T
  unfolding call
  run [] c = ([], c)
  run (x ∷ calls) c =
      let (events, next) = call x c in let (later, last) = run calls next in (events ++ later, last)

  abbrev pub accepted_when :
      CoreCommand V → Result (Unit {0}) SignalFishError → List (CoreCommand V)
  accepted_when command (ok _) = command ∷ []
  accepted_when command (err e) = []

  abbrev pub accepted_prepared :
      Result (CoreCommand V) SignalFishError → ℕ → PollingClient V T → List (CoreCommand V)
  accepted_prepared (err e) now c = []
  accepted_prepared (ok command) now c = accepted_when command (queue_command_at command now c).0

  -- The commands that the calls got into the queue, oldest first.
  unfoldable pub accepted_by : Call V → PollingClient V T → List (CoreCommand V)
  unfolding prepare queue_command_at
  accepted_by (operation_call operation now) c =
      accepted_prepared (prepare env.singleton operation c.core) now c
  accepted_by _ c = []

  unfoldable pub accepted : List (Call V) → PollingClient V T → List (CoreCommand V)
  unfolding accepted_by call
  accepted [] c = []
  accepted (x ∷ calls) c = accepted_by x c ++ accepted calls (call x c).1
