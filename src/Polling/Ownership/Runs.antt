-- ===== src/Polling/Ownership/Runs.antt =====
-- src/polling_client.rs: the client as a first-in first-out queue of frames, over any calls.
use signal_fish_client_rust.Common.{
  ℕ, ◌≡◌, refl, ◌∙◌, ap, sym, subst, true, not, List, [], ◌∷◌, ◌++◌, Result, ok, err, leb, length,
  append_assoc, append-nil, arith, if_cases,
}
use signal_fish_client_rust.Transport.{TransportFrame, TakesFrames}
use signal_fish_client_rust.Core.Operations.{CoreCommand, SignalFishError, prepare}
use signal_fish_client_rust.Polling.State.{
  Environment, PollingClient, PollingClientOptions, new_with_options, QueuedCommand,
  queue_command_at, queue_operation, queue_prepared, refresh_queue_diagnostics_at,
  reset_queue_age_peak_at,
}
use signal_fish_client_rust.Polling.Outbound.{frame_of}
use signal_fish_client_rust.Core.State.{new_core}
use signal_fish_client_rust.Core.Config.{SignalFishConfig, authenticate}
use signal_fish_client_rust.Polling.Close.{close_at}
use signal_fish_client_rust.Polling.Drive.{poll_at}
use signal_fish_client_rust.Polling.Calls.{
  Call, poll_call, operation_call, close_call, reset_call, call, run, accepted_when,
  accepted_prepared, accepted_by, accepted,
}
use signal_fish_client_rust.Polling.Rules.Cycle.{poll_at-keeps, close_at-keeps}
use signal_fish_client_rust.Polling.Ownership.{of_slot, made, made-append, Owed}
use signal_fish_client_rust.Polling.Ownership.Rules.{Owed-same, Owed-ClientRules, Owed-CloseRules}

module _ {V T E : Type 0} (env : Environment V T E) where
  -- The frames of commands; one that does not serialize has none.
  unfoldable pub frames_of : List (CoreCommand V) → List TransportFrame
  unfolding frame_of
  frames_of [] = []
  frames_of (command ∷ commands) = of_slot (frame_of env command) ++ frames_of commands

  frames_of-append :
      (xs ys : List (CoreCommand V)) → frames_of (xs ++ ys) ≡ frames_of xs ++ frames_of ys
  unfolding frames_of
  frames_of-append [] ys = refl
  frames_of-append (x ∷ xs) ys =
      ap (λ frames. of_slot (frame_of env x) ++ frames) (frames_of-append xs ys)
      ∙ sym (append_assoc (of_slot (frame_of env x)) _ _)

  module _ (log : T → List TransportFrame) where
    enqueued-Owed :
        (all : List TransportFrame) (command : CoreCommand V) (now : ℕ) (c : PollingClient V T)
        → c.core.snapshot.connected ≡ true
        → Owed env log all c
        → Owed env log (all ++ frames_of (command ∷ [])) (
            refresh_queue_diagnostics_at now (record c {
              cmd_queue = c.cmd_queue ++ (record { command = command; enqueued_at = now }) ∷ [];
            }))
    unfolding frames_of refresh_queue_diagnostics_at
    enqueued-Owed all command now c e h =
        let q : QueuedCommand V = record { command = command; enqueued_at = now } in
        record {
          abandoned = [];
          sum =
              rw (made-append env c.cmd_queue q, ← h.sum, h.none_abandoned e)
                (simp (append_assoc, append-nil));
          none_abandoned = λ s. refl;
          is_open = h.is_open;
        }

    queue_command_at-Owed :
        (all : List TransportFrame) (command : CoreCommand V) (now : ℕ) (c : PollingClient V T)
        → Owed env log all c
        → let (result, c') = queue_command_at command now c in
          Owed env log (all ++ frames_of (accepted_when env command result)) c'
    unfolding queue_command_at frames_of
    queue_command_at-Owed all command now c h =
        let Q : Result (Unit {0}) SignalFishError × PollingClient V T → Type 0 =
          λ r. Owed env log (all ++ frames_of (accepted_when env command r.0)) r.1 in
        let unchanged = subst (λ x. Owed env log x c) (sym (append-nil all)) h in
        if_cases Q (not c.core.snapshot.connected) _ _ (λ y. unchanged)
          (λ n.
            if_cases Q (leb c.command_capacity (length c.cmd_queue)) _ _ (λ y. unchanged)
              (λ m. enqueued-Owed all command now c (ground arith) h))

    accepted_prepared-Owed :
        (all : List TransportFrame) (r : Result (CoreCommand V) SignalFishError) (now : ℕ)
        (c : PollingClient V T)
        → Owed env log all c
        → Owed env log (all ++ frames_of (accepted_prepared env r now c)) (queue_prepared r now c).1
    unfolding frames_of
    accepted_prepared-Owed all (err e) now c h =
        subst (λ x. Owed env log x c) (sym (append-nil all)) h
    accepted_prepared-Owed all (ok command) now c h = queue_command_at-Owed all command now c h

    reset-Owed :
        (all : List TransportFrame) (now : ℕ) (c : PollingClient V T)
        → Owed env log all c
        → Owed env log all (reset_queue_age_peak_at now c)
    unfolding reset_queue_age_peak_at refresh_queue_diagnostics_at
    reset-Owed all now c h = Owed-same env log all c _ refl refl refl h

    module _ (takes : TakesFrames env.transport log) where
      call-Owed :
          (all : List TransportFrame) (x : Call V) (c : PollingClient V T)
          → Owed env log all c
          → Owed env log (all ++ frames_of (accepted_by env x c)) (call env x c).1
      unfolding call accepted_by frames_of queue_operation
      call-Owed all (poll_call now) c h =
          subst (λ x. Owed env log x (poll_at env now c).1) (sym (append-nil all))
            (poll_at-keeps env (λ events. Owed env log all) (Owed-ClientRules env log all takes) now
              c h)
      call-Owed all (operation_call operation now) c h =
          accepted_prepared-Owed all (prepare env.singleton operation c.core) now c h
      call-Owed all (close_call now) c h =
          subst (λ x. Owed env log x (close_at env now c)) (sym (append-nil all))
            (close_at-keeps env (λ events. Owed env log all) (Owed-ClientRules env log all takes)
              (Owed-CloseRules env log all takes) [] now c h)
      call-Owed all (reset_call now) c h =
          subst (λ x. Owed env log x (reset_queue_age_peak_at now c)) (sym (append-nil all))
            (reset-Owed all now c h)

      run-Owed :
          (all : List TransportFrame) (calls : List (Call V)) (c : PollingClient V T)
          → Owed env log all c
          → Owed env log (all ++ frames_of (accepted env calls c)) (run env calls c).1
      unfolding run accepted frames_of
      run-Owed all [] c h = subst (λ x. Owed env log x c) (sym (append-nil all)) h
      run-Owed all (x ∷ calls) c h =
          let next = (call env x c).1 in
          subst (λ frames. Owed env log frames (run env calls next).1)
            (append_assoc all (frames_of (accepted_by env x c))
                (frames_of (accepted env calls next))
              ∙ ap (λ frames. all ++ frames)
                  (sym (frames_of-append (accepted_by env x c) (accepted env calls next))))
            (run-Owed (all ++ frames_of (accepted_by env x c)) calls next (call-Owed all x c h))

      -- A new client owns the frame of its authentication.
      new-Owed :
          (t : T) (config : SignalFishConfig) (options : PollingClientOptions) (now : ℕ)
          → Owed env log
              (log t ++ frames_of (authenticate config ∷ []))
              (new_with_options t config options now)
      unfolding new_with_options refresh_queue_diagnostics_at new_core made frames_of
      new-Owed t config options now = record {
        abandoned = [];
        sum = append-nil _;
        none_abandoned = λ e. refl;
        is_open = λ e. refl;
      }

      -- After any calls of a new client, what the transport took, then what waits, then what was given
      -- up, is the frame of the authentication and then the frames of the accepted commands, each once
      -- and in their order; a client that is still connected gave nothing up. This holds of each
      -- transport that keeps its contract on the ownership of frames.
      pub run-new-Owed :
          (t : T) (config : SignalFishConfig) (options : PollingClientOptions) (now : ℕ)
          (calls : List (Call V))
          → let c : PollingClient V T = new_with_options t config options now in
            Owed env log
              (log t ++ frames_of (authenticate config ∷ accepted env calls c))
              (run env calls c).1
      unfolding frames_of
      run-new-Owed t config options now calls =
          let c : PollingClient V T = new_with_options t config options now in
          subst (λ frames. Owed env log frames (run env calls c).1)
            (simp (append_assoc, append-nil))
            (run-Owed (log t ++ frames_of (authenticate config ∷ [])) calls c
              (new-Owed t config options now))
