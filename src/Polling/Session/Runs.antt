-- ===== src/Polling/Session/Runs.antt =====
-- src/polling_client.rs: the events `Connected` and `Disconnected` over any calls.
use signal_fish_client_rust.Common.{
  ℕ, ◌+◌, ◌≤◌, ◌≡◌, refl, not, some, List, [], ◌∷◌, count, count-append, arith, Result, ok, err,
  if_cases, leb, length,
}
use signal_fish_client_rust.Core.State.{SignalFishEvent, clear_session, new_core}
use signal_fish_client_rust.Core.Config.{SignalFishConfig}
use signal_fish_client_rust.Core.Frames.{disconnect_core}
use signal_fish_client_rust.Core.Operations.{CoreCommand, SignalFishError, prepare}
use signal_fish_client_rust.Polling.State.{
  Environment, PollingClient, PollingClientOptions, PollingClosePolicy, abandon, flush, from_bool,
  refresh_queue_diagnostics_at, reset_queue_age_peak_at, abandon_client_owned, queue_prepared,
  queue_command_at, queue_operation, new_with_options,
}
use signal_fish_client_rust.Polling.Close.{begin_cycle, start_close}
use signal_fish_client_rust.Polling.Calls.{
  Call, poll_call, operation_call, close_call, reset_call, call, run,
}
use signal_fish_client_rust.Polling.Rules.Client.{CloseRules}
use signal_fish_client_rust.Polling.Rules.Cycle.{close_at-keeps}
use signal_fish_client_rust.Polling.Session.{
  is_connected_event, is_disconnected_event, ends, starts, Counted, Counted-ClientRules,
  poll_at-Counted,
}

module _ {V T E : Type 0} (env : Environment V T E) where
  -- At most the given ends, and exactly the given starts.
  abbrev Within : ℕ → ℕ → ℕ → ℕ → Type 0
  Within k l m n = (m ≤ k) × (n ≡ l)

  Within-CloseRules : (k l : ℕ) → CloseRules env (Counted env (Within k l))
  unfolding disconnect_core clear_session abandon_client_owned refresh_queue_diagnostics_at
  Within-CloseRules k l = record {
    shuts = λ events c p s h. h;
    leaves = λ events now c p s h. leaves events c.options.close_policy now c h;
  }
    where
      leaves :
          (events : List (SignalFishEvent V)) (policy : PollingClosePolicy) (now : ℕ)
          (c : PollingClient V T)
          → Counted env (Within k l) events c
          → Counted env (Within k l) events (
              begin_cycle env (
                start_close env policy now
                  (record c { core = (disconnect_core {V = V} (some "client closed") c.core).1 })))
      leaves events abandon now c h = (ground arith, h.1)
      leaves events flush now c h = (ground arith, h.1)

  queue_prepared-same :
      (r : Result (CoreCommand V) SignalFishError) (now : ℕ) (c : PollingClient V T)
      → ((queue_prepared r now c).1.core ≡ c.core)
        × ((queue_prepared r now c).1.started ≡ c.started)
  unfolding queue_command_at refresh_queue_diagnostics_at
  queue_prepared-same (err e) now c = (refl, refl)
  queue_prepared-same (ok command) now c =
      let P : Result (Unit {0}) SignalFishError × PollingClient V T → Type 0 =
        λ r. (r.1.core ≡ c.core) × (r.1.started ≡ c.started) in
      if_cases P (not c.core.snapshot.connected) _ _ (λ y. (refl, refl))
        (λ n.
          if_cases P (leb c.command_capacity (length c.cmd_queue)) _ _ (λ y. (refl, refl))
            (λ m. (refl, refl)))

  call-Within :
      (x : Call V) (c : PollingClient V T)
      → let (events, c') = call env x c in
        (ends events c' ≤ from_bool c.core.snapshot.connected)
        × (starts events c' ≡ from_bool (not c.started))
  unfolding call queue_operation reset_queue_age_peak_at refresh_queue_diagnostics_at
  call-Within (poll_call now) c = let (e, s) = poll_at-Counted env now c in (ground arith, s)
  call-Within (operation_call operation now) c =
      let (core, started) = queue_prepared-same (prepare env.singleton operation c.core) now c in
      (ground arith, ground arith)
  call-Within (close_call now) c =
      let k = from_bool c.core.snapshot.connected in
      let l = from_bool (not c.started) in
      close_at-keeps env (Counted env (Within k l)) (Counted-ClientRules env (Within k l))
        (Within-CloseRules k l) [] now c (ground arith, ground arith)
  call-Within (reset_call now) c = (ground arith, ground arith)

  run-Within :
      (calls : List (Call V)) (c : PollingClient V T)
      → let (events, c') = run env calls c in
        (ends events c' ≤ from_bool c.core.snapshot.connected)
        × (starts events c' ≡ from_bool (not c.started))
  unfolding run
  run-Within [] c = (ground arith, ground arith)
  run-Within (x ∷ calls) c =
      let (events, next) = call env x c in
      let later = (run env calls next).0 in
      let (e, s) = call-Within x c in
      let (e', s') = run-Within calls next in
      (
        ground (arith, count-append is_disconnected_event events later),
        ground (arith, count-append is_connected_event events later),
      )

  -- Over any calls of a new client, `Disconnected` is reported at most once, and then the client is
  -- disconnected; `Connected` is reported once if the client is marked as started, and else never.
  pub run-new-Within :
      (t : T) (config : SignalFishConfig) (options : PollingClientOptions) (now : ℕ)
      (calls : List (Call V))
      → let (events, c) = run env calls (new_with_options t config options now) in
        (count is_disconnected_event events + from_bool c.core.snapshot.connected ≤ 1)
        × (count is_connected_event events ≡ from_bool c.started)
  unfolding new_with_options refresh_queue_diagnostics_at new_core
  run-new-Within t config options now calls =
      let c : PollingClient V T = new_with_options t config options now in
      let (e, s) = run-Within calls c in (ground arith, ground arith)
