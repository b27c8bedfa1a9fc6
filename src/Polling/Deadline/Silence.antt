-- ===== src/Polling/Deadline/Silence.antt =====
-- src/polling_client.rs: a client whose close has begun reports nothing and accepts nothing.
use signal_fish_client_rust.Common.{
  ℕ, ◌≡◌, ◌⊎◌, refl, false, not, List, [], ◌∷◌, Result, ok, err, if_cases, arith,
}
use signal_fish_client_rust.Core.Operations.{CoreCommand, SignalFishError, prepare}
use signal_fish_client_rust.Polling.State.{
  Environment, PollingClient, ClosePhase, open_phase, flushing, closing, closed,
  refresh_queue_diagnostics_at, queue_command_at,
}
use signal_fish_client_rust.Polling.Close.{begin_cycle, close_at}
use signal_fish_client_rust.Polling.Drive.{poll_in, poll_at}
use signal_fish_client_rust.Polling.Calls.{
  Call, poll_call, operation_call, close_call, reset_call, call, run, accepted_when,
  accepted_prepared, accepted_by, accepted,
}
use signal_fish_client_rust.Polling.Deadline.{Leaving, close_from-Leaving, call-Leaving}

module _ {V T E : Type 0} (t k : ℕ) (env : Environment V T E) where
  poll_in-silent :
      (phase : ClosePhase) (now : ℕ) (c : PollingClient V T)
      → (phase ≡ flushing t) ⊎ (phase ≡ closing t) ⊎ (phase ≡ closed)
      → (poll_in env phase now c).0 ≡ []
  unfolding poll_in
  poll_in-silent open_phase now c h = absurd (ground arith)
  poll_in-silent (flushing s) now c h = refl
  poll_in-silent (closing s) now c h = refl
  poll_in-silent closed now c h = refl

  accepted_prepared-silent :
      (r : Result (CoreCommand V) SignalFishError) (now : ℕ) (c : PollingClient V T)
      → c.core.snapshot.connected ≡ false
      → accepted_prepared env r now c ≡ []
  unfolding queue_command_at
  accepted_prepared-silent (err e) now c s = refl
  accepted_prepared-silent (ok command) now c s =
      if_cases
        (λ (r : Result (Unit {0}) SignalFishError × PollingClient V T).
          accepted_when env command r.0 ≡ [])
        (not c.core.snapshot.connected) _ _ (λ y. refl) (λ n. absurd (ground arith))

  call-silent :
      (x : Call V) (c : PollingClient V T)
      → Leaving t k c
      → ((call env x c).0 ≡ []) × (accepted_by env x c ≡ [])
  unfolding call accepted_by poll_at refresh_queue_diagnostics_at
  call-silent (poll_call now) c h = (
    poll_in-silent c.close_phase now (begin_cycle env (refresh_queue_diagnostics_at now c)) h.phase,
    refl,
  )
  call-silent (operation_call operation now) c h =
      (refl, accepted_prepared-silent (prepare env.singleton operation c.core) now c h.gone)
  call-silent (close_call now) c h = (refl, refl)
  call-silent (reset_call now) c h = (refl, refl)

  run-silent :
      (calls : List (Call V)) (c : PollingClient V T)
      → Leaving t k c
      → ((run env calls c).0 ≡ []) × (accepted env calls c ≡ [])
  unfolding run accepted
  run-silent [] c h = (refl, refl)
  run-silent (x ∷ calls) c h =
      let (quiet, refused) = call-silent x c h in
      let (quiet', refused') = run-silent calls (call env x c).1 (call-Leaving t k env x c h) in
      (rw (quiet, quiet'), rw (refused, refused'))

module _ {V T E : Type 0} (env : Environment V T E) where
  -- Once `close` was called on an open client, no call reports an event and no operation is accepted.
  pub close_at-silent :
      (t : ℕ) (c : PollingClient V T) (calls : List (Call V))
      → c.close_phase ≡ open_phase
      → ((run env calls (close_at env t c)).0 ≡ []) × (accepted env calls (close_at env t c) ≡ [])
  unfolding close_at
  close_at-silent t c calls p =
      run-silent t c.shutdown_timeout env calls (close_at env t c)
        (close_from-Leaving t c.shutdown_timeout env c.close_phase c p refl)
