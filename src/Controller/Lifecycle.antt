-- ===== src/Controller/Lifecycle.antt =====
-- The daemon's lifecycle: stopping a session, and shutting the daemon down.
use ee_eq_cli.Common.{
  suc, Bool, true, false, not, String, Option, some, ◌≡◌, refl, arith, if_cases, is_empty,
  if◌then◌else◌, ◌⊎◌, inl, inr, ◌∙◌,
}
use ee_eq_cli.Floats.{FloatOps}
use ee_eq_cli.Backend.{SessionBackend, BackendLaws, active}
use ee_eq_cli.Protocol.{DaemonProcessState, SessionLifecycleState, DaemonRequest}
use ee_eq_cli.Controller.{
  Host, DesiredConfig, DaemonController, status_locked, clear_effective_state_locked,
  set_runtime_state_from_backend_locked, daemon_mode_environment_error,
}
use ee_eq_cli.Controller.Handlers.{
  Step, Command, shutdown, disable, adopt, give_up, start_or_roll_back, start_desired, succeed,
  stop_and_clear, disable_locked, list_sinks_locked, shutdown_locked, apply_parsed, handle_request,
  command_of, run_command, switched_off, candidate, with_session, with_backend,
}
use ee_eq_cli.Controller.Starts.{start, after_start, start_or_roll_back-cases, start_desired-cases}
use ee_eq_cli.Controller.Cases.{renamed, stopped_for_switch, handle_request-cases}

abbrev pub is_shutdown : Command → Bool
is_shutdown shutdown = true
is_shutdown _ = false

module _ {F : FloatOps} (B : SessionBackend F) where
  -- A daemon process that is ready stays ready, and one that stops does not come back.
  abbrev KeepsProcess : DaemonController B → Step B → Type 0
  KeepsProcess s p =
      (p.1.status.daemon_state ≡ s.status.daemon_state)
      × (p.1.shutdown_callback ≡ s.shutdown_callback)
      × (p.1.callback_runs ≡ s.callback_runs)

  adopt-KeepsProcess :
      (c : DesiredConfig F) (s : DaemonController B)
      → ((adopt B c s).status.daemon_state ≡ s.status.daemon_state)
        × ((adopt B c s).shutdown_callback ≡ s.shutdown_callback)
        × ((adopt B c s).callback_runs ≡ s.callback_runs)
  unfolding adopt set_runtime_state_from_backend_locked
  adopt-KeepsProcess c s = ground arith

  give_up-KeepsProcess :
      (d : Option (DesiredConfig F)) (e : String) (s : DaemonController B)
      → KeepsProcess s (give_up B d e s)
  unfolding give_up clear_effective_state_locked
  give_up-KeepsProcess d e s = (refl, refl, refl)

  adopted-KeepsProcess :
      (c : DesiredConfig F) (s : DaemonController B) → KeepsProcess s (succeed B (adopt B c s))
  unfolding succeed
  adopted-KeepsProcess c s = adopt-KeepsProcess c s

  start_or_roll_back-KeepsProcess :
      (d : Option (DesiredConfig F)) (c : DesiredConfig F) (s : DaemonController B)
      → KeepsProcess s (start_or_roll_back B d c s)
  start_or_roll_back-KeepsProcess d c s =
      start_or_roll_back-cases B (KeepsProcess s) d c s (record {
        up = λ _. adopted-KeepsProcess c (after_start B s c);
        down = λ _. record {
          back = λ c' _ _ _. adopt-KeepsProcess c' (after_start B (after_start B s c) c');
          lost = λ c' _ _ _.
              give_up-KeepsProcess d (start B s c).error (after_start B (after_start B s c) c');
          off = λ _. give_up-KeepsProcess d (start B s c).error (after_start B s c);
        };
      })

  start_desired-KeepsProcess :
      (c : DesiredConfig F) (s : DaemonController B) → KeepsProcess s (start_desired B c s)
  start_desired-KeepsProcess c s =
      start_desired-cases B (KeepsProcess s) c s
        (λ _. adopted-KeepsProcess (record c { enabled = true }) (after_start B s c))
        (λ _.
          give_up-KeepsProcess (some (record c { enabled = false })) (start B s c).error
            (after_start B s c))

  apply_parsed-KeepsProcess :
      (s : DaemonController B) (c : DesiredConfig F) → KeepsProcess s (apply_parsed B s c)
  unfolding apply_parsed
  apply_parsed-KeepsProcess s c = ground (
    arith,
    start_or_roll_back-KeepsProcess s.desired c (with_session B SessionLifecycleState.enabling s),
    start_or_roll_back-KeepsProcess s.desired c (
        with_backend B (B.stop_session s.backend)
          (with_session B SessionLifecycleState.enabling s)),
  )

  list_sinks-KeepsProcess : (s : DaemonController B) → KeepsProcess s (list_sinks_locked B s)
  unfolding list_sinks_locked
  list_sinks-KeepsProcess s =
      if_cases (KeepsProcess s) (not (is_empty (B.list_sinks s.backend).error))
        (λ _. (refl, refl, refl)) (λ _. (refl, refl, refl))

  -- The daemon process after a shutdown.
  pub record IsStopped (s : DaemonController B) (p : Step B) : Type 0 where
    pub stopping : p.1.status.daemon_state ≡ DaemonProcessState.stopping
    pub callback :
        p.1.callback_runs ≡ (if s.shutdown_callback then suc s.callback_runs else s.callback_runs)
    pub installed : p.1.shutdown_callback ≡ s.shutdown_callback

  pub shutdown-IsStopped : (s : DaemonController B) → IsStopped s (shutdown_locked B s)
  unfolding shutdown_locked stop_and_clear clear_effective_state_locked
  shutdown-IsStopped s = record { stopping = refl; callback = refl; installed = refl }

  abbrev Process : DaemonController B → DaemonRequest → Step B → Type 0
  Process s r p = KeepsProcess s p ⊎ ((command_of r.command ≡ shutdown) × IsStopped s p)

  -- A request leaves the daemon's process state and the shutdown callback alone, or it is
  -- `shutdown`: then the daemon is stopping and an installed callback has run once more.
  pub handle_request-process :
      (host : Host F) (s : DaemonController B) (r : DaemonRequest)
      → (let p = handle_request B host s r in
          ((p.1.status.daemon_state ≡ s.status.daemon_state)
            × (p.1.shutdown_callback ≡ s.shutdown_callback)
            × (p.1.callback_runs ≡ s.callback_runs))
          ⊎ ((command_of r.command ≡ shutdown) × IsStopped s p))
  unfolding succeed disable_locked stop_and_clear clear_effective_state_locked
  handle_request-process host s r = handle_request-cases B host s r (Process s r) (record {
    refused = λ e _. inl (refl, refl, refl);
    answered = λ _. inl (refl, refl, refl);
    already = λ c _ _ _. inl (refl, refl, refl);
    applied = λ loaded parsed _ _ _.
        inl (apply_parsed-KeepsProcess s (candidate B s.desired r loaded.origin parsed));
    enabled = λ c _ _.
        inl (start_desired-KeepsProcess c (with_session B SessionLifecycleState.enabling s));
    disabled = λ _. inl (refl, refl, refl);
    set_aside = λ c _ _ _. inl (refl, refl, refl);
    switched = λ c _ _ _. inl (
        start_or_roll_back-KeepsProcess (some c) (renamed B host s r c)
          (stopped_for_switch B host s r c));
    bypassed = λ c _ _ _. inl (refl, refl, refl);
    turned = λ c x _ _ _. inl (refl, refl, refl);
    listed = λ _. inl (list_sinks-KeepsProcess s);
    stopped = λ k. inr (k, shutdown-IsStopped s);
  })

  -- Once the daemon is stopping it stays so, whatever is requested.
  pub stopping_forever :
      (host : Host F) (s : DaemonController B) (r : DaemonRequest)
      → s.status.daemon_state ≡ DaemonProcessState.stopping
      → (handle_request B host s r).1.status.daemon_state ≡ DaemonProcessState.stopping
  stopping_forever host s r e = elim (handle_request-process host s r) [
    | inl k ↦ k.0 ∙ e
    | inr k ↦ k.1.stopping
  ]

  module _ (L : BackendLaws B) where
    -- `disable` and `shutdown`, where the environment allows requests, are accepted; then no
    -- session runs, the desired configuration is kept but switched off, and the status returned
    -- reports a disabled session and nothing active.
    pub stop_lem :
        (host : Host F) (s : DaemonController B) (r : DaemonRequest)
        → is_empty (daemon_mode_environment_error host.getenv) ≡ true
        → (command_of r.command ≡ disable) ⊎ (command_of r.command ≡ shutdown)
        → (let p = handle_request B host s r in
            (p.0.ok ≡ true)
            × (active B p.1.backend ≡ false)
            × (p.1.desired ≡ switched_off B s.desired)
            × (p.0.status.session_state ≡ SessionLifecycleState.disabled)
            × (p.0.status.effective.session_active ≡ false))
    unfolding handle_request run_command disable_locked shutdown_locked stop_and_clear succeed
        clear_effective_state_locked status_locked
    stop_lem host s r e k = ground (arith, L.stop_inactive s.backend)
