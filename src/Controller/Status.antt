-- ===== src/Controller/Status.antt =====
-- What a response's status says of the state.
use ee_eq_cli.Common.{
  Bool, true, false, not, String, Option, ◌≡◌, refl, ◌↔◌, arith, if_cases, is_empty, Bool-cases,
  inl, inr,
}
use ee_eq_cli.Floats.{FloatOps}
use ee_eq_cli.Backend.{SessionBackend, active, RuntimeSnapshot}
use ee_eq_cli.Protocol.{SessionLifecycleState, HealthState, DaemonRequest, DaemonStatus}
use ee_eq_cli.Controller.{
  Host, DesiredConfig, DaemonController, status_locked, refreshed, is_enabled, desired_of,
}
use ee_eq_cli.Controller.Handlers.{
  Step, give_up, start_or_roll_back, start_desired, succeed, apply_parsed, disable_locked,
  list_sinks_locked, shutdown_locked, handle_request,
}
use ee_eq_cli.Controller.Invariant.{Inv}
use ee_eq_cli.Controller.Starts.{start_or_roll_back-cases, start_desired-cases}
use ee_eq_cli.Controller.Cases.{handle_request-cases}

module _ {F : FloatOps} (B : SessionBackend F) where
  -- The status that is returned is that of the state in which the request leaves the controller.
  abbrev pub IsCurrent : Step B → Type 0
  IsCurrent p = p.0.status ≡ status_locked B p.1

  give_up-IsCurrent :
      (d : Option (DesiredConfig F)) (e : String) (s : DaemonController B)
      → IsCurrent (give_up B d e s)
  unfolding give_up
  give_up-IsCurrent d e s = refl

  succeed-IsCurrent : (s : DaemonController B) → IsCurrent (succeed B s)
  unfolding succeed
  succeed-IsCurrent s = refl

  start_or_roll_back-IsCurrent :
      (d : Option (DesiredConfig F)) (c : DesiredConfig F) (s : DaemonController B)
      → IsCurrent (start_or_roll_back B d c s)
  start_or_roll_back-IsCurrent d c s = start_or_roll_back-cases B IsCurrent d c s (record {
    up = λ _. succeed-IsCurrent _;
    down = λ _. record {
      back = λ c' _ _ _. refl;
      lost = λ c' _ _ _. give_up-IsCurrent d _ _;
      off = λ _. give_up-IsCurrent d _ _;
    };
  })

  start_desired-IsCurrent :
      (c : DesiredConfig F) (s : DaemonController B) → IsCurrent (start_desired B c s)
  start_desired-IsCurrent c s =
      start_desired-cases B IsCurrent c s (λ _. succeed-IsCurrent _) (λ _. give_up-IsCurrent _ _ _)

  list_sinks-IsCurrent : (s : DaemonController B) → IsCurrent (list_sinks_locked B s)
  unfolding list_sinks_locked
  list_sinks-IsCurrent s =
      if_cases IsCurrent (not (is_empty (B.list_sinks s.backend).error)) (λ _. refl) (λ _. refl)

  disable-IsCurrent : (s : DaemonController B) → IsCurrent (disable_locked B s)
  unfolding disable_locked succeed
  disable-IsCurrent s = refl

  shutdown-IsCurrent : (s : DaemonController B) → IsCurrent (shutdown_locked B s)
  unfolding shutdown_locked
  shutdown-IsCurrent s = refl

  -- Whatever a request does, accepted or refused, its response carries the status of the
  -- controller's final state, not one from before the change.
  pub handle_request-IsCurrent :
      (host : Host F) (s : DaemonController B) (r : DaemonRequest)
      → (let p = handle_request B host s r in p.0.status ≡ status_locked B p.1)
  unfolding apply_parsed succeed
  handle_request-IsCurrent host s r = handle_request-cases B host s r IsCurrent (record {
    refused = λ e _. refl;
    answered = λ _. refl;
    already = λ c _ _ _. refl;
    applied = λ loaded parsed _ _ _. start_or_roll_back-IsCurrent _ _ _;
    enabled = λ c _ _. start_desired-IsCurrent c _;
    disabled = λ _. disable-IsCurrent s;
    set_aside = λ c _ _ _. refl;
    switched = λ c _ _ _. start_or_roll_back-IsCurrent _ _ _;
    bypassed = λ c _ _ _. refl;
    turned = λ c x _ _ _. refl;
    listed = λ _. list_sinks-IsCurrent s;
    stopped = λ _. shutdown-IsCurrent s;
  })

  idle-inactive :
      {s : DaemonController B} → Inv B s → is_enabled s.desired ≡ false → active B s.backend ≡ false
  idle-inactive {s} v off = elim (Bool-cases (active B s.backend)) [
    | inl on ↦ ground (arith, v.owned on)
    | inr e ↦ e
  ]

  refreshed_session :
      (n : RuntimeSnapshot F.Float) (i : Bool) (t : DaemonStatus F.Float)
      → ((refreshed B n i t).effective.session_active ≡ n.session_active)
        × (((refreshed B n i t).session_state ≡ SessionLifecycleState.enabled)
            ↔ (n.session_active ≡ true))
  unfolding refreshed
  refreshed_session n i t = ground arith

  -- In a state that satisfies the invariant the status tells the truth about the backend, also
  -- when the session's worker has been lost: it reports an active session exactly if the backend
  -- has one, and the session state `enabled` exactly then.
  pub status-session_active :
      (s : DaemonController B)
      → Inv B s
      → (let t = status_locked B s in
          (t.effective.session_active ≡ active B s.backend)
          × ((t.session_state ≡ SessionLifecycleState.enabled) ↔ (active B s.backend ≡ true)))
  unfolding status_locked
  status-session_active s v =
      if_cases
        (λ (t : DaemonStatus F.Float).
          (t.effective.session_active ≡ active B s.backend)
          × ((t.session_state ≡ SessionLifecycleState.enabled) ↔ (active B s.backend ≡ true)))
        (is_enabled s.desired)
        (λ on.
          refreshed_session (B.snapshot s.backend) s.init_error_degraded
            (record (s.status) { desired = desired_of B s.desired }))
        (λ off. ground (arith, idle-inactive v off, v.idle off))

  -- An active session that failed to initialise is reported as degraded with its error.
  pub status-init_error :
      (s : DaemonController B)
      → Inv B s
      → active B s.backend ≡ true
      → is_empty (B.snapshot s.backend).init_error ≡ false
      → (let t = status_locked B s in
          (t.health ≡ HealthState.degraded) × (t.last_error ≡ (B.snapshot s.backend).init_error))
  unfolding status_locked refreshed
  status-init_error s v on e = ground (arith, v.owned on)
