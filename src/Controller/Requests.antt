-- ===== src/Controller/Requests.antt =====
-- Every request keeps the controller's invariant.
use ee_eq_cli.Common.{
  ℕ, true, false, not, ◌&&◌, ◌||◌, String, Option, none, some, ◌≡◌, refl, arith, if_cases,
  on_option_cases, on_result_cases, is_empty,
}
use ee_eq_cli.Floats.{FloatOps, FloatLaws}
use ee_eq_cli.Preset.{ParsedPreset}
use ee_eq_cli.Backend.{SessionBackend, BackendLaws, active}
use ee_eq_cli.Protocol.{DaemonRequest}
use ee_eq_cli.Controller.{
  Host, DesiredConfig, DaemonController, create, clear_effective_state_locked,
  daemon_mode_environment_error, set_shutdown_callback,
}
use ee_eq_cli.Controller.Handlers.{
  Step, Command, status, apply, enable, disable, switch_sink, bypass, volume, list_sinks, shutdown,
  unknown, candidate, apply_parsed, apply_locked, enable_locked, enable_desired, start_desired,
  is_enabled_state, disable_locked, list_sinks_locked, switch_sink_locked, switch_desired,
  bypass_locked, bypass_desired, volume_locked, volume_desired, shutdown_locked, stop_and_clear,
  succeed, with_backend, run_command, handle_request, parse_volume, command_of, with_desired,
  means_on,
}
use ee_eq_cli.Controller.Invariant.{
  Inv, IsInRange, IsSynced, start_or_roll_back-Inv, started-Inv, succeed-Inv, give_up-Inv,
}

module _ {F : FloatOps} (B : SessionBackend F) (Q : FloatLaws F) (L : BackendLaws B) where
  open F use {Float, Double, f_zero, f_one, f_max, f_lt}

  candidate-IsInRange :
      (d : Option (DesiredConfig F)) (r : DaemonRequest) (o : String) (p : ParsedPreset Double)
      → IsInRange B d
      → IsInRange B (some (candidate B d r o p))
  unfolding candidate
  candidate-IsInRange none r o p h = (Q.one_not_below, Q.one_not_above)
  candidate-IsInRange (some d) r o p h = h

  candidate-enabled :
      (d : Option (DesiredConfig F)) (r : DaemonRequest) (o : String) (p : ParsedPreset Double)
      → (candidate B d r o p).enabled ≡ true
  unfolding candidate
  candidate-enabled none r o p = refl
  candidate-enabled (some d) r o p = refl

  apply-Inv :
      (host : Host F) (s : DaemonController B) (r : DaemonRequest)
      → Inv B s
      → Inv B (apply_locked B host s r).1
  unfolding apply_locked apply_parsed
  apply-Inv host s r v =
      if_cases (λ (p : Step B). Inv B p.1) (is_empty r.preset_path) (λ _. v)
        λ _.
          on_result_cases (λ (p : Step B). Inv B p.1) (host.load_preset_source r.preset_path)
            (λ e _. v)
            λ loaded _.
              on_result_cases (λ (p : Step B). Inv B p.1)
                (host.parse_easy_effects_preset loaded.bytes) (λ e _. v)
                λ parsed _.
                  start_or_roll_back-Inv B Q L s.desired _ _ v.in_range
                    (candidate-IsInRange s.desired r loaded.origin parsed v.in_range)
                    (candidate-enabled s.desired r loaded.origin parsed)

  start_desired-Inv :
      (c : DesiredConfig F) (s : DaemonController B)
      → IsInRange B (some c)
      → Inv B (start_desired B c s).1
  unfolding start_desired
  start_desired-Inv c s r =
      if_cases (λ (p : Step B). Inv B p.1) _
        (λ up. succeed-Inv B Q L _ (started-Inv B Q L s (record c { enabled = true }) refl r up))
        (λ down.
          give_up-Inv B Q L (some (record c { enabled = false })) _ _ r
            (L.start_failed s.backend c.preset c.preset_origin c.sink_selector down))

  some-IsInRange :
      {s : DaemonController B} {c : DesiredConfig F}
      → s.desired ≡ some c
      → Inv B s
      → IsInRange B (some c)
  some-IsInRange e v = rw e at v.in_range

  enable_desired-Inv :
      (c : DesiredConfig F) (s : DaemonController B)
      → s.desired ≡ some c
      → Inv B s
      → Inv B (enable_desired B c s).1
  unfolding enable_desired
  enable_desired-Inv c s e v =
      if_cases (λ (p : Step B). Inv B p.1) (c.enabled && is_enabled_state s.status.session_state)
        (λ _. v) (λ _. start_desired-Inv c _ (some-IsInRange e v))

  enable-Inv : (s : DaemonController B) → Inv B s → Inv B (enable_locked B s).1
  unfolding enable_locked
  enable-Inv s v =
      on_option_cases (λ (p : Step B). Inv B p.1) s.desired (λ _. v)
        λ c e. enable_desired-Inv c s e v

  stop_and_clear-Inv : (s : DaemonController B) → Inv B s → Inv B (stop_and_clear B s)
  unfolding stop_and_clear clear_effective_state_locked
  stop_and_clear-Inv s v = ground (arith, L.stop_inactive s.backend)

  disable-Inv : (s : DaemonController B) → Inv B s → Inv B (disable_locked B s).1
  unfolding disable_locked
  disable-Inv s v = succeed-Inv B Q L _ (stop_and_clear-Inv s v)

  list_sinks-Inv : (s : DaemonController B) → Inv B s → Inv B (list_sinks_locked B s).1
  unfolding list_sinks_locked
  list_sinks-Inv s v = ground (arith, L.list_snapshot s.backend)

  renamed-Inv :
      (c : DesiredConfig F) (s : DaemonController B) (r : DaemonRequest)
      → s.desired ≡ some c
      → not c.enabled ≡ true
      → Inv B s
      → Inv B (with_desired B (some (record c { sink_selector = r.sink_selector })) s)
  renamed-Inv c s r e off v = ground arith

  switch_desired-Inv :
      (c : DesiredConfig F) (s : DaemonController B) (r : DaemonRequest)
      → s.desired ≡ some c
      → Inv B s
      → Inv B (switch_desired B c s r).1
  unfolding switch_desired
  switch_desired-Inv c s r e v =
      if_cases (λ (p : Step B). Inv B p.1) (is_empty r.sink_selector) (λ _. v)
        λ _.
          if_cases (λ (p : Step B). Inv B p.1) (not c.enabled) (λ off. renamed-Inv c s r e off v)
            λ on.
              start_or_roll_back-Inv B Q L (some c) _ _ (some-IsInRange e v) (some-IsInRange e v)
                (ground arith)

  switch_sink-Inv :
      (s : DaemonController B) (r : DaemonRequest) → Inv B s → Inv B (switch_sink_locked B s r).1
  unfolding switch_sink_locked
  switch_sink-Inv s r v =
      on_option_cases (λ (p : Step B). Inv B p.1) s.desired (λ _. v)
        λ c e. switch_desired-Inv c s r e v

  bypass_desired-Inv :
      (c : DesiredConfig F) (s : DaemonController B) (x : String)
      → s.desired ≡ some c
      → c.enabled ≡ true
      → Inv B s
      → Inv B (bypass_desired B c s x).1
  unfolding bypass_desired succeed
  bypass_desired-Inv c s x e on v = ground (
    arith,
    L.bypass_active s.backend (means_on x),
    L.bypass_origin s.backend (means_on x),
    L.bypass_set s.backend (means_on x),
    L.bypass_volume s.backend (means_on x),
  )

  bypass-Inv :
      (s : DaemonController B) (r : DaemonRequest) → Inv B s → Inv B (bypass_locked B s r).1
  unfolding bypass_locked
  bypass-Inv s r v =
      on_option_cases (λ (p : Step B). Inv B p.1) s.desired (λ _. v)
        λ c e.
          if_cases (λ (p : Step B). Inv B p.1) c.enabled
            (λ on. bypass_desired-Inv c s r.sink_selector e on v) (λ _. v)

  set_volume-Inv :
      (c : DesiredConfig F) (s : DaemonController B) (x : Float)
      → s.desired ≡ some c
      → c.enabled ≡ true
      → f_lt x f_zero || f_lt f_max x ≡ false
      → Inv B s
      → Inv B (
          with_backend B
            (B.set_volume s.backend x)
            (with_desired B (some (record c { volume = x })) s))
  set_volume-Inv c s x e on good v = ground (
    arith,
    L.volume_active s.backend x,
    L.volume_origin s.backend x,
    L.volume_set s.backend x,
    L.volume_bypass s.backend x,
  )

  volume-Inv :
      (s : DaemonController B) (r : DaemonRequest) → Inv B s → Inv B (volume_locked B s r).1
  unfolding volume_locked volume_desired
  volume-Inv s r v =
      on_option_cases (λ (p : Step B). Inv B p.1) s.desired (λ _. v)
        λ c e.
          if_cases (λ (p : Step B). Inv B p.1) c.enabled
            (λ on.
              on_option_cases (λ (p : Step B). Inv B p.1) (parse_volume F r.sink_selector) (λ _. v)
                λ x _.
                  if_cases (λ (p : Step B). Inv B p.1) (f_lt x f_zero || f_lt f_max x) (λ _. v)
                    (λ good. set_volume-Inv c s x e on good v))
            (λ _. v)

  shutdown-Inv : (s : DaemonController B) → Inv B s → Inv B (shutdown_locked B s).1
  unfolding shutdown_locked
  shutdown-Inv s v =
      let w = stop_and_clear-Inv s v in
      record {
        settled = w.settled;
        owned = w.owned;
        synced = w.synced;
        in_range = w.in_range;
        idle = w.idle;
      }

  run_command-Inv :
      (host : Host F) (s : DaemonController B) (r : DaemonRequest) (c : Command)
      → Inv B s
      → Inv B (run_command B host s r c).1
  unfolding run_command
  run_command-Inv host s r status v = v
  run_command-Inv host s r apply v = apply-Inv host s r v
  run_command-Inv host s r enable v = enable-Inv s v
  run_command-Inv host s r disable v = disable-Inv s v
  run_command-Inv host s r switch_sink v = switch_sink-Inv s r v
  run_command-Inv host s r bypass v = bypass-Inv s r v
  run_command-Inv host s r volume v = volume-Inv s r v
  run_command-Inv host s r list_sinks v = list_sinks-Inv s v
  run_command-Inv host s r shutdown v = shutdown-Inv s v
  run_command-Inv host s r unknown v = v

  pub handle_request-Inv :
      (host : Host F) (s : DaemonController B) (r : DaemonRequest)
      → Inv B s
      → Inv B (handle_request B host s r).1
  unfolding handle_request
  handle_request-Inv host s r v =
      if_cases (λ (p : Step B). Inv B p.1)
        (not (is_empty (daemon_mode_environment_error host.getenv))) (λ _. v)
        (λ _. run_command-Inv host s r (command_of r.command) v)

  create-Inv :
      (b : B.State) (version started_at : String) (pid : ℕ)
      → active B b ≡ false
      → Inv B (create B b version pid started_at)
  unfolding create
  create-Inv b version started_at pid a = ground arith

  -- What can happen to a daemon: a request, the installation of the callback, and the end of the
  -- session's worker, which leaves a backend with no active session.
  pub data Event (s : DaemonController B) : DaemonController B → Type 0 where
    request : (host : Host F) (r : DaemonRequest) → Event s (handle_request B host s r).1
    install : Event s (set_shutdown_callback B s)
    worker_lost : (b : B.State) → active B b ≡ false → Event s (with_backend B b s)

  pub data Reach (s : DaemonController B) : DaemonController B → Type 0 where
    here : Reach s s
    next : {t u : DaemonController B} → Reach s t → Event t u → Reach s u

  worker_lost-Inv :
      (s : DaemonController B) (b : B.State)
      → active B b ≡ false
      → Inv B s
      → Inv B (with_backend B b s)
  worker_lost-Inv s b a v = record {
    settled = v.settled;
    owned = λ h. cc;
    synced = unsynced s.desired;
    in_range = v.in_range;
    idle = v.idle;
  }
    where
      unsynced : (d : Option (DesiredConfig F)) → IsSynced B d b
      unsynced none = tt
      unsynced (some c) = λ h. cc

  Event-Inv : {s t : DaemonController B} → Event s t → Inv B s → Inv B t
  unfolding set_shutdown_callback
  Event-Inv {s} (request host r) v = handle_request-Inv host s r v
  Event-Inv install v = record {
    settled = v.settled;
    owned = v.owned;
    synced = v.synced;
    in_range = v.in_range;
    idle = v.idle;
  }
  Event-Inv {s} (worker_lost b a) v = worker_lost-Inv s b a v

  Reach-Inv : {s t : DaemonController B} → Inv B s → Reach s t → Inv B t
  Reach-Inv v here = v
  Reach-Inv v (next r e) = Event-Inv e (Reach-Inv v r)

  -- From a backend with no session, whatever requests arrive and whenever the session's worker
  -- ends, the controller's state satisfies `Inv`: the session is not in transition, a running
  -- session is the desired one with its bypass and volume, the desired volume is in range, and
  -- nothing is reported as running while the session is not enabled.
  pub Reach-create-Inv :
      (b : B.State) (version started_at : String) (pid : ℕ) {t : DaemonController B}
      → active B b ≡ false
      → Reach (create B b version pid started_at) t
      → Inv B t
  Reach-create-Inv b version started_at pid a r =
      Reach-Inv (create-Inv b version started_at pid a) r
