-- ===== src/Controller/Tests.antt =====
-- The controller over the real backend and a router for tests: concrete runs, and each theorem at
-- an input that meets its hypotheses.
use ee_eq_cli.Common.{
  true, false, String, [], ◌∷◌, Option, none, some, ok, ◌≡◌, refl, ◌⊎◌, inr, ◌↔◌,
}
use ee_eq_cli.Floats.Decimal.{Decimal, plus, decimals, decimals-FloatLaws}
use ee_eq_cli.Preset.{ParsedPreset}
use ee_eq_cli.Router.Simple.{Session, simple_router, simple_router-RouterLaws}
use ee_eq_cli.Backend.{SessionBackend, BackendLaws, active}
use ee_eq_cli.Backend.Real.{
  drained, RealSessionBackend, real_backend, real_backend-BackendLaws, start_session, stop_session,
  set_bypass, set_volume, snapshot,
}
use ee_eq_cli.Protocol.{SessionLifecycleState, DaemonRequest}
use ee_eq_cli.Controller.{
  Host, DesiredConfig, DaemonController, LoadedPresetSource, create, status_locked,
  daemon_mode_environment_error, set_runtime_state_from_backend_locked,
  clear_effective_state_locked,
}
use ee_eq_cli.Controller.Handlers.{
  command_of, handle_request, run_command, apply_locked, apply_parsed, start_or_roll_back,
  roll_back, adopt, push_settings, succeed, give_up, candidate, parse_volume, volume_locked,
  volume_desired, bypass_locked, bypass_desired, shutdown, enable, switched_off, with_backend,
}
use ee_eq_cli.Controller.Invariant.{Inv}
use ee_eq_cli.Controller.Requests.{Reach, here, next, request, worker_lost, Reach-create-Inv}
use ee_eq_cli.Controller.Spec.{Allowed, handle_request-Allowed}
use ee_eq_cli.Controller.Rollback.{apply-rolls_back, rejected-keeps-desired}
use ee_eq_cli.Controller.Settings.{Applied, apply-Applied, IsAccepted, TurnsTo, volume_iff}
use ee_eq_cli.Controller.Sessions.{Plays}
use ee_eq_cli.Controller.Status.{status-session_active, handle_request-IsCurrent}
use ee_eq_cli.Controller.Lifecycle.{IsStopped, handle_request-process, stop_lem}
use ee_eq_cli.Controller.Errors.{HostLaws, error-empty_iff}

abbrev B : SessionBackend decimals
B = real_backend simple_router

L : BackendLaws B
L = real_backend-BackendLaws simple_router simple_router-RouterLaws

abbrev empty_preset : ParsedPreset Decimal
empty_preset = record {
  plugin_order = "equalizer" ∷ [];
  warnings = [];
  equalizer = record {
    bypass = false;
    input_gain_db = plus 0;
    output_gain_db = plus 0;
    mode = "IIR";
    split_channels = false;
    balance = plus 0;
    pitch_left = plus 0;
    pitch_right = plus 0;
    num_bands = 1;
    left = [];
    right = [];
  };
  limiter = none;
  convolver = none;
}

-- Any path can be read; every text is the same preset.
abbrev host : Host decimals
host = record {
  getenv = λ name. none;
  load_preset_source = λ path. ok (record { origin = path; bytes = [] });
  parse_easy_effects_preset = λ bytes. ok empty_preset;
}

abbrev ask : String → String → String → DaemonRequest
ask command path sink = record { command = command; preset_path = path; sink_selector = sink }

abbrev backend : RealSessionBackend simple_router
backend = record {
  router = none;
  preset_origin = "";
  worker = false;
  stop_requested = false;
  worker_failed = false;
  stop_fd = drained;
}

fresh : DaemonController B
unfolding create
fresh = create B backend "0.3" 42 "now"

do_ : DaemonController B → DaemonRequest → DaemonController B
unfolding handle_request run_command apply_locked apply_parsed start_or_roll_back roll_back adopt
    push_settings succeed give_up candidate volume_locked volume_desired bypass_locked
    bypass_desired parse_volume command_of daemon_mode_environment_error
    set_runtime_state_from_backend_locked clear_effective_state_locked start_session stop_session
    set_bypass set_volume snapshot status_locked
do_ s r = (handle_request B host s r).1

playing : DaemonController B
unfolding fresh do_
playing = do_ fresh (ask "apply" "a.json" "speakers")

quiet : DaemonController B
unfolding playing
quiet = do_ playing (ask "volume" "" "0.5")

quiet_runs :
    ((quiet.status.session_state) ≡ SessionLifecycleState.enabled)
    × ((B.snapshot quiet.backend).volume ≡ plus 500)
unfolding quiet
quiet_runs = (refl, refl)

-- The session's worker ends.
abbrev lost : DaemonController B
lost = with_backend B (record quiet.backend { worker_failed = true }) quiet

abbrev missing : DaemonRequest
missing = ask "apply" "b.json" "missing"

abbrev loaded : LoadedPresetSource
loaded = record { origin = "b.json"; bytes = [] }

lost_at :
    (o : Option Session) (b : RealSessionBackend simple_router)
    → active B (record b { router = o; worker_failed = true }) ≡ false
unfolding snapshot
lost_at none b = refl
lost_at (some r) b = refl

lost_inactive :
    (b : RealSessionBackend simple_router) → active B (record b { worker_failed = true }) ≡ false
lost_inactive b = lost_at b.router b

quiet-Reach : Reach B decimals-FloatLaws L fresh quiet
unfolding quiet playing do_
quiet-Reach =
    next (next here (request host (ask "apply" "a.json" "speakers")))
      (request host (ask "volume" "" "0.5"))

quiet-Inv : Inv B quiet
unfolding fresh snapshot
quiet-Inv = Reach-create-Inv B decimals-FloatLaws L backend "0.3" "now" 42 refl quiet-Reach

Reach-create-Inv_example : Inv B quiet
unfolding fresh snapshot
Reach-create-Inv_example =
    Reach-create-Inv B decimals-FloatLaws L backend "0.3" "now" 42 refl quiet-Reach

handle_request-Allowed_example :
    (let p = handle_request B host quiet missing in
      Allowed B host missing quiet.desired
        (active B quiet.backend)
        p.0.ok
        p.1.desired
        (active B p.1.backend))
handle_request-Allowed_example = handle_request-Allowed B decimals-FloatLaws L host missing quiet

-- The configuration of the session that plays.
abbrev old : DesiredConfig decimals
old = record {
  preset_path = "a.json";
  preset_origin = "a.json";
  preset = empty_preset;
  sink_selector = "speakers";
  enabled = true;
  bypass = false;
  volume = plus 500;
}

quiet_desired : quiet.desired ≡ some old
unfolding quiet
quiet_desired = refl

quiet_active :
    (active B quiet.backend ≡ true) × (quiet.status.session_state ≡ SessionLifecycleState.enabled)
unfolding quiet
quiet_active = (refl, refl)

lost-Inv : Inv B lost
unfolding snapshot fresh
lost-Inv =
    Reach-create-Inv B decimals-FloatLaws L backend "0.3" "now" 42 refl
      (next quiet-Reach (worker_lost _ (lost_inactive quiet.backend)))

apply-rolls_back_example :
    (let p = handle_request B host quiet missing in
      (p.0.ok ≡ false)
      × (p.0.error ≡ "no PipeWire sink matched")
      × (p.1.desired ≡ some old)
      × Plays B decimals-FloatLaws L old p.1.backend)
unfolding quiet
apply-rolls_back_example =
    apply-rolls_back B decimals-FloatLaws L host quiet missing loaded empty_preset refl refl refl
      refl refl old refl refl refl refl

rejected-keeps-desired_example :
    (let p = handle_request B host quiet missing in
      (p.1.desired ≡ quiet.desired)
      ⊎ ((command_of missing.command ≡ enable) × (p.1.desired ≡ switched_off B quiet.desired)))
unfolding quiet
rejected-keeps-desired_example =
    rejected-keeps-desired B decimals-FloatLaws L host quiet missing refl

apply-Applied_example :
    Applied B decimals-FloatLaws L host
      (ask "apply" "b.json" "hdmi")
      quiet
      (handle_request B host quiet (ask "apply" "b.json" "hdmi")).1
unfolding quiet
apply-Applied_example =
    apply-Applied B decimals-FloatLaws L host quiet (ask "apply" "b.json" "hdmi") refl refl

status-session_active_example :
    (let t = status_locked B lost in
      (t.effective.session_active ≡ active B lost.backend)
      × ((t.session_state ≡ SessionLifecycleState.enabled) ↔ (active B lost.backend ≡ true)))
status-session_active_example = status-session_active B lost lost-Inv

handle_request-IsCurrent_example :
    (let p = handle_request B host quiet missing in p.0.status ≡ status_locked B p.1)
handle_request-IsCurrent_example = handle_request-IsCurrent B host quiet missing

handle_request-process_example :
    (let p = handle_request B host quiet (ask "shutdown" "" "") in
      ((p.1.status.daemon_state ≡ quiet.status.daemon_state)
        × (p.1.shutdown_callback ≡ quiet.shutdown_callback)
        × (p.1.callback_runs ≡ quiet.callback_runs))
      ⊎ ((command_of "shutdown" ≡ shutdown) × IsStopped B quiet p))
handle_request-process_example = handle_request-process B host quiet (ask "shutdown" "" "")

stop_lem_example :
    (let p = handle_request B host quiet (ask "shutdown" "" "") in
      (p.0.ok ≡ true)
      × (active B p.1.backend ≡ false)
      × (p.1.desired ≡ switched_off B quiet.desired)
      × (p.0.status.session_state ≡ SessionLifecycleState.disabled)
      × (p.0.status.effective.session_active ≡ false))
unfolding quiet
stop_lem_example = stop_lem B L host quiet (ask "shutdown" "" "") refl (inr refl)

host-HostLaws : HostLaws host
host-HostLaws = record { load_error = λ path e h. cc; parse_error = λ bytes e h. cc }

error-empty_iff_example :
    (let p = handle_request B host quiet missing in (p.0.error ≡ "") ↔ (p.0.ok ≡ true))
error-empty_iff_example = error-empty_iff B L host quiet missing host-HostLaws

volume_iff_example :
    (let p = handle_request B host quiet (ask "volume" "" "nan") in
      (p.0.ok ≡ true) ↔ ((v : Decimal) × IsAccepted B "nan" v × TurnsTo B old quiet v p))
unfolding quiet
volume_iff_example = volume_iff B host quiet (ask "volume" "" "nan") old refl refl refl refl

-- So a NaN is accepted as a volume.
nan_accepted : (handle_request B host quiet (ask "volume" "" "nan")).0.ok ≡ true
unfolding quiet
nan_accepted = refl

real_backend-BackendLaws_example : BackendLaws B
real_backend-BackendLaws_example = real_backend-BackendLaws simple_router simple_router-RouterLaws
