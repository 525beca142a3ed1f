-- ===== src/Controller/Handlers.antt =====
-- The request handlers of src/daemon_controller.cpp. Each returns the response and the new state.
use Prim.Native.String.{len}
use ee_eq_cli.Common.{
  suc, Bool, true, false, not, ◌&&◌, ◌||◌, ◌==◌, String, [], Option, none, some, on_option,
  on_result, if◌then◌else◌, is_empty, ◌=s◌,
}
use ee_eq_cli.Floats.{FloatOps}
use ee_eq_cli.Preset.{ParsedPreset}
use ee_eq_cli.Backend.{SessionBackend}
use ee_eq_cli.Protocol.{
  DaemonProcessState, SessionLifecycleState, HealthState, DaemonRequest, DaemonResponse,
}
use ee_eq_cli.Controller.{
  Host, DesiredConfig, DaemonController, daemon_mode_environment_error, is_enabled, status_locked,
  set_runtime_state_from_backend_locked, clear_effective_state_locked,
}

abbrev pub is_enabled_state : SessionLifecycleState → Bool
is_enabled_state SessionLifecycleState.enabled = true
is_enabled_state _ = false

-- `std::stof` with the test that it read the whole text.
unfoldable pub parse_volume : (F : FloatOps) → String → Option F.Float
parse_volume F text = on_option (F.stof text) none (λ r. if r.1 == len text then some r.0 else none)

-- The command that a request's text names.
pub data Command : Type 0 where
  status apply enable disable switch_sink bypass volume list_sinks shutdown unknown : Command

unfoldable pub command_of : String → Command
command_of text =
    if text =s "status"
    then status
    else (if text =s "apply"
        then apply
        else (if text =s "enable"
            then enable
            else (if text =s "disable"
                then disable
                else (if text =s "switch-sink"
                    then switch_sink
                    else (if text =s "bypass"
                        then bypass
                        else (if text =s "volume"
                            then volume
                            else (if text =s "list-sinks"
                                then list_sinks
                                else (if text =s "shutdown" then shutdown else unknown))))))))

abbrev pub means_on : String → Bool
means_on value = value =s "on" || value =s "true" || value =s "1"

abbrev pub means_off : String → Bool
means_off value = value =s "off" || value =s "false" || value =s "0"

module _ {F : FloatOps} (B : SessionBackend F) where
  open F use {Float, Double, f_zero, f_one, f_max, f_lt, f_ne}

  -- `{.ok = …, .error = …, .status = status_locked()}`
  abbrev pub reply : DaemonController B → Bool → String → DaemonResponse Float
  reply s accepted error = record {
    ok = accepted;
    error = error;
    status = status_locked B s;
    sinks = [];
  }

  abbrev pub Step : Type 0
  Step = DaemonResponse Float × DaemonController B

  -- A request that is refused before anything changes.
  abbrev pub refuse : DaemonController B → String → Step
  refuse s error = (reply s false error, s)

  abbrev pub with_session : SessionLifecycleState → DaemonController B → DaemonController B
  with_session x s = record s { status = record (s.status) { session_state = x } }

  abbrev pub with_health : HealthState → String → DaemonController B → DaemonController B
  with_health h e s = record s { status = record (s.status) { health = h; last_error = e } }

  abbrev pub with_backend : B.State → DaemonController B → DaemonController B
  with_backend b s = record s { backend = b }

  abbrev pub with_desired : Option (DesiredConfig F) → DaemonController B → DaemonController B
  with_desired d s = record s { desired = d }

  -- Bypass and volume of the desired configuration, set on a session that has just started.
  unfoldable pub push_settings : B.State → DesiredConfig F → B.State
  push_settings b c =
      let b' = if c.bypass then B.set_bypass b true else b in
      if f_ne c.volume f_one then B.set_volume b' c.volume else b'

  -- What every handler does with a session that has started for the configuration `c`.
  unfoldable pub adopt : DesiredConfig F → DaemonController B → DaemonController B
  adopt c s =
      let s' = with_desired (some c) s in
      set_runtime_state_from_backend_locked B (with_backend (push_settings s'.backend c) s')

  unfoldable pub succeed : DaemonController B → Step
  succeed s = let s' = with_health HealthState.ok "" s in (reply s' true "", s')

  -- No session could be started: the cached status says so.
  unfoldable pub give_up : Option (DesiredConfig F) → String → DaemonController B → Step
  give_up desired error s =
      let s' = with_health HealthState.degraded error (
        with_session SessionLifecycleState.degraded
          (clear_effective_state_locked B (with_desired desired s))) in
      (reply s' false error, s')

  -- A start has failed: the previous session is started again, if there was one.
  unfoldable pub roll_back : Option (DesiredConfig F) → String → DaemonController B → Step
  roll_back none error s = give_up none error s
  roll_back (some c) error s =
      let again = B.start_session s.backend c.preset c.preset_origin c.sink_selector in
      let s' = with_backend again.state s in
      if c.enabled
      then (if again.started
          then (let back = with_health HealthState.degraded error (adopt c s') in
              (reply back false error, back))
          else give_up (some c) error s')
      else give_up (some c) error s

  -- The configuration that `apply` asks for: bypass and volume carry over.
  unfoldable pub candidate :
      Option (DesiredConfig F) → DaemonRequest → String → ParsedPreset Double → DesiredConfig F
  candidate none request origin parsed = record {
    preset_path = request.preset_path;
    preset_origin = origin;
    preset = parsed;
    sink_selector = request.sink_selector;
    enabled = true;
    bypass = false;
    volume = f_one;
  }
  candidate (some d) request origin parsed = record {
    preset_path = request.preset_path;
    preset_origin = origin;
    preset = parsed;
    sink_selector = request.sink_selector;
    enabled = true;
    bypass = d.bypass;
    volume = d.volume;
  }

  -- Start a session for `c`; if that fails, go back to `previous`.
  unfoldable pub start_or_roll_back :
      Option (DesiredConfig F) → DesiredConfig F → DaemonController B → Step
  start_or_roll_back previous c s =
      let r = B.start_session s.backend c.preset c.preset_origin c.sink_selector in
      let s' = with_backend r.state s in
      if r.started then succeed (adopt c s') else roll_back previous r.error s'

  unfoldable pub apply_parsed : DaemonController B → DesiredConfig F → Step
  apply_parsed s c =
      let s' = with_session SessionLifecycleState.enabling s in
      start_or_roll_back s.desired c
        (if is_enabled s.desired then with_backend (B.stop_session s'.backend) s' else s')

  unfoldable pub apply_locked : Host F → DaemonController B → DaemonRequest → Step
  apply_locked host s request =
      if is_empty request.preset_path
      then refuse s "apply requires a preset path; usage: eq-cli apply <preset>"
      else on_result (host.load_preset_source request.preset_path) (refuse s) (λ loaded.
        on_result (host.parse_easy_effects_preset loaded.bytes) (refuse s)
          (λ parsed. apply_parsed s (candidate s.desired request loaded.origin parsed)))

  abbrev pub no_preset : String
  no_preset = "no preset loaded; run 'eq-cli apply <preset>' first"

  unfoldable pub start_desired : DesiredConfig F → DaemonController B → Step
  start_desired c s =
      let r = B.start_session s.backend c.preset c.preset_origin c.sink_selector in
      let s' = with_backend r.state s in
      if r.started
      then succeed (adopt (record c { enabled = true }) s')
      else give_up (some (record c { enabled = false })) r.error s'

  unfoldable pub enable_desired : DesiredConfig F → DaemonController B → Step
  enable_desired c s =
      if c.enabled && is_enabled_state s.status.session_state
      then (reply s true "", s)
      else start_desired c (with_session SessionLifecycleState.enabling s)

  unfoldable pub enable_locked : DaemonController B → Step
  unfolding enable_desired
  enable_locked s = on_option s.desired (refuse s no_preset) (λ c. enable_desired c s)

  abbrev pub switched_off : Option (DesiredConfig F) → Option (DesiredConfig F)
  switched_off none = none
  switched_off (some c) = some (record c { enabled = false })

  -- Stop the session; what `disable` and `shutdown` share.
  unfoldable pub stop_and_clear : DaemonController B → DaemonController B
  stop_and_clear s =
      let s' =
        with_session SessionLifecycleState.disabling (with_desired (switched_off s.desired) s) in
      with_session SessionLifecycleState.disabled
        (clear_effective_state_locked B (with_backend (B.stop_session s'.backend) s'))

  unfoldable pub disable_locked : DaemonController B → Step
  disable_locked s = succeed (stop_and_clear s)

  unfoldable pub list_sinks_locked : DaemonController B → Step
  list_sinks_locked s =
      let r = B.list_sinks s.backend in
      let s' = with_backend r.state s in
      if not (is_empty r.error)
      then (reply s' false r.error, s')
      else (record (reply s' true "") { sinks = r.sinks }, s')

  unfoldable pub switch_desired : DesiredConfig F → DaemonController B → DaemonRequest → Step
  switch_desired c s request =
      let c' = record c { sink_selector = request.sink_selector } in
      let s' = with_desired (some c') s in
      if is_empty request.sink_selector
      then refuse s
          "switch-sink requires a sink name or serial; usage: eq-cli switch-sink <name-or-serial>"
      else (if not c.enabled
          then (reply s' true "", s')
          else start_or_roll_back (some c) c' (
              with_backend (B.stop_session s'.backend)
                (with_session SessionLifecycleState.enabling s')))

  unfoldable pub switch_sink_locked : DaemonController B → DaemonRequest → Step
  unfolding switch_desired
  switch_sink_locked s request =
      on_option s.desired (refuse s no_preset) (λ c. switch_desired c s request)

  abbrev pub no_session : String
  no_session = "no active session; run 'eq-cli apply <preset>' to start one"

  unfoldable pub bypass_desired : DesiredConfig F → DaemonController B → String → Step
  bypass_desired c s value =
      let is_on = means_on value in
      if not is_on && not (means_off value)
      then refuse s "bypass requires on or off; usage: eq-cli bypass on|off"
      else succeed (
          with_backend (B.set_bypass s.backend is_on)
            (with_desired (some (record c { bypass = is_on })) s))

  unfoldable pub bypass_locked : DaemonController B → DaemonRequest → Step
  unfolding bypass_desired
  bypass_locked s request =
      on_option s.desired (refuse s no_session)
        (λ c. if c.enabled then bypass_desired c s request.sink_selector else refuse s no_session)

  unfoldable pub volume_desired : DesiredConfig F → DaemonController B → String → Step
  volume_desired c s text =
      on_option (parse_volume F text)
        (refuse s "volume requires a number; usage: eq-cli volume <0.0-1.5>")
        (λ value.
          if f_lt value f_zero || f_lt f_max value
          then refuse s "volume out of range; must be 0.0 to 1.5"
          else (let s' =
                with_backend (B.set_volume s.backend value)
                  (with_desired (some (record c { volume = value })) s) in
              (reply s' true "", s')))

  unfoldable pub volume_locked : DaemonController B → DaemonRequest → Step
  unfolding volume_desired
  volume_locked s request =
      on_option s.desired (refuse s no_session)
        (λ c. if c.enabled then volume_desired c s request.sink_selector else refuse s no_session)

  unfoldable pub shutdown_locked : DaemonController B → Step
  shutdown_locked s =
      let s' = stop_and_clear s in
      let s'' = record s' {
        status = record (s'.status) { daemon_state = DaemonProcessState.stopping };
        callback_runs = if s'.shutdown_callback then suc s'.callback_runs else s'.callback_runs;
      } in
      (reply s'' true "", s'')

  unfoldable pub run_command : Host F → DaemonController B → DaemonRequest → Command → Step
  run_command host s request status = (reply s true "", s)
  run_command host s request apply = apply_locked host s request
  run_command host s request enable = enable_locked s
  run_command host s request disable = disable_locked s
  run_command host s request switch_sink = switch_sink_locked s request
  run_command host s request bypass = bypass_locked s request
  run_command host s request volume = volume_locked s request
  run_command host s request list_sinks = list_sinks_locked s
  run_command host s request shutdown = shutdown_locked s
  run_command host s request unknown = refuse s "unknown daemon command"

  unfoldable pub handle_request : Host F → DaemonController B → DaemonRequest → Step
  handle_request host s request =
      let env_error = daemon_mode_environment_error host.getenv in
      if not (is_empty env_error)
      then refuse s env_error
      else run_command host s request (command_of request.command)
