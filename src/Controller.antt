-- ===== src/Controller.antt =====
-- The daemon's controller (src/daemon_controller.hpp and src/daemon_controller.cpp). The mutex makes
-- each request one step, so a request is a function from the state to a response and a new state.
-- `shutdown_callback` says whether a callback is installed, and `callback_runs` counts its calls.
pub mod Handlers
pub mod Invariant
pub mod Requests
pub mod Starts
pub mod Cases
pub mod Status
pub mod Lifecycle
pub mod Spec
pub mod Sessions
pub mod Rollback
pub mod Settings
pub mod Errors
pub mod Answers
mod Tests
use ee_eq_cli.Common.{
  ℕ, suc, Bool, true, false, not, ◌&&◌, String, List, [], ◌∷◌, Option, none, some, Result,
  if◌then◌else◌, is_empty, ◌<>◌,
}
use ee_eq_cli.Floats.{FloatOps}
use ee_eq_cli.Preset.{ParsedPreset}
use ee_eq_cli.Backend.{SessionBackend, RuntimeSnapshot}
use ee_eq_cli.Protocol.{
  DaemonProcessState, SessionLifecycleState, HealthState, DesiredState, EffectiveState,
  DaemonStatus, no_desired, no_effective, no_status,
}

-- What `load_preset_source` returns.
pub record LoadedPresetSource : Type 0 where
  pub origin : String
  pub bytes : List ℕ

-- What the controller asks of the rest of the program: the environment, the file loader
-- and the preset parser.
pub record Host (F : FloatOps) : Type 0 where
  pub getenv : String → Option String
  pub load_preset_source : String → Result LoadedPresetSource
  pub parse_easy_effects_preset : List ℕ → Result (ParsedPreset F.Double)

pub record DesiredConfig (F : FloatOps) : Type 0 where
  pub preset_path : String
  pub preset_origin : String
  pub preset : ParsedPreset F.Double
  pub sink_selector : String
  pub enabled : Bool
  pub bypass : Bool
  pub volume : F.Float

pub record DaemonController {F : FloatOps} (B : SessionBackend F) : Type 0 where
  pub backend : B.State
  pub status : DaemonStatus F.Float
  pub desired : Option (DesiredConfig F)
  pub init_error_degraded : Bool
  pub shutdown_callback : Bool
  pub callback_runs : ℕ

-- `value != nullptr && *value != '\0'`
abbrev pub is_set : Option String → Bool
is_set none = false
is_set (some v) = not (is_empty v)

abbrev pub unsupported_env : List String
unsupported_env =
    "EQ_CLI_DISABLE_CONVOLVER" ∷ "EQ_CLI_CONVOLVER_RT_PROCESS" ∷ "EQ_CLI_CONVOLVER_SCHED_FIFO" ∷ []

-- The empty text means that no unsupported variable is set.
first_set : (String → Option String) → List String → String
first_set getenv [] = ""
first_set getenv (name ∷ names) =
    if is_set (getenv name)
    then name <> " is unsupported in daemon mode"
    else first_set getenv names

unfoldable pub daemon_mode_environment_error : (String → Option String) → String
unfolding first_set
daemon_mode_environment_error getenv = first_set getenv unsupported_env

abbrev pub is_enabled : {F : FloatOps} → Option (DesiredConfig F) → Bool
is_enabled none = false
is_enabled (some c) = c.enabled

module _ {F : FloatOps} (B : SessionBackend F) where
  open F use {Float, Double, f_one, f_ne}

  -- The constructor.
  unfoldable pub create : B.State → String → ℕ → String → DaemonController B
  create backend version pid started_at = record {
    backend = backend;
    status = record (no_status F) {
      daemon_state = DaemonProcessState.ready;
      version = version;
      pid = pid;
      started_at = started_at;
    };
    desired = none;
    init_error_degraded = false;
    shutdown_callback = false;
    callback_runs = 0;
  }

  unfoldable pub set_shutdown_callback : DaemonController B → DaemonController B
  set_shutdown_callback s = record s { shutdown_callback = true }

  abbrev pub desired_of : Option (DesiredConfig F) → DesiredState Float
  desired_of none = no_desired F
  desired_of (some c) = record {
    preset_path = c.preset_path;
    sink_selector = c.sink_selector;
    enabled = c.enabled;
    bypass = c.bypass;
    volume = c.volume;
  }

  -- `status.effective.… = snapshot.…`
  abbrev pub effective_of : RuntimeSnapshot Float → EffectiveState Float
  effective_of n = record {
    session_active = n.session_active;
    preset_origin = n.preset_origin;
    sink_name = n.sink_name;
    sink_serial = n.sink_serial;
    active_plugins = n.active_plugins;
    bypass = n.bypass;
    volume = n.volume;
  }

  -- The second half of `status_locked`, for an enabled session.
  unfoldable pub refreshed : RuntimeSnapshot Float → Bool → DaemonStatus Float → DaemonStatus Float
  refreshed n init_error_degraded t =
      let seen = record t { effective = effective_of n } in
      if n.session_active
      then (let on = record seen { session_state = SessionLifecycleState.enabled } in
          if not (is_empty n.init_error)
          then record on { health = HealthState.degraded; last_error = n.init_error }
          else (if init_error_degraded
              then record on { health = HealthState.ok; last_error = "" }
              else on))
      else record seen {
        session_state = SessionLifecycleState.degraded;
        health = HealthState.degraded;
      }

  unfoldable pub status_locked : DaemonController B → DaemonStatus Float
  unfolding refreshed
  status_locked s =
      let t = record (s.status) { desired = desired_of s.desired } in
      if is_enabled s.desired then refreshed (B.snapshot s.backend) s.init_error_degraded t else t

  unfoldable pub set_runtime_state_from_backend_locked : DaemonController B → DaemonController B
  set_runtime_state_from_backend_locked s =
      let n = B.snapshot s.backend in
      let t = record (s.status) {
        effective = effective_of n;
        session_state =
            if n.session_active
            then SessionLifecycleState.enabled
            else SessionLifecycleState.disabled;
      } in
      if not (is_empty n.init_error)
      then record s {
        status = record t { health = HealthState.degraded; last_error = n.init_error };
        init_error_degraded = true;
      }
      else (if s.init_error_degraded
          then record s {
            status = record t { health = HealthState.ok; last_error = "" };
            init_error_degraded = false;
          }
          else record s { status = t })

  unfoldable pub clear_effective_state_locked : DaemonController B → DaemonController B
  clear_effective_state_locked s = record s {
    status = record (s.status) { effective = no_effective F };
  }
