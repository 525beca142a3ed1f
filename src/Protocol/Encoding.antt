-- ===== src/Protocol/Encoding.antt =====
-- `to_json` and `from_json` of the protocol's types (src/daemon_protocol.cpp).
use ee_eq_cli.Common.{
  Bool, true, false, not, ◌||◌, ◌==◌, String, List, [], ◌∷◌, is_empty, if◌then◌else◌,
}
use ee_eq_cli.Floats.{FloatOps}
use ee_eq_cli.Outcome.{Outcome, ok, ◌>>=◌}
use ee_eq_cli.Json.{JsonLib}
use ee_eq_cli.Protocol.{
  DaemonProcessState, SessionLifecycleState, DaemonStatus, DesiredState, EffectiveState,
  DaemonRequest, DaemonResponse, no_status,
}
use ee_eq_cli.Protocol.Texts.{
  daemon_state_text, session_state_text, health_text, parse_daemon_state, parse_session_state,
  parse_health_state,
}

abbrev pub is_starting : DaemonProcessState → Bool
is_starting DaemonProcessState.starting = true
is_starting _ = false

abbrev is_disabled : SessionLifecycleState → Bool
is_disabled SessionLifecycleState.disabled = true
is_disabled _ = false

abbrev is_nil : List String → Bool
is_nil [] = true
is_nil (x ∷ xs) = false

module _ {F : FloatOps} (J : JsonLib F) where
  open F use {Float, f_one}
  open J use {Json, object, set_key, contains, at_key, value, text, texts, bool, int, float}

  abbrev pub daemon_part : DaemonStatus Float → Json
  daemon_part s = object (
      ("state", text.put (daemon_state_text s.daemon_state))
      ∷ ("version", text.put s.version)
      ∷ ("pid", int.put s.pid)
      ∷ ("started_at", text.put s.started_at)
      ∷ [])

  abbrev pub session_part : DaemonStatus Float → Json
  session_part s = object (("state", text.put (session_state_text s.session_state)) ∷ [])

  abbrev pub desired_part : DesiredState Float → Json
  desired_part d = object (
      ("preset_path", text.put d.preset_path)
      ∷ ("sink_selector", text.put d.sink_selector)
      ∷ ("enabled", bool.put d.enabled)
      ∷ ("bypass", bool.put d.bypass)
      ∷ ("volume", float.put d.volume)
      ∷ [])

  abbrev pub effective_part : EffectiveState Float → Json
  effective_part e = object (
      ("session_active", bool.put e.session_active)
      ∷ ("preset_origin", text.put e.preset_origin)
      ∷ ("sink_name", text.put e.sink_name)
      ∷ ("sink_serial", int.put e.sink_serial)
      ∷ ("active_plugins", texts.put e.active_plugins)
      ∷ ("bypass", bool.put e.bypass)
      ∷ ("volume", float.put e.volume)
      ∷ [])

  unfoldable pub status_to_json : DaemonStatus Float → Json
  status_to_json s = object (
      ("daemon", daemon_part s)
      ∷ ("session", session_part s)
      ∷ ("desired", desired_part s.desired)
      ∷ ("effective", effective_part s.effective)
      ∷ ("health", text.put (health_text s.health))
      ∷ ("last_error", text.put s.last_error)
      ∷ [])

  unfoldable pub desired_from_json : Json → Outcome (DesiredState Float)
  desired_from_json j = do
    preset_path ← value text j "preset_path" ""
    sink_selector ← value text j "sink_selector" ""
    enabled ← value bool j "enabled" false
    bypass ← value bool j "bypass" false
    volume ← value float j "volume" f_one
    ok (record {
      preset_path = preset_path;
      sink_selector = sink_selector;
      enabled = enabled;
      bypass = bypass;
      volume = volume;
    })

  unfoldable pub effective_from_json : Json → Outcome (EffectiveState Float)
  effective_from_json j = do
    session_active ← value bool j "session_active" false
    preset_origin ← value text j "preset_origin" ""
    sink_name ← value text j "sink_name" ""
    sink_serial ← value int j "sink_serial" 0
    active_plugins ← value texts j "active_plugins" []
    bypass ← value bool j "bypass" false
    volume ← value float j "volume" f_one
    ok (record {
      session_active = session_active;
      preset_origin = preset_origin;
      sink_name = sink_name;
      sink_serial = sink_serial;
      active_plugins = active_plugins;
      bypass = bypass;
      volume = volume;
    })

  -- In the source's order of reading.
  unfoldable pub status_from_json : Json → Outcome (DaemonStatus Float)
  status_from_json j = do
    daemon ← at_key j "daemon"
    session ← at_key j "session"
    desired ← at_key j "desired"
    effective ← at_key j "effective"
    daemon_state ← value text daemon "state" "failed"
    session_state ← value text session "state" "disabled"
    d ← desired_from_json desired
    e ← effective_from_json effective
    health ← value text j "health" "failed"
    last_error ← value text j "last_error" ""
    version ← value text daemon "version" ""
    pid ← value int daemon "pid" 0
    started_at ← value text daemon "started_at" ""
    ok (record {
      daemon_state = parse_daemon_state daemon_state;
      session_state = parse_session_state session_state;
      desired = d;
      effective = e;
      health = parse_health_state health;
      last_error = last_error;
      version = version;
      pid = pid;
      started_at = started_at;
    })

  unfoldable pub request_from_json : Json → Outcome DaemonRequest
  request_from_json j = do
    command ← value text j "command" ""
    preset_path ← value text j "preset_path" ""
    sink_selector ← value text j "sink_selector" ""
    ok (record { command = command; preset_path = preset_path; sink_selector = sink_selector })

  unfoldable pub request_to_json : DaemonRequest → Json
  request_to_json r = object (
      ("command", text.put r.command)
      ∷ ("preset_path", text.put r.preset_path)
      ∷ ("sink_selector", text.put r.sink_selector)
      ∷ [])

  -- Whether a response carries its status.
  unfoldable pub shows_status : DaemonStatus Float → Bool
  shows_status s =
      not (is_empty s.version)
      || not (s.pid == 0)
      || not (is_starting s.daemon_state)
      || not (is_disabled s.session_state)
      || not (is_empty s.last_error)
      || not (is_empty s.desired.preset_path)
      || not (is_empty s.effective.preset_origin)
      || s.effective.session_active

  abbrev pub answer_part : DaemonResponse Float → Json
  answer_part r = object (("ok", bool.put r.ok) ∷ ("error", text.put r.error) ∷ [])

  abbrev pub add_sinks : List String → Json → Json
  add_sinks [] j = j
  add_sinks (x ∷ xs) j = set_key j "sinks" (texts.put (x ∷ xs))

  abbrev pub add_status : DaemonStatus Float → Json → Json
  add_status s j = if shows_status s then set_key j "status" (status_to_json s) else j

  unfoldable pub response_to_json : DaemonResponse Float → Json
  response_to_json r = add_status r.status (add_sinks r.sinks (answer_part r))

  abbrev pub read_status : Json → Outcome (DaemonStatus Float)
  read_status j = do s ← at_key j "status"; status_from_json s

  unfoldable pub response_from_json : Json → Outcome (DaemonResponse Float)
  response_from_json j = do
    accepted ← value bool j "ok" false
    error ← value text j "error" ""
    sinks ← value texts j "sinks" []
    status ← if contains j "status" then read_status j else ok (no_status F)
    ok (record { ok = accepted; error = error; status = status; sinks = sinks })
