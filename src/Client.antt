-- ===== src/Client.antt =====
-- The commands that talk to the daemon, and `daemon start` (src/main.cpp, and the loop of
-- src/daemon_ipc.cpp as far as the controller sees it). `arguments` are those after the program's
-- name. What is printed is a list of texts.
pub mod Answers
pub mod Start
mod Tests
use ee_eq_cli.Common.{
  ℕ, Bool, true, false, not, ◌&&◌, ◌||◌, String, List, [], ◌∷◌, Option, none, some, Result, ok, err,
  is_empty, ◌=s◌, ◌<>◌, if◌then◌else◌, on_result, decimal, signed_decimal,
}
use ee_eq_cli.Floats.{FloatOps}
use ee_eq_cli.Protocol.{
  HealthState, DesiredState, EffectiveState, DaemonStatus, DaemonRequest, DaemonResponse,
}
use ee_eq_cli.Protocol.Texts.{daemon_state_text, session_state_text, health_text}

-- What the program is given: `std::filesystem::absolute`, the answer of `send_daemon_request`, and
-- `nlohmann::json(status).dump(2)`.
pub record ClientHost (F : FloatOps) : Type 0 where
  pub absolute : String → String
  pub send_daemon_request : DaemonRequest → Result (DaemonResponse F.Float)
  pub dump_status : DaemonStatus F.Float → String

-- The exit status, and what is logged.
pub record Exit : Type 0 where
  pub success : Bool
  pub info : List String
  pub errors : List String

abbrev pub failed : String → Exit
failed e = record { success = false; info = []; errors = e ∷ [] }

abbrev pub printed : List String → Exit
printed lines = record { success = true; info = lines; errors = [] }

abbrev pub ask : String → String → String → DaemonRequest
ask command path sink = record { command = command; preset_path = path; sink_selector = sink }

-- `", "` between the texts.
abbrev pub joined : List String → String
joined [] = ""
joined (x ∷ []) = x
joined (x ∷ y ∷ ys) = x <> (", " <> joined (y ∷ ys))

abbrev is_nil : List String → Bool
is_nil [] = true
is_nil (x ∷ xs) = false

abbrev pub is_ok : HealthState → Bool
is_ok HealthState.ok = true
is_ok _ = false

abbrev when : Bool → String → String
when b text = if b then text else ""

module _ (F : FloatOps) where
  open F use {Float, percent}

  abbrev preset_line : DaemonStatus Float → String
  preset_line s =
      if s.effective.session_active && not (is_empty s.effective.preset_origin)
      then "\npreset:   " <> s.effective.preset_origin
      else (if not (is_empty s.desired.preset_path)
          then "\npreset:   " <> s.desired.preset_path
          else "\npreset:   (none)")

  abbrev sink_text : EffectiveState Float → String
  sink_text e = e.sink_name <> " [serial " <> decimal e.sink_serial <> "]"

  abbrev sink_line : EffectiveState Float → String
  sink_line e =
      if e.session_active && not (is_empty e.sink_name)
      then "\nsink:     " <> sink_text e
      else "\nsink:     (none)"

  abbrev plugins_line : List String → String
  plugins_line plugins =
      if is_nil plugins then "\nplugins:  (none)" else "\nplugins:  " <> joined plugins

  pub format_doctor_output : DaemonStatus Float → String
  format_doctor_output s =
      "eq-cli "
      <> s.version
      <> " (pid "
      <> decimal s.pid
      <> ", up since "
      <> s.started_at
      <> ")\n"
      <> "daemon:   "
      <> daemon_state_text s.daemon_state
      <> "\n"
      <> "session:  "
      <> session_state_text s.session_state
      <> "\n"
      <> "health:   "
      <> health_text s.health
      <> preset_line s
      <> sink_line s.effective
      <> "\nbypass:   "
      <> (if s.desired.bypass then "on" else "off")
      <> when s.effective.session_active
          ("\nvolume:   " <> signed_decimal (percent s.effective.volume) <> "%")
      <> plugins_line s.effective.active_plugins
      <> when (not (is_empty s.last_error)) ("\nerror:    " <> s.last_error)

  module _ (host : ClientHost F) where
    abbrev accepted : DaemonResponse Float → Result (DaemonResponse Float)
    accepted r = if r.ok then Result.ok r else err r.error

    -- The lambda `send_request`, then `show` of an accepted response.
    unfoldable pub reply : DaemonRequest → (DaemonResponse Float → Exit) → Exit
    reply request show =
        on_result (on_result (host.send_daemon_request request) err accepted) failed show

    abbrev show_status : DaemonResponse Float → Exit
    show_status r = printed (host.dump_status r.status ∷ [])

    abbrev show_health : DaemonResponse Float → Exit
    show_health r = record {
      success = is_ok r.status.health;
      info = health_text r.status.health ∷ [];
      errors = [];
    }

    abbrev show_doctor : DaemonResponse Float → Exit
    show_doctor r = printed (format_doctor_output r.status ∷ [])

    abbrev show_sink : DaemonResponse Float → Exit
    show_sink r = printed (
        (if not r.status.effective.session_active || is_empty r.status.effective.sink_name
          then "no active session"
          else sink_text r.status.effective)
        ∷ [])

    abbrev show_nothing : DaemonResponse Float → Exit
    show_nothing r = record { success = r.ok; info = []; errors = [] }

    -- The options of `apply`: the sink, or what is wrong.
    unfoldable pub apply_options : List String → String → Result String
    apply_options [] sink = Result.ok sink
    apply_options (a ∷ []) sink =
        if a =s "--sink" || a =s "-s"
        then err "missing value for --sink"
        else err ("unknown option: " <> a)
    apply_options (a ∷ v ∷ rest) sink =
        let more = apply_options rest v in
        if a =s "--sink" || a =s "-s" then more else err ("unknown option: " <> a)

    unfoldable pub apply_command : List String → Exit
    apply_command [] = failed "usage: eq-cli apply <preset> [--sink <name-or-serial>]"
    apply_command (path ∷ options) =
        on_result (apply_options options "") failed
          (λ sink. reply (ask "apply" (host.absolute path) sink) show_status)

    -- A command with one argument, which travels as the sink selector.
    unfoldable pub argument_command :
        String → String → (DaemonResponse Float → Exit) → List String → Exit
    argument_command command usage show [] = failed usage
    argument_command command usage show (x ∷ rest) = reply (ask command "" x) show

    abbrev is_plain : String → Bool
    is_plain c = c =s "enable" || c =s "disable" || c =s "list-sinks" || c =s "shutdown"

    abbrev plain_show : String → DaemonResponse Float → Exit
    plain_show c r = if c =s "list-sinks" then printed r.sinks else show_status r

    -- Commands after `daemon`; `none` where the program goes on in standalone mode.
    unfoldable pub client_command : String → List String → Option Exit
    client_command c rest =
        if c =s "status"
        then some (reply (ask "status" "" "") show_status)
        else (if c =s "health"
            then some (reply (ask "status" "" "") show_health)
            else (if c =s "doctor"
                then some (reply (ask "status" "" "") show_doctor)
                else (if c =s "current-sink"
                    then some (reply (ask "status" "" "") show_sink)
                    else (if c =s "apply"
                        then some (apply_command rest)
                        else (if c =s "switch-sink"
                            then some (
                                argument_command c "usage: eq-cli switch-sink <name-or-serial>"
                                  show_status rest)
                            else (if c =s "bypass"
                                then some (
                                    argument_command c "usage: eq-cli bypass on|off" show_status
                                      rest)
                                else (if c =s "volume"
                                    then some (
                                        argument_command c "usage: eq-cli volume <0.0-1.5>"
                                          show_nothing rest)
                                    else (if is_plain c
                                        then some (reply (ask c "" "") (plain_show c))
                                        else none))))))))

    -- `start` runs the rest of `daemon`.
    unfoldable pub handle_daemon_mode : (List String → Exit) → List String → Option Exit
    handle_daemon_mode start [] = none
    handle_daemon_mode start (c ∷ rest) =
        if c =s "daemon" then some (start rest) else client_command c rest
