-- ===== src/Client/Start.antt =====
-- `daemon start` up to the server's loop (src/main.cpp).
use ee_eq_cli.Common.{
  Bool, true, false, not, ◌||◌, String, List, [], ◌∷◌, Option, none, some, Result, ok, err,
  is_empty, ◌≡◌, ◌=s◌, ◌<>◌, if◌then◌else◌, on_result,
}
use ee_eq_cli.Floats.{FloatOps, FloatLaws}
use ee_eq_cli.Backend.{SessionBackend, BackendLaws}
use ee_eq_cli.Cli.{default_preset_env}
use ee_eq_cli.Client.{ask}
use ee_eq_cli.Controller.{Host, DaemonController, daemon_mode_environment_error}
use ee_eq_cli.Controller.Handlers.{handle_request}
use ee_eq_cli.Controller.Settings.{Applied}
use ee_eq_cli.Controller.Requests.{Reach}

-- The initial preset and sink.
pub record Initial : Type 0 where
  pub preset : String
  pub sink : String

abbrev pub no_initial : Initial
no_initial = record { preset = ""; sink = "" }

abbrev is_preset_option : String → Bool
is_preset_option a = a =s "--preset" || a =s "-p"

abbrev is_sink_option : String → Bool
is_sink_option a = a =s "--sink" || a =s "-s"

-- The loop over the options, with `std::filesystem::absolute`.
unfoldable pub start_options : (String → String) → List String → Initial → Result Initial
start_options absolute [] x = ok x
start_options absolute (a ∷ []) x =
    if is_preset_option a
    then err "missing value for --preset"
    else (if is_sink_option a
        then err "missing value for --sink"
        else err ("unknown option: " <> a))
start_options absolute (a ∷ v ∷ rest) x =
    let with_preset = start_options absolute rest (record x { preset = absolute v }) in
    let with_sink = start_options absolute rest (record x { sink = v }) in
    if is_preset_option a
    then with_preset
    else (if is_sink_option a then with_sink else err ("unknown option: " <> a))

abbrev non_empty : Option String → String
non_empty none = ""
non_empty (some v) = v

-- The preset of the options, or that of the environment.
unfoldable pub initial_preset : (String → Option String) → Initial → String
initial_preset getenv x =
    if is_empty x.preset then non_empty (getenv default_preset_env) else x.preset

module _ {F : FloatOps} (B : SessionBackend F) (host : Host F) where
  abbrev started : DaemonController B → Initial → Result (DaemonController B)
  started s x =
      let preset = initial_preset host.getenv x in
      let p = handle_request B host s (ask "apply" preset x.sink) in
      if is_empty preset then ok s else (if p.0.ok then ok p.1 else err p.0.error)

  abbrev usage : String
  usage = "usage: eq-cli daemon start [--preset <path>] [--sink <name>]"

  -- The controller that the server's loop runs on, or the error that is logged.
  unfoldable pub daemon_start :
      (String → String) → DaemonController B → List String → Result (DaemonController B)
  daemon_start absolute fresh [] = err usage
  daemon_start absolute fresh (a ∷ options) =
      if not (a =s "start")
      then err usage
      else (if not (is_empty (daemon_mode_environment_error host.getenv))
          then err (daemon_mode_environment_error host.getenv)
          else on_result (start_options absolute options no_initial) err (started fresh))

  module _ (K : FloatLaws F) (M : BackendLaws B) where
    -- The preset is that of the options, else that of the environment, else none.
    pub record IsInitial (initial : Initial) (preset : String) : Type 0 where
      pub of_options : is_empty initial.preset ≡ false → preset ≡ initial.preset
      pub of_environment :
          (v : String)
          → is_empty initial.preset ≡ true
          → host.getenv default_preset_env ≡ some v
          → preset ≡ v
      pub unset :
          is_empty initial.preset ≡ true → host.getenv default_preset_env ≡ none → preset ≡ ""

    -- What the server starts with: the new controller, or one that plays the preset on the sink of
    -- the options, as after an accepted `apply`.
    pub record Serves (initial : Initial) (fresh s : DaemonController B) : Type 0 where
      pub preset : String
      pub is_initial : IsInitial initial preset
      pub reached : Reach B K M fresh s
      pub idle : is_empty preset ≡ true → s ≡ fresh
      pub playing :
          is_empty preset ≡ false → Applied B K M host (ask "apply" preset initial.sink) fresh s

    Begun : (String → String) → List String → DaemonController B → DaemonController B → Type 0
    Begun absolute arguments fresh s =
        (options : List String) × (x : Initial) × (arguments ≡ "start" ∷ options)
        × (start_options absolute options no_initial ≡ ok x)
        × Serves x fresh s
