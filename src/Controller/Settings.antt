-- ===== src/Controller/Settings.antt =====
-- Accepted requests: what plays after `apply`, and which volumes are accepted.
use Prim.Native.String.{len}
use ee_eq_cli.Common.{
  true, false, not, ◌||◌, ◌==◌, String, Option, none, some, ok, ◌≡◌, refl, sym, ap, subst, ◌↔◌,
  arith, is_empty, if_cases, on_option_cases, on_result_cases,
}
use ee_eq_cli.Floats.{FloatOps, FloatLaws}
use ee_eq_cli.Preset.{ParsedPreset}
use ee_eq_cli.Backend.{SessionBackend, BackendLaws}
use ee_eq_cli.Protocol.{DaemonRequest}
use ee_eq_cli.Controller.{
  Host, DesiredConfig, DaemonController, LoadedPresetSource, daemon_mode_environment_error,
}
use ee_eq_cli.Controller.Handlers.{
  Step, apply, volume, candidate, handle_request, run_command, command_of, apply_locked,
  apply_parsed, succeed, give_up, adopt, volume_locked, volume_desired, parse_volume,
}
use ee_eq_cli.Controller.Starts.{start, after_start, start_or_roll_back-cases}
use ee_eq_cli.Controller.Sessions.{Plays, started-Plays}
use ee_eq_cli.Controller.Spec.{adopt_view}

module _ {F : FloatOps} (B : SessionBackend F) where
  open F use {Float, Double, f_zero, f_max, f_lt, f_ne, f_one}

  -- The configuration that an `apply` asks for after the configuration `d`: what the request and the
  -- file say, switched on, with the bypass and the volume of `d` if there is one.
  pub record Asked (r : DaemonRequest) (origin : String) (parsed : ParsedPreset Double)
      (d : Option (DesiredConfig F)) (c : DesiredConfig F) : Type 0 where
    pub preset_path : c.preset_path ≡ r.preset_path
    pub preset_origin : c.preset_origin ≡ origin
    pub preset : c.preset ≡ parsed
    pub sink_selector : c.sink_selector ≡ r.sink_selector
    pub enabled : c.enabled ≡ true
    pub first : d ≡ none → (c.bypass ≡ false) × (c.volume ≡ f_one)
    pub carried : (e : DesiredConfig F) → d ≡ some e → (c.bypass ≡ e.bypass) × (c.volume ≡ e.volume)

  candidate-Asked :
      (r : DaemonRequest) (origin : String) (parsed : ParsedPreset Double)
      (d : Option (DesiredConfig F))
      → Asked r origin parsed d (candidate B d r origin parsed)
  unfolding candidate
  candidate-Asked r origin parsed none = record {
    preset_path = refl;
    preset_origin = refl;
    preset = refl;
    sink_selector = refl;
    enabled = refl;
    first = λ _. (refl, refl);
    carried = λ e h. cc;
  }
  candidate-Asked r origin parsed (some d) = record {
    preset_path = refl;
    preset_origin = refl;
    preset = refl;
    sink_selector = refl;
    enabled = refl;
    first = λ h. cc;
    carried = λ e h.
        let p : d ≡ e = cc in
        (ap (λ (x : DesiredConfig F). x.bypass) p, ap (λ (x : DesiredConfig F). x.volume) p);
  }

  module _ (Q : FloatLaws F) (L : BackendLaws B) where
    -- What an accepted `apply` leaves.
    pub record Applied (host : Host F) (r : DaemonRequest) (s t : DaemonController B) : Type 0 where
      pub loaded : LoadedPresetSource
      pub parsed : ParsedPreset Double
      pub read : host.load_preset_source r.preset_path ≡ ok loaded
      pub good : host.parse_easy_effects_preset loaded.bytes ≡ ok parsed
      pub config : DesiredConfig F
      pub asked : Asked r loaded.origin parsed s.desired config
      pub desired : t.desired ≡ some config
      pub plays : Plays B Q L config t.backend

    abbrev IfAccepted : Host F → DaemonRequest → DaemonController B → Step B → Type 0
    IfAccepted host r s p = p.0.ok ≡ true → Applied host r s p.1

    give_up-IfAccepted :
        (host : Host F) (r : DaemonRequest) (s t : DaemonController B)
        (d : Option (DesiredConfig F)) (e : String)
        → IfAccepted host r s (give_up B d e t)
    unfolding give_up
    give_up-IfAccepted host r s t d e h = cc

    started-Applied :
        (host : Host F) (r : DaemonRequest) (s t : DaemonController B) (c : DesiredConfig F)
        (loaded : LoadedPresetSource) (parsed : ParsedPreset Double)
        → host.load_preset_source r.preset_path ≡ ok loaded
        → host.parse_easy_effects_preset loaded.bytes ≡ ok parsed
        → Asked r loaded.origin parsed s.desired c
        → (start B t c).started ≡ true
        → Applied host r s (succeed B (adopt B c (after_start B t c))).1
    unfolding succeed
    started-Applied host r s t c loaded parsed read good asked up = record {
      loaded = loaded;
      parsed = parsed;
      read = read;
      good = good;
      config = c;
      asked = asked;
      desired = (adopt_view B c (after_start B t c)).0;
      plays = started-Plays B Q L t c up;
    }

    apply_parsed-IfAccepted :
        (host : Host F) (r : DaemonRequest) (s : DaemonController B) (c : DesiredConfig F)
        (loaded : LoadedPresetSource) (parsed : ParsedPreset Double)
        → host.load_preset_source r.preset_path ≡ ok loaded
        → host.parse_easy_effects_preset loaded.bytes ≡ ok parsed
        → Asked r loaded.origin parsed s.desired c
        → IfAccepted host r s (apply_parsed B s c)
    unfolding apply_parsed
    apply_parsed-IfAccepted host r s c loaded parsed read good asked =
        start_or_roll_back-cases B (IfAccepted host r s) s.desired c _ (record {
          up = λ up _. started-Applied host r s _ c loaded parsed read good asked up;
          down = λ _. record {
            back = λ c' _ _ _ h. cc;
            lost = λ c' _ _ _. give_up-IfAccepted host r s _ s.desired _;
            off = λ _. give_up-IfAccepted host r s _ s.desired _;
          };
        })

    apply_locked-IfAccepted :
        (host : Host F) (r : DaemonRequest) (s : DaemonController B)
        → IfAccepted host r s (apply_locked B host s r)
    unfolding apply_locked
    apply_locked-IfAccepted host r s =
        if_cases {A = Step B} (IfAccepted host r s) (is_empty r.preset_path) (λ _ h. cc)
          (λ _.
            on_result_cases (IfAccepted host r s) (host.load_preset_source r.preset_path)
              (λ _ _ h. cc)
              (λ loaded read.
                on_result_cases (IfAccepted host r s) (host.parse_easy_effects_preset loaded.bytes)
                  (λ _ _ h. cc)
                  (λ parsed good.
                    apply_parsed-IfAccepted host r s (candidate B s.desired r loaded.origin parsed)
                      loaded parsed read good (candidate-Asked r loaded.origin parsed s.desired))))

    -- If `apply` is accepted, the file was read and is a valid preset, the desired configuration is
    -- what the request and the file say, with the bypass and volume of the configuration before it
    -- if there was one, and the backend plays it: it was started with that preset and that sink.
    pub apply-Applied :
        (host : Host F) (s : DaemonController B) (r : DaemonRequest)
        → command_of r.command ≡ apply
        → (handle_request B host s r).0.ok ≡ true
        → Applied host r s (handle_request B host s r).1
    unfolding handle_request run_command
    apply-Applied host s r k =
        if_cases {A = Step B} (IfAccepted host r s)
          (not (is_empty (daemon_mode_environment_error host.getenv))) (λ _ h. cc)
          (λ _.
            subst (λ x. IfAccepted host r s (run_command B host s r x)) (sym k)
              (apply_locked-IfAccepted host r s))

  -- The texts that `volume` accepts: `stof` reads a number to the end of the text, and neither bound
  -- is passed, which holds of a NaN.
  abbrev pub IsAccepted : String → Float → Type 0
  IsAccepted text v =
      (F.stof text ≡ some (v, len text)) × (f_lt v f_zero ≡ false) × (f_lt f_max v ≡ false)

  -- What `volume` leaves where it is accepted.
  abbrev pub TurnsTo : DesiredConfig F → DaemonController B → Float → Step B → Type 0
  TurnsTo c s v p =
      (p.1.desired ≡ some (record c { volume = v })) × (p.1.backend ≡ B.set_volume s.backend v)

  parse_volume-stof :
      (text : String) (v : Float) → parse_volume F text ≡ some v → F.stof text ≡ some (v, len text)
  unfolding parse_volume
  parse_volume-stof text v =
      on_option_cases (λ o. o ≡ some v → F.stof text ≡ some (v, len text)) (F.stof text) (λ _ h. cc)
        (λ (w, n) read.
          if_cases {A = Option Float} (λ o. o ≡ some v → F.stof text ≡ some (v, len text))
            (n == len text)
            (λ whole h.
              let p : w ≡ v = cc in
              let q : n ≡ len text = ground (arith, whole) in rw (read, p, q) refl)
            (λ part h. cc))

  stof-parse_volume :
      (text : String) (v : Float) → F.stof text ≡ some (v, len text) → parse_volume F text ≡ some v
  unfolding parse_volume
  stof-parse_volume text v read =
      let whole : (len text == len text) ≡ true = ground arith in rw (read, whole) refl

  volume_desired-IsAccepted :
      (c : DesiredConfig F) (s : DaemonController B) (text : String)
      → (volume_desired B c s text).0.ok ≡ true
      → (v : Float) × IsAccepted text v × TurnsTo c s v (volume_desired B c s text)
  unfolding volume_desired
  volume_desired-IsAccepted c s text =
      on_option_cases
        (λ (p : Step B). p.0.ok ≡ true → (v : Float) × IsAccepted text v × TurnsTo c s v p)
        (parse_volume F text) (λ _ h. cc)
        λ v e.
          if_cases
            (λ (p : Step B). p.0.ok ≡ true → (v : Float) × IsAccepted text v × TurnsTo c s v p)
            (f_lt v f_zero || f_lt f_max v) (λ _ h. cc)
            (λ fits _. (
              v,
              (parse_volume-stof text v e, ground (arith, fits), ground (arith, fits)),
              (refl, refl),
            ))

  IsAccepted-volume_desired :
      (c : DesiredConfig F) (s : DaemonController B) (text : String) (v : Float)
      → IsAccepted text v
      → (volume_desired B c s text).0.ok ≡ true
  unfolding volume_desired
  IsAccepted-volume_desired c s text v (read, low, high) =
      rw (stof-parse_volume text v read, low, high) refl

  module _ (host : Host F) (s : DaemonController B) (r : DaemonRequest) (c : DesiredConfig F)
      (a : is_empty (daemon_mode_environment_error host.getenv) ≡ true) where
    handle_request-volume :
        command_of r.command ≡ volume
        → s.desired ≡ some c
        → c.enabled ≡ true
        → handle_request B host s r ≡ volume_desired B c s r.sink_selector
    unfolding handle_request run_command volume_locked
    handle_request-volume k e on = simp (a, k, e, on)

  -- While a session is enabled and the environment allows requests, `volume` is accepted exactly
  -- for a text that is a number as a whole, of a value that is neither below 0.0 nor above 1.5.
  -- Then the value is the volume of the configuration, and is set on the session.
  pub volume_iff :
      (host : Host F) (s : DaemonController B) (r : DaemonRequest) (c : DesiredConfig F)
      → is_empty (daemon_mode_environment_error host.getenv) ≡ true
      → command_of r.command ≡ volume
      → s.desired ≡ some c
      → c.enabled ≡ true
      → (let p = handle_request B host s r in
          (p.0.ok ≡ true) ↔ ((v : Float) × IsAccepted r.sink_selector v × TurnsTo c s v p))
  volume_iff host s r c a k e on = rw (handle_request-volume host s r c a k e on) (
    volume_desired-IsAccepted c s r.sink_selector,
    λ (v, fits, _). IsAccepted-volume_desired c s r.sink_selector v fits,
  )
