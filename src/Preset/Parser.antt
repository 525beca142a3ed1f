-- ===== src/Preset/Parser.antt =====
-- Reading an EasyEffects preset (src/ee_eq_preset_parser.cpp).
use ee_eq_cli.Common.{
  ℕ, pos, Bool, true, false, not, String, List, [], ◌∷◌, ◌++◌, Option, none, some, ◌<>◌, contains,
  erase, if◌then◌else◌, Result,
}
use ee_eq_cli.Floats.{FloatOps}
use ee_eq_cli.Outcome.{Outcome, ok, err, throw, ◌>>=◌, ◌>>◌, require}
use ee_eq_cli.Json.{JsonLib}
use ee_eq_cli.Preset.{EqPreset, EqBand, LimiterPreset, ParsedPreset}
use ee_eq_cli.Preset.Labels.{validate_label, eq_mode_labels}
use ee_eq_cli.Preset.Bands.{clamp_int, initialize_equalizer_defaults, parse_bands}
use ee_eq_cli.Preset.Plugins.{
  Order, read_order, find_instance_key, find_eq_instance_key, parse_limiter, parse_convolver,
}

abbrev pub is_nil : List String → Bool
is_nil [] = true
is_nil (x ∷ xs) = false

abbrev pub no_order : Order
no_order = record { kinds = []; warnings = []; has_equalizer = false }

module _ {F : FloatOps} (J : JsonLib F) where
  open F use {Double, dec}
  open J use {Json, at_key, value, text, texts, bool, signed, double, is_object, is_array}

  -- A member that must be there and of the right kind.
  abbrev pub member_of : (Json → Bool) → Json → String → String → Outcome Json
  member_of kind json key error =
      if J.contains json key
      then at_key json key >>= (λ v. if kind v then ok v else err error)
      else err error

  abbrev pub in_both : Bool → List (EqBand Double) → List (EqBand Double) → List (EqBand Double)
  in_both split left right = if split then right else left

  unfoldable pub read_equalizer : Json → Outcome (EqPreset Double)
  read_equalizer eq = do
    bypass ← value bool eq "bypass" false
    input_gain ← value double eq "input-gain" (dec false 0 0)
    output_gain ← value double eq "output-gain" (dec false 0 0)
    mode_text ← value text eq "mode" "IIR"
    mode ← validate_label mode_text eq_mode_labels "mode"
    num_bands ← value signed eq "num-bands" (pos 32)
    split ← value bool eq "split-channels" false
    balance ← value double eq "balance" (dec false 0 0)
    pitch_left ← value double eq "pitch-left" (dec false 0 0)
    pitch_right ← value double eq "pitch-right" (dec false 0 0)
    let preset = initialize_equalizer_defaults F (record {
      bypass = bypass;
      input_gain_db = input_gain;
      output_gain_db = output_gain;
      mode = mode;
      split_channels = split;
      balance = balance;
      pitch_left = pitch_left;
      pitch_right = pitch_right;
      num_bands = clamp_int num_bands;
      left = [];
      right = [];
    })
    left ← member_of is_object eq "left" "missing output.equalizer.left"
    right ← member_of is_object eq "right" "missing output.equalizer.right"
    bands ← parse_bands J left right 0 preset.left preset.right
    ok (record preset { left = bands.0; right = in_both split bands.0 bands.1 })

  abbrev pub limiter_at : Json → Option String → Outcome (Option (LimiterPreset Double))
  limiter_at output none = err "missing output.limiter payload"
  limiter_at output (some key) = parse_limiter J output key >>= (λ p. ok (some p))

  unfoldable pub read_limiter : Json → List String → Outcome (Option (LimiterPreset Double))
  read_limiter output kinds =
      if contains kinds "limiter"
      then limiter_at output (find_instance_key J output "limiter")
      else ok none

  abbrev pub no_payload : String
  no_payload = "convolver requested in plugins_order but no convolver payload was found"

  abbrev pub convolver_at :
      Json → Option String → ParsedPreset Double → Outcome (ParsedPreset Double)
  convolver_at output none p = ok (record p {
    warnings = p.warnings ++ (no_payload ∷ []);
    plugin_order = erase p.plugin_order "convolver";
  })
  convolver_at output (some key) p =
      parse_convolver J output key >>= (λ c. ok (record p { convolver = some c }))

  unfoldable pub read_convolver : Json → ParsedPreset Double → Outcome (ParsedPreset Double)
  read_convolver output p =
      if contains p.plugin_order "convolver"
      then convolver_at output (find_instance_key J output "convolver") p
      else ok p

  unfoldable pub parse_easy_effects_preset_json : Json → Outcome (ParsedPreset Double)
  parse_easy_effects_preset_json json = do
    output ← member_of is_object json "output" "missing output section"
    listed ← member_of is_array output "plugins_order" "missing output.plugins_order"
    plugins ← texts.get listed
    require (not (is_nil plugins)) "empty output.plugins_order is not supported"
    order ← read_order plugins no_order
    require order.has_equalizer "equalizer is required in output.plugins_order"
    key ← find_eq_instance_key J output
    eq ← at_key output key
    equalizer ← read_equalizer eq
    limiter ← read_limiter output order.kinds
    parsed ← read_convolver output (record {
      plugin_order = order.kinds;
      warnings = order.warnings;
      equalizer = equalizer;
      limiter = limiter;
      convolver = none;
    })
    require (not (is_nil parsed.plugin_order))
        "no supported plugin remained applicable after parsing"
    ok parsed

  -- An exception of the second `try` becomes an error too.
  abbrev pub caught : String → Outcome (ParsedPreset Double) → Result (ParsedPreset Double)
  caught prefix (ok p) = Result.ok p
  caught prefix (err e) = Result.err e
  caught prefix (throw what) = Result.err (prefix <> what)

  abbrev pub of_parsed : Outcome Json → Result (ParsedPreset Double)
  of_parsed (ok json) = caught "invalid preset structure: " (parse_easy_effects_preset_json json)
  of_parsed (err e) = Result.err e
  of_parsed (throw what) = Result.err ("invalid preset JSON: " <> what)

  unfoldable pub parse_easy_effects_preset : List ℕ → Result (ParsedPreset Double)
  parse_easy_effects_preset bytes = of_parsed (J.parse bytes)
