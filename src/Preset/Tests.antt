-- ===== src/Preset/Tests.antt =====
-- The preset parser over the JSON library for tests.
use ee_eq_cli.Common.{is_empty, false, pos, [], ◌∷◌, some, Result, ◌≡◌, refl, get_elem?}
use ee_eq_cli.Floats.Decimal.{Decimal, plus, decimals}
use ee_eq_cli.Outcome.{Outcome}
use ee_eq_cli.Json.{JsonLib}
use ee_eq_cli.Json.Model.{Value, object, text, texts, signed, double, values}
use ee_eq_cli.Preset.{ParsedPreset, no_preset}
use ee_eq_cli.Preset.Labels.{band_slope_labels, label_index, label_index-get, validate_label}
use ee_eq_cli.Preset.Bands.{
  parse_band, parse_bands, initialize_equalizer_defaults, default_bands, fill,
  default_band_frequencies, default_band_qs, frequencies, qs,
}
use ee_eq_cli.Preset.Plugins.{
  push_plugin_kind, read_plugin, read_order, find_instance_key, find_eq_instance_key,
  limiter_members, parse_limiter,
}
use ee_eq_cli.Preset.Parser.{
  read_equalizer, read_limiter, read_convolver, parse_easy_effects_preset_json,
  parse_easy_effects_preset,
}
use ee_eq_cli.Preset.Errors.{parse_easy_effects_preset-err}
use ee_eq_cli.Json.Throwing.{values-JsonThrows}
use ee_eq_cli.Preset.Accepted.{IsPreset, parse_easy_effects_preset-IsPreset}

abbrev equalizer_json : Value decimals
equalizer_json = object decimals (
    (
      "left",
      object decimals (
          ("band1", object decimals (("type", text "Notch") ∷ ("gain", double (plus 3000)) ∷ []))
          ∷ []),
    )
    ∷ ("right", object decimals [])
    ∷ ("num-bands", signed (pos 40))
    ∷ [])

-- A convolver is asked for, but has no settings.
abbrev root : Value decimals
root = object decimals (
    (
      "output",
      object decimals (
          ("plugins_order", texts ("gate#0" ∷ "convolver#0" ∷ "limiter#0" ∷ "equalizer#0" ∷ []))
          ∷ ("limiter", object decimals (("mode", text "Exp Duck") ∷ []))
          ∷ ("equalizer#0", equalizer_json)
          ∷ []),
    )
    ∷ [])

abbrev J : JsonLib decimals
J = values decimals (λ bytes. Outcome.ok root)

abbrev preset_of : Result (ParsedPreset Decimal) → ParsedPreset Decimal
preset_of (Result.ok p) = p
preset_of (Result.err e) = no_preset decimals

parsed : ParsedPreset Decimal
unfolding parse_easy_effects_preset parse_easy_effects_preset_json read_order read_plugin
    push_plugin_kind find_eq_instance_key read_equalizer validate_label
    initialize_equalizer_defaults parse_bands parse_band default_bands fill default_band_frequencies
    default_band_qs frequencies qs read_limiter find_instance_key parse_limiter limiter_members
    read_convolver
parsed = preset_of (parse_easy_effects_preset J [])

parses : parse_easy_effects_preset J [] ≡ Result.ok parsed
unfolding parsed
parses = refl

order : parsed.plugin_order ≡ "limiter" ∷ "equalizer" ∷ []
unfolding parsed
order = refl

parse_easy_effects_preset-IsPreset_example : IsPreset parsed
parse_easy_effects_preset-IsPreset_example =
    parse_easy_effects_preset-IsPreset J [] {p = parsed} parses

label_index-get_example :
    get_elem? band_slope_labels (label_index band_slope_labels "x3") ≡ some "x3"
label_index-get_example = label_index-get band_slope_labels "x3" refl

parse_easy_effects_preset-err_example : is_empty "missing output section" ≡ false
unfolding parse_easy_effects_preset parse_easy_effects_preset_json
parse_easy_effects_preset-err_example =
    parse_easy_effects_preset-err
      (values-JsonThrows decimals (λ bytes. Outcome.ok (object decimals [])) (λ bytes e h. cc)) []
      "missing output section" refl
