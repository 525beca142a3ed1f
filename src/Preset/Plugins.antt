-- ===== src/Preset/Plugins.antt =====
-- The plugins of a preset: their order, the payload of each, and reading the limiter's and the
-- convolver's (src/ee_eq_preset_parser.cpp).
use ee_eq_cli.Common.{
  Bool, true, String, List, [], ◌∷◌, ◌++◌, Option, none, some, starts_with, ◌<>◌, contains,
  if◌then◌else◌,
}
use ee_eq_cli.Floats.{FloatOps}
use ee_eq_cli.Outcome.{Outcome, ok, err, ◌>>=◌}
use ee_eq_cli.Json.{JsonLib}
use ee_eq_cli.Preset.{LimiterPreset, ConvolverPreset, no_limiter, no_convolver}
use ee_eq_cli.Preset.Labels.{
  validate_label, limiter_mode_labels, limiter_oversampling_labels, limiter_dithering_labels,
  limiter_sidechain_labels,
}

-- The first text that has `prefix`.
abbrev pub find_prefix : String → List String → Option String
find_prefix prefix [] = none
find_prefix prefix (x ∷ xs) =
    let r = find_prefix prefix xs in if starts_with x prefix then some x else r

unfoldable pub push_plugin_kind : List String → String → Outcome (List String)
push_plugin_kind plugin_order kind =
    if contains plugin_order kind
    then err ("duplicate plugin kind is not supported: " <> kind)
    else ok (plugin_order ++ (kind ∷ []))

-- The loop over `plugins_order`: the kinds and the warnings so far, and whether there was an
-- equalizer.
pub record Order : Type 0 where
  pub kinds : List String
  pub warnings : List String
  pub has_equalizer : Bool

unfoldable pub read_plugin : String → Order → Outcome Order
read_plugin plugin o =
    if starts_with plugin "equalizer"
    then push_plugin_kind o.kinds "equalizer"
      >>= (λ kinds. ok (record o { kinds = kinds; has_equalizer = true }))
    else (if starts_with plugin "limiter"
        then push_plugin_kind o.kinds "limiter" >>= (λ kinds. ok (record o { kinds = kinds }))
        else (if starts_with plugin "convolver"
            then push_plugin_kind o.kinds "convolver" >>= (λ kinds. ok (record o { kinds = kinds }))
            else ok (record o {
              warnings = o.warnings ++ (("skipping unsupported plugin: " <> plugin) ∷ []);
            })))

unfoldable pub read_order : List String → Order → Outcome Order
read_order [] o = ok o
read_order (plugin ∷ plugins) o = read_plugin plugin o >>= read_order plugins

module _ {F : FloatOps} (J : JsonLib F) where
  open F use {Double}
  open J use {Json, at_key, keys, value, text, bool, signed, double, is_object}

  unfoldable pub find_instance_key : Json → String → Option String
  find_instance_key output base_name =
      if J.contains output base_name
      then some base_name
      else find_prefix (base_name <> "#") (keys output)

  abbrev pub key_or_missing : Option String → Outcome String
  key_or_missing none = err "missing output.equalizer payload"
  key_or_missing (some key) = ok key

  unfoldable pub find_eq_instance_key : Json → Outcome String
  find_eq_instance_key output =
      if J.contains output "equalizer"
      then ok "equalizer"
      else key_or_missing (find_prefix "equalizer#" (keys output))

  -- A label of the limiter's object `v`.
  abbrev label : Json → String → String → List String → String → Outcome String
  label v name default labels field = do
    x ← value text v name default
    validate_label x labels field

  unfoldable pub limiter_members : Json → LimiterPreset Double → Outcome (LimiterPreset Double)
  limiter_members v p = do
    mode ← label v "mode" p.mode limiter_mode_labels "limiter.mode"
    oversampling ←
        label v "oversampling" p.oversampling limiter_oversampling_labels "limiter.oversampling"
    dithering ← label v "dithering" p.dithering limiter_dithering_labels "limiter.dithering"
    sidechain_type ←
        label v "sidechain-type" p.sidechain_type limiter_sidechain_labels "limiter.sidechain-type"
    bypass ← value bool v "bypass" p.bypass
    input_gain ← value double v "input-gain" p.input_gain_db
    output_gain ← value double v "output-gain" p.output_gain_db
    lookahead ← value double v "lookahead" p.lookahead
    attack ← value double v "attack" p.attack
    release ← value double v "release" p.release
    threshold ← value double v "threshold" p.threshold_db
    preamp ← value double v "sidechain-preamp" p.sidechain_preamp_db
    stereo_link ← value double v "stereo-link" p.stereo_link
    alr ← value bool v "alr" p.alr
    alr_attack ← value double v "alr-attack" p.alr_attack
    alr_release ← value double v "alr-release" p.alr_release
    alr_knee ← value double v "alr-knee" p.alr_knee_db
    alr_knee_smooth ← value double v "alr-knee-smooth" p.alr_knee_smooth_db
    gain_boost ← value bool v "gain-boost" p.gain_boost
    input_to_sidechain ← value double v "input-to-sidechain" p.input_to_sidechain_db
    input_to_link ← value double v "input-to-link" p.input_to_link_db
    sidechain_to_input ← value double v "sidechain-to-input" p.sidechain_to_input_db
    sidechain_to_link ← value double v "sidechain-to-link" p.sidechain_to_link_db
    link_to_input ← value double v "link-to-input" p.link_to_input_db
    link_to_sidechain ← value double v "link-to-sidechain" p.link_to_sidechain_db
    ok (record {
      mode = mode;
      oversampling = oversampling;
      dithering = dithering;
      sidechain_type = sidechain_type;
      bypass = bypass;
      input_gain_db = input_gain;
      output_gain_db = output_gain;
      lookahead = lookahead;
      attack = attack;
      release = release;
      threshold_db = threshold;
      sidechain_preamp_db = preamp;
      stereo_link = stereo_link;
      alr = alr;
      alr_attack = alr_attack;
      alr_release = alr_release;
      alr_knee_db = alr_knee;
      alr_knee_smooth_db = alr_knee_smooth;
      gain_boost = gain_boost;
      input_to_sidechain_db = input_to_sidechain;
      input_to_link_db = input_to_link;
      sidechain_to_input_db = sidechain_to_input;
      sidechain_to_link_db = sidechain_to_link;
      link_to_input_db = link_to_input;
      link_to_sidechain_db = link_to_sidechain;
    })

  unfoldable pub parse_limiter : Json → String → Outcome (LimiterPreset Double)
  parse_limiter output key = at_key output key >>= (λ v. limiter_members v (no_limiter F))

  -- The members of `sofa`, where it is an object.
  abbrev pub sofa_members : Json → ConvolverPreset Double → Outcome (ConvolverPreset Double)
  sofa_members sofa p = do
    azimuth ← value double sofa "azimuth" p.sofa_azimuth
    elevation ← value double sofa "elevation" p.sofa_elevation
    radius ← value double sofa "radius" p.sofa_radius
    ok (record p { sofa_azimuth = azimuth; sofa_elevation = elevation; sofa_radius = radius })

  abbrev pub with_sofa : Json → ConvolverPreset Double → Outcome (ConvolverPreset Double)
  with_sofa v p =
      if J.contains v "sofa"
      then at_key v "sofa" >>= (λ sofa. if is_object sofa then sofa_members sofa p else ok p)
      else ok p

  unfoldable pub convolver_members :
      Json → ConvolverPreset Double → Outcome (ConvolverPreset Double)
  convolver_members v p = do
    bypass ← value bool v "bypass" p.bypass
    input_gain ← value double v "input-gain" p.input_gain_db
    output_gain ← value double v "output-gain" p.output_gain_db
    kernel_name ← value text v "kernel-name" p.kernel_name
    kernel_path ← value text v "kernel-path" p.kernel_path
    ir_width ← value signed v "ir-width" p.ir_width
    autogain ← value bool v "autogain" p.autogain
    dry ← value double v "dry" p.dry_db
    wet ← value double v "wet" p.wet_db
    with_sofa v (record p {
      bypass = bypass;
      input_gain_db = input_gain;
      output_gain_db = output_gain;
      kernel_name = kernel_name;
      kernel_path = kernel_path;
      ir_width = ir_width;
      autogain = autogain;
      dry_db = dry;
      wet_db = wet;
    })

  unfoldable pub parse_convolver : Json → String → Outcome (ConvolverPreset Double)
  parse_convolver output key = at_key output key >>= (λ v. convolver_members v (no_convolver F))
