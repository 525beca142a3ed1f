-- ===== src/Lv2/Mappers.antt =====
-- The control ports that a preset sets (src/lsp_eq_port_mapper.cpp, src/lsp_limiter_port_mapper.cpp
-- and the symbols of src/tags_equalizer.hpp).
use ee_eq_cli.Common.{
  ℕ, suc, Bool, ◌&&◌, true, false, String, List, [], ◌∷◌, ◌++◌, ◌<>◌, decimal, if◌then◌else◌,
}
use ee_eq_cli.Floats.{FloatOps}
use ee_eq_cli.Preset.{EqBand, EqPreset, LimiterPreset}
use ee_eq_cli.Preset.Labels.{
  label_index, eq_mode_labels, band_mode_labels, band_type_labels, band_slope_labels,
  limiter_mode_labels, limiter_oversampling_labels, limiter_dithering_labels,
  limiter_sidechain_labels,
}
use ee_eq_cli.Lv2.{Lv2HostCore}
use ee_eq_cli.Lv2.Ports.{Infinities, set_control_port_value}

-- What the mappers use of floating-point numbers: `static_cast<float>` of a place in a table and of a
-- double, `std::exp`, `std::numbers::ln10` and `<=`.
pub record Levels (F : FloatOps) : Type 0 where
  pub of_index : ℕ → F.Float
  pub to_float : F.Double → F.Float
  pub exp : F.Double → F.Double
  pub ln10 : F.Double
  pub le_d : F.Double → F.Double → Bool

-- The arrays of symbols of a channel, by what their 32 entries begin with.
pub record Tags : Type 0 where
  pub type_ports : String
  pub mode_ports : String
  pub slope_ports : String
  pub solo_ports : String
  pub mute_ports : String
  pub frequency_ports : String
  pub q_ports : String
  pub width_ports : String
  pub gain_ports : String

-- The `i`-th entry.
abbrev pub tag : String → ℕ → String
tag ports i = ports <> "_" <> decimal i

abbrev pub left_tags : Tags
left_tags = record {
  type_ports = "ftl";
  mode_ports = "fml";
  slope_ports = "sl";
  solo_ports = "xsl";
  mute_ports = "xml";
  frequency_ports = "fl";
  q_ports = "ql";
  width_ports = "wl";
  gain_ports = "gl";
}

abbrev pub right_tags : Tags
right_tags = record {
  type_ports = "ftr";
  mode_ports = "fmr";
  slope_ports = "sr";
  solo_ports = "xsr";
  mute_ports = "xmr";
  frequency_ports = "fr";
  q_ports = "qr";
  width_ports = "wr";
  gain_ports = "gr";
}

module _ (F : FloatOps) (I : Infinities F.Float) (L : Levels F) where
  open F use {Double, Float, dec, mul_d, div_d, f_zero, f_one}
  open L use {of_index, to_float, exp, ln10, le_d}

  -- The calls of `set_control_port_value`, in their order.
  abbrev pub set_all : List (String × Float) → Lv2HostCore Float → Lv2HostCore Float
  set_all [] h = h
  set_all ((symbol, value) ∷ writes) h = set_all writes (set_control_port_value F I symbol value h)

  abbrev db_to_linear : Double → Double
  db_to_linear db = exp (mul_d (div_d db (dec false 20 0)) ln10)

  abbrev switch_value : Bool → Float
  switch_value b = if b then f_one else f_zero

  abbrev label_value : List String → String → Float
  label_value labels value = of_index (label_index labels value)

  abbrev pub band_writes : Tags → ℕ → EqBand Double → List (String × Float)
  band_writes t i band =
      (tag t.type_ports i, label_value band_type_labels band.type)
      ∷ (tag t.mode_ports i, label_value band_mode_labels band.mode)
      ∷ (tag t.slope_ports i, label_value band_slope_labels band.slope)
      ∷ (tag t.solo_ports i, switch_value band.solo)
      ∷ (tag t.mute_ports i, switch_value band.mute)
      ∷ (tag t.frequency_ports i, to_float band.frequency)
      ∷ (tag t.q_ports i, to_float band.q)
      ∷ (tag t.width_ports i, to_float band.width)
      ∷ (tag t.gain_ports i, to_float (db_to_linear band.gain_db))
      ∷ []

  abbrev pub channel_writes : Tags → ℕ → List (EqBand Double) → List (String × Float)
  channel_writes t i [] = []
  channel_writes t i (band ∷ bands) = band_writes t i band ++ channel_writes t (suc i) bands

  abbrev pub eq_writes : EqPreset Double → List (String × Float)
  eq_writes preset =
      ("mode", label_value eq_mode_labels preset.mode)
      ∷ ("bal", to_float preset.balance)
      ∷ ("frqs_l", to_float preset.pitch_left)
      ∷ ("frqs_r", to_float preset.pitch_right)
      ∷ ("clink", if preset.split_channels then f_zero else f_one)
      ∷ (channel_writes left_tags 0 preset.left ++ channel_writes right_tags 0 preset.right)

  unfoldable pub apply_eq_preset_to_host : EqPreset Double → Lv2HostCore Float → Lv2HostCore Float
  apply_eq_preset_to_host preset h = set_all (eq_writes preset) h

  abbrev db_port_value : Double → Bool → Float
  db_port_value db enforce_lower_bound =
      if enforce_lower_bound && le_d db (dec true 8001 2)
      then f_zero
      else to_float (db_to_linear db)

  abbrev pub limiter_writes : LimiterPreset Double → List (String × Float)
  limiter_writes preset =
      ("mode", label_value limiter_mode_labels preset.mode)
      ∷ ("ovs", label_value limiter_oversampling_labels preset.oversampling)
      ∷ ("dith", label_value limiter_dithering_labels preset.dithering)
      ∷ ("extsc", label_value limiter_sidechain_labels preset.sidechain_type)
      ∷ ("lk", to_float preset.lookahead)
      ∷ ("at", to_float preset.attack)
      ∷ ("rt", to_float preset.release)
      ∷ ("boost", switch_value preset.gain_boost)
      ∷ ("slink", to_float preset.stereo_link)
      ∷ ("alr", switch_value preset.alr)
      ∷ ("alr_at", to_float preset.alr_attack)
      ∷ ("alr_rt", to_float preset.alr_release)
      ∷ ("smooth", to_float preset.alr_knee_smooth_db)
      ∷ ("th", db_port_value preset.threshold_db false)
      ∷ ("knee", db_port_value preset.alr_knee_db false)
      ∷ ("scp", db_port_value preset.sidechain_preamp_db true)
      ∷ ("in2lk", db_port_value preset.input_to_link_db true)
      ∷ ("in2sc", db_port_value preset.input_to_sidechain_db true)
      ∷ ("sc2in", db_port_value preset.sidechain_to_input_db true)
      ∷ ("sc2lk", db_port_value preset.sidechain_to_link_db true)
      ∷ ("lk2in", db_port_value preset.link_to_input_db true)
      ∷ ("lk2sc", db_port_value preset.link_to_sidechain_db true)
      ∷ []

  unfoldable pub apply_limiter_preset_to_host :
      LimiterPreset Double → Lv2HostCore Float → Lv2HostCore Float
  apply_limiter_preset_to_host preset h = set_all (limiter_writes preset) h
