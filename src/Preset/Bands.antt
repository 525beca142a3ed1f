-- ===== src/Preset/Bands.antt =====
-- The equalizer's bands: their defaults, and reading one (src/ee_eq_preset_parser.cpp).
use ee_eq_cli.Common.{
  ℕ, ℤ, pos, negsuc, zero, suc, false, ltb, String, List, [], ◌∷◌, ◌<>◌, decimal, if◌then◌else◌,
}
use ee_eq_cli.Floats.{FloatOps}
use ee_eq_cli.Outcome.{Outcome, ok, ◌>>=◌}
use ee_eq_cli.Json.{JsonLib}
use ee_eq_cli.Preset.{EqBand, EqPreset}
use ee_eq_cli.Preset.Labels.{validate_label, band_type_labels, band_mode_labels, band_slope_labels}

abbrev pub max_bands : ℕ
max_bands = 32

abbrev pub band_key : ℕ → String
band_key i = "band" <> decimal i

-- `std::clamp(n, 1, 32)`
abbrev pub clamp_bands : ℕ → ℕ
clamp_bands n = if ltb n 1 then 1 else (if ltb max_bands n then max_bands else n)

abbrev pub clamp_int : ℤ → ℕ
clamp_int (pos n) = clamp_bands n
clamp_int (negsuc n) = 1

module _ (F : FloatOps) where
  open F use {Double, dec, of_nat, add_d, sub_d, mul_d, div_d, pow_d}

  abbrev min_freq : Double
  min_freq = dec false 20 0

  abbrev max_freq : Double
  max_freq = dec false 20000 0

  abbrev step : ℕ → Double
  step num_bands = pow_d (div_d max_freq min_freq) (div_d (dec false 1 0) (of_nat num_bands))

  -- The middle of the band between two frequencies.
  abbrev centre : Double → Double → Double
  centre freq0 freq1 = add_d freq0 (mul_d (dec false 5 1) (sub_d freq1 freq0))

  -- The first loop: `n` entries from `freq0` on.
  unfoldable pub frequencies : ℕ → Double → Double → List Double
  frequencies zero freq0 step = []
  frequencies (suc n) freq0 step =
      let freq1 = mul_d freq0 step in centre freq0 freq1 ∷ frequencies n freq1 step

  unfoldable pub qs : ℕ → Double → Double → List Double
  qs zero freq0 step = []
  qs (suc n) freq0 step =
      let freq1 = mul_d freq0 step in
      div_d (centre freq0 freq1) (sub_d freq1 freq0) ∷ qs n freq1 step

  -- The second loop: an array of `n` entries, the last one repeated. `last` is 0.0 at first.
  unfoldable pub fill : ℕ → Double → List Double → List Double
  fill zero last xs = []
  fill (suc n) last [] = last ∷ fill n last []
  fill (suc n) last (x ∷ xs) = x ∷ fill n x xs

  unfoldable pub default_band_frequencies : ℕ → List Double
  default_band_frequencies n = fill max_bands (dec false 0 0) (frequencies n min_freq (step n))

  unfoldable pub default_band_qs : ℕ → List Double
  default_band_qs n = fill max_bands (dec false 0 0) (qs n min_freq (step n))

  abbrev pub band_default : EqBand Double
  band_default = record {
    type = "Bell";
    mode = "RLC (BT)";
    slope = "x1";
    solo = false;
    mute = false;
    gain_db = dec false 0 0;
    frequency = dec false 0 0;
    q = dec false 436 2;
    width = dec false 4 0;
  }

  -- The band at place `i`.
  abbrev pub default_at : ℕ → ℕ → Double → Double → EqBand Double
  default_at num_bands i freq q =
      let b = record band_default { frequency = freq; q = q } in
      if ltb i num_bands then b else record b { type = "Off" }

  unfoldable pub default_bands : ℕ → ℕ → List Double → List Double → List (EqBand Double)
  default_bands num_bands i (f ∷ fs) (q ∷ qs) =
      default_at num_bands i f q ∷ default_bands num_bands (suc i) fs qs
  default_bands num_bands i _ _ = []

  unfoldable pub initialize_equalizer_defaults : EqPreset Double → EqPreset Double
  initialize_equalizer_defaults preset =
      let n = clamp_bands preset.num_bands in
      let bands = default_bands n 0 (default_band_frequencies n) (default_band_qs n) in
      record preset { left = bands; right = bands }

module _ {F : FloatOps} (J : JsonLib F) where
  open F use {Double}
  open J use {Json, contains, at_key, value, text, bool, double}

  -- A label of the band's object `v`.
  abbrev label : Json → String → String → String → List String → String → Outcome String
  label v name default key labels field = do
    x ← value text v name default
    validate_label x labels (key <> field)

  abbrev pub band_members : Json → String → EqBand Double → Outcome (EqBand Double)
  band_members v key band = do
    type ← label v "type" band.type key band_type_labels ".type"
    mode ← label v "mode" band.mode key band_mode_labels ".mode"
    slope ← label v "slope" band.slope key band_slope_labels ".slope"
    solo ← value bool v "solo" band.solo
    mute ← value bool v "mute" band.mute
    gain ← value double v "gain" band.gain_db
    frequency ← value double v "frequency" band.frequency
    q ← value double v "q" band.q
    width ← value double v "width" band.width
    ok (record {
      type = type;
      mode = mode;
      slope = slope;
      solo = solo;
      mute = mute;
      gain_db = gain;
      frequency = frequency;
      q = q;
      width = width;
    })

  unfoldable pub parse_band : Json → String → EqBand Double → Outcome (EqBand Double)
  parse_band json key defaults =
      if contains json key
      then at_key json key >>= (λ v. band_members v key defaults)
      else ok defaults

  -- The loop over the two arrays, from place `i` on.
  unfoldable pub parse_bands :
      Json
      → Json
      → ℕ
      → List (EqBand Double)
      → List (EqBand Double)
      → Outcome (List (EqBand Double) × List (EqBand Double))
  parse_bands left right i (l ∷ ls) (r ∷ rs) = do
    l' ← parse_band left (band_key i) l
    r' ← parse_band right (band_key i) r
    rest ← parse_bands left right (suc i) ls rs
    ok (l' ∷ rest.0, r' ∷ rest.1)
  parse_bands left right i _ _ = ok ([], [])
