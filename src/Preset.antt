-- ===== src/Preset.antt =====
-- The preset's data types (src/ee_eq_preset_parser.hpp) and their default values. The type of
-- `double` is a parameter.
pub mod Labels
pub mod Bands
pub mod Plugins
pub mod Parser
pub mod Order
pub mod Valid
pub mod Equalizer
pub mod Limiter
pub mod Accepted
pub mod Members
pub mod Errors
mod Tests
use ee_eq_cli.Common.{ℕ, zero, suc, ℤ, pos, Bool, true, false, Option, none, String, List, [], ◌∷◌}
use ee_eq_cli.Floats.{FloatOps}

pub record EqBand (D : Type 0) : Type 0 where
  pub type : String
  pub mode : String
  pub slope : String
  pub solo : Bool
  pub mute : Bool
  pub gain_db : D
  pub frequency : D
  pub q : D
  pub width : D

-- The arrays `left` and `right` have 32 entries in every value that the program builds.
pub record EqPreset (D : Type 0) : Type 0 where
  pub bypass : Bool
  pub input_gain_db : D
  pub output_gain_db : D
  pub mode : String
  pub split_channels : Bool
  pub balance : D
  pub pitch_left : D
  pub pitch_right : D
  pub num_bands : ℕ
  pub left : List (EqBand D)
  pub right : List (EqBand D)

pub record LimiterPreset (D : Type 0) : Type 0 where
  pub mode : String
  pub oversampling : String
  pub dithering : String
  pub sidechain_type : String
  pub bypass : Bool
  pub input_gain_db : D
  pub output_gain_db : D
  pub lookahead : D
  pub attack : D
  pub release : D
  pub threshold_db : D
  pub sidechain_preamp_db : D
  pub stereo_link : D
  pub alr : Bool
  pub alr_attack : D
  pub alr_release : D
  pub alr_knee_db : D
  pub alr_knee_smooth_db : D
  pub gain_boost : Bool
  pub input_to_sidechain_db : D
  pub input_to_link_db : D
  pub sidechain_to_input_db : D
  pub sidechain_to_link_db : D
  pub link_to_input_db : D
  pub link_to_sidechain_db : D

pub record ConvolverPreset (D : Type 0) : Type 0 where
  pub bypass : Bool
  pub input_gain_db : D
  pub output_gain_db : D
  pub kernel_name : String
  pub kernel_path : String
  pub ir_width : ℤ
  pub autogain : Bool
  pub dry_db : D
  pub wet_db : D
  pub sofa_azimuth : D
  pub sofa_elevation : D
  pub sofa_radius : D

pub record ParsedPreset (D : Type 0) : Type 0 where
  pub plugin_order : List String
  pub warnings : List String
  pub equalizer : EqPreset D
  pub limiter : Option (LimiterPreset D)
  pub convolver : Option (ConvolverPreset D)

-- The values that `{}` gives.
module _ (F : FloatOps) where
  open F use {Double, dec}

  abbrev zero_d : Double
  zero_d = dec false 0 0

  abbrev no_level : Double
  no_level = dec true 8001 2

  abbrev pub no_band : EqBand Double
  no_band = record {
    type = "";
    mode = "";
    slope = "";
    solo = false;
    mute = false;
    gain_db = zero_d;
    frequency = zero_d;
    q = zero_d;
    width = dec false 4 0;
  }

  abbrev pub no_bands : ℕ → List (EqBand Double)
  no_bands zero = []
  no_bands (suc n) = no_band ∷ no_bands n

  abbrev pub no_equalizer : EqPreset Double
  no_equalizer = record {
    bypass = false;
    input_gain_db = zero_d;
    output_gain_db = zero_d;
    mode = "IIR";
    split_channels = false;
    balance = zero_d;
    pitch_left = zero_d;
    pitch_right = zero_d;
    num_bands = 32;
    left = no_bands 32;
    right = no_bands 32;
  }

  abbrev pub no_limiter : LimiterPreset Double
  no_limiter = record {
    mode = "Herm Thin";
    oversampling = "None";
    dithering = "None";
    sidechain_type = "Internal";
    bypass = false;
    input_gain_db = zero_d;
    output_gain_db = zero_d;
    lookahead = dec false 5 0;
    attack = dec false 5 0;
    release = dec false 5 0;
    threshold_db = zero_d;
    sidechain_preamp_db = zero_d;
    stereo_link = dec false 100 0;
    alr = false;
    alr_attack = dec false 5 0;
    alr_release = dec false 50 0;
    alr_knee_db = zero_d;
    alr_knee_smooth_db = dec true 5 0;
    gain_boost = true;
    input_to_sidechain_db = no_level;
    input_to_link_db = no_level;
    sidechain_to_input_db = no_level;
    sidechain_to_link_db = no_level;
    link_to_input_db = no_level;
    link_to_sidechain_db = no_level;
  }

  abbrev pub no_convolver : ConvolverPreset Double
  no_convolver = record {
    bypass = false;
    input_gain_db = zero_d;
    output_gain_db = zero_d;
    kernel_name = "";
    kernel_path = "";
    ir_width = pos 100;
    autogain = false;
    dry_db = dec true 100 0;
    wet_db = zero_d;
    sofa_azimuth = zero_d;
    sofa_elevation = zero_d;
    sofa_radius = dec false 1 0;
  }

  abbrev pub no_preset : ParsedPreset Double
  no_preset = record {
    plugin_order = [];
    warnings = [];
    equalizer = no_equalizer;
    limiter = none;
    convolver = none;
  }
