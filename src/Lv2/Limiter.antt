-- ===== src/Lv2/Limiter.antt =====
-- Which port of a limiter shows which setting of a preset (src/lsp_limiter_port_mapper.cpp),
-- written out setting by setting.
use ee_eq_cli.Common.{true, false, String, ◌≡◌, contains, if◌then◌else◌}
use ee_eq_cli.Floats.{FloatOps}
use ee_eq_cli.Preset.{LimiterPreset}
use ee_eq_cli.Preset.Labels.{
  label_index, limiter_mode_labels, limiter_oversampling_labels, limiter_dithering_labels,
  limiter_sidechain_labels,
}
use ee_eq_cli.Lv2.{Lv2HostCore}
use ee_eq_cli.Lv2.Ports.{Infinities, get_control_port_value}
use ee_eq_cli.Lv2.Reaching.{Reached}
use ee_eq_cli.Lv2.Mappers.{Levels, limiter_writes, apply_limiter_preset_to_host}
use ee_eq_cli.Lv2.Writes.{symbols, apply_limiter-AllApplied}
use ee_eq_cli.Lv2.Equalizer.{Shows}

module _ (F : FloatOps) (I : Infinities F.Float) (L : Levels F) where
  open F use {Double, Float, dec, mul_d, div_d, f_zero, f_one}
  open L use {of_index, to_float, exp, ln10, le_d}

  -- Decibels as a factor.
  abbrev factor : Double → Double
  factor db = exp (mul_d (div_d db (dec false 20 0)) ln10)

  -- What the host `r` shows of a preset, where `h` is the host before. The side chain's levels are 0
  -- from -80.01 dB down.
  pub record LimiterShows (preset : LimiterPreset Double) (h r : Lv2HostCore Float) : Type 0 where
    pub mode : Shows F I L h r "mode" (of_index (label_index limiter_mode_labels preset.mode))
    pub oversampling :
        Shows F I L h r "ovs"
          (of_index (label_index limiter_oversampling_labels preset.oversampling))
    pub dithering :
        Shows F I L h r "dith" (of_index (label_index limiter_dithering_labels preset.dithering))
    pub sidechain_type :
        Shows F I L h r "extsc"
          (of_index (label_index limiter_sidechain_labels preset.sidechain_type))
    pub lookahead : Shows F I L h r "lk" (to_float preset.lookahead)
    pub attack : Shows F I L h r "at" (to_float preset.attack)
    pub release : Shows F I L h r "rt" (to_float preset.release)
    pub gain_boost : Shows F I L h r "boost" (if preset.gain_boost then f_one else f_zero)
    pub stereo_link : Shows F I L h r "slink" (to_float preset.stereo_link)
    pub alr : Shows F I L h r "alr" (if preset.alr then f_one else f_zero)
    pub alr_attack : Shows F I L h r "alr_at" (to_float preset.alr_attack)
    pub alr_release : Shows F I L h r "alr_rt" (to_float preset.alr_release)
    pub alr_knee_smooth : Shows F I L h r "smooth" (to_float preset.alr_knee_smooth_db)
    pub threshold : Shows F I L h r "th" (to_float (factor preset.threshold_db))
    pub alr_knee : Shows F I L h r "knee" (to_float (factor preset.alr_knee_db))
    pub sidechain_preamp : Shows F I L h r "scp" (
        if le_d preset.sidechain_preamp_db (dec true 8001 2)
        then f_zero
        else to_float (factor preset.sidechain_preamp_db))
    pub input_to_link : Shows F I L h r "in2lk" (
        if le_d preset.input_to_link_db (dec true 8001 2)
        then f_zero
        else to_float (factor preset.input_to_link_db))
    pub input_to_sidechain : Shows F I L h r "in2sc" (
        if le_d preset.input_to_sidechain_db (dec true 8001 2)
        then f_zero
        else to_float (factor preset.input_to_sidechain_db))
    pub sidechain_to_input : Shows F I L h r "sc2in" (
        if le_d preset.sidechain_to_input_db (dec true 8001 2)
        then f_zero
        else to_float (factor preset.sidechain_to_input_db))
    pub sidechain_to_link : Shows F I L h r "sc2lk" (
        if le_d preset.sidechain_to_link_db (dec true 8001 2)
        then f_zero
        else to_float (factor preset.sidechain_to_link_db))
    pub link_to_input : Shows F I L h r "lk2in" (
        if le_d preset.link_to_input_db (dec true 8001 2)
        then f_zero
        else to_float (factor preset.link_to_input_db))
    pub link_to_sidechain : Shows F I L h r "lk2sc" (
        if le_d preset.link_to_sidechain_db (dec true 8001 2)
        then f_zero
        else to_float (factor preset.link_to_sidechain_db))
    pub others :
        (other : String)
        → contains (symbols F I L (limiter_writes F I L preset)) other ≡ false
        → get_control_port_value F I other r ≡ get_control_port_value F I other h

  -- Whatever calls the host has had before: each setting of the limiter's preset is what its own port
  -- reads afterwards, within the port's bounds, and the ports that the mapper does not name read
  -- what they read before.
  pub apply_limiter-LimiterShows :
      (preset : LimiterPreset Double) (h : Lv2HostCore Float)
      → Reached F I h
      → LimiterShows preset h (apply_limiter_preset_to_host F I L preset h)
  apply_limiter-LimiterShows preset h reached =
      let all = apply_limiter-AllApplied F I L preset h reached in
      let (
        x0,
        (
          x1,
          (
            x2,
            (
              x3,
              (
                x4,
                (
                  x5,
                  (
                    x6,
                    (
                      x7,
                      (
                        x8,
                        (
                          x9,
                          (
                            x10,
                            (
                              x11,
                              (
                                x12,
                                (x13, (x14, (x15, (x16, (x17, (x18, (x19, (x20, (x21, _))))))))),
                              ),
                            ),
                          ),
                        ),
                      ),
                    ),
                  ),
                ),
              ),
            ),
          ),
        ),
      ) =
        all.applied in
      record {
        mode = x0;
        oversampling = x1;
        dithering = x2;
        sidechain_type = x3;
        lookahead = x4;
        attack = x5;
        release = x6;
        gain_boost = x7;
        stereo_link = x8;
        alr = x9;
        alr_attack = x10;
        alr_release = x11;
        alr_knee_smooth = x12;
        threshold = x13;
        alr_knee = x14;
        sidechain_preamp = x15;
        input_to_link = x16;
        input_to_sidechain = x17;
        sidechain_to_input = x18;
        sidechain_to_link = x19;
        link_to_input = x20;
        link_to_sidechain = x21;
        others = all.others;
      }
