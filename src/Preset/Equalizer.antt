-- ===== src/Preset/Equalizer.antt =====
-- What reading the equalizer's object gives, and the limiter's.
use ee_eq_cli.Common.{ℕ, pos, Bool, true, false, List, length, All, ◌≡◌, refl}
use ee_eq_cli.Floats.{FloatOps}
use ee_eq_cli.Outcome.{Holds, bind-Holds, ok-Holds}
use ee_eq_cli.Json.{JsonLib}
use ee_eq_cli.Preset.{EqBand}
use ee_eq_cli.Preset.Labels.{validate_label, validate_label_inv, eq_mode_labels}
use ee_eq_cli.Preset.Bands.{
  clamp_int, clamp_bands, initialize_equalizer_defaults, parse_bands, default_bands,
  default_band_frequencies, default_band_qs,
}
use ee_eq_cli.Preset.Parser.{read_equalizer, member_of, in_both}
use ee_eq_cli.Preset.Valid.{
  IsEqualizer, IsBand, AreBands, parse_bands-AreBands, defaults_full, default_bands-IsBand, clamped,
}

module _ {F : FloatOps} (J : JsonLib F) where
  open F use {Double, dec}
  open J use {Json, value, text, bool, double, signed, is_object}

  abbrev bands_of : ℕ → List (EqBand Double)
  bands_of n = default_bands F n 0 (default_band_frequencies F n) (default_band_qs F n)

  -- The arrays, read over the defaults.
  read_bands :
      (left right : Json) (n : ℕ)
      → Holds (AreBands J 32) (parse_bands J left right 0 (bands_of n) (bands_of n))
  read_bands left right n = parse_bands-AreBands J left right 0 32 (bands_of n) (bands_of n) (
    defaults_full F n,
    defaults_full F n,
    default_bands-IsBand F n 0 _ _,
    default_bands-IsBand F n 0 _ _,
  )

  in_both_lem :
      (split : Bool) (ls rs : List (EqBand Double))
      → AreBands J 32 (ls, rs)
      → (length (in_both J split ls rs) ≡ 32)
        × All IsBand (in_both J split ls rs)
        × (split ≡ false → in_both J split ls rs ≡ ls)
  in_both_lem true ls rs (a, b, c, d) = (b, d, λ h. cc)
  in_both_lem false ls rs (a, b, c, d) = (a, c, λ _. refl)

  pub read_equalizer-IsEqualizer : (eq : Json) → Holds IsEqualizer (read_equalizer J eq)
  unfolding read_equalizer initialize_equalizer_defaults
  read_equalizer-IsEqualizer eq =
      bind-Holds IsEqualizer (value bool eq "bypass" false) _ (λ bypass _.
        bind-Holds IsEqualizer (value double eq "input-gain" (dec false 0 0)) _ (λ input_gain _.
          bind-Holds IsEqualizer (value double eq "output-gain" (dec false 0 0)) _ (λ output_gain _.
            bind-Holds IsEqualizer (value text eq "mode" "IIR") _ (λ mode_text _.
              bind-Holds IsEqualizer (validate_label mode_text eq_mode_labels "mode") _ (λ mode m.
                bind-Holds IsEqualizer (value signed eq "num-bands" (pos 32)) _ (λ num_bands _.
                  bind-Holds IsEqualizer (value bool eq "split-channels" false) _ (λ split _.
                    bind-Holds IsEqualizer (value double eq "balance" (dec false 0 0)) _
                      (λ balance _.
                        bind-Holds IsEqualizer (value double eq "pitch-left" (dec false 0 0)) _
                          (λ pitch_left _.
                            bind-Holds IsEqualizer (value double eq "pitch-right" (dec false 0 0)) _
                              (λ pitch_right _.
                                bind-Holds IsEqualizer
                                  (member_of J is_object eq "left" "missing output.equalizer.left")
                                  _
                                  (λ left _.
                                    bind-Holds IsEqualizer
                                      (member_of J is_object eq "right"
                                        "missing output.equalizer.right")
                                      _
                                      (λ right _.
                                        bind-Holds IsEqualizer
                                          (parse_bands J left right 0
                                            (bands_of (clamp_bands (clamp_int num_bands)))
                                            (bands_of (clamp_bands (clamp_int num_bands))))
                                          _
                                          (λ bands e.
                                            let w =
                                              (read_bands left right
                                                  (clamp_bands (clamp_int num_bands))).at
                                                e in
                                            let v = in_both_lem split bands.0 bands.1 w in
                                            ok-Holds IsEqualizer (record {
                                              mode =
                                                  validate_label_inv mode_text eq_mode_labels "mode"
                                                    m;
                                              some_bands = (clamped num_bands).0;
                                              few_bands = (clamped num_bands).1;
                                              left_full = w.0;
                                              right_full = v.0;
                                              left_labels = w.2;
                                              right_labels = v.1;
                                              linked = v.2;
                                            }))))))))))))))
