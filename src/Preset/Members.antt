-- ===== src/Preset/Members.antt =====
-- Reading the members of a preset fails with an exception or an error text that is not empty.
use ee_eq_cli.Common.{ℕ, suc, Bool, String, List, [], ◌∷◌, refl, is_empty-append, ◌<>◌, contains}
use ee_eq_cli.Floats.{FloatOps}
use ee_eq_cli.Outcome.{
  ok, err, ◌>>=◌, Explained, ok-Explained, err-Explained, bind-Explained, if-Explained,
}
use ee_eq_cli.Json.{JsonLib, JsonThrows}
use ee_eq_cli.Preset.{EqBand, LimiterPreset, ConvolverPreset, no_limiter, no_convolver}
use ee_eq_cli.Preset.Labels.{validate_label}
use ee_eq_cli.Preset.Bands.{band_members, parse_band, parse_bands, band_key}
use ee_eq_cli.Preset.Plugins.{
  limiter_members, parse_limiter, convolver_members, parse_convolver, with_sofa,
}

pub validate_label-Explained :
    (x : String) (labels : List String) (field : String) → Explained (validate_label x labels field)
unfolding validate_label
validate_label-Explained x labels field =
    if-Explained (contains labels x) (ok x) (err ("unsupported value '" <> x <> "' for " <> field))
      (ok-Explained x)
      (err-Explained ("unsupported value '" <> x <> "' for " <> field)
        (is_empty-append "unsupported value '" (x <> "' for " <> field) refl))

module _ {F : FloatOps} {J : JsonLib F} (T : JsonThrows J) where
  open F use {Double}
  open J use {Json, value, text, bool, double, signed, at_key}

  pub text-read : (j : Json) (k d : String) → Explained (value text j k d)
  text-read = T.value-throws text T.text-throws

  pub bool-read : (j : Json) (k : String) (d : Bool) → Explained (value bool j k d)
  bool-read = T.value-throws bool T.bool-throws

  pub double-read : (j : Json) (k : String) (d : Double) → Explained (value double j k d)
  double-read = T.value-throws double T.double-throws

  pub label-read :
      (j : Json) (k d : String) (labels : List String) (field : String)
      → Explained (value text j k d >>= λ x. validate_label x labels field)
  label-read j k d labels field =
      bind-Explained (value text j k d) _ (text-read j k d)
        (λ x _. validate_label-Explained x labels field)

  band_members-Explained :
      (v : Json) (key : String) (band : EqBand Double) → Explained (band_members J v key band)
  band_members-Explained v key band =
      bind-Explained _ _ (label-read v "type" band.type _ _) (λ type _.
        bind-Explained _ _ (label-read v "mode" band.mode _ _) (λ mode _.
          bind-Explained _ _ (label-read v "slope" band.slope _ _) (λ slope _.
            bind-Explained _ _ (bool-read v "solo" band.solo) (λ solo _.
              bind-Explained _ _ (bool-read v "mute" band.mute) (λ mute _.
                bind-Explained _ _ (double-read v "gain" band.gain_db) (λ gain _.
                  bind-Explained _ _ (double-read v "frequency" band.frequency) (λ frequency _.
                    bind-Explained _ _ (double-read v "q" band.q) (λ q _.
                      bind-Explained _ _ (double-read v "width" band.width)
                        (λ width _. ok-Explained _)))))))))

  parse_band-Explained :
      (json : Json) (key : String) (band : EqBand Double) → Explained (parse_band J json key band)
  unfolding parse_band
  parse_band-Explained json key band =
      if-Explained (J.contains json key) _ _
        (bind-Explained (at_key json key) _ (T.at_key-throws json key)
          (λ v _. band_members-Explained v key band))
        (ok-Explained band)

  pub parse_bands-Explained :
      (left right : Json) (i : ℕ) (ls rs : List (EqBand Double))
      → Explained (parse_bands J left right i ls rs)
  unfolding parse_bands
  parse_bands-Explained left right i [] rs = ok-Explained ([], [])
  parse_bands-Explained left right i (l ∷ ls) [] = ok-Explained ([], [])
  parse_bands-Explained left right i (l ∷ ls) (r ∷ rs) =
      bind-Explained _ _ (parse_band-Explained left (band_key i) l) (λ l' _.
        bind-Explained _ _ (parse_band-Explained right (band_key i) r) (λ r' _.
          bind-Explained _ _ (parse_bands-Explained left right (suc i) ls rs)
            (λ rest _. ok-Explained (l' ∷ rest.0, r' ∷ rest.1))))

  limiter_members-Explained :
      (v : Json) (p : LimiterPreset Double) → Explained (limiter_members J v p)
  unfolding limiter_members
  limiter_members-Explained v p = bind-Explained _ _ (label-read v "mode" p.mode _ _) (λ mode _.
      bind-Explained _ _ (label-read v "oversampling" p.oversampling _ _) (λ oversampling _.
        bind-Explained _ _ (label-read v "dithering" p.dithering _ _) (λ dithering _.
          bind-Explained _ _ (label-read v "sidechain-type" p.sidechain_type _ _) (λ sidechain _.
            bind-Explained _ _ (bool-read v "bypass" p.bypass) (λ bypass _.
              bind-Explained _ _ (double-read v "input-gain" p.input_gain_db) (λ input_gain _.
                bind-Explained _ _ (double-read v "output-gain" p.output_gain_db) (λ output_gain _.
                  bind-Explained _ _ (double-read v "lookahead" p.lookahead) (λ lookahead _.
                    bind-Explained _ _ (double-read v "attack" p.attack) (λ attack _.
                      bind-Explained _ _ (double-read v "release" p.release) (λ release _.
                        bind-Explained _ _ (double-read v "threshold" p.threshold_db)
                          (λ threshold _.
                            bind-Explained _ _
                              (double-read v "sidechain-preamp" p.sidechain_preamp_db)
                              (λ preamp _.
                                bind-Explained _ _ (double-read v "stereo-link" p.stereo_link)
                                  (λ stereo_link _.
                                    bind-Explained _ _ (bool-read v "alr" p.alr) (λ alr _.
                                      bind-Explained _ _ (double-read v "alr-attack" p.alr_attack)
                                        (λ alr_attack _.
                                          bind-Explained _ _
                                            (double-read v "alr-release" p.alr_release)
                                            (λ alr_release _.
                                              bind-Explained _ _
                                                (double-read v "alr-knee" p.alr_knee_db)
                                                (λ alr_knee _.
                                                  bind-Explained _ _
                                                    (double-read v "alr-knee-smooth"
                                                      p.alr_knee_smooth_db)
                                                    (λ alr_knee_smooth _.
                                                      bind-Explained _ _
                                                        (bool-read v "gain-boost" p.gain_boost)
                                                        (λ gain_boost _.
                                                          bind-Explained _ _
                                                            (double-read v "input-to-sidechain"
                                                            p.input_to_sidechain_db)
                                                            (λ input_to_sidechain _.
                                                            bind-Explained _ _
                                                            (double-read v "input-to-link"
                                                            p.input_to_link_db)
                                                            (λ input_to_link _.
                                                            bind-Explained _ _
                                                            (double-read v "sidechain-to-input"
                                                            p.sidechain_to_input_db)
                                                            (λ sidechain_to_input _.
                                                            bind-Explained _ _
                                                            (double-read v "sidechain-to-link"
                                                            p.sidechain_to_link_db)
                                                            (λ sidechain_to_link _.
                                                            bind-Explained _ _
                                                            (double-read v "link-to-input"
                                                            p.link_to_input_db)
                                                            (λ link_to_input _.
                                                            bind-Explained _ _
                                                            (double-read v "link-to-sidechain"
                                                            p.link_to_sidechain_db)
                                                            (λ link_to_sidechain _.
                                                            ok-Explained _)))))))))))))))))))))))))

  pub parse_limiter-Explained :
      (output : Json) (key : String) → Explained (parse_limiter J output key)
  unfolding parse_limiter
  parse_limiter-Explained output key =
      bind-Explained (at_key output key) _ (T.at_key-throws output key)
        (λ v _. limiter_members-Explained v (no_limiter F))

  with_sofa-Explained : (v : Json) (p : ConvolverPreset Double) → Explained (with_sofa J v p)
  with_sofa-Explained v p =
      if-Explained (J.contains v "sofa") _ _
        (bind-Explained (at_key v "sofa") _ (T.at_key-throws v "sofa") (λ sofa _.
          if-Explained (J.is_object sofa) _ _
            (bind-Explained _ _ (double-read sofa "azimuth" p.sofa_azimuth) (λ azimuth _.
              bind-Explained _ _ (double-read sofa "elevation" p.sofa_elevation) (λ elevation _.
                bind-Explained _ _ (double-read sofa "radius" p.sofa_radius)
                  (λ radius _. ok-Explained _))))
            (ok-Explained p)))
        (ok-Explained p)

  convolver_members-Explained :
      (v : Json) (p : ConvolverPreset Double) → Explained (convolver_members J v p)
  unfolding convolver_members
  convolver_members-Explained v p = bind-Explained _ _ (bool-read v "bypass" p.bypass) (λ bypass _.
      bind-Explained _ _ (double-read v "input-gain" p.input_gain_db) (λ input_gain _.
        bind-Explained _ _ (double-read v "output-gain" p.output_gain_db) (λ output_gain _.
          bind-Explained _ _ (text-read v "kernel-name" p.kernel_name) (λ name _.
            bind-Explained _ _ (text-read v "kernel-path" p.kernel_path) (λ path _.
              bind-Explained _ _ (T.value-throws signed T.signed-throws v "ir-width" p.ir_width)
                (λ width _. bind-Explained _ _ (bool-read v "autogain" p.autogain) (λ autogain _.
                  bind-Explained _ _ (double-read v "dry" p.dry_db) (λ dry _.
                    bind-Explained _ _ (double-read v "wet" p.wet_db)
                      (λ wet _. with_sofa-Explained v _)))))))))

  pub parse_convolver-Explained :
      (output : Json) (key : String) → Explained (parse_convolver J output key)
  unfolding parse_convolver
  parse_convolver-Explained output key =
      bind-Explained (at_key output key) _ (T.at_key-throws output key)
        (λ v _. convolver_members-Explained v (no_convolver F))
