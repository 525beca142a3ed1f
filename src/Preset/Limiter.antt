-- ===== src/Preset/Limiter.antt =====
-- What reading the limiter gives.
use ee_eq_cli.Common.{
  Bool, true, false, String, List, Option, none, some, ◌≡◌, refl, contains, if◌then◌else◌,
}
use ee_eq_cli.Floats.{FloatOps}
use ee_eq_cli.Outcome.{ok, Holds, bind-Holds, ok-Holds, err-Holds}
use ee_eq_cli.Json.{JsonLib}
use ee_eq_cli.Preset.{LimiterPreset, no_limiter}
use ee_eq_cli.Preset.Labels.{
  limiter_mode_labels, limiter_oversampling_labels, limiter_dithering_labels,
  limiter_sidechain_labels,
}
use ee_eq_cli.Preset.Plugins.{limiter_members, parse_limiter, find_instance_key}
use ee_eq_cli.Preset.Parser.{read_limiter, limiter_at}
use ee_eq_cli.Preset.Valid.{label-Holds}

pub record IsLimiter {D : Type 0} (l : LimiterPreset D) : Type 0 where
  pub mode : contains limiter_mode_labels l.mode ≡ true
  pub oversampling : contains limiter_oversampling_labels l.oversampling ≡ true
  pub dithering : contains limiter_dithering_labels l.dithering ≡ true
  pub sidechain_type : contains limiter_sidechain_labels l.sidechain_type ≡ true

-- A plugin is in the order of the plugins just when its settings are there.
abbrev pub LimiterFor : {D : Type 0} → Bool → Option (LimiterPreset D) → Type 0
LimiterFor b none = b ≡ false
LimiterFor b (some l) = (b ≡ true) × IsLimiter l

module _ {F : FloatOps} (J : JsonLib F) where
  open F use {Double}
  open J use {Json, value, text, texts, is_object, is_array, at_key}

  made :
      {l : LimiterPreset Double}
      → contains limiter_mode_labels l.mode ≡ true
      → contains limiter_oversampling_labels l.oversampling ≡ true
      → contains limiter_dithering_labels l.dithering ≡ true
      → contains limiter_sidechain_labels l.sidechain_type ≡ true
      → IsLimiter l
  made m o d s = record { mode = m; oversampling = o; dithering = d; sidechain_type = s }

  limiter_members-IsLimiter :
      (v : Json) (p : LimiterPreset Double) → Holds IsLimiter (limiter_members J v p)
  unfolding limiter_members
  limiter_members-IsLimiter v p =
      label-Holds J IsLimiter (value text v "mode" p.mode) limiter_mode_labels "limiter.mode" _
        (λ mode m.
          label-Holds J IsLimiter (value text v "oversampling" p.oversampling)
            limiter_oversampling_labels "limiter.oversampling" _
            (λ oversampling o.
              label-Holds J IsLimiter (value text v "dithering" p.dithering)
                limiter_dithering_labels "limiter.dithering" _
                (λ dithering d.
                  label-Holds J IsLimiter (value text v "sidechain-type" p.sidechain_type)
                    limiter_sidechain_labels "limiter.sidechain-type" _
                    (λ sidechain s.
                      bind-Holds IsLimiter (value J.bool v "bypass" p.bypass) _ (λ bypass _.
                        bind-Holds IsLimiter (value J.double v "input-gain" p.input_gain_db) _
                          (λ input_gain _.
                            bind-Holds IsLimiter (value J.double v "output-gain" p.output_gain_db) _
                              (λ output_gain _.
                                bind-Holds IsLimiter (value J.double v "lookahead" p.lookahead) _
                                  (λ lookahead _.
                                    bind-Holds IsLimiter (value J.double v "attack" p.attack) _
                                      (λ attack _.
                                        bind-Holds IsLimiter (value J.double v "release" p.release)
                                          _
                                          (λ release _.
                                            bind-Holds IsLimiter
                                              (value J.double v "threshold" p.threshold_db) _
                                              (λ threshold _.
                                                bind-Holds IsLimiter
                                                  (value J.double v "sidechain-preamp"
                                                    p.sidechain_preamp_db)
                                                  _
                                                  (λ preamp _.
                                                    bind-Holds IsLimiter
                                                      (value J.double v "stereo-link" p.stereo_link)
                                                      _
                                                      (λ stereo_link _.
                                                        bind-Holds IsLimiter
                                                          (value J.bool v "alr" p.alr) _
                                                          (λ alr _.
                                                            bind-Holds IsLimiter
                                                            (value J.double v "alr-attack"
                                                            p.alr_attack)
                                                            _
                                                            (λ alr_attack _.
                                                            bind-Holds IsLimiter
                                                            (value J.double v "alr-release"
                                                            p.alr_release)
                                                            _
                                                            (λ alr_release _.
                                                            bind-Holds IsLimiter
                                                            (value J.double v "alr-knee"
                                                            p.alr_knee_db)
                                                            _
                                                            (λ alr_knee _.
                                                            bind-Holds IsLimiter
                                                            (value J.double v "alr-knee-smooth"
                                                            p.alr_knee_smooth_db)
                                                            _
                                                            (λ alr_knee_smooth _.
                                                            bind-Holds IsLimiter
                                                            (value J.bool v "gain-boost"
                                                            p.gain_boost)
                                                            _
                                                            (λ gain_boost _.
                                                            bind-Holds IsLimiter
                                                            (value J.double v "input-to-sidechain"
                                                            p.input_to_sidechain_db)
                                                            _
                                                            (λ input_to_sidechain _.
                                                            bind-Holds IsLimiter
                                                            (value J.double v "input-to-link"
                                                            p.input_to_link_db)
                                                            _
                                                            (λ input_to_link _.
                                                            bind-Holds IsLimiter
                                                            (value J.double v "sidechain-to-input"
                                                            p.sidechain_to_input_db)
                                                            _
                                                            (λ sidechain_to_input _.
                                                            bind-Holds IsLimiter
                                                            (value J.double v "sidechain-to-link"
                                                            p.sidechain_to_link_db)
                                                            _
                                                            (λ sidechain_to_link _.
                                                            bind-Holds IsLimiter
                                                            (value J.double v "link-to-input"
                                                            p.link_to_input_db)
                                                            _
                                                            (λ link_to_input _.
                                                            bind-Holds IsLimiter
                                                            (value J.double v "link-to-sidechain"
                                                            p.link_to_sidechain_db)
                                                            _
                                                            (λ link_to_sidechain _.
                                                            ok-Holds IsLimiter
                                                            (made m o d s))))))))))))))))))))))))))

  limiter_at-LimiterFor :
      (output : Json) (o : Option String) → Holds (LimiterFor true) (limiter_at J output o)
  unfolding parse_limiter
  limiter_at-LimiterFor output none = err-Holds (LimiterFor true) "missing output.limiter payload"
  limiter_at-LimiterFor output (some key) =
      bind-Holds (LimiterFor true) (parse_limiter J output key) _ (λ l e.
        ok-Holds (LimiterFor true) (
          refl,
          (bind-Holds IsLimiter (at_key output key) _
                (λ v _. limiter_members-IsLimiter v (no_limiter F))).at
              e,
        ))

  pub read_limiter-LimiterFor :
      (output : Json) (kinds : List String)
      → Holds (LimiterFor (contains kinds "limiter")) (read_limiter J output kinds)
  unfolding read_limiter
  read_limiter-LimiterFor output kinds = by_listing (contains kinds "limiter")
    where
      by_listing :
          (b : Bool)
          → Holds
              (LimiterFor b)
              (if b then limiter_at J output (find_instance_key J output "limiter") else ok none)
      by_listing true = limiter_at-LimiterFor output (find_instance_key J output "limiter")
      by_listing false = ok-Holds (LimiterFor false) refl
