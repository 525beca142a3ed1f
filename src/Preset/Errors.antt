-- ===== src/Preset/Errors.antt =====
-- A preset that is not accepted is refused with an error text.
use ee_eq_cli.Common.{
  ℕ, pos, Bool, false, String, List, [], ◌∷◌, Option, none, some, Result, ◌≡◌, ◌≢◌, refl, subst,
  is_empty, is_empty-append, ◌<>◌, starts_with, contains,
}
use ee_eq_cli.Floats.{FloatOps}
use ee_eq_cli.Outcome.{
  Outcome, ok, err, throw, Explained, ok-Explained, err-Explained, bind-Explained, if-Explained,
  require-Explained,
}
use ee_eq_cli.Json.{JsonLib, JsonThrows}
use ee_eq_cli.Preset.{ParsedPreset}
use ee_eq_cli.Preset.Plugins.{
  Order, push_plugin_kind, read_plugin, read_order, find_eq_instance_key, find_instance_key,
  find_prefix, key_or_missing,
}
use ee_eq_cli.Preset.Parser.{
  no_order, member_of, limiter_at, convolver_at, read_equalizer, read_limiter, read_convolver,
  caught, of_parsed, parse_easy_effects_preset_json, parse_easy_effects_preset,
}
use ee_eq_cli.Preset.Members.{
  text-read, bool-read, double-read, validate_label-Explained, parse_bands-Explained,
  parse_limiter-Explained, parse_convolver-Explained,
}

push-Explained : (kinds : List String) (k : String) → Explained (push_plugin_kind kinds k)
unfolding push_plugin_kind
push-Explained kinds k =
    if-Explained (contains kinds k) _ _
      (err-Explained ("duplicate plugin kind is not supported: " <> k)
        (is_empty-append "duplicate plugin kind is not supported: " k refl))
      (ok-Explained _)

read_plugin-Explained : (plugin : String) (o : Order) → Explained (read_plugin plugin o)
unfolding read_plugin
read_plugin-Explained plugin o =
    if-Explained (starts_with plugin "equalizer") _ _
      (bind-Explained _ _ (push-Explained o.kinds "equalizer") (λ kinds _. ok-Explained _))
      (if-Explained (starts_with plugin "limiter") _ _
        (bind-Explained _ _ (push-Explained o.kinds "limiter") (λ kinds _. ok-Explained _))
        (if-Explained (starts_with plugin "convolver") _ _
          (bind-Explained _ _ (push-Explained o.kinds "convolver") (λ kinds _. ok-Explained _))
          (ok-Explained _)))

read_order-Explained : (plugins : List String) (o : Order) → Explained (read_order plugins o)
unfolding read_order
read_order-Explained [] o = ok-Explained o
read_order-Explained (plugin ∷ plugins) o =
    bind-Explained _ _ (read_plugin-Explained plugin o) (λ o' _. read_order-Explained plugins o')

module _ {F : FloatOps} {J : JsonLib F} (T : JsonThrows J) where
  open F use {Double, dec}
  open J use {Json, value, signed, at_key, is_object, is_array}

  member-Explained :
      (kind : Json → Bool) (json : Json) (k e : String)
      → is_empty e ≡ false
      → Explained (member_of J kind json k e)
  member-Explained kind json k e n =
      if-Explained (J.contains json k) _ _
        (bind-Explained (at_key json k) _ (T.at_key-throws json k)
          (λ v _. if-Explained (kind v) _ _ (ok-Explained v) (err-Explained e n)))
        (err-Explained e n)

  read_equalizer-Explained : (eq : Json) → Explained (read_equalizer J eq)
  unfolding read_equalizer
  read_equalizer-Explained eq = bind-Explained _ _ (bool-read T eq "bypass" false) (λ bypass _.
      bind-Explained _ _ (double-read T eq "input-gain" (dec false 0 0)) (λ input_gain _.
        bind-Explained _ _ (double-read T eq "output-gain" (dec false 0 0)) (λ output_gain _.
          bind-Explained _ _ (text-read T eq "mode" "IIR") (λ mode_text _.
            bind-Explained _ _ (validate_label-Explained mode_text _ "mode") (λ mode _.
              bind-Explained _ _ (T.value-throws signed T.signed-throws eq "num-bands" (pos 32))
                (λ num_bands _.
                  bind-Explained _ _ (bool-read T eq "split-channels" false) (λ split _.
                    bind-Explained _ _ (double-read T eq "balance" (dec false 0 0)) (λ balance _.
                      bind-Explained _ _ (double-read T eq "pitch-left" (dec false 0 0))
                        (λ pitch_left _.
                          bind-Explained _ _ (double-read T eq "pitch-right" (dec false 0 0))
                            (λ pitch_right _.
                              bind-Explained _ _
                                (member-Explained is_object eq "left"
                                  "missing output.equalizer.left" refl)
                                (λ left _.
                                  bind-Explained _ _
                                    (member-Explained is_object eq "right"
                                      "missing output.equalizer.right" refl)
                                    (λ right _.
                                      bind-Explained _ _ (parse_bands-Explained T left right 0 _ _)
                                        (λ bands _. ok-Explained _)))))))))))))

  limiter_at-Explained : (output : Json) (o : Option String) → Explained (limiter_at J output o)
  limiter_at-Explained output none = err-Explained "missing output.limiter payload" refl
  limiter_at-Explained output (some key) =
      bind-Explained _ _ (parse_limiter-Explained T output key) (λ l _. ok-Explained (some l))

  convolver_at-Explained :
      (output : Json) (o : Option String) (p : ParsedPreset Double)
      → Explained (convolver_at J output o p)
  convolver_at-Explained output none p = ok-Explained _
  convolver_at-Explained output (some key) p =
      bind-Explained _ _ (parse_convolver-Explained T output key) (λ c _. ok-Explained _)

  key-Explained : (o : Option String) → Explained (key_or_missing J o)
  key-Explained none = err-Explained "missing output.equalizer payload" refl
  key-Explained (some key) = ok-Explained key

  json-Explained : (json : Json) → Explained (parse_easy_effects_preset_json J json)
  unfolding parse_easy_effects_preset_json find_eq_instance_key read_limiter read_convolver
  json-Explained json =
      bind-Explained _ _ (member-Explained is_object json "output" "missing output section" refl)
        (λ output _.
          bind-Explained _ _
            (member-Explained is_array output "plugins_order" "missing output.plugins_order" refl)
            (λ listed _. bind-Explained _ _ (T.texts-throws listed) (λ plugins _.
              require-Explained _ "empty output.plugins_order is not supported" _ refl (
                bind-Explained _ _ (read_order-Explained plugins no_order) (λ order _.
                  require-Explained _ "equalizer is required in output.plugins_order" _ refl (
                    bind-Explained _ _
                      (if-Explained (J.contains output "equalizer") _ _ (ok-Explained "equalizer")
                        (key-Explained (find_prefix "equalizer#" (J.keys output))))
                      (λ key _. bind-Explained _ _ (T.at_key-throws output key) (λ eq _.
                        bind-Explained _ _ (read_equalizer-Explained eq) (λ equalizer _.
                          bind-Explained _ _
                            (if-Explained (contains order.kinds "limiter") _ _
                              (limiter_at-Explained output (find_instance_key J output "limiter"))
                              (ok-Explained none))
                            (λ limiter _.
                              bind-Explained _ _
                                (if-Explained (contains order.kinds "convolver") _ _
                                  (convolver_at-Explained output
                                    (find_instance_key J output "convolver") _)
                                  (ok-Explained _))
                                (λ parsed _.
                                  require-Explained _
                                    "no supported plugin remained applicable after parsing" _ refl
                                    (ok-Explained parsed))))))))))))

  err_same :
      {d e : String} → ◌≡◌ {A = Result (ParsedPreset Double)} (Result.err d) (Result.err e) → d ≡ e
  err_same h = cc

  of_outcome :
      (o : Outcome (ParsedPreset Double)) (prefix e : String)
      → Explained o
      → is_empty prefix ≡ false
      → caught J prefix o ≡ Result.err e
      → is_empty e ≡ false
  of_outcome (ok p) prefix e w n h = cc
  of_outcome (err d) prefix e w n h = subst (λ e. is_empty e ≡ false) (err_same h) (w.at refl)
  of_outcome (throw what) prefix e w n h =
      subst (λ e. is_empty e ≡ false) (err_same h) (is_empty-append prefix what n)

  of_json :
      (o : Outcome Json) (e : String)
      → ((d : String) → o ≢ err d)
      → of_parsed J o ≡ Result.err e
      → is_empty e ≡ false
  of_json (ok json) e w h =
      of_outcome (parse_easy_effects_preset_json J json) "invalid preset structure: " e
        (json-Explained json) refl h
  of_json (err d) e w h = absurd (w d refl)
  of_json (throw what) e w h =
      subst (λ e. is_empty e ≡ false) (err_same h)
        (is_empty-append "invalid preset JSON: " what refl)

  -- Where the JSON library reports its failures by exceptions, a preset that the parser refuses
  -- gives an error text that is not empty, so that no refusal passes for a success: the callers
  -- tell them apart by the text alone.
  pub parse_easy_effects_preset-err :
      (bytes : List ℕ) (e : String)
      → parse_easy_effects_preset J bytes ≡ Result.err e
      → is_empty e ≡ false
  unfolding parse_easy_effects_preset
  parse_easy_effects_preset-err bytes e h = of_json (J.parse bytes) e (T.parse-throws bytes) h
