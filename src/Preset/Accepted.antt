-- ===== src/Preset/Accepted.antt =====
-- What a preset is that the parser accepts.
use ee_eq_cli.Common.{
  ℕ, true, not, String, List, All, All-erase, Distinct, Distinct-erase, contains-erase,
  contains-erase_eq, Option, none, some, is_some, Result, ◌≡◌, refl, ap, ◌∙◌, sym, subst, contains,
  if_cases,
}
use ee_eq_cli.Floats.{FloatOps}
use ee_eq_cli.Outcome.{Outcome, ok, err, throw, Holds, bind-Holds, require-Holds, ok-Holds}
use ee_eq_cli.Json.{JsonLib}
use ee_eq_cli.Preset.{EqPreset, LimiterPreset, ParsedPreset}
use ee_eq_cli.Preset.Plugins.{read_order, parse_convolver, find_instance_key, find_eq_instance_key}
use ee_eq_cli.Preset.Parser.{
  no_order, is_nil, member_of, read_equalizer, read_limiter, read_convolver, convolver_at, caught,
  of_parsed, parse_easy_effects_preset_json, parse_easy_effects_preset,
}
use ee_eq_cli.Preset.Order.{IsKind, read_order-IsOrder}
use ee_eq_cli.Preset.Valid.{IsEqualizer}
use ee_eq_cli.Preset.Equalizer.{read_equalizer-IsEqualizer}
use ee_eq_cli.Preset.Limiter.{LimiterFor, read_limiter-LimiterFor}

pub record IsPreset {D : Type 0} (p : ParsedPreset D) : Type 0 where
  pub distinct : Distinct p.plugin_order
  pub known : All IsKind p.plugin_order
  pub equalizer_listed : contains p.plugin_order "equalizer" ≡ true
  pub equalizer : IsEqualizer p.equalizer
  pub limiter : LimiterFor (contains p.plugin_order "limiter") p.limiter
  pub convolver : is_some p.convolver ≡ contains p.plugin_order "convolver"

module _ {F : FloatOps} (J : JsonLib F) where
  open F use {Double}
  open J use {Json, value, text, texts, is_object, is_array, at_key}

  -- Reading the convolver makes a preset of what was read before.
  read_convolver-IsPreset :
      (output : Json) (kinds warnings : List String) (e : EqPreset Double)
      (l : Option (LimiterPreset Double))
      → Distinct kinds
      → All IsKind kinds
      → contains kinds "equalizer" ≡ true
      → IsEqualizer e
      → LimiterFor (contains kinds "limiter") l
      → Holds IsPreset (
          read_convolver J output (record {
            plugin_order = kinds;
            warnings = warnings;
            equalizer = e;
            limiter = l;
            convolver = none;
          }))
  unfolding read_convolver
  read_convolver-IsPreset output kinds warnings e l d k q we wl =
      if_cases {A = Outcome (ParsedPreset Double)} (Holds IsPreset) (contains kinds "convolver")
        (λ listed. by_key listed (find_instance_key J output "convolver"))
        (λ absent. ok-Holds IsPreset (record {
          distinct = d;
          known = k;
          equalizer_listed = q;
          equalizer = we;
          limiter = wl;
          convolver = sym absent;
        }))
    where
      by_key :
          contains kinds "convolver" ≡ true
          → (o : Option String)
          → Holds IsPreset (
              convolver_at J output o (record {
                plugin_order = kinds;
                warnings = warnings;
                equalizer = e;
                limiter = l;
                convolver = none;
              }))
      by_key listed none = ok-Holds IsPreset (record {
        distinct = Distinct-erase kinds "convolver" d;
        known = All-erase IsKind kinds "convolver" k;
        equalizer_listed = contains-erase kinds "convolver" "equalizer" refl ∙ q;
        equalizer = we;
        limiter =
            subst (λ b. LimiterFor b l) (sym (contains-erase kinds "convolver" "limiter" refl)) wl;
        convolver = sym (contains-erase_eq kinds "convolver");
      })
      by_key listed (some key) = bind-Holds IsPreset (parse_convolver J output key) _ (λ c _.
          ok-Holds IsPreset (record {
            distinct = d;
            known = k;
            equalizer_listed = q;
            equalizer = we;
            limiter = wl;
            convolver = sym listed;
          }))

  json-IsPreset : (json : Json) → Holds IsPreset (parse_easy_effects_preset_json J json)
  unfolding parse_easy_effects_preset_json
  json-IsPreset json =
      bind-Holds IsPreset (member_of J is_object json "output" "missing output section") _
        (λ output _.
          bind-Holds IsPreset
            (member_of J is_array output "plugins_order" "missing output.plugins_order") _
            (λ listed _. bind-Holds IsPreset (texts.get listed) _ (λ plugins _.
              require-Holds IsPreset (not (is_nil plugins))
                "empty output.plugins_order is not supported" _
                (λ _. bind-Holds IsPreset (read_order plugins no_order) _ (λ order ordered.
                  require-Holds IsPreset order.has_equalizer
                    "equalizer is required in output.plugins_order" _
                    (λ has. bind-Holds IsPreset (find_eq_instance_key J output) _ (λ key _.
                      bind-Holds IsPreset (at_key output key) _ (λ eq _.
                        bind-Holds IsPreset (read_equalizer J eq) _ (λ equalizer read.
                          bind-Holds IsPreset (read_limiter J output order.kinds) _
                            (λ limiter found.
                              bind-Holds IsPreset (read_convolver J output _) _ (λ parsed done.
                                require-Holds IsPreset (not (is_nil parsed.plugin_order))
                                  "no supported plugin remained applicable after parsing" _
                                  (λ _.
                                    let w =
                                      read_order-IsOrder plugins no_order
                                        (record { distinct = tt; known = tt; equalizer = refl })
                                        ordered in
                                    ok-Holds IsPreset (
                                      (read_convolver-IsPreset output order.kinds order.warnings
                                          equalizer limiter w.distinct w.known
                                          (sym w.equalizer ∙ has)
                                          ((read_equalizer-IsEqualizer J eq).at read)
                                          ((read_limiter-LimiterFor J output order.kinds).at
                                            found)).at
                                        done)))))))))))))

  -- A preset that the parser accepts has the equalizer in its order of plugins, each of them known
  -- and none of them twice; a limiter or a convolver is in the order just when its settings were
  -- read. The equalizer has 1 to 32 bands in arrays of 32, on both sides the same unless the
  -- channels are split, and every label is in its table, the limiter's included.
  pub parse_easy_effects_preset-IsPreset :
      (bytes : List ℕ) {p : ParsedPreset Double}
      → parse_easy_effects_preset J bytes ≡ Result.ok p
      → IsPreset p
  unfolding parse_easy_effects_preset
  parse_easy_effects_preset-IsPreset bytes {p} h = of_bytes (J.parse bytes) h
    where
      of_outcome :
          (o : Outcome (ParsedPreset Double))
          → Holds IsPreset o
          → caught J "invalid preset structure: " o ≡ Result.ok p
          → IsPreset p
      of_outcome (ok q) w h = w.at (ap ok (same h))
        where
          same :
              {x y : ParsedPreset Double}
              → ◌≡◌ {A = Result (ParsedPreset Double)} (Result.ok x) (Result.ok y)
              → x ≡ y
          same h = cc
      of_outcome (err e) w h = cc
      of_outcome (throw what) w h = cc

      of_bytes : (o : Outcome Json) → of_parsed J o ≡ Result.ok p → IsPreset p
      of_bytes (ok json) h =
          of_outcome (parse_easy_effects_preset_json J json) (json-IsPreset json) h
      of_bytes (err e) h = cc
      of_bytes (throw what) h = cc
