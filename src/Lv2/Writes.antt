-- ===== src/Lv2/Writes.antt =====
-- What the port mappers leave in a host (src/lsp_eq_port_mapper.cpp,
-- src/lsp_limiter_port_mapper.cpp).
use ee_eq_cli.Common.{
  ℕ, zero, suc, Bool, true, false, not, ◌&&◌, String, List, [], ◌∷◌, ◌++◌, map, some, ◌≡◌, refl,
  sym, ap, subst, ◌∙◌, ◌=s◌, =s_comm, contains, Distinct, length, All, on_option_cases, arith,
}
use ee_eq_cli.Floats.{FloatOps}
use ee_eq_cli.Preset.{EqBand, EqPreset, LimiterPreset}
use ee_eq_cli.Lv2.{Lv2HostCore}
use ee_eq_cli.Lv2.Ports.{
  Infinities, control_port, set_control_port_value, get_control_port_value, set_value,
}
use ee_eq_cli.Lv2.Wiring.{Wired}
use ee_eq_cli.Lv2.Reaching.{Reached, sets, Reached-Wired, get_elem?-at_index_ne}
use ee_eq_cli.Lv2.Values.{Reads, set_control_port_value-TakesValue, Points-ne, control_port-Points}
use ee_eq_cli.Lv2.Mappers.{
  Levels, Tags, tag, left_tags, right_tags, set_all, channel_writes, eq_writes, limiter_writes,
  apply_eq_preset_to_host, apply_limiter_preset_to_host,
}

-- Whether no text comes twice.
abbrev distinct : List String → Bool
distinct [] = true
distinct (x ∷ xs) = not (contains xs x) && distinct xs

distinct-Distinct : (xs : List String) → distinct xs ≡ true → Distinct xs
distinct-Distinct [] h = tt
distinct-Distinct (x ∷ xs) h = (ground (arith, h), distinct-Distinct xs (ground (arith, h)))

module _ (F : FloatOps) (I : Infinities F.Float) (L : Levels F) where
  abbrev pub symbols : List (String × F.Float) → List String
  symbols writes = map (λ w. w.0) writes

  set-control_port :
      (symbol other : String) (value : F.Float) (h : Lv2HostCore F.Float)
      → control_port F I (set_control_port_value F I symbol value h) other
        ≡ control_port F I h other
  unfolding set_control_port_value
  set-control_port symbol other value h =
      on_option_cases {X = Lv2HostCore F.Float}
        (λ r. control_port F I r other ≡ control_port F I h other) (control_port F I h symbol)
        (λ _. refl) (λ _ _. refl)

  -- What another port reads after a value is set is bounded by the port that it was.
  set-Reads :
      (symbol other : String) (value wanted : F.Float) (h r : Lv2HostCore F.Float) (j : ℕ)
      → Wired h
      → (symbol =s other) ≡ false
      → control_port F I h other ≡ some j
      → Reads F I other wanted (set_control_port_value F I symbol value h) r j
      → Reads F I other wanted h r j
  unfolding set_control_port_value
  set-Reads symbol other value wanted h r j w d e =
      on_option_cases {X = Lv2HostCore F.Float}
        (λ s. Reads F I other wanted s r j → Reads F I other wanted h r j)
        (control_port F I h symbol) (λ _ x. x)
        (λ i a (p, at, named, reads).
          let apart =
            Points-ne F I h.ports symbol other i j d (control_port-Points F I h symbol i w a)
              (control_port-Points F I h other j w e) in
          (
            p,
            sym (get_elem?-at_index_ne F I i j (set_value F I value) h.ports apart) ∙ at,
            named,
            reads,
          ))

  -- The port of the symbol, if there is one, reads the value in `r` within its bounds in `h`.
  abbrev pub Applied : Lv2HostCore F.Float → Lv2HostCore F.Float → String × F.Float → Type 0
  Applied h r w = (i : ℕ) → control_port F I h w.0 ≡ some i → Reads F I w.0 w.1 h r i

  -- What a sequence of writes must leave: every port has its value, the others what they had.
  pub record AllApplied (writes : List (String × F.Float)) (h r : Lv2HostCore F.Float)
      : Type 0 where
    pub applied : All (Applied h r) writes
    pub others :
        (other : String)
        → contains (symbols writes) other ≡ false
        → get_control_port_value F I other r ≡ get_control_port_value F I other h

  later-Applied :
      (symbol : String) (value : F.Float) (writes : List (String × F.Float))
      (h r : Lv2HostCore F.Float)
      → Wired h
      → contains (symbols writes) symbol ≡ false
      → All (Applied (set_control_port_value F I symbol value h) r) writes
      → All (Applied h r) writes
  later-Applied symbol value [] h r w d a = tt
  later-Applied symbol value ((s, v) ∷ writes) h r w d (a, rest) = (
    λ j e.
        set-Reads symbol s value v h r j w (=s_comm s symbol (ground (arith, d))) e
          (a j (set-control_port symbol s value h ∙ e)),
    later-Applied symbol value writes h r w (ground (arith, d)) rest,
  )

  set_all-AllApplied :
      (writes : List (String × F.Float)) (h : Lv2HostCore F.Float)
      → Reached F I h
      → Distinct (symbols writes)
      → AllApplied writes h (set_all F I L writes h)
  set_all-AllApplied [] h r d = record { applied = tt; others = λ other _. refl }
  set_all-AllApplied ((symbol, value) ∷ writes) h r (fresh, d) =
      let next = set_control_port_value F I symbol value h in
      let one = set_control_port_value-TakesValue F I symbol value h r in
      let rest = set_all-AllApplied writes next (sets symbol value r) d in
      record {
        applied = (
          λ i e.
              let (p, at, named, reads) = one.reads i e in
              (p, at, named, rest.others symbol fresh ∙ reads),
          later-Applied symbol value writes h (set_all F I L writes next) (Reached-Wired F I h r)
              fresh rest.applied,
        );
        others =
            λ other n. rest.others other (ground (arith, n)) ∙ one.others other (ground (arith, n));
      }

  -- The symbols of a channel depend on the number of its bands only.
  abbrev band_symbols : Tags → ℕ → List String
  band_symbols t i =
      tag t.type_ports i
      ∷ tag t.mode_ports i
      ∷ tag t.slope_ports i
      ∷ tag t.solo_ports i
      ∷ tag t.mute_ports i
      ∷ tag t.frequency_ports i
      ∷ tag t.q_ports i
      ∷ tag t.width_ports i
      ∷ tag t.gain_ports i
      ∷ []

  abbrev channel_symbols : Tags → ℕ → ℕ → List String
  channel_symbols t i zero = []
  channel_symbols t i (suc n) = band_symbols t i ++ channel_symbols t (suc i) n

  map-append : (xs ys : List (String × F.Float)) → symbols (xs ++ ys) ≡ symbols xs ++ symbols ys
  map-append [] ys = refl
  map-append (x ∷ xs) ys = ap (◌∷◌ x.0) (map-append xs ys)

  symbols-channel_writes :
      (t : Tags) (i : ℕ) (bands : List (EqBand F.Double))
      → symbols (channel_writes F I L t i bands) ≡ channel_symbols t i (length bands)
  symbols-channel_writes t i [] = refl
  symbols-channel_writes t i (band ∷ bands) =
      ap (λ l. band_symbols t i ++ l) (symbols-channel_writes t (suc i) bands)

  abbrev pub eq_symbols : ℕ → ℕ → List String
  eq_symbols left right =
      "mode"
      ∷ "bal"
      ∷ "frqs_l"
      ∷ "frqs_r"
      ∷ "clink"
      ∷ (channel_symbols left_tags 0 left ++ channel_symbols right_tags 0 right)

  eq_symbols-Distinct : Distinct (eq_symbols 32 32)
  eq_symbols-Distinct = distinct-Distinct (eq_symbols 32 32) refl

  pub symbols-eq_writes :
      (preset : EqPreset F.Double)
      → symbols (eq_writes F I L preset) ≡ eq_symbols (length preset.left) (length preset.right)
  symbols-eq_writes preset =
      ap (λ l. "mode" ∷ "bal" ∷ "frqs_l" ∷ "frqs_r" ∷ "clink" ∷ l)
        (map-append (channel_writes F I L left_tags 0 preset.left)
            (channel_writes F I L right_tags 0 preset.right)
          ∙ (ap (λ l. l ++ symbols (channel_writes F I L right_tags 0 preset.right))
                (symbols-channel_writes left_tags 0 preset.left)
              ∙ ap (λ l. channel_symbols left_tags 0 (length preset.left) ++ l)
                  (symbols-channel_writes right_tags 0 preset.right)))

  -- The calls for an equalizer's preset all take effect.
  pub apply_eq-AllApplied :
      (preset : EqPreset F.Double) (h : Lv2HostCore F.Float)
      → length preset.left ≡ 32
      → length preset.right ≡ 32
      → Reached F I h
      → AllApplied (eq_writes F I L preset) h (apply_eq_preset_to_host F I L preset h)
  unfolding apply_eq_preset_to_host
  apply_eq-AllApplied preset h left right r =
      let same : symbols (eq_writes F I L preset) ≡ eq_symbols 32 32 =
        symbols-eq_writes preset ∙ rw (left, right) refl in
      set_all-AllApplied (eq_writes F I L preset) h r
        (subst Distinct (sym same) eq_symbols-Distinct)

  -- The calls for a limiter's preset all take effect.
  pub apply_limiter-AllApplied :
      (preset : LimiterPreset F.Double) (h : Lv2HostCore F.Float)
      → Reached F I h
      → AllApplied (limiter_writes F I L preset) h (apply_limiter_preset_to_host F I L preset h)
  unfolding apply_limiter_preset_to_host
  apply_limiter-AllApplied preset h r =
      set_all-AllApplied (limiter_writes F I L preset) h r
        (distinct-Distinct (symbols (limiter_writes F I L preset)) refl)
