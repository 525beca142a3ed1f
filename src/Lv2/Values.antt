-- ===== src/Lv2/Values.antt =====
-- What the calls of the host do to the values of its control ports (src/lv2_host_core.cpp,
-- set_control_port_value and get_control_port_value).
use ee_eq_cli.Common.{
  ℕ, ◌==◌, false, String, List, Option, none, some, ◌≡◌, refl, sym, ap, subst, ◌∙◌, ◌=s◌, =s_iff,
  find-All, find-test, find, get_elem?, on_option_cases, if◌then◌else◌, Bool-cases, inl, inr, arith,
}
use ee_eq_cli.Floats.{FloatOps}
use ee_eq_cli.Lv2.{Port, Lv2HostCore}
use ee_eq_cli.Lv2.Ports.{
  Infinities, clamp, control_port, set_value, at_index, set_control_port_value,
  get_control_port_value,
}
use ee_eq_cli.Lv2.Wiring.{Points, Wired}
use ee_eq_cli.Lv2.Reaching.{Reached, Reached-Wired, get_elem?-at_index, get_elem?-at_index_ne}

module _ (F : FloatOps) (I : Infinities F.Float) where
  -- A symbol that is known has its port.
  pub control_port-Points :
      (h : Lv2HostCore F.Float) (symbol : String) (i : ℕ)
      → Wired h
      → control_port F I h symbol ≡ some i
      → Points F.Float h.ports symbol i
  control_port-Points h symbol i w =
      on_option_cases {X = Option ℕ} (λ o. o ≡ some i → Points F.Float h.ports symbol i)
        (find (λ e. e.0 =s symbol) h.control_port_index) (λ _ q. cc)
        (λ e q r.
          let at =
            find-All (λ e. Points F.Float h.ports e.0 e.1) (λ e. e.0 =s symbol) h.control_port_index
              e w q in
          let named =
            (=s_iff e.0 symbol).0 (find-test (λ e. e.0 =s symbol) h.control_port_index e q) in
          let place : e.1 ≡ i = cc in
          subst (Points F.Float h.ports symbol) place
            (subst (λ s. Points F.Float h.ports s e.1) named at))

  get-value :
      (h : Lv2HostCore F.Float) (symbol : String) (i : ℕ) (p : Port F.Float)
      → control_port F I h symbol ≡ some i
      → get_elem? h.ports i ≡ some p
      → get_control_port_value F I symbol h ≡ p.value
  unfolding get_control_port_value
  get-value h symbol i p a b = rw (a, b) refl

  get-unknown :
      (h : Lv2HostCore F.Float) (symbol : String)
      → control_port F I h symbol ≡ none
      → get_control_port_value F I symbol h ≡ F.f_zero
  unfolding get_control_port_value
  get-unknown h symbol a = rw a refl

  abbrev with_value : ℕ → F.Float → Lv2HostCore F.Float → Lv2HostCore F.Float
  with_value i value h = record h { ports = at_index F I i (set_value F I value) h.ports }

  -- The port of the symbol reads the value within its bounds in `r`, or an output what it had.
  abbrev pub Reads : String → F.Float → Lv2HostCore F.Float → Lv2HostCore F.Float → ℕ → Type 0
  Reads symbol value h r i =
      (p : Port F.Float) × (get_elem? h.ports i ≡ some p)
      × (p.symbol ≡ symbol)
      × (get_control_port_value F I symbol r
          ≡ (if p.is_input then clamp F I value p.min p.max else p.value))

  -- What a call of `set_control_port_value` must do: nothing for an unknown symbol, and otherwise the
  -- port of that symbol, if it is an input, reads the value within its bounds.
  pub record TakesValue (symbol : String) (value : F.Float) (h r : Lv2HostCore F.Float)
      : Type 0 where
    pub unknown : control_port F I h symbol ≡ none → r ≡ h
    pub reads : (i : ℕ) → control_port F I h symbol ≡ some i → Reads symbol value h r i
    pub others :
        (other : String)
        → (symbol =s other) ≡ false
        → get_control_port_value F I other r ≡ get_control_port_value F I other h

  set_value-value :
      (value : F.Float) (p : Port F.Float)
      → (set_value F I value p).value
        ≡ (if p.is_input then clamp F I value p.min p.max else p.value)
  set_value-value value p = elim (Bool-cases p.is_input) [ inl e ↦ rw e refl | inr e ↦ rw e refl ]

  with_value-Reads :
      (symbol : String) (value : F.Float) (h : Lv2HostCore F.Float) (i : ℕ)
      → Wired h
      → control_port F I h symbol ≡ some i
      → Reads symbol value h (with_value i value h) i
  with_value-Reads symbol value h i w a =
      let at = control_port-Points h symbol i w a in
      (
        at.port,
        at.is_there,
        at.has_symbol,
        get-value (with_value i value h) symbol i (set_value F I value at.port) a
              (get_elem?-at_index F I i (set_value F I value) h.ports at.port at.is_there)
            ∙ set_value-value value at.port,
      )

  -- Symbols that differ have ports that differ.
  pub Points-ne :
      (ports : List (Port F.Float)) (s t : String) (i j : ℕ)
      → (s =s t) ≡ false
      → Points F.Float ports s i
      → Points F.Float ports t j
      → (i == j) ≡ false
  Points-ne ports s t i j d p q = elim (Bool-cases (i == j)) [
    | inl e ↦
        let same : i ≡ j = ground (arith, e) in
        let one : p.port ≡ q.port = let a = p.is_there in let b = q.is_there in cc in
        let named : s ≡ t =
          sym p.has_symbol ∙ ap (λ (x : Port F.Float). x.symbol) one ∙ q.has_symbol in
        let yes = (=s_iff s t).1 named in cc
    | inr e ↦ e
  ]

  with_value-others :
      (symbol other : String) (value : F.Float) (h : Lv2HostCore F.Float) (i : ℕ)
      → Wired h
      → control_port F I h symbol ≡ some i
      → (symbol =s other) ≡ false
      → get_control_port_value F I other (with_value i value h) ≡ get_control_port_value F I other h
  with_value-others symbol other value h i w a d = by_port (control_port F I h other) refl
    where
      by_port :
          (o : Option ℕ)
          → control_port F I h other ≡ o
          → get_control_port_value F I other (with_value i value h)
            ≡ get_control_port_value F I other h
      by_port none e = get-unknown (with_value i value h) other e ∙ sym (get-unknown h other e)
      by_port (some j) e =
          let at = control_port-Points h other j w e in
          let apart =
            Points-ne h.ports symbol other i j d (control_port-Points h symbol i w a) at in
          get-value (with_value i value h) other j at.port e
            (get_elem?-at_index_ne F I i j (set_value F I value) h.ports apart ∙ at.is_there)
          ∙ sym (get-value h other j at.port e at.is_there)

  -- Whatever plugin the host was made for and whatever calls came before, a value that is set is read
  -- back within its port's bounds, an output port keeps its value, an unknown symbol changes
  -- nothing, and no other symbol reads another value than before.
  pub set_control_port_value-TakesValue :
      (symbol : String) (value : F.Float) (h : Lv2HostCore F.Float)
      → Reached F I h
      → TakesValue symbol value h (set_control_port_value F I symbol value h)
  unfolding set_control_port_value
  set_control_port_value-TakesValue symbol value h r =
      let w = Reached-Wired F I h r in
      on_option_cases {X = Lv2HostCore F.Float} (TakesValue symbol value h)
        (control_port F I h symbol)
        (λ e. record { unknown = λ _. refl; reads = λ i a. cc; others = λ other d. refl })
        (λ i e. record {
          unknown = λ a. cc;
          reads = λ j a.
              let same : i ≡ j = cc in
              subst (Reads symbol value h (with_value i value h)) same
                (with_value-Reads symbol value h i w e);
          others = λ other d. with_value-others symbol other value h i w e d;
        })
