-- ===== src/Lv2/Reaching.antt =====
-- The hosts that calls lead to (src/lv2_host_core.cpp), and that their index leads to the ports.
use ee_eq_cli.Common.{
  ℕ, zero, suc, ◌==◌, Bool, false, not, String, List, [], ◌∷◌, some, ◌≡◌, refl, sym, ap, subst, ◌∙◌,
  map-All, get_elem?, on_option_cases, if_cases, Bool-cases, inl, inr, arith,
}
use ee_eq_cli.Floats.{FloatOps}
use ee_eq_cli.Lv2.{
  Port, Lilv, Lv2HostCore, map_urid, create_instance, destroy_instance, connect_audio_ports,
  connect_audio_ports_with_probe,
}
use ee_eq_cli.Lv2.Ports.{
  Infinities, new_host, control_port, set_value, at_index, set_control_port_value,
}
use ee_eq_cli.Lv2.Wiring.{
  Points, Wired, map_urid-Wired, create_instance-Wired, connect_audio_ports-Wired,
  connect_with_probe-Wired, destroy_instance-Wired, new_host-Wired,
}

module _ (F : FloatOps) (I : Infinities F.Float) where
  -- The hosts that the constructor and any calls lead to.
  pub data Reached : Lv2HostCore F.Float → Type 0 where
    made : (uri : String) (lilv : Lilv F.Float) → Reached (new_host F I uri lilv)
    maps : {h : Lv2HostCore F.Float} (uri : String) → Reached h → Reached (map_urid uri h).host
    creates :
        {h : Lv2HostCore F.Float} (instantiates : Bool) (asks : List String) (rate block : ℕ)
        → Reached h
        → Reached (create_instance instantiates asks rate block h).0
    destroys : {h : Lv2HostCore F.Float} → Reached h → Reached (destroy_instance h)
    connects : {h : Lv2HostCore F.Float} → Reached h → Reached (connect_audio_ports h)
    connects_probe :
        {h : Lv2HostCore F.Float} → Reached h → Reached (connect_audio_ports_with_probe h)
    sets :
        {h : Lv2HostCore F.Float} (symbol : String) (value : F.Float)
        → Reached h
        → Reached (set_control_port_value F I symbol value h)

  pub get_elem?-at_index :
      (i : ℕ) (f : Port F.Float → Port F.Float) (ps : List (Port F.Float)) (p : Port F.Float)
      → get_elem? ps i ≡ some p
      → get_elem? (at_index F I i f ps) i ≡ some (f p)
  get_elem?-at_index i f [] p e = cc
  get_elem?-at_index zero f (q ∷ ps) p e = let r : q ≡ p = cc in ap (λ x. some (f x)) r
  get_elem?-at_index (suc i) f (q ∷ ps) p e = get_elem?-at_index i f ps p e

  pub get_elem?-at_index_ne :
      (i j : ℕ) (f : Port F.Float → Port F.Float) (ps : List (Port F.Float))
      → (i == j) ≡ false
      → get_elem? (at_index F I i f ps) j ≡ get_elem? ps j
  get_elem?-at_index_ne i j f [] e = refl
  get_elem?-at_index_ne zero zero f (q ∷ ps) e = cc
  get_elem?-at_index_ne zero (suc j) f (q ∷ ps) e = refl
  get_elem?-at_index_ne (suc i) zero f (q ∷ ps) e = refl
  get_elem?-at_index_ne (suc i) (suc j) f (q ∷ ps) e =
      get_elem?-at_index_ne i j f ps (ground (arith, e))

  set_value-symbol :
      (value : F.Float) (p : Port F.Float) → (set_value F I value p).symbol ≡ p.symbol
  set_value-symbol value p =
      if_cases {A = Port F.Float} (λ q. q.symbol ≡ p.symbol) (not p.is_input) (λ _. refl)
        (λ _. refl)

  at_index-Points :
      (k i : ℕ) (value : F.Float) (symbol : String) (ps : List (Port F.Float))
      → Points F.Float ps symbol i
      → Points F.Float (at_index F I k (set_value F I value) ps) symbol i
  at_index-Points k i value symbol ps w = elim (Bool-cases (k == i)) [
    | inl e ↦
        let same : k ≡ i = ground (arith, e) in
        record {
          port = set_value F I value w.port;
          is_there =
              subst
                (λ n.
                  get_elem? (at_index F I n (set_value F I value) ps) i
                  ≡ some (set_value F I value w.port))
                (sym same) (get_elem?-at_index i (set_value F I value) ps w.port w.is_there);
          has_symbol = set_value-symbol value w.port ∙ w.has_symbol;
        }
    | inr e ↦ record {
      port = w.port;
      is_there = get_elem?-at_index_ne k i (set_value F I value) ps e ∙ w.is_there;
      has_symbol = w.has_symbol;
    }
  ]

  set_control_port_value-Wired :
      (symbol : String) (value : F.Float) (h : Lv2HostCore F.Float)
      → Wired h
      → Wired (set_control_port_value F I symbol value h)
  unfolding set_control_port_value
  set_control_port_value-Wired symbol value h w =
      on_option_cases {X = Lv2HostCore F.Float} Wired (control_port F I h symbol) (λ _. w)
        (λ i _.
          map-All (λ e. Points F.Float h.ports e.0 e.1)
            (λ e. Points F.Float (at_index F I i (set_value F I value) h.ports) e.0 e.1)
            h.control_port_index (λ e p. at_index-Points i e.1 value e.0 h.ports p) w)

  pub Reached-Wired : (h : Lv2HostCore F.Float) → Reached h → Wired h
  Reached-Wired _ (made uri lilv) = new_host-Wired F I uri lilv
  Reached-Wired _ (maps {h} uri r) = map_urid-Wired uri h (Reached-Wired h r)
  Reached-Wired _ (creates {h} instantiates asks rate block r) =
      create_instance-Wired instantiates asks rate block h (Reached-Wired h r)
  Reached-Wired _ (destroys {h} r) = destroy_instance-Wired h (Reached-Wired h r)
  Reached-Wired _ (connects {h} r) = connect_audio_ports-Wired h (Reached-Wired h r)
  Reached-Wired _ (connects_probe {h} r) = connect_with_probe-Wired h (Reached-Wired h r)
  Reached-Wired _ (sets {h} symbol value r) =
      set_control_port_value-Wired symbol value h (Reached-Wired h r)
