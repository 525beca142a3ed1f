-- ===== src/Lv2/Wiring.antt =====
-- The index of the control ports through the calls of the host (src/lv2_host_core.cpp).
use ee_eq_cli.Common.{
  ℕ, suc, ◌+◌, Bool, not, String, List, [], ◌∷◌, some, ◌≡◌, refl, ap, subst, ◌=s◌, All, All-keep,
  keep, get_elem?, on_option_cases, if_cases, arith,
}
use ee_eq_cli.Floats.{FloatOps}
use ee_eq_cli.Lv2.{
  Port, PortType, control, audio, atom, LilvPort, Lilv, no_world, invalid_uri, not_found, found,
  Lv2HostCore, Mapped, find_uri, map_urid, map_urids, create_instance, destroy_instance,
  connect_audio_ports, connect_audio_ports_with_probe, option_uris, same_format,
}
use ee_eq_cli.Lv2.Ports.{Infinities, ports_from, index_from, new_host}

-- The port of a symbol.
pub record Points (Fl : Type 0) (ports : List (Port Fl)) (symbol : String) (i : ℕ) : Type 0 where
  pub port : Port Fl
  pub is_there : get_elem? ports i ≡ some port
  pub has_symbol : port.symbol ≡ symbol

module _ {Fl : Type 0} where
  -- Each indexed symbol leads to a port with that symbol.
  abbrev pub Wired : Lv2HostCore Fl → Type 0
  Wired h = All (λ e. Points Fl h.ports e.0 e.1) h.control_port_index

  pub map_urid-Wired : (uri : String) (h : Lv2HostCore Fl) → Wired h → Wired (map_urid uri h).host
  unfolding map_urid
  map_urid-Wired uri h w =
      on_option_cases {X = Mapped Fl} (λ r. Wired r.host) (find_uri uri h.uri_to_urid) (λ _. w)
        (λ _ _. w)

  map_urids-Wired : (uris : List String) (h : Lv2HostCore Fl) → Wired h → Wired (map_urids uris h)
  map_urids-Wired [] h w = w
  map_urids-Wired (uri ∷ uris) h w =
      map_urids-Wired uris (map_urid uri h).host (map_urid-Wired uri h w)

  pub create_instance-Wired :
      (instantiates : Bool) (asks : List String) (rate block : ℕ) (h : Lv2HostCore Fl)
      → Wired h
      → Wired (create_instance instantiates asks rate block h).0
  unfolding create_instance destroy_instance
  create_instance-Wired instantiates asks rate block h w =
      if_cases {A = Lv2HostCore Fl × Bool} (λ r. Wired r.0) (not h.found_plugin) (λ _. w)
        (λ _.
          if_cases {A = Lv2HostCore Fl × Bool} (λ r. Wired r.0)
            (same_format rate block h h.instance_) (λ _. w)
            (λ _.
              let known = map_urids-Wired asks _ (map_urids-Wired option_uris _ w) in
              if_cases {A = Lv2HostCore Fl × Bool} (λ r. Wired r.0) instantiates (λ _. known)
                (λ _. known)))

  pub connect_audio_ports-Wired : (h : Lv2HostCore Fl) → Wired h → Wired (connect_audio_ports h)
  unfolding connect_audio_ports
  connect_audio_ports-Wired h w =
      on_option_cases {X = Lv2HostCore Fl} Wired h.instance_ (λ _. w) (λ _ _. w)

  pub connect_with_probe-Wired :
      (h : Lv2HostCore Fl) → Wired h → Wired (connect_audio_ports_with_probe h)
  unfolding connect_audio_ports_with_probe
  connect_with_probe-Wired h w =
      let k = connect_audio_ports-Wired h w in
      on_option_cases {X = Lv2HostCore Fl} Wired (connect_audio_ports h).instance_ (λ _. k)
        (λ _ _. k)

  pub destroy_instance-Wired : (h : Lv2HostCore Fl) → Wired h → Wired (destroy_instance h)
  unfolding destroy_instance
  destroy_instance-Wired h w = w

module _ (F : FloatOps) (I : Infinities F.Float) where
  -- Each port has its own place as its index.
  abbrev IsAt : List (Port F.Float) → Port F.Float → Type 0
  IsAt ports p = get_elem? ports p.index ≡ some p

  ports_from-IsAt :
      (n : ℕ) (ps : List (LilvPort F.Float)) (ports : List (Port F.Float))
      → ((k : ℕ) → get_elem? ports (n + k) ≡ get_elem? (ports_from F I n ps) k)
      → All (IsAt ports) (ports_from F I n ps)
  ports_from-IsAt n [] ports same = tt
  ports_from-IsAt n (p ∷ ps) ports same = (
    subst (λ m. get_elem? ports m ≡ get_elem? (ports_from F I n (p ∷ ps)) 0)
        (let z : n + 0 ≡ n = omega arith in z) (same 0),
    ports_from-IsAt (n + 1) ps ports (λ k.
        subst (λ m. get_elem? ports m ≡ get_elem? (ports_from F I n (p ∷ ps)) (suc k))
          (let z : n + suc k ≡ n + 1 + k = omega arith in z) (same (suc k))),
  )

  index_from-Points :
      (ports ps : List (Port F.Float)) (index : List (String × ℕ))
      → All (IsAt ports) ps
      → All (λ e. Points F.Float ports e.0 e.1) index
      → All (λ e. Points F.Float ports e.0 e.1) (index_from F I ps index)
  index_from-Points ports [] index at h = h
  index_from-Points ports (p ∷ ps) index (a, at) h =
      let skipped = index_from-Points ports ps index at h in
      let added =
        index_from-Points ports ps ((p.symbol, p.index) ∷ keep (λ e. not (e.0 =s p.symbol)) index)
          at
          (
            record { port = p; is_there = a; has_symbol = refl },
            All-keep (λ e. Points F.Float ports e.0 e.1) (λ e. Points F.Float ports e.0 e.1) _ index
                (λ _ _ w. w) h,
          ) in
      by_type (λ l. All (λ e. Points F.Float ports e.0 e.1) l) p.type skipped added
    where
      by_type :
          (P : List (String × ℕ) → Type 0) {rest more : List (String × ℕ)} (t : PortType)
          → P rest
          → P more
          → P (elim t [ control ↦ more | audio ↦ rest | atom ↦ rest ])
      by_type P control r m = m
      by_type P audio r m = r
      by_type P atom r m = r

  -- The constructor, whatever lilv says.
  pub new_host-Wired : (uri : String) (lilv : Lilv F.Float) → Wired (new_host F I uri lilv)
  unfolding new_host
  new_host-Wired uri no_world = tt
  new_host-Wired uri invalid_uri = tt
  new_host-Wired uri not_found = tt
  new_host-Wired uri (found ports) =
      index_from-Points (ports_from F I 0 ports) (ports_from F I 0 ports) []
        (ports_from-IsAt 0 ports (ports_from F I 0 ports) (zero_first (ports_from F I 0 ports))) tt
    where
      zero_first :
          (ports : List (Port F.Float)) (k : ℕ) → get_elem? ports (0 + k) ≡ get_elem? ports k
      zero_first ports k = ap (get_elem? ports) (let z : 0 + k ≡ k = omega arith in z)
