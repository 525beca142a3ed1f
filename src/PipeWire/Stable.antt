-- ===== src/PipeWire/Stable.antt =====
-- Properties of the router's state that connecting a chain keeps, whether it succeeds or not
-- (src/pipewire_router.cpp, link_nodes, connect_chain and the polling loops): those that a new
-- link and PipeWire's callbacks keep.
use ee_eq_cli.Common.{
  ℕ, zero, suc, leb, String, List, [], ◌∷◌, Option, none, some, ◌≡◌, sym, subst, ◌=s◌, ◌<>◌,
  decimal, if_cases, on_option, push_back,
}
use ee_eq_cli.PipeWire.{
  RouterState, LinkState, PortInfo, World, Tried, done, failed, count_node_ports,
}
use ee_eq_cli.PipeWire.Outcomes.{OnEither, bind-OnEither}
use ee_eq_cli.PipeWire.Links.{
  new_link, create_link, create_links, link_nodes, no_pairs, missing_ports, matched_ports,
}
use ee_eq_cli.PipeWire.Chain.{connect_plugins, connect_chain, through}
use ee_eq_cli.PipeWire.Waiting.{
  Scan, broken, waiting, ready, scan_links, Verdict, finish, poll, look_ports, look_scan,
  look_links, wait_for_node_ports, wait_for_links_ready,
}
use ee_eq_cli.PipeWire.Rounds.{after, stopped, timed_out, poll-Polled}

abbrev pub pushed : RouterState → LinkState → RouterState
pushed s link = record s { created_links = push_back s.created_links link }

pub record Stable (W : World) (P : RouterState → Type 0) : Type 0 where
  pub links : (s : RouterState) (link : LinkState) → P s → P (pushed s link)
  pub waits : (s : RouterState) → P s → P (W.during s)

module _ (W : World) (P : RouterState → Type 0)
    (waits : (s : RouterState) → P s → P (W.during s)) where
  after-Stable : (n : ℕ) (s : RouterState) → P s → P (after W n s)
  after-Stable zero s h = h
  after-Stable (suc n) s h = after-Stable n (W.during s) (waits s h)

  poll-Stable :
      (look : RouterState → Verdict) (timeout : String) (rounds : ℕ) (s : RouterState)
      → ((t : RouterState) (r : Tried) → P t → look t ≡ finish r → OnEither P r)
      → P s
      → OnEither P (poll W look timeout rounds s)
  poll-Stable look timeout rounds s h p = elim (poll-Polled W look timeout rounds s) [
    | stopped n l i e ↦ h (after W n s) (poll W look timeout rounds s) (after-Stable n s p) e
    | timed_out i e ↦ subst (OnEither P) (sym e) (after-Stable rounds s p)
  ]

  look_ports-Stable :
      (node_id minimum_ports : ℕ) (t : RouterState) (r : Tried)
      → P t
      → look_ports node_id minimum_ports t ≡ finish r
      → OnEither P r
  look_ports-Stable node_id minimum_ports t r p =
      if_cases {A = Verdict} (λ v. v ≡ finish r → OnEither P r)
        (leb minimum_ports (count_node_ports t node_id)) (λ _ h. let q : r ≡ done t = cc in rw q p)
        (λ _ h. cc)

  pub wait_for_node_ports-Stable :
      (node_id minimum_ports : ℕ) (s : RouterState)
      → P s
      → OnEither P (wait_for_node_ports W node_id minimum_ports s)
  wait_for_node_ports-Stable node_id minimum_ports s p =
      poll-Stable (look_ports node_id minimum_ports)
        ("timed out waiting for ports on node " <> decimal node_id) 5000 s
        (look_ports-Stable node_id minimum_ports) p

  look_scan-Stable :
      (t : RouterState) (r : Tried) (found : Scan)
      → P t
      → look_scan t found ≡ finish r
      → OnEither P r
  look_scan-Stable t r broken p h =
      let q : r ≡ failed t "a chain link entered error state during negotiation" = cc in rw q p
  look_scan-Stable t r waiting p h = cc
  look_scan-Stable t r ready p h = let q : r ≡ done t = cc in rw q p

  pub wait_for_links_ready-Stable : (s : RouterState) → P s → OnEither P (wait_for_links_ready W s)
  wait_for_links_ready-Stable s p =
      poll-Stable look_links "timed out waiting for chain links to negotiate" 5000 s
        (λ t r q h. look_scan-Stable t r (scan_links t.created_links) q h) p

module _ (W : World) (P : RouterState → Type 0) (st : Stable W P) where
  create_links-Stable :
      (a b : ℕ) (pairs : List (PortInfo × PortInfo)) (s : RouterState)
      → P s
      → OnEither P (create_links W a b pairs s)
  unfolding create_links
  create_links-Stable a b [] s h = h
  create_links-Stable a b (pair ∷ pairs) s h =
      bind-OnEither P (create_link W a b pair s) (create_links W a b pairs)
        (if_cases {A = Tried} (OnEither P) (W.creates s (new_link a b pair))
          (λ _. st.waits (pushed s (new_link a b pair)) (st.links s (new_link a b pair) h))
          (λ _. h))
        (create_links-Stable a b pairs)

  link_nodes-Stable : (a b : ℕ) (s : RouterState) → P s → OnEither P (link_nodes W a b s)
  unfolding link_nodes
  link_nodes-Stable a b s h =
      if_cases {A = Tried} (OnEither P) (missing_ports s a b) (λ _. h)
        (λ _.
          if_cases {A = Tried} (OnEither P) (no_pairs (matched_ports s a b)) (λ _. h)
            (λ _. create_links-Stable a b (matched_ports s a b) s h))

  through-Stable :
      (a id : ℕ) (plugins : List String) (s : RouterState)
      → P s
      → ((t : RouterState) → P t → OnEither P (connect_plugins W id plugins t))
      → OnEither P (through W a id s (λ i t. connect_plugins W i plugins t))
  through-Stable a id plugins s h rest =
      bind-OnEither P (link_nodes W a id s) (connect_plugins W id plugins)
        (link_nodes-Stable a id s h) rest

  filter-Stable :
      (a : ℕ) (plugins : List String) (s : RouterState) (filter : Option ℕ) (absent : Tried)
      → P s
      → OnEither P absent
      → ((id : ℕ) (t : RouterState) → P t → OnEither P (connect_plugins W id plugins t))
      → OnEither P
          (on_option filter absent (λ id. through W a id s (λ i t. connect_plugins W i plugins t)))
  filter-Stable a plugins s none absent h k rest = k
  filter-Stable a plugins s (some id) absent h k rest = through-Stable a id plugins s h (rest id)

  connect_plugins-Stable :
      (a : ℕ) (plugins : List String) (s : RouterState)
      → P s
      → OnEither P (connect_plugins W a plugins s)
  unfolding connect_plugins
  connect_plugins-Stable a [] s h = link_nodes-Stable a s.selected_sink.id s h
  connect_plugins-Stable a (plugin ∷ plugins) s h =
      if_cases {A = Tried} (OnEither P) (plugin =s "equalizer")
        (λ _.
          filter-Stable a plugins s s.eq_filter (failed s "null equalizer filter") h h
            (λ id t k. connect_plugins-Stable id plugins t k))
        (λ _.
          if_cases {A = Tried} (OnEither P) (plugin =s "convolver")
            (λ _.
              filter-Stable a plugins s s.convolver_filter (connect_plugins W a plugins s) h
                (connect_plugins-Stable a plugins s h)
                (λ id t k. connect_plugins-Stable id plugins t k))
            (λ _.
              if_cases {A = Tried} (OnEither P) (plugin =s "limiter")
                (λ _.
                  filter-Stable a plugins s s.limiter_filter
                    (failed s "limiter requested in preset but limiter filter was not initialized")
                    h h (λ id t k. connect_plugins-Stable id plugins t k))
                (λ _. connect_plugins-Stable a plugins s h)))

  pub connect_chain-Stable : (s : RouterState) → P s → OnEither P (connect_chain W s)
  unfolding connect_chain
  connect_chain-Stable s h = connect_plugins-Stable s.virtual_sink.id s.plugin_order s h
