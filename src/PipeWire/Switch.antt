-- ===== src/PipeWire/Switch.antt =====
-- Moving the chain to another sink (src/pipewire_router.cpp, reconnect_to_sink) ends with a chain
-- that is connected, to the new sink or to the old one, or the failure of the way back is known.
use ee_eq_cli.Common.{
  ℕ, String, some, ◌≡◌, refl, sym, ap, subst, ◌∙◌, map, if_cases, on_option_cases,
}
use ee_eq_cli.PipeWire.{RouterState, NodeInfo, World, Tried, done, failed, find_node_by_name}
use ee_eq_cli.PipeWire.Outcomes.{
  Config, config, all_ends, ends, WorldLaws, OnDone, OnEither, bind-OnDone, map-OnDone,
  bind-OnEither, map-OnEither,
}
use ee_eq_cli.PipeWire.Chain.{connect_chain, destroy_links}
use ee_eq_cli.PipeWire.Waiting.{scan_links, ready, wait_for_links_ready, wait_for_node_ports}
use ee_eq_cli.PipeWire.Patching.{patch_existing_streams, clear_patched_streams}
use ee_eq_cli.PipeWire.Reconnect.{
  select, connect_and_wait, patch_if_done, back_to_old_sink, settle, switch, switch_if_done,
  reconnect_to_sink,
}
use ee_eq_cli.PipeWire.Route.{Route, stages, connect_chain-Route}
use ee_eq_cli.PipeWire.Steady.{patch_existing_streams-Steady, clear_patched_streams-Steady}
use ee_eq_cli.PipeWire.Rounds.{wait_for_links_ready-ready}
use ee_eq_cli.PipeWire.Stable.{
  connect_chain-Stable, wait_for_links_ready-Stable, wait_for_node_ports-Stable,
}

-- The chain of `c` is there, and its links have negotiated.
pub record Connected (c : Config) (t : RouterState) : Type 0 where
  pub route : Route (all_ends t) c.source (stages c c.plugin_order) c.target
  pub negotiated : scan_links t.created_links ≡ ready
  pub same : config t ≡ c

-- The configuration with another sink.
abbrev pub aimed : Config → ℕ → Config
aimed c id = record c { target = id }

module _ (W : World) (L : WorldLaws W) where
  -- A wait keeps what is linked and the configuration.
  abbrev pub Kept : RouterState → RouterState → Type 0
  Kept s t = (all_ends t ≡ all_ends s) × (config t ≡ config s)

  waits-Kept : (s t : RouterState) → Kept s t → Kept s (W.during t)
  waits-Kept s t (l, c) = (L.keeps_links t ∙ l, L.keeps_config t ∙ c)

  wait_for_links_ready-Kept : (s : RouterState) → OnEither (Kept s) (wait_for_links_ready W s)
  wait_for_links_ready-Kept s = wait_for_links_ready-Stable W (Kept s) (waits-Kept s) s (refl, refl)

  connect_chain-Fixed : (s : RouterState) → OnEither (λ t. config t ≡ config s) (connect_chain W s)
  connect_chain-Fixed s =
      connect_chain-Stable W (λ t. config t ≡ config s)
        (record { links = λ t link h. h; waits = λ t h. L.keeps_config t ∙ h }) s refl

  both-OnDone :
      (P Q : RouterState → Type 0) (r : Tried)
      → OnDone P r
      → OnEither Q r
      → OnDone (λ t. P t × Q t) r
  both-OnDone P Q (done s) p q = (p, q)
  both-OnDone P Q (failed s e) p q = tt

  abbrev Linked : Config → RouterState → Type 0
  Linked c t = Route (all_ends t) c.source (stages c c.plugin_order) c.target × (config t ≡ c)

  connect_chain-Linked : (s : RouterState) → OnDone (Linked (config s)) (connect_chain W s)
  connect_chain-Linked s =
      both-OnDone
        (λ t.
          Route (all_ends t) s.virtual_sink.id (stages (config s) s.plugin_order)
            s.selected_sink.id)
        (λ t. config t ≡ config s) (connect_chain W s) (connect_chain-Route W L s)
        (connect_chain-Fixed s)

  pub connect_and_wait-Connected :
      (s : RouterState) → OnDone (Connected (config s)) (connect_and_wait W s)
  connect_and_wait-Connected s =
      bind-OnDone (Linked (config s)) (Connected (config s)) (connect_chain W s)
        (wait_for_links_ready W) (connect_chain-Linked s)
        (λ t (route, same).
          map-OnDone (λ u. (scan_links u.created_links ≡ ready) × Kept t u) (Connected (config s))
            (wait_for_links_ready W t)
            (λ u (ready_now, kept). record {
              route =
                  subst
                    (λ es.
                      Route es s.virtual_sink.id (stages (config s) s.plugin_order)
                        s.selected_sink.id)
                    (sym kept.0) route;
              negotiated = ready_now;
              same = kept.1 ∙ same;
            })
            (both-OnDone (λ u. scan_links u.created_links ≡ ready) (Kept t)
              (wait_for_links_ready W t) (wait_for_links_ready-ready W t)
              (wait_for_links_ready-Kept t)))

  connect_and_wait-Fixed :
      (s : RouterState) → OnEither (λ t. config t ≡ config s) (connect_and_wait W s)
  connect_and_wait-Fixed s =
      bind-OnEither (λ t. config t ≡ config s) (connect_chain W s) (wait_for_links_ready W)
        (connect_chain-Fixed s)
        (λ t c.
          map-OnEither (Kept t) (λ u. config u ≡ config s) (wait_for_links_ready W t)
            (λ u k. k.1 ∙ c) (wait_for_links_ready-Kept t))

  patched-Connected :
      (c : Config) (now : ℕ) (t : RouterState)
      → Connected c t
      → Connected c (patch_existing_streams now t)
  patched-Connected c now t h =
      let k = patch_existing_streams-Steady now t in
      record {
        route =
            subst (λ l. Route (map ends l) c.source (stages c c.plugin_order) c.target)
              (sym k.links) h.route;
        negotiated = ap scan_links k.links ∙ h.negotiated;
        same = k.same ∙ h.same;
      }

  -- How a move ends, from the state `s`, in the state `r`.
  pub data Moved (s : RouterState) (new_sink_name : String) : RouterState → Type 0 where
    -- Nothing is torn down.
    kept : (r : RouterState) → Kept s r → Moved s new_sink_name r
    moved :
        (new_sink : NodeInfo) (r : RouterState)
        → find_node_by_name s new_sink_name ≡ some new_sink
        → Connected (aimed (config s) new_sink.id) r
        → Moved s new_sink_name r
    rolled_back : (r : RouterState) → Connected (config s) r → Moved s new_sink_name r
    -- The way back has failed too, with its error.
    degraded :
        (t r : RouterState) (e : String)
        → config t ≡ config s
        → connect_and_wait W t ≡ failed r e
        → Moved s new_sink_name r

  abbrev back_to : NodeInfo → RouterState → RouterState
  back_to old t = select old (destroy_links t)

  back_to_old_sink-end :
      (now : ℕ) (name : String) (s back : RouterState) (x : Tried)
      → config back ≡ config s
      → connect_and_wait W back ≡ x
      → OnDone (Connected (config back)) x
      → Moved s name (patch_if_done W now x)
  back_to_old_sink-end now name s back (done u) same e h =
      rolled_back (patch_existing_streams now u) (
        subst (λ c. Connected c (patch_existing_streams now u)) same
          (patched-Connected (config back) now u h))
  back_to_old_sink-end now name s back (failed u error) same e h = degraded back u error same e

  back_to_old_sink-Moved :
      (now : ℕ) (name : String) (old : NodeInfo) (s t : RouterState)
      → config (back_to old t) ≡ config s
      → Moved s name (back_to_old_sink W now old t)
  unfolding destroy_links
  back_to_old_sink-Moved now name old s t same =
      back_to_old_sink-end now name s (back_to old t) (connect_and_wait W (back_to old t)) same refl
        (connect_and_wait-Connected (back_to old t))

  settle-Moved :
      (now : ℕ) (name : String) (old new : NodeInfo) (s : RouterState) (x : Tried)
      → old.id ≡ s.selected_sink.id
      → find_node_by_name s name ≡ some new
      → OnDone (Connected (aimed (config s) new.id)) x
      → OnEither (λ t. config t ≡ aimed (config s) new.id) x
      → Moved s name (settle W now old x)
  unfolding destroy_links
  settle-Moved now name old new s (done t) o f h c =
      moved new (patch_existing_streams now t) f
        (patched-Connected (aimed (config s) new.id) now t h)
  settle-Moved now name old new s (failed t e) o f h c =
      back_to_old_sink-Moved now name old s t (ap (λ d. aimed d old.id) c ∙ ap (aimed (config s)) o)

  abbrev aim : NodeInfo → RouterState → RouterState
  aim new t = select new (destroy_links (clear_patched_streams t))

  aim-config :
      (new : NodeInfo) (s t : RouterState)
      → config t ≡ config s
      → config (aim new t) ≡ aimed (config s) new.id
  unfolding destroy_links
  aim-config new s t c = ap (λ d. aimed d new.id) ((clear_patched_streams-Steady t).same ∙ c)

  switch-Moved :
      (now : ℕ) (name : String) (new : NodeInfo) (s t : RouterState)
      → config t ≡ config s
      → find_node_by_name s name ≡ some new
      → Moved s name (switch W now new t)
  switch-Moved now name new s t c f =
      let same = aim-config new s t c in
      settle-Moved now name t.selected_sink new s (connect_and_wait W (aim new t))
        (ap (λ (d : Config). d.target) c) f
        (subst (λ d. OnDone (Connected d) (connect_and_wait W (aim new t))) same
          (connect_and_wait-Connected (aim new t)))
        (subst (λ d. OnEither (λ u. config u ≡ d) (connect_and_wait W (aim new t))) same
          (connect_and_wait-Fixed (aim new t)))

  switch_if_done-Moved :
      (now : ℕ) (name : String) (new : NodeInfo) (s : RouterState) (x : Tried)
      → find_node_by_name s name ≡ some new
      → OnEither (Kept s) x
      → Moved s name (switch_if_done W now new x)
  switch_if_done-Moved now name new s (done t) f k = switch-Moved now name new s t k.1 f
  switch_if_done-Moved now name new s (failed t e) f k = kept t k

  -- Whatever PipeWire answers, a reconnection leaves one of these: the links and the chain's
  -- configuration that were there; the whole chain, negotiated, to the new sink; the whole chain,
  -- negotiated, to the old sink; or what a second attempt at the old sink leaves where it fails.
  pub reconnect_to_sink-Moved :
      (now : ℕ) (new_sink_name : String) (s : RouterState)
      → Moved s new_sink_name (reconnect_to_sink W now new_sink_name s)
  unfolding reconnect_to_sink
  reconnect_to_sink-Moved now name s =
      if_cases {A = RouterState} (Moved s name) s.shutting_down (λ _. kept s (refl, refl))
        (λ _.
          on_option_cases {X = RouterState} (Moved s name) (find_node_by_name s name)
            (λ _. kept s (refl, refl))
            (λ new f.
              switch_if_done-Moved now name new s (wait_for_node_ports W new.id 2 s) f
                (wait_for_node_ports-Stable W (Kept s) (waits-Kept s) new.id 2 s (refl, refl))))
