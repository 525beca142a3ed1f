-- ===== src/PipeWire/Route.antt =====
-- A chain that `connect_chain` has made (src/pipewire_router.cpp) is a route from the virtual sink
-- through the plugins that are there to the selected sink.
use ee_eq_cli.Common.{
  ℕ, ◌==◌, Bool, true, false, ◌&&◌, String, List, [], ◌∷◌, ◌++◌, map, Option, none, some, ◌≡◌, refl,
  sym, ap, ◌∙◌, subst, ◌=s◌, any, any-append, any-append_left, push_back, arith, if◌then◌else◌,
  if_cases, Bool-cases, inl, inr, on_option,
}
use ee_eq_cli.PipeWire.{RouterState, LinkState, PortInfo, World, Tried, failed}
use ee_eq_cli.PipeWire.Outcomes.{
  ends, all_ends, Config, config, WorldLaws, OnDone, bind-OnDone, map-OnDone,
}
use ee_eq_cli.PipeWire.Links.{
  new_link, create_link, create_links, link_nodes, no_pairs, missing_ports, matched_ports,
}
use ee_eq_cli.PipeWire.Chain.{connect_plugins, connect_chain, through}

abbrev Ends : Type 0
Ends = ℕ × ℕ × ℕ × ℕ

abbrev from_to : ℕ → ℕ → Ends → Bool
from_to a b e = e.0 == a && e.2 == b

-- There is a link from the node `a` to the node `b`.
abbrev pub linked : List Ends → ℕ → ℕ → Bool
linked es a b = any (from_to a b) es

abbrev pub Route : List Ends → ℕ → List ℕ → ℕ → Type 0
Route es a [] b = linked es a b ≡ true
Route es a (c ∷ cs) b = (linked es a c ≡ true) × Route es c cs b

-- The filter that stands for a plugin, if it is there.
abbrev pub filter_of : Config → String → Option ℕ
filter_of c plugin =
    if plugin =s "equalizer"
    then c.eq_filter
    else if plugin =s "convolver"
    then c.convolver_filter
    else if plugin =s "limiter"
    then c.limiter_filter
    else none

-- The filters of the plugins, in the preset's order.
abbrev pub stages : Config → List String → List ℕ
stages c [] = []
stages c (plugin ∷ plugins) =
    on_option (filter_of c plugin) (stages c plugins) (λ id. id ∷ stages c plugins)

-- The links that are there before stay, and the configuration too.
pub record Extends (s t : RouterState) : Type 0 where
  pub more : List Ends
  pub grown : all_ends t ≡ all_ends s ++ more
  pub same : config t ≡ config s

map-append {ℓ κ} :
    {A : Type ℓ} {X : Type κ} (f : A → X) (xs ys : List A) → map f (xs ++ ys) ≡ map f xs ++ map f ys
map-append f [] ys = refl
map-append f (x ∷ xs) ys = ap (λ l. f x ∷ l) (map-append f xs ys)

append_assoc {ℓ} : {A : Type ℓ} (xs ys zs : List A) → (xs ++ ys) ++ zs ≡ xs ++ (ys ++ zs)
append_assoc [] ys zs = refl
append_assoc (x ∷ xs) ys zs = ap (λ l. x ∷ l) (append_assoc xs ys zs)

append_nil {ℓ} : {A : Type ℓ} (xs : List A) → xs ++ [] ≡ xs
append_nil [] = refl
append_nil (x ∷ xs) = ap (λ l. x ∷ l) (append_nil xs)

pub refl-Extends : (s : RouterState) → Extends s s
refl-Extends s = record { more = []; grown = sym (append_nil (all_ends s)); same = refl }

pub trans-Extends : (s t u : RouterState) → Extends s t → Extends t u → Extends s u
trans-Extends s t u g h = record {
  more = g.more ++ h.more;
  grown = h.grown ∙ ap (λ l. l ++ h.more) g.grown ∙ append_assoc (all_ends s) g.more h.more;
  same = h.same ∙ g.same;
}

linked-Extends :
    (s t : RouterState) (a b : ℕ)
    → Extends s t
    → linked (all_ends s) a b ≡ true
    → linked (all_ends t) a b ≡ true
linked-Extends s t a b h l =
    ap (λ es. linked es a b) h.grown ∙ any-append_left (from_to a b) (all_ends s) h.more l

linked-push :
    (es : List Ends) (a b : ℕ) (pair : PortInfo × PortInfo)
    → linked (push_back es (ends (new_link a b pair))) a b ≡ true
linked-push es a b pair = any-append (from_to a b) es (ends (new_link a b pair) ∷ []) ∙ ground arith

abbrev pushed : RouterState → LinkState → RouterState
pushed s link = record s { created_links = push_back s.created_links link }

module _ (W : World) (L : WorldLaws W) where
  abbrev Made : ℕ → ℕ → RouterState → RouterState → Type 0
  Made a b s t = Extends s t × (linked (all_ends t) a b ≡ true)

  grown_by :
      (s : RouterState) (link : LinkState)
      → all_ends (W.during (pushed s link)) ≡ all_ends s ++ (ends link ∷ [])
  grown_by s link = L.keeps_links (pushed s link) ∙ map-append ends s.created_links (link ∷ [])

  create_link-Made :
      (a b : ℕ) (pair : PortInfo × PortInfo) (s : RouterState)
      → OnDone (Made a b s) (create_link W a b pair s)
  create_link-Made a b pair s =
      let link : LinkState = new_link a b pair in
      if_cases {A = Tried} (OnDone (Made a b s)) (W.creates s link)
        (λ _. (
          record {
            more = ends link ∷ [];
            grown = grown_by s link;
            same = L.keeps_config (pushed s link);
          },
          ap (λ es. linked es a b) (grown_by s link) ∙ linked-push (all_ends s) a b pair,
        ))
        (λ _. tt)

  create_links-Extends :
      (a b : ℕ) (pairs : List (PortInfo × PortInfo)) (s : RouterState)
      → OnDone (Extends s) (create_links W a b pairs s)
  unfolding create_links
  create_links-Extends a b [] s = refl-Extends s
  create_links-Extends a b (pair ∷ pairs) s =
      bind-OnDone (Made a b s) (Extends s) (create_link W a b pair s) (create_links W a b pairs)
        (create_link-Made a b pair s)
        (λ t (h, _).
          map-OnDone (Extends t) (Extends s) (create_links W a b pairs t)
            (λ u k. trans-Extends s t u h k) (create_links-Extends a b pairs t))

  create_links-Made :
      (a b : ℕ) (pairs : List (PortInfo × PortInfo)) (s : RouterState)
      → no_pairs pairs ≡ false
      → OnDone (Made a b s) (create_links W a b pairs s)
  unfolding create_links
  create_links-Made a b [] s = λ h. cc
  create_links-Made a b (pair ∷ pairs) s = λ h.
      bind-OnDone (Made a b s) (Made a b s) (create_link W a b pair s) (create_links W a b pairs)
        (create_link-Made a b pair s)
        (λ t (h, l).
          map-OnDone (Extends t) (Made a b s) (create_links W a b pairs t)
            (λ u k. (trans-Extends s t u h k, linked-Extends t u a b k l))
            (create_links-Extends a b pairs t))

  pub link_nodes-Made : (a b : ℕ) (s : RouterState) → OnDone (Made a b s) (link_nodes W a b s)
  unfolding link_nodes
  link_nodes-Made a b s =
      if_cases {A = Tried} (OnDone (Made a b s)) (missing_ports s a b) (λ _. tt)
        (λ _.
          if_cases {A = Tried} (OnDone (Made a b s)) (no_pairs (matched_ports s a b)) (λ _. tt)
            (λ e. create_links-Made a b (matched_ports s a b) s e))

  -- A route from `a` through `ids` to the sink, made from the state `s`.
  abbrev Via : ℕ → List ℕ → RouterState → RouterState → Type 0
  Via a ids s t = Extends s t × Route (all_ends t) a ids (config s).target

  -- What follows a link through the filter `id`.
  through-Via :
      (a id : ℕ) (plugins : List String) (s : RouterState)
      → ((t : RouterState)
          → OnDone (Via id (stages (config t) plugins) t) (connect_plugins W id plugins t))
      → OnDone
          (Via a (id ∷ stages (config s) plugins) s)
          (through W a id s (λ i t. connect_plugins W i plugins t))
  through-Via a id plugins s rest =
      bind-OnDone (Made a id s) (Via a (id ∷ stages (config s) plugins) s) (link_nodes W a id s)
        (connect_plugins W id plugins) (link_nodes-Made a id s)
        (λ t (h, l).
          map-OnDone (Via id (stages (config t) plugins) t)
            (Via a (id ∷ stages (config s) plugins) s) (connect_plugins W id plugins t)
            (λ u (k, r). (
              trans-Extends s t u h k,
              (
                linked-Extends t u a id k l,
                subst (λ (c : Config). Route (all_ends u) id (stages c plugins) c.target) h.same r,
              ),
            ))
            (rest t))

  -- A plugin's filter is there or not.
  filter-Via :
      (a : ℕ) (plugins : List String) (s : RouterState) (filter : Option ℕ) (absent : Tried)
      → OnDone (Via a (stages (config s) plugins) s) absent
      → ((id : ℕ) (t : RouterState)
          → OnDone (Via id (stages (config t) plugins) t) (connect_plugins W id plugins t))
      → OnDone
          (Via a
            (on_option filter (stages (config s) plugins) (λ id. id ∷ stages (config s) plugins))
            s)
          (on_option filter absent (λ id. through W a id s (λ i t. connect_plugins W i plugins t)))
  filter-Via a plugins s none absent h rest = h
  filter-Via a plugins s (some id) absent h rest = through-Via a id plugins s (rest id)

  connect_plugins-Via :
      (a : ℕ) (plugins : List String) (s : RouterState)
      → OnDone (Via a (stages (config s) plugins) s) (connect_plugins W a plugins s)
  unfolding connect_plugins
  connect_plugins-Via a [] s = link_nodes-Made a s.selected_sink.id s
  connect_plugins-Via a (plugin ∷ plugins) s = elim (Bool-cases (plugin =s "equalizer")) [
    | inl e ↦ rw e (
        filter-Via a plugins s s.eq_filter (failed s "null equalizer filter") tt
          (λ id t. connect_plugins-Via id plugins t))
    | inr e ↦ elim (Bool-cases (plugin =s "convolver")) [
      | inl c ↦
          rw (e, c)
            (filter-Via a plugins s s.convolver_filter (connect_plugins W a plugins s)
              (connect_plugins-Via a plugins s) (λ id t. connect_plugins-Via id plugins t))
      | inr c ↦ elim (Bool-cases (plugin =s "limiter")) [
        | inl l ↦
            rw (e, c, l)
              (filter-Via a plugins s s.limiter_filter
                (failed s "limiter requested in preset but limiter filter was not initialized") tt
                (λ id t. connect_plugins-Via id plugins t))
        | inr l ↦ rw (e, c, l) (connect_plugins-Via a plugins s)
      ]
    ]
  ]

  -- A chain that is connected runs from the virtual sink through the filters of the plugins that
  -- are there, in the preset's order, to the selected sink: there is a link from each to the next.
  pub connect_chain-Route :
      (s : RouterState)
      → OnDone
          (λ t.
            Route
              (all_ends t)
              s.virtual_sink.id
              (stages (config s) s.plugin_order)
              s.selected_sink.id)
          (connect_chain W s)
  unfolding connect_chain
  connect_chain-Route s =
      map-OnDone (Via s.virtual_sink.id (stages (config s) s.plugin_order) s) _ (connect_chain W s)
        (λ t (h, r). r) (connect_plugins-Via s.virtual_sink.id s.plugin_order s)
