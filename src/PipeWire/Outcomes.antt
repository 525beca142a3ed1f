-- ===== src/PipeWire/Outcomes.antt =====
-- Properties of the state that a function of the router leaves, and what PipeWire's callbacks are
-- taken to keep while the router waits.
use ee_eq_cli.Common.{ℕ, String, List, Option, map, ◌≡◌, refl, ◌∙◌}
use ee_eq_cli.PipeWire.{RouterState, LinkState, World, Tried, done, failed, ◌>>=◌}

-- A link without its state, which is what PipeWire changes.
abbrev pub ends : LinkState → ℕ × ℕ × ℕ × ℕ
ends l = (l.output_node, l.output_port, l.input_node, l.input_port)

abbrev pub all_ends : RouterState → List (ℕ × ℕ × ℕ × ℕ)
all_ends s = map ends s.created_links

-- What a chain is made from.
pub record Config : Type 0 where
  pub plugin_order : List String
  pub eq_filter : Option ℕ
  pub limiter_filter : Option ℕ
  pub convolver_filter : Option ℕ
  pub source : ℕ
  pub target : ℕ

abbrev pub config : RouterState → Config
config s = record {
  plugin_order = s.plugin_order;
  eq_filter = s.eq_filter;
  limiter_filter = s.limiter_filter;
  convolver_filter = s.convolver_filter;
  source = s.virtual_sink.id;
  target = s.selected_sink.id;
}

-- The callbacks change the state of a link, and not what it links; the sinks keep their ids.
pub record WorldLaws (W : World) : Type 0 where
  pub keeps_links : (s : RouterState) → all_ends (W.during s) ≡ all_ends s
  pub keeps_config : (s : RouterState) → config (W.during s) ≡ config s

abbrev pub OnDone : (RouterState → Type 0) → Tried → Type 0
OnDone P (done s) = P s
OnDone P (failed s e) = Unit

abbrev pub OnFailed : (RouterState → Type 0) → Tried → Type 0
OnFailed P (done s) = Unit
OnFailed P (failed s e) = P s

pub bind-OnDone :
    (P Q : RouterState → Type 0) (r : Tried) (k : RouterState → Tried)
    → OnDone P r
    → ((s : RouterState) → P s → OnDone Q (k s))
    → OnDone Q (r >>= k)
bind-OnDone P Q (done s) k h f = f s h
bind-OnDone P Q (failed s e) k h f = tt

pub bind-OnFailed :
    (P Q : RouterState → Type 0) (r : Tried) (k : RouterState → Tried)
    → OnDone P r
    → OnFailed Q r
    → ((s : RouterState) → P s → OnFailed Q (k s))
    → OnFailed Q (r >>= k)
bind-OnFailed P Q (done s) k h g f = f s h
bind-OnFailed P Q (failed s e) k h g f = g

pub map-OnDone :
    (P Q : RouterState → Type 0) (r : Tried)
    → ((s : RouterState) → P s → Q s)
    → OnDone P r
    → OnDone Q r
map-OnDone P Q (done s) f h = f s h
map-OnDone P Q (failed s e) f h = tt

abbrev pub OnEither : (RouterState → Type 0) → Tried → Type 0
OnEither P (done s) = P s
OnEither P (failed s e) = P s

pub bind-OnEither :
    (P : RouterState → Type 0) (r : Tried) (k : RouterState → Tried)
    → OnEither P r
    → ((s : RouterState) → P s → OnEither P (k s))
    → OnEither P (r >>= k)
bind-OnEither P (done s) k h f = f s h
bind-OnEither P (failed s e) k h f = h

pub map-OnEither :
    (P Q : RouterState → Type 0) (r : Tried)
    → ((s : RouterState) → P s → Q s)
    → OnEither P r
    → OnEither Q r
map-OnEither P Q (done s) f h = f s h
map-OnEither P Q (failed s e) f h = f s h

-- The links and the configuration stay as they are.
pub record Steady (s t : RouterState) : Type 0 where
  pub links : t.created_links ≡ s.created_links
  pub same : config t ≡ config s

pub refl-Steady : (s : RouterState) → Steady s s
refl-Steady s = record { links = refl; same = refl }

pub trans-Steady : (s t u : RouterState) → Steady s t → Steady t u → Steady s u
trans-Steady s t u h k = record { links = k.links ∙ h.links; same = k.same ∙ h.same }
