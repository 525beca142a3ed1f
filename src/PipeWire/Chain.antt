-- ===== src/PipeWire/Chain.antt =====
-- The chain from the virtual sink through the plugins to the selected sink
-- (src/pipewire_router.cpp, connect_chain and destroy_links).
use ee_eq_cli.Common.{ℕ, ◌=s◌, String, List, [], ◌∷◌, if◌then◌else◌, on_option}
use ee_eq_cli.PipeWire.{RouterState, World, Tried, failed, ◌>>=◌}
use ee_eq_cli.PipeWire.Links.{link_nodes}

module _ (W : World) where
  -- A filter that is there is linked, and is the next link's output node.
  abbrev pub through : ℕ → ℕ → RouterState → (ℕ → RouterState → Tried) → Tried
  through previous_node_id node_id s next =
      link_nodes W previous_node_id node_id s >>= λ s. next node_id s

  -- `eq_filter_->node_id()` is read without a test: a router without an equalizer is none that
  -- this function is called on, and the error here is no text of the program.
  unfoldable pub connect_plugins : ℕ → List String → RouterState → Tried
  connect_plugins previous_node_id [] s = link_nodes W previous_node_id s.selected_sink.id s
  connect_plugins previous_node_id (plugin ∷ plugins) s =
      let next = λ (id : ℕ). λ (s : RouterState). connect_plugins id plugins s in
      if plugin =s "equalizer"
      then on_option s.eq_filter (failed s "null equalizer filter")
          (λ id. through previous_node_id id s next)
      else if plugin =s "convolver"
      then on_option s.convolver_filter (next previous_node_id s)
          (λ id. through previous_node_id id s next)
      else if plugin =s "limiter"
      then on_option s.limiter_filter
          (failed s "limiter requested in preset but limiter filter was not initialized")
          (λ id. through previous_node_id id s next)
      else next previous_node_id s

  unfoldable pub connect_chain : RouterState → Tried
  connect_chain s = connect_plugins s.virtual_sink.id s.plugin_order s

unfoldable pub destroy_links : RouterState → RouterState
destroy_links s = record s { created_links = [] }
