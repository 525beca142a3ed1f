-- ===== src/PipeWire/Steps.antt =====
-- The router's steps once it runs (src/pipewire_router.cpp): a callback of PipeWire, or a task
-- that `run_due_tasks` takes from the queue.
use ee_eq_cli.Common.{ℕ, ◌≤◌, String, List, ◌∷◌, Option, ◌≡◌}
use ee_eq_cli.Floats.{FloatOps}
use ee_eq_cli.Json.{JsonLib}
use ee_eq_cli.Router.Tasks.{Task}
use ee_eq_cli.PipeWire.{RouterState, LinkStatus, World, Action, patch, reconnect, destroy_proxy}
use ee_eq_cli.PipeWire.Links.{on_link_info}
use ee_eq_cli.PipeWire.Patching.{run_patch}
use ee_eq_cli.PipeWire.Registry.{
  Dict, Binding, ObjectType, on_registry_global, on_registry_global_remove, on_node_info,
  on_node_proxy_removed, on_metadata_property,
}
use ee_eq_cli.PipeWire.Reconnect.{reconnect_to_sink}

module _ {F : FloatOps} (J : JsonLib F) where
  pub data Callback (s : RouterState) : RouterState → Type 0 where
    global :
        (b : Binding) (id : ℕ) (type : ObjectType) (props : Option Dict)
        → Callback s (on_registry_global b id type props s)
    global_remove : (id : ℕ) → Callback s (on_registry_global_remove id s)
    node_info : (now key : ℕ) (props : Dict) → Callback s (on_node_info now key props s)
    node_removed : (now key : ℕ) → Callback s (on_node_proxy_removed now key s)
    metadata_property :
        (now : ℕ) (key value : Option String) → Callback s (on_metadata_property J now key value s)
    link_info : (i : ℕ) (status : Option LinkStatus) → Callback s (on_link_info i status s)

  -- Any number of callbacks, one after another.
  pub data Callbacks (s : RouterState) : RouterState → Type 0 where
    none_more : Callbacks s s
    then : (t u : RouterState) → Callbacks s t → Callback t u → Callbacks s u

  module _ (W : World) where
    abbrev pub run_action : ℕ → Action → RouterState → RouterState
    run_action now (patch serial) s = run_patch now serial s
    run_action now (reconnect name) s = reconnect_to_sink W now name s
    run_action now (destroy_proxy key) s = s

    pub data Step (s : RouterState) : RouterState → Type 0 where
      callback : (t : RouterState) → Callback s t → Step s t
      task :
          (now : ℕ) (first : Task Action) (rest : List (Task Action))
          → s.scheduled_tasks ≡ first ∷ rest
          → first.due ≤ now
          → Step s (run_action now first.action (record s { scheduled_tasks = rest }))

    pub data Steps (s : RouterState) : RouterState → Type 0 where
      start : Steps s s
      next : (t u : RouterState) → Steps s t → Step t u → Steps s u
