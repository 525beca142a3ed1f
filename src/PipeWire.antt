-- ===== src/PipeWire.antt =====
-- The state of the router (src/pipewire_router.hpp) that the session graph is read from and
-- written to, and the searches of it (src/pipewire_router.cpp). PipeWire itself is not modelled:
-- its callbacks are the router's handlers with any arguments, and what it does while the router
-- waits is a parameter. `state_mutex_` makes each handler one step. A member of `bound_nodes_`
-- always has its `info`; a `NodeData` whose flag `removed` is set is one that is no longer in the
-- list. Times are in nanoseconds.
pub mod Links
pub mod Chain
pub mod Numbers
pub mod Patching
pub mod Registry
pub mod Waiting
pub mod Reconnect
pub mod Outcomes
pub mod Steady
pub mod Rounds
pub mod Stable
pub mod Switch
pub mod Steps
pub mod Tracking
pub mod Callbacks
pub mod Invariant
pub mod Guard
mod Tests
pub mod Route
use ee_eq_cli.Common.{
  ℕ, ◌==◌, ◌*◌, Bool, String, List, [], ◌∷◌, Option, ◌=s◌, find, count, keep, ◌&&◌, map,
}
use ee_eq_cli.Router.Tasks.{Task}

pub record NodeInfo : Type 0 where
  pub id : ℕ
  pub serial : ℕ
  pub name : String
  pub media_class : String
  pub target_object : String

pub record PortInfo : Type 0 where
  pub id : ℕ
  pub node_id : ℕ
  pub port_id : ℕ
  pub serial : ℕ
  pub direction : String
  pub audio_channel : String
  pub name : String

-- `pw_link_state`, in PipeWire's order.
pub data LinkStatus : Type 0 where
  error : LinkStatus
  unlinked : LinkStatus
  init : LinkStatus
  negotiating : LinkStatus
  allocating : LinkStatus
  paused : LinkStatus
  active : LinkStatus

-- A link of `created_links_`: the nodes and ports that it was made with, and its state.
pub record LinkState : Type 0 where
  pub output_node : ℕ
  pub output_port : ℕ
  pub input_node : ℕ
  pub input_port : ℕ
  pub state : LinkStatus

-- `key` stands for the object's address.
pub record NodeData : Type 0 where
  pub key : ℕ
  pub info : NodeInfo

pub record PatchAttemptInfo : Type 0 where
  pub serial : ℕ
  pub name : String
  pub patched_at : ℕ

pub record LoopGuardEntry : Type 0 where
  pub key : String
  pub rapid_removals : ℕ
  pub last_removed_at : ℕ
  pub suppress_until : ℕ

-- The closures that the router schedules here.
pub data Action : Type 0 where
  patch : ℕ → Action
  reconnect : String → Action
  destroy_proxy : ℕ → Action

-- A write of a stream's target to the metadata.
pub data TargetWrite : Type 0 where
  set_target : (origin_id target_id target_serial : ℕ) → TargetWrite
  clear_target : (origin_id : ℕ) → TargetWrite

-- The filters are given by their node ids.
pub record RouterState : Type 0 where
  pub plugin_order : List String
  pub sink_selector : String
  pub shutting_down : Bool
  pub startup_sink_locked : Bool
  pub eq_filter : Option ℕ
  pub limiter_filter : Option ℕ
  pub convolver_filter : Option ℕ
  pub metadata : Bool
  pub bound_nodes : List NodeData
  pub ports : List PortInfo
  pub created_links : List LinkState
  pub patched_streams : List ℕ
  pub pending_patch_streams : List ℕ
  pub recent_patch_attempts : List PatchAttemptInfo
  pub loop_guard : List LoopGuardEntry
  pub selected_sink : NodeInfo
  pub virtual_sink : NodeInfo
  pub scheduled_tasks : List (Task Action)
  -- What the router has written to the metadata, the last write first.
  pub writes : List TargetWrite

-- PipeWire as the router calls it: whether it makes the link, and what its callbacks do to the
-- router's state while the router waits for it.
pub record World : Type 0 where
  pub creates : RouterState → LinkState → Bool
  pub during : RouterState → RouterState

-- A function that fills `error`: the state it leaves, and the error.
pub data Tried : Type 0 where
  done : RouterState → Tried
  failed : RouterState → String → Tried

-- `if (!f(error)) { return false; }`, and what follows.
infixl 5 ◌>>=◌
abbrev pub ◌>>=◌ : Tried → (RouterState → Tried) → Tried
done s >>= k = k s
failed s e >>= k = failed s e

abbrev pub virtual_sink_name : String
virtual_sink_name = "eq_cli_sink"

abbrev pub media_class_audio_sink : String
media_class_audio_sink = "Audio/Sink"

abbrev pub media_class_stream_output_audio : String
media_class_stream_output_audio = "Stream/Output/Audio"

abbrev pub startup_poll_iterations : ℕ
startup_poll_iterations = 5000

abbrev pub rapid_removal_window : ℕ
rapid_removal_window = 1500 * 1000000

abbrev pub loop_suppress_duration : ℕ
loop_suppress_duration = 5 * 1000000000

abbrev pub loop_suppress_threshold : ℕ
loop_suppress_threshold = 3

-- The `NodeInfo` and `PortInfo` that `{}` gives.
abbrev pub no_node : NodeInfo
no_node = record { id = 0; serial = 0; name = ""; media_class = ""; target_object = "" }

abbrev pub no_port : PortInfo
no_port = record {
  id = 0;
  node_id = 0;
  port_id = 0;
  serial = 0;
  direction = "";
  audio_channel = "";
  name = "";
}

abbrev pub snapshot_nodes : RouterState → List NodeInfo
snapshot_nodes s = map (λ node. node.info) s.bound_nodes

abbrev pub find_node_by_name : RouterState → String → Option NodeInfo
find_node_by_name s name = find (λ info. info.name =s name) (snapshot_nodes s)

abbrev pub find_node_by_id : RouterState → ℕ → Option NodeInfo
find_node_by_id s id = find (λ info. info.id == id) (snapshot_nodes s)

abbrev pub find_node_by_serial : RouterState → ℕ → Option NodeInfo
find_node_by_serial s serial = find (λ info. info.serial == serial) (snapshot_nodes s)

abbrev pub count_node_ports : RouterState → ℕ → ℕ
count_node_ports s node_id = count (λ port. port.node_id == node_id) s.ports

abbrev pub get_node_ports : RouterState → ℕ → String → List PortInfo
get_node_ports s node_id direction =
    keep (λ port. port.node_id == node_id && port.direction =s direction) s.ports
