-- ===== src/PipeWire/Registry.antt =====
-- The handlers of PipeWire's registry, nodes and metadata (src/pipewire_router.cpp,
-- on_registry_global, on_node_info, on_node_proxy_removed, on_registry_global_remove,
-- on_metadata_property). A handler gets the object's properties as a function; the listeners'
-- hooks are PipeWire's. Log lines and the fields that only they use are left out.
use ee_eq_cli.Common.{
  ℕ, ◌==◌, ◌+◌, leb, ltb, Bool, false, not, ◌&&◌, ◌||◌, String, List, [], ◌∷◌, Option, none, some,
  ◌=s◌, is_empty, on_option, if◌then◌else◌, keep, find, push_back,
}
use ee_eq_cli.Floats.{FloatOps}
use ee_eq_cli.Outcome.{Outcome, ok, err, throw, ◌>>=◌}
use ee_eq_cli.Json.{JsonLib}
use ee_eq_cli.Kernel.{codes}
use ee_eq_cli.PipeWire.{
  RouterState, NodeInfo, PortInfo, NodeData, LoopGuardEntry, PatchAttemptInfo, Action,
  virtual_sink_name, media_class_stream_output_audio, rapid_removal_window, loop_suppress_duration,
  loop_suppress_threshold,
}
use ee_eq_cli.PipeWire.Numbers.{parse_uint32, parse_uint64}
use ee_eq_cli.PipeWire.Patching.{
  stream_targets_selected_sink, node_serial, remove, schedule, queue_patch_stream, forget,
}

-- `spa_dict_lookup`
abbrev pub Dict : Type 0
Dict = String → Option String

abbrev value_or : Option String → String → String
value_or none d = d
value_or (some v) d = v

pub data ObjectType : Type 0 where
  metadata_object : ObjectType
  port_object : ObjectType
  node_object : ObjectType
  other_object : ObjectType

-- `pw_registry_bind`: the metadata's proxy, and a node's `NodeData`, or null.
pub record Binding : Type 0 where
  pub metadata : Bool
  pub node : Option ℕ

abbrev pub port_info : ℕ → Dict → PortInfo
port_info id props = record {
  id = id;
  node_id = parse_uint32 (props "node.id");
  port_id = parse_uint32 (props "port.id");
  serial = parse_uint64 (props "object.serial");
  direction = value_or (props "port.direction") "";
  audio_channel = value_or (props "audio.channel") "";
  name = value_or (props "port.name") "";
}

abbrev pub node_info : ℕ → Dict → NodeInfo
node_info id props = record {
  id = id;
  serial = parse_uint64 (props "object.serial");
  name = value_or (props "node.name") "";
  media_class = value_or (props "media.class") "";
  target_object = "";
}

abbrev pub is_default : Option String → Bool
is_default none = false
is_default (some name) = name =s "default"

abbrev pub invalid_id : ℕ
invalid_id = 4294967295

unfoldable pub on_registry_global :
    Binding → ℕ → ObjectType → Option Dict → RouterState → RouterState
on_registry_global b id type none s = s
on_registry_global b id metadata_object (some props) s =
    if id == invalid_id
    then s
    else if is_default (props "metadata.name")
    then record s { metadata = b.metadata }
    else s
on_registry_global b id port_object (some props) s =
    if id == invalid_id then s else record s { ports = push_back s.ports (port_info id props) }
on_registry_global b id node_object (some props) s =
    if id == invalid_id
    then s
    else on_option b.node s (λ key. record s {
      bound_nodes = push_back s.bound_nodes (record { key = key; info = node_info id props });
    })
on_registry_global b id other_object (some props) s = s

unfoldable pub on_registry_global_remove : ℕ → RouterState → RouterState
on_registry_global_remove id s = record s { ports = keep (λ port. not (port.id == id)) s.ports }

abbrev pub find_data : ℕ → List NodeData → Option NodeData
find_data key nodes = find (λ node. node.key == key) nodes

abbrev pub set_info : ℕ → NodeInfo → List NodeData → List NodeData
set_info key info [] = []
set_info key info (node ∷ nodes) =
    let rest = set_info key info nodes in
    if node.key == key then record { key = key; info = info } ∷ rest else node ∷ rest

abbrev pub find_guard : String → List LoopGuardEntry → Option LoopGuardEntry
find_guard name guards = find (λ g. g.key =s name) guards

abbrev pub suppressed : ℕ → String → RouterState → Bool
suppressed now name s =
    on_option (find_guard name s.loop_guard) false (λ g. ltb now g.suppress_until)

abbrev pub updated : Dict → NodeInfo → NodeInfo
updated props info = record info {
  name = value_or (props "node.name") info.name;
  media_class = value_or (props "media.class") info.media_class;
  target_object = value_or (props "target.object") "";
}

-- The assignments to the node and to the two sinks.
abbrev pub observe : ℕ → NodeInfo → RouterState → RouterState
observe key info s = record s {
  bound_nodes = set_info key info s.bound_nodes;
  selected_sink =
      if info.name =s s.selected_sink.name && s.selected_sink.serial == 0
      then info
      else s.selected_sink;
  virtual_sink = if info.name =s virtual_sink_name then info else s.virtual_sink;
}

abbrev pub consider : ℕ → NodeInfo → RouterState → RouterState
consider now info s =
    if (s.startup_sink_locked && info.media_class =s media_class_stream_output_audio)
      && stream_targets_selected_sink s info
    then if suppressed now info.name s then s else queue_patch_stream now (node_serial info) s
    else s

unfoldable pub on_node_info : ℕ → ℕ → Dict → RouterState → RouterState
on_node_info now key props s =
    if s.shutting_down
    then s
    else on_option (find_data key s.bound_nodes) s
        (λ node. consider now (updated props node.info) (observe key (updated props node.info) s))

-- `loop_guard_[name]`: a name without an entry gets the default one.
abbrev pub guard_of : String → List LoopGuardEntry → LoopGuardEntry
guard_of name guards =
    on_option (find_guard name guards)
      (record { key = name; rapid_removals = 0; last_removed_at = 0; suppress_until = 0 }) (λ g. g)

abbrev pub set_guard : LoopGuardEntry → List LoopGuardEntry → List LoopGuardEntry
set_guard g guards = g ∷ keep (λ h. not (h.key =s g.key)) guards

-- `guard` after a removal at `now` of a stream that was patched at `patched_at`.
unfoldable pub count_removal : ℕ → ℕ → LoopGuardEntry → LoopGuardEntry
count_removal now patched_at guard =
    let removals =
      (if ltb (guard.last_removed_at + rapid_removal_window) now then 0 else guard.rapid_removals)
      + 1 in
    if leb now (patched_at + rapid_removal_window)
    then record guard {
      rapid_removals = removals;
      last_removed_at = now;
      suppress_until =
          if leb loop_suppress_threshold removals
          then now + loop_suppress_duration
          else guard.suppress_until;
    }
    else record guard { rapid_removals = 0; last_removed_at = now }

abbrev pub find_attempt : ℕ → List PatchAttemptInfo → Option PatchAttemptInfo
find_attempt serial attempts = find (λ a. a.serial == serial) attempts

abbrev pub guard_removal : ℕ → NodeInfo → RouterState → RouterState
guard_removal now info s =
    on_option (find_attempt (node_serial info) s.recent_patch_attempts) s (λ attempt. record s {
      loop_guard =
          set_guard (count_removal now attempt.patched_at (guard_of info.name s.loop_guard))
            s.loop_guard;
      recent_patch_attempts = forget (node_serial info) s.recent_patch_attempts;
    })

abbrev pub unpatch : NodeInfo → RouterState → RouterState
unpatch info s = record s {
  patched_streams = remove (node_serial info) s.patched_streams;
  pending_patch_streams = remove (node_serial info) s.pending_patch_streams;
}

abbrev pub unbind : ℕ → RouterState → RouterState
unbind key s = record s { bound_nodes = keep (λ node. not (node.key == key)) s.bound_nodes }

unfoldable pub on_node_proxy_removed : ℕ → ℕ → RouterState → RouterState
on_node_proxy_removed now key s = on_option (find_data key s.bound_nodes) s (λ node.
    schedule now 0 (Action.destroy_proxy key)
      (unbind key (guard_removal now node.info (unpatch node.info s))))

module _ {F : FloatOps} (J : JsonLib F) where
  -- `parse` and `value` of the metadata's value, or none where they throw.
  abbrev pub sink_name : String → Outcome String
  sink_name value = J.parse (codes value) >>= λ parsed. J.value J.text parsed "name" ""

  abbrev pub default_sink : ℕ → String → RouterState → RouterState
  default_sink now name s =
      if is_empty name || name =s virtual_sink_name
      then s
      else if name =s s.selected_sink.name
      then s
      else if not s.startup_sink_locked
      then record s { selected_sink = record (s.selected_sink) { name = name } }
      else if is_empty s.sink_selector
      then schedule now 0 (Action.reconnect name) s
      else s

  abbrev pub try_default_sink : ℕ → Outcome String → RouterState → RouterState
  try_default_sink now (ok name) s = default_sink now name s
  try_default_sink now (err e) s = s
  try_default_sink now (throw e) s = s

  -- `key` and `value` may be null.
  unfoldable pub on_metadata_property :
      ℕ → Option String → Option String → RouterState → RouterState
  on_metadata_property now none value s = s
  on_metadata_property now (some key) none s = s
  on_metadata_property now (some key) (some value) s =
      if not (key =s "default.audio.sink") then s else try_default_sink now (sink_name value) s
