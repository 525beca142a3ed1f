-- ===== src/PipeWire/Patching.antt =====
-- Streams that play to the selected sink are sent to the virtual sink instead
-- (src/pipewire_router.cpp, stream_targets_selected_sink, queue_patch_stream, patch_stream,
-- patch_existing_streams, clear_patched_streams). Log lines are left out.
use ee_eq_cli.Common.{
  ℕ, ◌==◌, Bool, true, false, not, ◌||◌, List, [], ◌∷◌, ◌=s◌, is_empty, on_option, is_some,
  if◌then◌else◌, has, keep,
}
use ee_eq_cli.Router.Tasks.{schedule_task}
use ee_eq_cli.PipeWire.{
  RouterState, NodeInfo, NodeData, PatchAttemptInfo, Action, TargetWrite, set_target, clear_target,
  media_class_stream_output_audio, find_node_by_serial,
}
use ee_eq_cli.PipeWire.Numbers.{whole_number}

unfoldable pub stream_targets_selected_sink : RouterState → NodeInfo → Bool
stream_targets_selected_sink s node =
    if not (node.media_class =s media_class_stream_output_audio)
    then false
    else if is_empty node.target_object
    then true
    else if node.target_object =s s.selected_sink.name || node.target_object =s s.virtual_sink.name
    then true
    else on_option (whole_number node.target_object) false
        (λ serial. serial == s.selected_sink.serial || serial == s.virtual_sink.serial)

-- `info.serial != 0 ? info.serial : info.id`
abbrev pub node_serial : NodeInfo → ℕ
node_serial info = if info.serial == 0 then info.id else info.serial

-- `insert` and `erase` of a set.
abbrev pub insert : ℕ → List ℕ → List ℕ
insert n set = if has n set then set else n ∷ set

abbrev pub remove : ℕ → List ℕ → List ℕ
remove n set = keep (λ x. not (x == n)) set

abbrev pub schedule : ℕ → ℕ → Action → RouterState → RouterState
schedule now delay action s = record s {
  scheduled_tasks = schedule_task now delay action s.scheduled_tasks;
}

unfoldable pub queue_patch_stream : ℕ → ℕ → RouterState → RouterState
queue_patch_stream now serial s =
    if has serial s.patched_streams || has serial s.pending_patch_streams
    then s
    else schedule now 150 (Action.patch serial)
        (record s { pending_patch_streams = insert serial s.pending_patch_streams })

-- `recent_patch_attempts_[attempt.serial] = attempt`
abbrev pub forget : ℕ → List PatchAttemptInfo → List PatchAttemptInfo
forget serial attempts = keep (λ a. not (a.serial == serial)) attempts

abbrev pub remember : PatchAttemptInfo → List PatchAttemptInfo → List PatchAttemptInfo
remember attempt attempts = attempt ∷ forget attempt.serial attempts

-- `set_metadata_target_node` and `clear_metadata_target_node`
abbrev pub write : TargetWrite → RouterState → RouterState
write w s = if s.metadata then record s { writes = w ∷ s.writes } else s

abbrev pub patch_node : ℕ → ℕ → RouterState → NodeInfo → RouterState
patch_node now serial s node =
    write (set_target node.id s.virtual_sink.id s.virtual_sink.serial) (record s {
      patched_streams = insert serial s.patched_streams;
      recent_patch_attempts =
          remember (record { serial = serial; name = node.name; patched_at = now })
            s.recent_patch_attempts;
    })

unfoldable pub patch_stream : ℕ → ℕ → RouterState → RouterState
patch_stream now serial s =
    if has serial s.patched_streams
    then s
    else on_option (find_node_by_serial s serial) s (λ node.
      if (s.virtual_sink.id == 0 || s.virtual_sink.serial == 0) || not s.metadata
      then s
      else patch_node now serial s node)

-- The closure that `queue_patch_stream` schedules.
unfoldable pub run_patch : ℕ → ℕ → RouterState → RouterState
run_patch now serial s =
    let t = record s { pending_patch_streams = remove serial s.pending_patch_streams } in
    if t.shutting_down
    then t
    else if not (is_some (find_node_by_serial t serial))
    then t
    else patch_stream now serial t

abbrev pub serials_to_patch : RouterState → List NodeData → List ℕ
serials_to_patch s [] = []
serials_to_patch s (node ∷ nodes) =
    let rest = serials_to_patch s nodes in
    if stream_targets_selected_sink s node.info then node_serial node.info ∷ rest else rest

abbrev pub patch_streams : ℕ → List ℕ → RouterState → RouterState
patch_streams now [] s = s
patch_streams now (serial ∷ serials) s = patch_streams now serials (patch_stream now serial s)

unfoldable pub patch_existing_streams : ℕ → RouterState → RouterState
patch_existing_streams now s = patch_streams now (serials_to_patch s s.bound_nodes) s

abbrev pub clear_target_of : ℕ → RouterState → RouterState
clear_target_of serial s =
    on_option (find_node_by_serial s serial) s (λ node. write (clear_target node.id) s)

abbrev pub clear_targets : List ℕ → RouterState → RouterState
clear_targets [] s = s
clear_targets (serial ∷ serials) s = clear_targets serials (clear_target_of serial s)

unfoldable pub clear_patched_streams : RouterState → RouterState
clear_patched_streams s =
    clear_targets s.patched_streams
      (record s { patched_streams = []; pending_patch_streams = []; recent_patch_attempts = [] })
