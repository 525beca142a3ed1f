-- ===== src/PipeWire/Callbacks.antt =====
-- What the router tracks of the streams stays right in PipeWire's callbacks
-- (src/pipewire_router.cpp, the handlers).
use ee_eq_cli.Common.{
  All-keep, ℕ, ◌==◌, ◌&&◌, ◌||◌, not, true, String, Option, none, some, ◌≡◌, ◌∙◌, ◌=s◌, is_empty,
  if_cases, on_option_cases, arith,
}
use ee_eq_cli.Floats.{FloatOps}
use ee_eq_cli.Outcome.{Outcome, ok, err, throw}
use ee_eq_cli.Json.{JsonLib}
use ee_eq_cli.PipeWire.{
  RouterState, NodeInfo, LinkStatus, reconnect, destroy_proxy, virtual_sink_name,
  media_class_stream_output_audio,
}
use ee_eq_cli.PipeWire.Links.{on_link_info}
use ee_eq_cli.PipeWire.Patching.{node_serial, forget, stream_targets_selected_sink}
use ee_eq_cli.PipeWire.Registry.{
  Binding, ObjectType, metadata_object, port_object, node_object, other_object, Dict,
  on_registry_global, on_registry_global_remove, on_node_info, on_node_proxy_removed,
  on_metadata_property, default_sink, try_default_sink, sink_name, find_data, find_attempt,
  guard_removal, unpatch, unbind, observe, consider, suppressed, updated, invalid_id, is_default,
}
use ee_eq_cli.PipeWire.Steps.{
  Callback, global, global_remove, node_info, node_removed, metadata_property, link_info, Callbacks,
  none_more, then,
}
use ee_eq_cli.PipeWire.Tracking.{
  Tracked, queued, attempted, attempted-forget, schedule-Tracked, queue_patch_stream-Tracked,
}

consider-Tracked :
    (now : ℕ) (info : NodeInfo) (s : RouterState) → Tracked s → Tracked (consider now info s)
consider-Tracked now info s h =
    if_cases {A = RouterState} Tracked
      ((s.startup_sink_locked && info.media_class =s media_class_stream_output_audio)
        && stream_targets_selected_sink s info)
      (λ _.
        if_cases {A = RouterState} Tracked (suppressed now info.name s) (λ _. h)
          (λ _. queue_patch_stream-Tracked now (node_serial info) s h))
      (λ _. h)

on_node_info-Tracked :
    (now key : ℕ) (props : Dict) (s : RouterState)
    → Tracked s
    → Tracked (on_node_info now key props s)
unfolding on_node_info
on_node_info-Tracked now key props s h =
    if_cases {A = RouterState} Tracked s.shutting_down (λ _. h)
      (λ _.
        on_option_cases {X = RouterState} Tracked (find_data key s.bound_nodes) (λ _. h)
          (λ node _.
            consider-Tracked now (updated props node.info) (observe key (updated props node.info) s)
              h))

unpatch-Tracked : (info : NodeInfo) (s : RouterState) → Tracked s → Tracked (unpatch info s)
unpatch-Tracked info s (h, k) = (
  All-keep (λ n. attempted n s.recent_patch_attempts ≡ true)
      (λ n. attempted n s.recent_patch_attempts ≡ true) (λ n. not (n == node_serial info))
      s.patched_streams (λ n _ p. p) h,
  All-keep (λ n. queued n s.scheduled_tasks ≡ true) (λ n. queued n s.scheduled_tasks ≡ true)
      (λ n. not (n == node_serial info)) s.pending_patch_streams (λ n _ p. p) k,
)

guard_removal-Tracked :
    (now : ℕ) (info : NodeInfo) (s : RouterState)
    → Tracked s
    → Tracked (guard_removal now info (unpatch info s))
guard_removal-Tracked now info s (h, k) =
    on_option_cases {X = RouterState} Tracked
      (find_attempt (node_serial info) s.recent_patch_attempts) (λ _. unpatch-Tracked info s (h, k))
      (λ attempt _. (
        All-keep (λ n. attempted n s.recent_patch_attempts ≡ true)
            (λ n. attempted n (forget (node_serial info) s.recent_patch_attempts) ≡ true)
            (λ n. not (n == node_serial info)) s.patched_streams
            (λ n e p.
              attempted-forget (node_serial info) n s.recent_patch_attempts (ground (arith, e)) ∙ p)
            h,
        (unpatch-Tracked info s (h, k)).1,
      ))

on_node_proxy_removed-Tracked :
    (now key : ℕ) (s : RouterState) → Tracked s → Tracked (on_node_proxy_removed now key s)
unfolding on_node_proxy_removed
on_node_proxy_removed-Tracked now key s h =
    on_option_cases {X = RouterState} Tracked (find_data key s.bound_nodes) (λ _. h)
      (λ node _.
        schedule-Tracked now 0 (destroy_proxy key)
          (unbind key (guard_removal now node.info (unpatch node.info s)))
          (guard_removal-Tracked now node.info s h))

on_registry_global_remove-Tracked :
    (id : ℕ) (s : RouterState) → Tracked s → Tracked (on_registry_global_remove id s)
unfolding on_registry_global_remove
on_registry_global_remove-Tracked id s h = h

on_registry_global-Tracked :
    (b : Binding) (id : ℕ) (type : ObjectType) (props : Option Dict) (s : RouterState)
    → Tracked s
    → Tracked (on_registry_global b id type props s)
unfolding on_registry_global
on_registry_global-Tracked b id type none s h = h
on_registry_global-Tracked b id metadata_object (some props) s h =
    if_cases {A = RouterState} Tracked (id == invalid_id) (λ _. h)
      (λ _.
        if_cases {A = RouterState} Tracked (is_default (props "metadata.name")) (λ _. h) (λ _. h))
on_registry_global-Tracked b id port_object (some props) s h =
    if_cases {A = RouterState} Tracked (id == invalid_id) (λ _. h) (λ _. h)
on_registry_global-Tracked b id node_object (some props) s h =
    if_cases {A = RouterState} Tracked (id == invalid_id) (λ _. h)
      (λ _. on_option_cases {X = RouterState} Tracked b.node (λ _. h) (λ key _. h))
on_registry_global-Tracked b id other_object (some props) s h = h

default_sink-Tracked :
    {F : FloatOps} (J : JsonLib F) (now : ℕ) (name : String) (s : RouterState)
    → Tracked s
    → Tracked (default_sink J now name s)
default_sink-Tracked J now name s h =
    if_cases {A = RouterState} Tracked (is_empty name || name =s virtual_sink_name) (λ _. h)
      (λ _.
        if_cases {A = RouterState} Tracked (name =s s.selected_sink.name) (λ _. h)
          (λ _.
            if_cases {A = RouterState} Tracked (not s.startup_sink_locked) (λ _. h)
              (λ _.
                if_cases {A = RouterState} Tracked (is_empty s.sink_selector)
                  (λ _. schedule-Tracked now 0 (reconnect name) s h) (λ _. h))))

module _ {F : FloatOps} (J : JsonLib F) where
  try_default_sink-Tracked :
      (now : ℕ) (name : Outcome String) (s : RouterState)
      → Tracked s
      → Tracked (try_default_sink J now name s)
  try_default_sink-Tracked now (ok name) s h = default_sink-Tracked J now name s h
  try_default_sink-Tracked now (err e) s h = h
  try_default_sink-Tracked now (throw e) s h = h

  on_metadata_property-Tracked :
      (now : ℕ) (key value : Option String) (s : RouterState)
      → Tracked s
      → Tracked (on_metadata_property J now key value s)
  unfolding on_metadata_property
  on_metadata_property-Tracked now none value s h = h
  on_metadata_property-Tracked now (some key) none s h = h
  on_metadata_property-Tracked now (some key) (some value) s h =
      if_cases {A = RouterState} Tracked (not (key =s "default.audio.sink")) (λ _. h)
        (λ _. try_default_sink-Tracked now (sink_name J value) s h)

  on_link_info-Tracked :
      (i : ℕ) (status : Option LinkStatus) (s : RouterState)
      → Tracked s
      → Tracked (on_link_info i status s)
  unfolding on_link_info
  on_link_info-Tracked i none s h = h
  on_link_info-Tracked i (some status) s h = h

  pub Callback-Tracked : (s t : RouterState) → Callback J s t → Tracked s → Tracked t
  Callback-Tracked s t (global b id type props) h = on_registry_global-Tracked b id type props s h
  Callback-Tracked s t (global_remove id) h = on_registry_global_remove-Tracked id s h
  Callback-Tracked s t (node_info now key props) h = on_node_info-Tracked now key props s h
  Callback-Tracked s t (node_removed now key) h = on_node_proxy_removed-Tracked now key s h
  Callback-Tracked s t (metadata_property now key value) h =
      on_metadata_property-Tracked now key value s h
  Callback-Tracked s t (link_info i status) h = on_link_info-Tracked i status s h

  pub Callbacks-Tracked : (s t : RouterState) → Callbacks J s t → Tracked s → Tracked t
  Callbacks-Tracked s t none_more h = h
  Callbacks-Tracked s t (then t' u cs c) h = Callback-Tracked t' u c (Callbacks-Tracked s t' cs h)
