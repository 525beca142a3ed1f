-- ===== src/PipeWire/Guard.antt =====
-- Streams that are made again and again (src/pipewire_router.cpp, `loop_guard_` in
-- on_node_proxy_removed and on_node_info): the third rapid removal of a name stops its patching
-- for five seconds.
use ee_eq_cli.Common.{
  ℕ, ◌+◌, ◌≤◌, ◌<◌, ltb, true, ◌&&◌, String, List, some, ◌≡◌, refl, sym, ap, subst, ◌∙◌, ◌=s◌,
  =s_iff, find-test, not, keep, false, if_cases, if◌then◌else◌, on_option, on_option_cases, arith,
}
use ee_eq_cli.PipeWire.{
  RouterState, NodeData, LoopGuardEntry, PatchAttemptInfo, destroy_proxy, rapid_removal_window,
  loop_suppress_duration, media_class_stream_output_audio,
}
use ee_eq_cli.PipeWire.Patching.{
  node_serial, schedule, forget, queue_patch_stream, stream_targets_selected_sink,
}
use ee_eq_cli.PipeWire.Registry.{
  Dict, find_data, find_attempt, find_guard, guard_of, set_guard, count_removal, guard_removal,
  unpatch, unbind, updated, observe, consider, suppressed, on_node_info, on_node_proxy_removed,
}

-- The removal that is the third or a later one of a rapid sequence.
count_removal-suppresses :
    (now patched_at : ℕ) (g : LoopGuardEntry)
    → now ≤ patched_at + rapid_removal_window
    → now ≤ g.last_removed_at + rapid_removal_window
    → 2 ≤ g.rapid_removals
    → (count_removal now patched_at g).suppress_until ≡ now + loop_suppress_duration
unfolding count_removal
count_removal-suppresses now patched_at g p l r = ground arith

count_removal-key :
    (now patched_at : ℕ) (g : LoopGuardEntry) → (count_removal now patched_at g).key ≡ g.key
unfolding count_removal
count_removal-key now patched_at g = ground arith

count_removal-last :
    (now patched_at : ℕ) (g : LoopGuardEntry)
    → now ≤ patched_at + rapid_removal_window
    → (count_removal now patched_at g).last_removed_at ≡ now
unfolding count_removal
count_removal-last now patched_at g p = ground arith

count_removal-one :
    (now patched_at : ℕ) (g : LoopGuardEntry)
    → now ≤ patched_at + rapid_removal_window
    → 1 ≤ (count_removal now patched_at g).rapid_removals
unfolding count_removal
count_removal-one now patched_at g p = ground arith

count_removal-counts :
    (now patched_at : ℕ) (g : LoopGuardEntry)
    → now ≤ patched_at + rapid_removal_window
    → now ≤ g.last_removed_at + rapid_removal_window
    → 1 ≤ g.rapid_removals
    → 2 ≤ (count_removal now patched_at g).rapid_removals
unfolding count_removal
count_removal-counts now patched_at g p l r = ground arith

guard_of-key : (name : String) (guards : List LoopGuardEntry) → (guard_of name guards).key ≡ name
guard_of-key name guards =
    on_option_cases {X = LoopGuardEntry} (λ g. g.key ≡ name) (find_guard name guards) (λ _. refl)
      (λ g f. (=s_iff g.key name).0 (find-test (λ h. h.key =s name) guards g f))

find-set_guard :
    (name : String) (g : LoopGuardEntry) (guards : List LoopGuardEntry)
    → g.key ≡ name
    → find_guard name (set_guard g guards) ≡ some g
find-set_guard name g guards k =
    let same : (g.key =s name) ≡ true = (=s_iff g.key name).1 k in
    ap (λ b. if b then some g else find_guard name (keep (λ h. not (h.key =s g.key)) guards)) same

-- While a name is suppressed, a stream of that name is observed, and no more.
on_node_info-suppressed :
    (now key : ℕ) (props : Dict) (node : NodeData) (s : RouterState)
    → find_data key s.bound_nodes ≡ some node
    → suppressed now (updated props node.info).name s ≡ true
    → on_node_info now key props s
      ≡ (if s.shutting_down then s else observe key (updated props node.info) s)
unfolding on_node_info
on_node_info-suppressed now key props node s f q =
    ap (λ x. if s.shutting_down then s else x)
      (ap
          (λ o.
            on_option o s
              (λ n. consider now (updated props n.info) (observe key (updated props n.info) s)))
          f
        ∙ still (observe key (updated props node.info) s) q)
  where
    still :
        (t : RouterState)
        → suppressed now (updated props node.info).name t ≡ true
        → consider now (updated props node.info) t ≡ t
    still t e =
        if_cases {A = RouterState} (λ x. x ≡ t)
          ((t.startup_sink_locked
              && (updated props node.info).media_class =s media_class_stream_output_audio)
            && stream_targets_selected_sink t (updated props node.info))
          (λ _.
            ap
              (λ b.
                if b then t else queue_patch_stream now (node_serial (updated props node.info)) t)
              e)
          (λ _. refl)

-- The guard that a removal leaves.
removal-guard :
    (now key : ℕ) (node : NodeData) (attempt : PatchAttemptInfo) (s : RouterState)
    → find_data key s.bound_nodes ≡ some node
    → find_attempt (node_serial node.info) s.recent_patch_attempts ≡ some attempt
    → find_guard node.info.name (on_node_proxy_removed now key s).loop_guard
      ≡ some (count_removal now attempt.patched_at (guard_of node.info.name s.loop_guard))
unfolding on_node_proxy_removed
removal-guard now key node attempt s f a =
    ap
      (λ o. find_guard node.info.name (
        (on_option o s (λ n.
          schedule now 0 (destroy_proxy key)
            (unbind key (guard_removal now n.info (unpatch n.info s))))).loop_guard))
      f
    ∙ ap (λ o. find_guard node.info.name ((on_option o t (counted t)).loop_guard)) a
    ∙ find-set_guard node.info.name g s.loop_guard (
        count_removal-key now attempt.patched_at (guard_of node.info.name s.loop_guard)
        ∙ guard_of-key node.info.name s.loop_guard)
  where
    t : RouterState
    t = unpatch node.info s

    counted : RouterState → PatchAttemptInfo → RouterState
    counted r x = record r {
      loop_guard =
          set_guard (count_removal now x.patched_at (guard_of node.info.name s.loop_guard))
            s.loop_guard;
      recent_patch_attempts = forget (node_serial node.info) s.recent_patch_attempts;
    }

    g : LoopGuardEntry
    g = count_removal now attempt.patched_at (guard_of node.info.name s.loop_guard)

-- A patched stream is removed within 1.5 seconds of its patch and of the last removal of its name,
-- and two such removals have been counted. Then, for five seconds, news of a node of that name
-- updates the node and the sinks, and queues no patch.
pub removal-suppresses :
    (now later key new_key : ℕ) (props : Dict) (node new_node : NodeData)
    (attempt : PatchAttemptInfo) (s : RouterState)
    → find_data key s.bound_nodes ≡ some node
    → find_attempt (node_serial node.info) s.recent_patch_attempts ≡ some attempt
    → now ≤ attempt.patched_at + rapid_removal_window
    → now ≤ (guard_of node.info.name s.loop_guard).last_removed_at + rapid_removal_window
    → 2 ≤ (guard_of node.info.name s.loop_guard).rapid_removals
    → find_data new_key (on_node_proxy_removed now key s).bound_nodes ≡ some new_node
    → (updated props new_node.info).name ≡ node.info.name
    → later < now + loop_suppress_duration
    → on_node_info later new_key props (on_node_proxy_removed now key s) ≡ (
        if (on_node_proxy_removed now key s).shutting_down
        then on_node_proxy_removed now key s
        else observe new_key (updated props new_node.info) (on_node_proxy_removed now key s))
removal-suppresses now later key new_key props node new_node attempt s f a p l r g n u =
    on_node_info-suppressed later new_key props new_node (on_node_proxy_removed now key s) g (
      ap (λ name. suppressed later name (on_node_proxy_removed now key s)) n
      ∙ ap (λ o. on_option o false (λ h. ltb later h.suppress_until))
          (removal-guard now key node attempt s f a)
      ∙ ap (ltb later) (
          count_removal-suppresses now attempt.patched_at (guard_of node.info.name s.loop_guard) p l
            r)
      ∙ ground (arith, u))

-- Three removals of a name, each within 1.5 seconds of the patch and of the removal before: the
-- third one suppresses the name for five seconds, whatever was counted before them.
three-removals-suppress :
    (g : LoopGuardEntry) (patch1 patch2 patch3 removal1 removal2 removal3 : ℕ)
    → removal1 ≤ patch1 + rapid_removal_window
    → removal2 ≤ patch2 + rapid_removal_window
    → removal3 ≤ patch3 + rapid_removal_window
    → removal2 ≤ removal1 + rapid_removal_window
    → removal3 ≤ removal2 + rapid_removal_window
    → (count_removal removal3 patch3
        (count_removal removal2 patch2 (count_removal removal1 patch1 g))).suppress_until
      ≡ removal3 + loop_suppress_duration
three-removals-suppress g patch1 patch2 patch3 removal1 removal2 removal3 a b c d e =
    count_removal-suppresses removal3 patch3 second c
      (subst (λ n. removal3 ≤ n + rapid_removal_window)
        (sym (count_removal-last removal2 patch2 first b)) e)
      (count_removal-counts removal2 patch2 first b
        (subst (λ n. removal2 ≤ n + rapid_removal_window)
          (sym (count_removal-last removal1 patch1 g a)) d)
        (count_removal-one removal1 patch1 g a))
  where
    first : LoopGuardEntry
    first = count_removal removal1 patch1 g

    second : LoopGuardEntry
    second = count_removal removal2 patch2 first
