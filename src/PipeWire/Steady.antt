-- ===== src/PipeWire/Steady.antt =====
-- Patching streams touches neither the links nor the chain's configuration
-- (src/pipewire_router.cpp, patch_stream, patch_existing_streams, clear_patched_streams).
use ee_eq_cli.Common.{ℕ, ◌==◌, not, ◌||◌, List, [], ◌∷◌, refl, has, if_cases, on_option_cases}
use ee_eq_cli.PipeWire.{RouterState, NodeInfo, TargetWrite, find_node_by_serial, clear_target}
use ee_eq_cli.PipeWire.Outcomes.{Steady, refl-Steady, trans-Steady}
use ee_eq_cli.PipeWire.Patching.{
  write, patch_node, patch_stream, patch_streams, patch_existing_streams, serials_to_patch,
  clear_target_of, clear_targets, clear_patched_streams,
}

write-Steady : (w : TargetWrite) (s : RouterState) → Steady s (write w s)
write-Steady w s =
    if_cases {A = RouterState} (Steady s) s.metadata (λ _. record { links = refl; same = refl })
      (λ _. refl-Steady s)

patch_node-Steady :
    (now serial : ℕ) (s : RouterState) (node : NodeInfo) → Steady s (patch_node now serial s node)
patch_node-Steady now serial s node =
    if_cases {A = RouterState} (Steady s) s.metadata (λ _. record { links = refl; same = refl })
      (λ _. record { links = refl; same = refl })

patch_stream-Steady : (now serial : ℕ) (s : RouterState) → Steady s (patch_stream now serial s)
unfolding patch_stream
patch_stream-Steady now serial s =
    if_cases {A = RouterState} (Steady s) (has serial s.patched_streams) (λ _. refl-Steady s)
      (λ _.
        on_option_cases {X = RouterState} (Steady s) (find_node_by_serial s serial)
          (λ _. refl-Steady s)
          (λ node _.
            if_cases {A = RouterState} (Steady s)
              ((s.virtual_sink.id == 0 || s.virtual_sink.serial == 0) || not s.metadata)
              (λ _. refl-Steady s) (λ _. patch_node-Steady now serial s node)))

patch_streams-Steady :
    (now : ℕ) (serials : List ℕ) (s : RouterState) → Steady s (patch_streams now serials s)
patch_streams-Steady now [] s = refl-Steady s
patch_streams-Steady now (serial ∷ serials) s =
    trans-Steady s (patch_stream now serial s) (patch_streams now (serial ∷ serials) s)
      (patch_stream-Steady now serial s)
      (patch_streams-Steady now serials (patch_stream now serial s))

pub patch_existing_streams-Steady :
    (now : ℕ) (s : RouterState) → Steady s (patch_existing_streams now s)
unfolding patch_existing_streams
patch_existing_streams-Steady now s = patch_streams-Steady now (serials_to_patch s s.bound_nodes) s

clear_target_of-Steady : (serial : ℕ) (s : RouterState) → Steady s (clear_target_of serial s)
clear_target_of-Steady serial s =
    on_option_cases {X = RouterState} (Steady s) (find_node_by_serial s serial) (λ _. refl-Steady s)
      (λ node _. write-Steady (clear_target node.id) s)

clear_targets-Steady : (serials : List ℕ) (s : RouterState) → Steady s (clear_targets serials s)
clear_targets-Steady [] s = refl-Steady s
clear_targets-Steady (serial ∷ serials) s =
    trans-Steady s (clear_target_of serial s) (clear_targets (serial ∷ serials) s)
      (clear_target_of-Steady serial s) (clear_targets-Steady serials (clear_target_of serial s))

pub clear_patched_streams-Steady : (s : RouterState) → Steady s (clear_patched_streams s)
unfolding clear_patched_streams
clear_patched_streams-Steady s =
    let h =
      clear_targets-Steady s.patched_streams (record s {
        patched_streams = [];
        pending_patch_streams = [];
        recent_patch_attempts = [];
      }) in
    record { links = h.links; same = h.same }
