-- ===== src/PipeWire/Tracking.antt =====
-- The sets of streams that the router keeps agree with what it remembers of them and with its
-- queue (src/pipewire_router.cpp), through each operation on them.
use ee_eq_cli.Common.{
  ℕ, ◌==◌, leb, Bool, true, false, not, ◌||◌, List, [], ◌∷◌, ◌≡◌, refl, ap, ◌∙◌, any, has, All,
  map-All, if_cases, on_option_cases, Bool-cases, inl, inr, arith,
}
use ee_eq_cli.Router.Tasks.{Task, emplace, schedule_task}
use ee_eq_cli.PipeWire.{
  RouterState, NodeInfo, PatchAttemptInfo, Action, patch, reconnect, destroy_proxy, set_target,
  clear_target, TargetWrite, find_node_by_serial,
}
use ee_eq_cli.PipeWire.Patching.{
  insert, schedule, queue_patch_stream, forget, remember, write, patch_node, patch_stream,
  patch_streams, patch_existing_streams, serials_to_patch, clear_target_of, clear_targets,
  clear_patched_streams,
}

abbrev pub is_patch : ℕ → Action → Bool
is_patch serial (patch n) = n == serial
is_patch serial (reconnect name) = false
is_patch serial (destroy_proxy key) = false

-- A task that patches the stream is in the queue.
abbrev pub queued : ℕ → List (Task Action) → Bool
queued serial tasks = any (λ t. is_patch serial t.action) tasks

abbrev pub attempted : ℕ → List PatchAttemptInfo → Bool
attempted serial attempts = any (λ a. a.serial == serial) attempts

-- Of each patched stream the attempt is remembered, and each pending one has its task.
abbrev pub Tracked : RouterState → Type 0
Tracked s =
    All (λ n. attempted n s.recent_patch_attempts ≡ true) s.patched_streams
    × All (λ n. queued n s.scheduled_tasks ≡ true) s.pending_patch_streams

any-emplace :
    (test : Task Action → Bool) (t : Task Action) (q : List (Task Action))
    → any test (emplace t q) ≡ (test t || any test q)
unfolding emplace
any-emplace test t [] = refl
any-emplace test t (u ∷ us) =
    if_cases {A = List (Task Action)} (λ l. any test l ≡ (test t || any test (u ∷ us)))
      (leb u.due t.due) (λ _. rw (any-emplace test t us) (ground arith)) (λ _. refl)

pub queued-schedule :
    (serial now delay : ℕ) (a : Action) (q : List (Task Action))
    → queued serial q ≡ true
    → queued serial (schedule_task now delay a q) ≡ true
unfolding schedule_task
queued-schedule serial now delay a q h =
    any-emplace (λ t. is_patch serial t.action) _ q ∙ ground (arith, h)

queued-schedule_eq :
    (serial now delay : ℕ) (q : List (Task Action))
    → queued serial (schedule_task now delay (Action.patch serial) q) ≡ true
unfolding schedule_task
queued-schedule_eq serial now delay q =
    any-emplace (λ t. is_patch serial t.action) _ q ∙ ground arith

pub attempted-forget :
    (n x : ℕ) (attempts : List PatchAttemptInfo)
    → (x == n) ≡ false
    → attempted x (forget n attempts) ≡ attempted x attempts
attempted-forget n x [] e = refl
attempted-forget n x (a ∷ attempts) e =
    if_cases {A = List PatchAttemptInfo} (λ l. attempted x l ≡ attempted x (a ∷ attempts))
      (not (a.serial == n)) (λ h. ap (λ b. a.serial == x || b) (attempted-forget n x attempts e))
      (λ h.
        let d : (a.serial == x) ≡ false = ground (arith, h, e) in
        rw d (attempted-forget n x attempts e))

attempted-remember :
    (a : PatchAttemptInfo) (x : ℕ) (attempts : List PatchAttemptInfo)
    → attempted x attempts ≡ true
    → attempted x (remember a attempts) ≡ true
attempted-remember a x attempts h = elim (Bool-cases (a.serial == x)) [
  | inl e ↦ rw e refl
  | inr e ↦ rw e (attempted-forget a.serial x attempts (ground (arith, e)) ∙ h)
]

All-insert : (P : ℕ → Type 0) (n : ℕ) (set : List ℕ) → P n → All P set → All P (insert n set)
All-insert P n set p h = if_cases {A = List ℕ} (All P) (has n set) (λ _. h) (λ _. (p, h))

pub queue_patch_stream-Tracked :
    (now serial : ℕ) (s : RouterState) → Tracked s → Tracked (queue_patch_stream now serial s)
unfolding queue_patch_stream
queue_patch_stream-Tracked now serial s (h, k) =
    if_cases {A = RouterState} Tracked
      (has serial s.patched_streams || has serial s.pending_patch_streams) (λ _. (h, k))
      (λ _. (
        h,
        All-insert (λ n. queued n (schedule_task now 150 (patch serial) s.scheduled_tasks) ≡ true)
            serial s.pending_patch_streams (queued-schedule_eq serial now 150 s.scheduled_tasks)
            (map-All (λ n. queued n s.scheduled_tasks ≡ true)
              (λ n. queued n (schedule_task now 150 (patch serial) s.scheduled_tasks) ≡ true)
              s.pending_patch_streams
              (λ n q. queued-schedule n now 150 (patch serial) s.scheduled_tasks q) k),
      ))

pub schedule-Tracked :
    (now delay : ℕ) (a : Action) (s : RouterState) → Tracked s → Tracked (schedule now delay a s)
schedule-Tracked now delay a s (h, k) = (
  h,
  map-All (λ n. queued n s.scheduled_tasks ≡ true)
      (λ n. queued n (schedule_task now delay a s.scheduled_tasks) ≡ true) s.pending_patch_streams
      (λ n q. queued-schedule n now delay a s.scheduled_tasks q) k,
)

write-Tracked : (w : TargetWrite) (s : RouterState) → Tracked s → Tracked (write w s)
write-Tracked w s h = if_cases {A = RouterState} Tracked s.metadata (λ _. h) (λ _. h)

patch_node-Tracked :
    (now serial : ℕ) (s : RouterState) (node : NodeInfo)
    → Tracked s
    → Tracked (patch_node now serial s node)
patch_node-Tracked now serial s node (h, k) =
    write-Tracked (set_target node.id s.virtual_sink.id s.virtual_sink.serial) _ (
      All-insert (λ n. attempted n (remember a s.recent_patch_attempts) ≡ true) serial
          s.patched_streams (ground arith)
          (map-All (λ n. attempted n s.recent_patch_attempts ≡ true)
            (λ n. attempted n (remember a s.recent_patch_attempts) ≡ true) s.patched_streams
            (λ n e. attempted-remember a n s.recent_patch_attempts e) h),
      k,
    )
  where
    a : PatchAttemptInfo
    a = record { serial = serial; name = node.name; patched_at = now }

pub patch_stream-Tracked :
    (now serial : ℕ) (s : RouterState) → Tracked s → Tracked (patch_stream now serial s)
unfolding patch_stream
patch_stream-Tracked now serial s h =
    if_cases {A = RouterState} Tracked (has serial s.patched_streams) (λ _. h)
      (λ _.
        on_option_cases {X = RouterState} Tracked (find_node_by_serial s serial) (λ _. h)
          (λ node _.
            if_cases {A = RouterState} Tracked
              ((s.virtual_sink.id == 0 || s.virtual_sink.serial == 0) || not s.metadata) (λ _. h)
              (λ _. patch_node-Tracked now serial s node h)))

patch_streams-Tracked :
    (now : ℕ) (serials : List ℕ) (s : RouterState)
    → Tracked s
    → Tracked (patch_streams now serials s)
patch_streams-Tracked now [] s h = h
patch_streams-Tracked now (serial ∷ serials) s h =
    patch_streams-Tracked now serials (patch_stream now serial s)
      (patch_stream-Tracked now serial s h)

pub patch_existing_streams-Tracked :
    (now : ℕ) (s : RouterState) → Tracked s → Tracked (patch_existing_streams now s)
unfolding patch_existing_streams
patch_existing_streams-Tracked now s h =
    patch_streams-Tracked now (serials_to_patch s s.bound_nodes) s h

clear_targets-Tracked :
    (serials : List ℕ) (s : RouterState) → Tracked s → Tracked (clear_targets serials s)
clear_targets-Tracked [] s h = h
clear_targets-Tracked (serial ∷ serials) s h =
    clear_targets-Tracked serials (clear_target_of serial s) (
      on_option_cases {X = RouterState} Tracked (find_node_by_serial s serial) (λ _. h)
        (λ node _. write-Tracked (clear_target node.id) s h))

pub clear_patched_streams-Tracked : (s : RouterState) → Tracked (clear_patched_streams s)
unfolding clear_patched_streams
clear_patched_streams-Tracked s = clear_targets-Tracked s.patched_streams _ (tt, tt)
