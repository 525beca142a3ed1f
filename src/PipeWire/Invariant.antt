-- ===== src/PipeWire/Invariant.antt =====
-- What the router tracks of the streams stays right in each of its steps, in whatever order they
-- come (src/pipewire_router.cpp, the handlers and the scheduled tasks).
use ee_eq_cli.Common.{
  map-All, All-keep, ℕ, ◌==◌, not, true, false, String, List, ◌∷◌, ◌≡◌, refl, sym, ap, ◌∙◌, is_some,
  if_cases, on_option_cases, arith,
}
use ee_eq_cli.Floats.{FloatOps}
use ee_eq_cli.Json.{JsonLib}
use ee_eq_cli.Router.Tasks.{Task}
use ee_eq_cli.PipeWire.{
  RouterState, NodeInfo, World, Tried, done, failed, Action, patch, reconnect, destroy_proxy,
  find_node_by_name, find_node_by_serial,
}
use ee_eq_cli.PipeWire.Outcomes.{OnEither, bind-OnEither}
use ee_eq_cli.PipeWire.Chain.{connect_chain, destroy_links}
use ee_eq_cli.PipeWire.Patching.{remove, run_patch, clear_patched_streams}
use ee_eq_cli.PipeWire.Waiting.{wait_for_links_ready, wait_for_node_ports}
use ee_eq_cli.PipeWire.Reconnect.{
  select, connect_and_wait, patch_if_done, settle, switch_if_done, reconnect_to_sink,
}
use ee_eq_cli.PipeWire.Stable.{
  Stable, connect_chain-Stable, wait_for_links_ready-Stable, wait_for_node_ports-Stable,
}
use ee_eq_cli.PipeWire.Steps.{Callbacks, Step, callback, task, Steps, start, next, run_action}
use ee_eq_cli.PipeWire.Tracking.{
  Tracked, queued, is_patch, patch_stream-Tracked, patch_existing_streams-Tracked,
  clear_patched_streams-Tracked,
}
use ee_eq_cli.PipeWire.Callbacks.{Callback-Tracked, Callbacks-Tracked}

module _ {F : FloatOps} (J : JsonLib F) where
  -- What is left of the queue still holds the tasks of the other streams.
  queued-rest :
      (first : Task Action) (rest : List (Task Action)) (n : ℕ)
      → is_patch n first.action ≡ false
      → queued n (first ∷ rest) ≡ true
      → queued n rest ≡ true
  queued-rest first rest n e h = ground (arith, e, h)

  module _ (first : Task Action) (rest : List (Task Action)) (s : RouterState) where
    abbrev popped : RouterState
    popped = record s { scheduled_tasks = rest }

    popped-Tracked :
        ((n : ℕ) → is_patch n first.action ≡ false)
        → s.scheduled_tasks ≡ first ∷ rest
        → Tracked s
        → Tracked popped
    popped-Tracked other q (h, k) = (
      h,
      map-All (λ n. queued n s.scheduled_tasks ≡ true) (λ n. queued n rest ≡ true)
          s.pending_patch_streams
          (λ n p. queued-rest first rest n (other n) (ap (queued n) (sym q) ∙ p)) k,
    )

    run_patch-Tracked :
        (now serial : ℕ)
        → first.action ≡ patch serial
        → s.scheduled_tasks ≡ first ∷ rest
        → Tracked s
        → Tracked (run_patch now serial popped)
    unfolding run_patch
    run_patch-Tracked now serial a q (h, k) =
        if_cases {A = RouterState} Tracked s.shutting_down (λ _. unpending)
          (λ _.
            if_cases {A = RouterState} Tracked (not (is_some (find_node_by_serial s serial)))
              (λ _. unpending) (λ _. patch_stream-Tracked now serial _ unpending))
      where
        unpending :
            Tracked
              (record popped { pending_patch_streams = remove serial s.pending_patch_streams })
        unpending = (
          h,
          All-keep (λ n. queued n s.scheduled_tasks ≡ true) (λ n. queued n rest ≡ true)
              (λ n. not (n == serial)) s.pending_patch_streams
              (λ n e p.
                queued-rest first rest n (ap (is_patch n) a ∙ ground (arith, e))
                  (ap (queued n) (sym q) ∙ p))
              k,
        )

  module _ (W : World) (waits : (s : RouterState) → Callbacks J s (W.during s)) where
    Tracked-Stable : Stable W Tracked
    Tracked-Stable = record {
      links = λ s link h. h;
      waits = λ s h. Callbacks-Tracked J s (W.during s) (waits s) h;
    }

    connect_and_wait-Tracked :
        (s : RouterState) → Tracked s → OnEither Tracked (connect_and_wait W s)
    connect_and_wait-Tracked s h =
        bind-OnEither Tracked (connect_chain W s) (wait_for_links_ready W)
          (connect_chain-Stable W Tracked Tracked-Stable s h)
          (wait_for_links_ready-Stable W Tracked Tracked-Stable.waits)

    patch_if_done-Tracked :
        (now : ℕ) (x : Tried) → OnEither Tracked x → Tracked (patch_if_done W now x)
    patch_if_done-Tracked now (done s) h = patch_existing_streams-Tracked now s h
    patch_if_done-Tracked now (failed s e) h = h

    settle-Tracked :
        (now : ℕ) (old : NodeInfo) (x : Tried) → OnEither Tracked x → Tracked (settle W now old x)
    unfolding destroy_links
    settle-Tracked now old (done s) h = patch_existing_streams-Tracked now s h
    settle-Tracked now old (failed s e) h =
        patch_if_done-Tracked now (connect_and_wait W (select old (destroy_links s)))
          (connect_and_wait-Tracked (select old (destroy_links s)) h)

    switch_if_done-Tracked :
        (now : ℕ) (new : NodeInfo) (x : Tried)
        → OnEither Tracked x
        → Tracked (switch_if_done W now new x)
    unfolding destroy_links
    switch_if_done-Tracked now new (done s) h =
        settle-Tracked now s.selected_sink
          (connect_and_wait W (select new (destroy_links (clear_patched_streams s))))
          (connect_and_wait-Tracked (select new (destroy_links (clear_patched_streams s)))
            (clear_patched_streams-Tracked s))
    switch_if_done-Tracked now new (failed s e) h = h

    reconnect_to_sink-Tracked :
        (now : ℕ) (name : String) (s : RouterState)
        → Tracked s
        → Tracked (reconnect_to_sink W now name s)
    unfolding reconnect_to_sink
    reconnect_to_sink-Tracked now name s h =
        if_cases {A = RouterState} Tracked s.shutting_down (λ _. h)
          (λ _.
            on_option_cases {X = RouterState} Tracked (find_node_by_name s name) (λ _. h)
              (λ new _.
                switch_if_done-Tracked now new (wait_for_node_ports W new.id 2 s)
                  (wait_for_node_ports-Stable W Tracked Tracked-Stable.waits new.id 2 s h)))

    run_action-Tracked :
        (now : ℕ) (first : Task Action) (rest : List (Task Action)) (s : RouterState) (a : Action)
        → first.action ≡ a
        → s.scheduled_tasks ≡ first ∷ rest
        → Tracked s
        → Tracked (run_action J W now a (record s { scheduled_tasks = rest }))
    run_action-Tracked now first rest s (patch serial) e q h =
        run_patch-Tracked first rest s now serial e q h
    run_action-Tracked now first rest s (reconnect name) e q h =
        reconnect_to_sink-Tracked now name (popped first rest s)
          (popped-Tracked first rest s (λ n. ap (is_patch n) e) q h)
    run_action-Tracked now first rest s (destroy_proxy key) e q h =
        popped-Tracked first rest s (λ n. ap (is_patch n) e) q h

    Step-Tracked : (s t : RouterState) → Step J W s t → Tracked s → Tracked t
    Step-Tracked s t (callback u c) h = Callback-Tracked J s u c h
    Step-Tracked s t (task now first rest q due) h =
        run_action-Tracked now first rest s first.action refl q h

    -- In every state that the router's steps lead to, from one in which it holds, each stream that
    -- is patched has its last attempt remembered, and each that waits for its patch has a task in
    -- the queue that will make it; while the router waits, PipeWire may call it back.
    pub Steps-Tracked : (s t : RouterState) → Steps J W s t → Tracked s → Tracked t
    Steps-Tracked s t start h = h
    Steps-Tracked s t (next u v run step) h = Step-Tracked u v step (Steps-Tracked s u run h)
