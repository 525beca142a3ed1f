-- ===== src/Filter/Events.antt =====
-- A filter node through any sequence of cycles and initializations (src/pipewire_router.cpp,
-- on_process, schedule_initialization and initialize_on_worker).
use ee_eq_cli.Common.{
  ℕ, ◌≤◌, String, List, [], ◌∷◌, Option, none, some, ◌≡◌, refl, sym, ap, subst, ◌∙◌, inl, inr,
  on_option, on_option_cases, arith,
}
use ee_eq_cli.Floats.{FloatOps}
use ee_eq_cli.Convolver.{Samples}
use ee_eq_cli.Filter.{
  InitState, uninitialized, init_pending, ready, failed, Cycle, Processor, ProcessorLaws,
  max_frames, FilterNode, Processed, idle, wrote, out_of_range, initialized, initialize_on_worker,
  run_scheduled, on_process,
}
use ee_eq_cli.Filter.Safety.{OneInit, Safe, Good, length-resize, on_process-Good}

module _ {F : FloatOps} (S : Samples F) (P : Processor F.Float) where
  open F use {Float, f_zero}

  module _ (L : ProcessorLaws P) where
    max_frames-lem : (frames : ℕ) → (frames ≤ max_frames frames) × (8192 ≤ max_frames frames)
    max_frames-lem frames = (ground arith, ground arith)

    initialized-Safe :
        (rate frames : ℕ) (node : FilterNode S P) (r : P.State × Option String)
        → P.setup rate frames node.processor ≡ some r
        → node.n_samples ≡ frames
        → node.scheduled ≡ []
        → Safe S P node
        → Safe S P (initialized S P frames node r)
    initialized-Safe rate frames node (y, none) e n q s =
        let (above, large) = max_frames-lem frames in
        record {
          one_init = q;
          room =
              subst (λ k. node.n_samples ≤ k) (sym (L.setup-scratch rate frames node.processor y e))
                (subst (λ k. k ≤ max_frames frames) (sym n) above);
          dummy_left =
              subst (λ k. 8192 ≤ k) (sym (length-resize S P (max_frames frames) node.dummy_left))
                large;
          dummy_right =
              subst (λ k. 8192 ≤ k) (sym (length-resize S P (max_frames frames) node.dummy_right))
                large;
        }
    initialized-Safe rate frames node (y, some error) e n q s = record {
      one_init = q;
      room = tt;
      dummy_left = s.dummy_left;
      dummy_right = s.dummy_right;
    }

    waits-for :
        (state : InitState) (rate n r f : ℕ) (rest : List (ℕ × ℕ))
        → OneInit S P state rate n ((r, f) ∷ rest)
        → (state ≡ init_pending) × (n ≡ f) × (rest ≡ [])
    waits-for uninitialized rate n r f rest h = cc
    waits-for init_pending rate n r f rest (inl h) = cc
    waits-for init_pending rate n r f rest (inr h) = (refl, cc, cc)
    waits-for ready rate n r f rest h = cc
    waits-for failed rate n r f rest h = cc

    run_scheduled-Safe :
        (node : FilterNode S P) (tasks : List (ℕ × ℕ))
        → node.scheduled ≡ tasks
        → Safe S P node
        → Safe S P (run_scheduled S P tasks node)
    unfolding initialize_on_worker
    run_scheduled-Safe node [] q s = s
    run_scheduled-Safe node ((rate, frames) ∷ rest) q s =
        let (pending, same, last) =
          waits-for node.init_state node.rate node.n_samples rate frames rest
            (subst (OneInit S P node.init_state node.rate node.n_samples) q s.one_init) in
        let popped : Safe S P (record node { scheduled = rest }) = record {
          one_init =
              subst (λ st. OneInit S P st node.rate node.n_samples rest) (sym pending) (inl last);
          room = s.room;
          dummy_left = s.dummy_left;
          dummy_right = s.dummy_right;
        } in
        on_option_cases {X = FilterNode S P} (Safe S P) (P.setup rate frames node.processor)
          (λ _. popped)
          (λ r e.
            initialized-Safe rate frames (record node { scheduled = rest }) r e same last popped)

    -- A cycle, or the router's next initialization.
    pub data Event : Type 0 where
      cycle : (c : Cycle Float) → c.n_samples ≤ 8192 → Event
      worker : Event

    -- The node after the events, or none where a span has reached beyond its vector.
    abbrev pub after_call : Processed S P → Option (FilterNode S P)
    after_call (idle node) = some node
    after_call (wrote node out) = some node
    after_call out_of_range = none

    abbrev pub after_event : Event → FilterNode S P → Option (FilterNode S P)
    after_event (cycle c small) node = after_call (on_process S P c node)
    after_event worker node = some (run_scheduled S P node.scheduled node)

    abbrev pub after_events : List Event → FilterNode S P → Option (FilterNode S P)
    after_events [] node = some node
    after_events (e ∷ es) node = on_option (after_event e node) none (after_events es)

    Good-after :
        (r : Processed S P)
        → Good S P r
        → (m : FilterNode S P) × (after_call r ≡ some m) × Safe S P m
    Good-after (idle node) s = (node, refl, s)
    Good-after (wrote node out) s = (node, refl, s)
    Good-after out_of_range s = absurd s

    after_event-Safe :
        (e : Event) (node : FilterNode S P)
        → Safe S P node
        → (m : FilterNode S P) × (after_event e node ≡ some m) × Safe S P m
    after_event-Safe (cycle c small) node s =
        Good-after (on_process S P c node) (on_process-Good S P L c node small s)
    after_event-Safe worker node s =
        (run_scheduled S P node.scheduled node, refl, run_scheduled-Safe node node.scheduled refl s)

    -- Whatever cycles of at most 8,192 frames come, with whatever buffers, and whenever the worker
    -- runs the initialization that waits, no span of a cycle reaches beyond its vector, and the node
    -- stays safe: its vectors are large enough for the cycles that are processed, and at most one
    -- initialization waits, in the state that says so and for the present rate and block size.
    pub after_events-Safe :
        (events : List Event) (node : FilterNode S P)
        → Safe S P node
        → (m : FilterNode S P) × (after_events events node ≡ some m) × Safe S P m
    after_events-Safe [] node s = (node, refl, s)
    after_events-Safe (e ∷ events) node s =
        let (m, one, t) = after_event-Safe e node s in
        let (k, more, u) = after_events-Safe events m t in
        (k, ap (λ o. on_option o none (after_events events)) one ∙ more, u)
