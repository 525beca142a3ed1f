-- ===== src/Filter/Safety.antt =====
-- A filter node's cycles stay within its vectors (src/pipewire_router.cpp, on_process and
-- initialize_on_worker), and at most one initialization is on its way.
use ee_eq_cli.Common.{
  ℕ, zero, suc, ◌≤◌, ◌==◌, Bool, true, not, ◌||◌, List, [], ◌∷◌, ◌++◌, Option, none, some, ◌≡◌,
  refl, sym, ap, subst, ◌⊎◌, inr, length, length-replicate, on_option, if◌then◌else◌, if_cases,
  arith,
}
use ee_eq_cli.Floats.{FloatOps}
use ee_eq_cli.Convolver.{Samples}
use ee_eq_cli.Filter.{
  InitState, uninitialized, init_pending, ready, failed, Cycle, Stereo, Processor, ProcessorLaws,
  FilterNode, new_node, Processed, idle, wrote, out_of_range, resize, on_process, process_in,
  process_ready, rendered, output, overlay, copy_to, changed, spans_fit, fits, input, side_chain,
  gained, with_volume, schedule_initialization,
}

module _ {F : FloatOps} (S : Samples F) (P : Processor F.Float) where
  open F use {Float, f_zero}

  -- An initialization that is on its way is for the cycle that asked for it, and the node is
  -- waiting for it.
  abbrev pub OneInit : InitState → ℕ → ℕ → List (ℕ × ℕ) → Type 0
  OneInit init_pending rate n tasks = (tasks ≡ []) ⊎ (tasks ≡ (rate, n) ∷ [])
  OneInit uninitialized rate n tasks = tasks ≡ []
  OneInit ready rate n tasks = tasks ≡ []
  OneInit failed rate n tasks = tasks ≡ []

  -- The vectors are large enough for the cycles that use them.
  abbrev pub Room : InitState → ℕ → ℕ → Type 0
  Room uninitialized n scratch = Unit
  Room init_pending n scratch = Unit
  Room ready n scratch = n ≤ scratch
  Room failed n scratch = Unit

  pub record Safe (node : FilterNode S P) : Type 0 where
    pub one_init : OneInit node.init_state node.rate node.n_samples node.scheduled
    pub room : Room node.init_state node.n_samples (P.scratch node.processor)
    pub dummy_left : 8192 ≤ length node.dummy_left
    pub dummy_right : 8192 ≤ length node.dummy_right

  -- A call that stays within the vectors, and leaves a safe node.
  abbrev pub Good : Processed S P → Type 0
  Good (idle node) = Safe node
  Good (wrote node out) = Safe node
  Good out_of_range = ⊥

  length-copy_to : (xs ys : List Float) → length (copy_to S P xs ys) ≡ length ys
  length-copy_to [] ys = refl
  length-copy_to (x ∷ xs) [] = refl
  length-copy_to (x ∷ xs) (y ∷ ys) = ap suc (length-copy_to xs ys)

  length-overlay :
      (buffer : Option (List Float)) (out dummy : List Float)
      → length (overlay S P buffer out dummy) ≡ length dummy
  length-overlay none out dummy = length-copy_to out dummy
  length-overlay (some buffer) out dummy = refl

  pub length-resize : (n : ℕ) (xs : List Float) → length (resize S P n xs) ≡ n
  length-resize zero xs = refl
  length-resize (suc n) [] = ap suc (length-resize n [])
  length-resize (suc n) (x ∷ xs) = ap suc (length-resize n xs)

  pub new_node-Safe :
      (preset_bypass : Bool) (input_gain output_gain : Float) (x : P.State)
      → Safe (new_node S P preset_bypass input_gain output_gain x)
  new_node-Safe preset_bypass input_gain output_gain x = record {
    one_init = refl;
    room = tt;
    dummy_left = let e = length-replicate 8192 f_zero in omega (arith, e);
    dummy_right = let e = length-replicate 8192 f_zero in omega (arith, e);
  }

  output-Good :
      (c : Cycle Float) (node : FilterNode S P) (out : Stereo Float)
      → Safe node
      → Good (output S P c node out)
  output-Good c node out s = record {
    one_init = s.one_init;
    room = s.room;
    dummy_left =
        subst (λ n. 8192 ≤ n) (sym (length-overlay c.out_left out.left node.dummy_left))
          s.dummy_left;
    dummy_right =
        subst (λ n. 8192 ≤ n) (sym (length-overlay c.out_right out.right node.dummy_right))
          s.dummy_right;
  }

  fits-small :
      (n : ℕ) (buffer : Option (List Float)) (dummy : List Float)
      → n ≤ 8192
      → 8192 ≤ length dummy
      → fits S P n buffer dummy ≡ true
  fits-small n none dummy h k = ground (arith, h, k)
  fits-small n (some buffer) dummy h k = refl

  spans_fit-small :
      (c : Cycle Float) (node : FilterNode S P)
      → c.n_samples ≤ 8192
      → Safe node
      → spans_fit S P c node ≡ true
  spans_fit-small c node h s =
      let a = fits-small c.n_samples c.in_left node.dummy_left h s.dummy_left in
      let b = fits-small c.n_samples c.in_right node.dummy_right h s.dummy_right in
      let d = fits-small c.n_samples c.out_left node.dummy_left h s.dummy_left in
      let e = fits-small c.n_samples c.out_right node.dummy_right h s.dummy_right in
      let f = fits-small c.n_samples c.probe_left node.dummy_left h s.dummy_left in
      let g = fits-small c.n_samples c.probe_right node.dummy_right h s.dummy_right in
      rw (a, b, d, e, f, g) (ground arith)

  module _ (L : ProcessorLaws P) where
    rendered-Good :
        (c : Cycle Float) (node : FilterNode S P) (i side : Stereo Float)
        → node.init_state ≡ ready
        → c.n_samples ≡ node.n_samples
        → Safe node
        → Good (
            on_option
              (P.render c.n_samples c.locked i side node.processor)
              out_of_range
              (rendered S P c node))
    rendered-Good c node i side q e s =
        let within : node.n_samples ≤ P.scratch node.processor =
          subst (λ st. Room st node.n_samples (P.scratch node.processor)) q s.room in
        let (y, found, same) =
          L.render-scratch c.n_samples c.locked i side node.processor
            (subst (λ n. n ≤ P.scratch node.processor) (sym e) within) in
        subst (λ o. Good (on_option o out_of_range (rendered S P c node))) (sym found)
          (output-Good c (record node { processor = y.0 })
            (with_volume S P c node (gained S P node.output_gain y.1))
            (record {
              one_init = s.one_init;
              room = subst (Room node.init_state node.n_samples) (sym same) s.room;
              dummy_left = s.dummy_left;
              dummy_right = s.dummy_right;
            }))

    process_ready-Good :
        (c : Cycle Float) (node : FilterNode S P)
        → node.init_state ≡ ready
        → c.n_samples ≡ node.n_samples
        → Safe node
        → Good (process_ready S P c node)
    process_ready-Good c node q e s =
        if_cases {A = Processed S P} Good (node.bypass || node.preset_bypass)
          (λ _. output-Good c node (with_volume S P c node (input S P c node)) s)
          (λ _.
            rendered-Good c node (gained S P node.input_gain (input S P c node))
              (side_chain S P c node) q e s)

    -- A node that forgets its initialization.
    reset-Safe :
        (node : FilterNode S P)
        → node.scheduled ≡ []
        → Safe node
        → Safe (record node { init_state = uninitialized })
    reset-Safe node e s = record {
      one_init = e;
      room = tt;
      dummy_left = s.dummy_left;
      dummy_right = s.dummy_right;
    }

    process_in-Good :
        (c : Cycle Float) (node : FilterNode S P) (state : InitState)
        → node.init_state ≡ state
        → Safe node
        → Good (process_in S P state c node)
    process_in-Good c node uninitialized q s =
        let idle_queue : node.scheduled ≡ [] =
          subst (λ st. OneInit st node.rate node.n_samples node.scheduled) q s.one_init in
        output-Good c
          (schedule_initialization S P c.rate c.n_samples
            (record node { init_state = init_pending }))
          (input S P c node)
          (record {
            one_init = inr (ap (λ l. l ++ ((c.rate, c.n_samples) ∷ [])) idle_queue);
            room = tt;
            dummy_left = s.dummy_left;
            dummy_right = s.dummy_right;
          })
    process_in-Good c node init_pending q s = output-Good c node (input S P c node) s
    process_in-Good c node ready q s =
        if_cases {A = Processed S P} Good (changed S P c node)
          (λ _.
            output-Good c (record node { init_state = uninitialized }) (input S P c node)
              (reset-Safe node
                (subst (λ st. OneInit st node.rate node.n_samples node.scheduled) q s.one_init) s))
          (λ e. process_ready-Good c node q (ground (arith, e)) s)
    process_in-Good c node failed q s =
        if_cases {A = FilterNode S P} (λ m. Good (output S P c m (input S P c node)))
          (changed S P c node)
          (λ _.
            output-Good c (record node { init_state = uninitialized }) (input S P c node)
              (reset-Safe node
                (subst (λ st. OneInit st node.rate node.n_samples node.scheduled) q s.one_init) s))
          (λ _. output-Good c node (input S P c node) s)

    -- A cycle of at most 8,192 frames, with whatever buffers are there, stays within the vectors.
    pub on_process-Good :
        (c : Cycle Float) (node : FilterNode S P)
        → c.n_samples ≤ 8192
        → Safe node
        → Good (on_process S P c node)
    unfolding on_process
    on_process-Good c node small s =
        if_cases {A = Processed S P} Good (c.n_samples == 0 || c.rate == 0) (λ _. s)
          (λ _.
            subst
              (λ b. Good (if not b then out_of_range else process_in S P node.init_state c node))
              (sym (spans_fit-small c node small s))
              (process_in-Good c node node.init_state refl s))
