-- ===== src/Filter.antt =====
-- The filter nodes of the router (src/pipewire_router.cpp, the classes EqFilterNode,
-- LimiterFilterNode and ConvolverFilterNode): what the three have in common. What differs, the
-- processor that a node drives, is an interface. `on_process` runs on PipeWire's realtime thread
-- and `initialize_on_worker` as a scheduled task of the router; each is one step, as `init_state_`
-- hands the node over from one to the other.
pub mod Lv2
pub mod Convolving
pub mod Safety
pub mod Events
mod Tests
use ee_eq_cli.Common.{
  ℕ, zero, suc, ltb, leb, ◌==◌, ◌≤◌, ◌≡◌, Bool, true, false, not, ◌&&◌, ◌||◌, String, List, [], ◌∷◌,
  ◌++◌, Option, none, some, map, length, take, drop, replicate, is_some, on_option, if◌then◌else◌,
}
use ee_eq_cli.Floats.{FloatOps}
use ee_eq_cli.Convolver.{Samples}

pub data InitState : Type 0 where
  uninitialized : InitState
  init_pending : InitState
  ready : InitState
  failed : InitState

-- What PipeWire gives for one cycle: the position, the buffers, which may be null, and the volume
-- and the mutex of the convolver at this moment.
pub record Cycle (Fl : Type 0) : Type 0 where
  pub rate : ℕ
  pub n_samples : ℕ
  pub in_left : Option (List Fl)
  pub in_right : Option (List Fl)
  pub probe_left : Option (List Fl)
  pub probe_right : Option (List Fl)
  pub out_left : Option (List Fl)
  pub out_right : Option (List Fl)
  pub volume : Fl
  pub locked : Bool

pub record Stereo (Fl : Type 0) : Type 0 where
  pub left : List Fl
  pub right : List Fl

-- The processor of a node, with the vectors that it uses in a cycle: these are written before they
-- are read, and only their size is kept.
pub record Processor (Fl : Type 0) : Type 1 where
  pub State : Type 0
  -- Whether the node has the ports of a side chain.
  pub has_probe : Bool
  pub scratch : State → ℕ
  -- The body of `initialize_on_worker`: the state and the error. None where it never returns.
  pub setup : (rate frames : ℕ) → State → Option (State × Option String)
  -- The audio of a cycle between the two gains: input and side chain to output. None where a span
  -- reaches beyond its vector.
  pub render : (n : ℕ) (locked : Bool) → Stereo Fl → Stereo Fl → State → Option (State × Stereo Fl)

abbrev pub default_frames : ℕ
default_frames = 8192

abbrev pub max_frames : ℕ → ℕ
max_frames frames = if ltb frames default_frames then default_frames else frames

-- A span within the scratch vectors is always there, and rendering keeps their size; a setup that
-- succeeds makes them as large as the cycle, and as 8,192 frames.
pub record ProcessorLaws {Fl : Type 0} (P : Processor Fl) : Type 0 where
  pub setup-scratch :
      (rate frames : ℕ) (x y : P.State)
      → P.setup rate frames x ≡ some (y, none)
      → P.scratch y ≡ max_frames frames
  pub render-scratch :
      (n : ℕ) (locked : Bool) (i side : Stereo Fl) (x : P.State)
      → n ≤ P.scratch x
      → (y : P.State × Stereo Fl) × (P.render n locked i side x ≡ some y)
        × (P.scratch y.0 ≡ P.scratch x)

module _ {F : FloatOps} (S : Samples F) (P : Processor F.Float) where
  open F use {Float, f_zero, f_one, f_ne}

  pub record FilterNode : Type 0 where
    pub preset_bypass : Bool
    pub bypass : Bool
    pub init_state : InitState
    pub init_error : String
    pub rate : ℕ
    pub n_samples : ℕ
    pub allocated_frames : ℕ
    pub input_gain : Float
    pub output_gain : Float
    pub volume_source : Bool
    pub dummy_left : List Float
    pub dummy_right : List Float
    pub processor : P.State
    -- The initializations in the router's queue.
    pub scheduled : List (ℕ × ℕ)

  -- The constructor.
  abbrev pub new_node : Bool → Float → Float → P.State → FilterNode
  new_node preset_bypass input_gain output_gain processor = record {
    preset_bypass = preset_bypass;
    bypass = false;
    init_state = uninitialized;
    init_error = "";
    rate = 0;
    n_samples = 0;
    allocated_frames = 0;
    input_gain = input_gain;
    output_gain = output_gain;
    volume_source = false;
    dummy_left = replicate 8192 f_zero;
    dummy_right = replicate 8192 f_zero;
    processor = processor;
    scheduled = [];
  }

  unfoldable pub is_ready : FilterNode → Bool
  is_ready node = elim node.init_state [ ready ↦ true | _ ↦ false ]

  unfoldable pub init_error : FilterNode → String
  init_error node = elim node.init_state [ failed ↦ node.init_error | _ ↦ "" ]

  -- What a call of `on_process` does: nothing, or it writes the two outputs, or a span reaches
  -- beyond its vector.
  pub data Processed : Type 0 where
    idle : FilterNode → Processed
    wrote : FilterNode → Stereo Float → Processed
    out_of_range : Processed

  abbrev pub apply_gain : Float → List Float → List Float
  apply_gain gain xs = map (λ x. S.mul_f x gain) xs

  abbrev pub gained : Float → Stereo Float → Stereo Float
  gained gain x =
      if f_ne gain f_one
      then record { left = apply_gain gain x.left; right = apply_gain gain x.right }
      else x

  abbrev pub fits : ℕ → Option (List Float) → List Float → Bool
  fits n buffer dummy = is_some buffer || leb n (length dummy)

  -- All spans that `on_process` makes first.
  abbrev pub spans_fit : Cycle Float → FilterNode → Bool
  spans_fit c node =
      ((fits c.n_samples c.in_left node.dummy_left && fits c.n_samples c.in_right node.dummy_right)
        && (fits c.n_samples c.out_left node.dummy_left
            && fits c.n_samples c.out_right node.dummy_right))
      && (not P.has_probe
          || (fits c.n_samples c.probe_left node.dummy_left
              && fits c.n_samples c.probe_right node.dummy_right))

  abbrev span : ℕ → Option (List Float) → List Float → List Float
  span n none dummy = take n dummy
  span n (some buffer) dummy = buffer

  abbrev pub input : Cycle Float → FilterNode → Stereo Float
  input c node = record {
    left = span c.n_samples c.in_left node.dummy_left;
    right = span c.n_samples c.in_right node.dummy_right;
  }

  abbrev pub side_chain : Cycle Float → FilterNode → Stereo Float
  side_chain c node = record {
    left = span c.n_samples c.probe_left node.dummy_left;
    right = span c.n_samples c.probe_right node.dummy_right;
  }

  -- A copy to the start of a vector.
  abbrev pub copy_to : List Float → List Float → List Float
  copy_to [] ys = ys
  copy_to (x ∷ xs) [] = []
  copy_to (x ∷ xs) (y ∷ ys) = x ∷ copy_to xs ys

  -- Without a buffer the output goes to the dummy.
  abbrev pub overlay : Option (List Float) → List Float → List Float → List Float
  overlay none out dummy = copy_to out dummy
  overlay (some buffer) out dummy = dummy

  abbrev pub output : Cycle Float → FilterNode → Stereo Float → Processed
  output c node out =
      wrote
        (record node {
          dummy_left = overlay c.out_left out.left node.dummy_left;
          dummy_right = overlay c.out_right out.right node.dummy_right;
        })
        out

  abbrev pub changed : Cycle Float → FilterNode → Bool
  changed c node = not (c.rate == node.rate) || not (c.n_samples == node.n_samples)

  abbrev pub schedule_initialization : ℕ → ℕ → FilterNode → FilterNode
  schedule_initialization rate frames node = record node {
    rate = rate;
    n_samples = frames;
    scheduled = node.scheduled ++ ((rate, frames) ∷ []);
  }

  abbrev pub with_volume : Cycle Float → FilterNode → Stereo Float → Stereo Float
  with_volume c node out = if node.volume_source then gained c.volume out else out

  abbrev pub rendered : Cycle Float → FilterNode → P.State × Stereo Float → Processed
  rendered c node (state, out) =
      output c (record node { processor = state })
        (with_volume c node (gained node.output_gain out))

  abbrev pub process_ready : Cycle Float → FilterNode → Processed
  process_ready c node =
      if node.bypass || node.preset_bypass
      then output c node (with_volume c node (input c node))
      else on_option
          (P.render c.n_samples c.locked (gained node.input_gain (input c node)) (side_chain c node)
            node.processor)
          out_of_range (rendered c node)

  -- By the state that is loaded once.
  abbrev pub process_in : InitState → Cycle Float → FilterNode → Processed
  process_in uninitialized c node =
      output c
        (schedule_initialization c.rate c.n_samples (record node { init_state = init_pending }))
        (input c node)
  process_in init_pending c node = output c node (input c node)
  process_in failed c node =
      output c (if changed c node then record node { init_state = uninitialized } else node)
        (input c node)
  process_in ready c node =
      if changed c node
      then output c (record node { init_state = uninitialized }) (input c node)
      else process_ready c node

  unfoldable pub on_process : Cycle Float → FilterNode → Processed
  on_process c node =
      if c.n_samples == 0 || c.rate == 0
      then idle node
      else if not (spans_fit c node)
      then out_of_range
      else process_in node.init_state c node

  -- `resize`: new elements are zeros.
  abbrev pub resize : ℕ → List Float → List Float
  resize zero xs = []
  resize (suc n) [] = f_zero ∷ resize n []
  resize (suc n) (x ∷ xs) = x ∷ resize n xs

  abbrev pub initialized : ℕ → FilterNode → P.State × Option String → FilterNode
  initialized frames node (state, some e) = record node {
    processor = state;
    init_error = e;
    init_state = failed;
  }
  initialized frames node (state, none) = record node {
    processor = state;
    dummy_left = resize (max_frames frames) node.dummy_left;
    dummy_right = resize (max_frames frames) node.dummy_right;
    allocated_frames = max_frames frames;
    init_error = "";
    init_state = ready;
  }

  unfoldable pub initialize_on_worker : ℕ → ℕ → FilterNode → FilterNode
  initialize_on_worker rate frames node =
      on_option (P.setup rate frames node.processor) node (initialized frames node)

  -- The router takes the next initialization from its queue.
  abbrev pub run_scheduled : List (ℕ × ℕ) → FilterNode → FilterNode
  run_scheduled [] node = node
  run_scheduled ((rate, frames) ∷ rest) node =
      initialize_on_worker rate frames (record node { scheduled = rest })
