-- ===== src/Filter/Convolving.antt =====
-- The convolver's processor (src/pipewire_router.cpp, ConvolverFilterNode), over its host.
use ee_eq_cli.Common.{
  ℕ, leb, Bool, true, false, String, List, [], ◌∷◌, Option, none, some, ◌≡◌, refl, ap, on_option,
  on_option_cases, if◌then◌else◌, arith,
}
use ee_eq_cli.Floats.{FloatOps}
use ee_eq_cli.Filter
use ee_eq_cli.Convolver.{Samples, Engine}
use ee_eq_cli.Convolver.Host.{ConvolverHost, Processed, process, validate_rate, ensure_ready}
use ee_eq_cli.Filter.{
  FilterNode, Cycle, on_process, initialize_on_worker, Stereo, Processor, ProcessorLaws, max_frames,
}

module _ {F : FloatOps} (S : Samples F) (E : Engine F.Float) where
  open F use {Float}

  -- `fifo` is what the environment says of the engine's thread; the vectors `input_left_`,
  -- `input_right_`, `scratch_left_` and `scratch_right_` have one size.
  pub record Convolving : Type 0 where
    pub host : ConvolverHost S E
    pub fifo : Bool
    pub dry : Float
    pub wet : Float
    pub scratch_frames : ℕ

  abbrev prepared : ℕ → Convolving → ConvolverHost S E × Bool → Convolving × Option String
  prepared frames x (host, false) =
      (record x { host = host }, some "Convolver initialization failed")
  prepared frames x (host, true) =
      (record x { host = host; scratch_frames = max_frames frames }, none)

  abbrev prepare : ℕ → Convolving → Option (Convolving × Option String)
  prepare frames x =
      on_option (ensure_ready S E x.fifo frames x.host) none (λ r. some (prepared frames x r))

  -- `initialize_on_worker`
  abbrev pub setup_after : ℕ → Convolving → Option String → Option (Convolving × Option String)
  setup_after frames x none = prepare frames x
  setup_after frames x (some rate_error) = some (x, some rate_error)

  abbrev pub setup : ℕ → ℕ → Convolving → Option (Convolving × Option String)
  setup rate frames x = setup_after frames x (validate_rate S E rate x.host)

  -- `(wet * scratch[i]) + (dry * input[i])`
  abbrev pub mix : Float → Float → List Float → List Float → List Float
  mix wet dry [] ys = []
  mix wet dry (x ∷ xs) [] = []
  mix wet dry (x ∷ xs) (y ∷ ys) = S.add_f (S.mul_f wet x) (S.mul_f dry y) ∷ mix wet dry xs ys

  -- Without the engine's buffers the input goes out as it is.
  abbrev mixed : Convolving → Stereo Float → Option (List Float × List Float) → Stereo Float
  mixed x input none = input
  mixed x input (some (left, right)) = record {
    left = mix x.wet x.dry left input.left;
    right = mix x.wet x.dry right input.right;
  }

  abbrev convolved : Convolving → Stereo Float → Processed S E → Convolving × Stereo Float
  convolved x input r = (record x { host = r.host }, mixed x input r.buffers)

  abbrev pub render :
      ℕ → Bool → Stereo Float → Stereo Float → Convolving → Option (Convolving × Stereo Float)
  render n locked input side x =
      if leb n x.scratch_frames
      then some (convolved x input (process S E locked input.left input.right x.host))
      else none

  abbrev pub convolver_processor : Processor Float
  convolver_processor = record {
    State = Convolving;
    has_probe = false;
    scratch = λ x. x.scratch_frames;
    setup = setup;
    render = render;
  }

  unfoldable pub convolver_on_process :
      Cycle Float → FilterNode S convolver_processor → Filter.Processed S convolver_processor
  convolver_on_process c node = on_process S convolver_processor c node

  unfoldable pub convolver_initialize_on_worker :
      ℕ → ℕ → FilterNode S convolver_processor → FilterNode S convolver_processor
  convolver_initialize_on_worker rate frames node =
      initialize_on_worker S convolver_processor rate frames node

  prepared-scratch :
      (frames : ℕ) (x y : Convolving) (made : ConvolverHost S E × Bool)
      → some (prepared frames x made) ≡ some (y, none)
      → y.scratch_frames ≡ max_frames frames
  prepared-scratch frames x y (host, false) h = cc
  prepared-scratch frames x y (host, true) h =
      let q : y ≡ record x { host = host; scratch_frames = max_frames frames } = cc in
      ap (λ (p : Convolving). p.scratch_frames) q

  setup_after-scratch :
      (frames : ℕ) (x y : Convolving) (rate_error : Option String)
      → setup_after frames x rate_error ≡ some (y, none)
      → y.scratch_frames ≡ max_frames frames
  setup_after-scratch frames x y none =
      on_option_cases {X = Option (Convolving × Option String)}
        (λ o. o ≡ some (y, none) → y.scratch_frames ≡ max_frames frames)
        (ensure_ready S E x.fifo frames x.host) (λ _ h. cc)
        (λ made _ h. prepared-scratch frames x y made h)
  setup_after-scratch frames x y (some e) = λ h. cc

  pub convolver_processor-ProcessorLaws : ProcessorLaws convolver_processor
  convolver_processor-ProcessorLaws = record {
    setup-scratch =
        λ rate frames x y h. setup_after-scratch frames x y (validate_rate S E rate x.host) h;
    render-scratch = λ n locked i side x h. (
      convolved x i (process S E locked i.left i.right x.host),
      let fit : leb n x.scratch_frames ≡ true = ground (arith, h) in
          ap
            (λ b.
              if b then some (convolved x i (process S E locked i.left i.right x.host)) else none)
            fit,
      refl,
    );
  }
