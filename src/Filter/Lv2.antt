-- ===== src/Filter/Lv2.antt =====
-- The equalizer's and the limiter's processor (src/pipewire_router.cpp, EqFilterNode and
-- LimiterFilterNode): an LV2 plugin. Its host (src/lv2_host_core.hpp) is an interface.
use ee_eq_cli.Common.{
  ℕ, leb, Bool, true, false, String, Option, none, some, ◌≡◌, refl, ap, if◌then◌else◌, arith,
}
use ee_eq_cli.Floats.{FloatOps}
use ee_eq_cli.Convolver.{Samples}
use ee_eq_cli.Filter.{
  FilterNode, Cycle, Processed, on_process, initialize_on_worker, Stereo, Processor, ProcessorLaws,
  max_frames,
}

-- `Lv2HostCore`, with the preset that is applied to it.
pub record Lv2Host (Fl : Type 0) : Type 1 where
  pub Host : Type 0
  pub create_instance : (rate block_size : ℕ) → Host → Host × Bool
  pub apply_preset : Host → Host
  -- `connect_audio_ports` and `run`: input and side chain to output.
  pub run : Stereo Fl → Stereo Fl → Host → Host × Stereo Fl

module _ {Fl : Type 0} (H : Lv2Host Fl) where
  pub record Plugin : Type 0 where
    pub host : H.Host
    pub scratch_frames : ℕ

  -- `initialize_on_worker`, with the error of the node.
  abbrev instantiated : String → ℕ → ℕ → H.Host × Bool → Plugin × Option String
  instantiated failure frames scratch (host, false) =
      (record { host = host; scratch_frames = scratch }, some failure)
  instantiated failure frames scratch (host, true) =
      (record { host = H.apply_preset host; scratch_frames = max_frames frames }, none)

  abbrev pub setup : String → ℕ → ℕ → Plugin → Option (Plugin × Option String)
  setup failure rate frames x =
      some (instantiated failure frames x.scratch_frames (H.create_instance rate frames x.host))

  abbrev ran : ℕ → H.Host × Stereo Fl → Plugin × Stereo Fl
  ran scratch (host, out) = (record { host = host; scratch_frames = scratch }, out)

  -- The copy to the scratch vectors, and the plugin's run.
  abbrev pub render : ℕ → Bool → Stereo Fl → Stereo Fl → Plugin → Option (Plugin × Stereo Fl)
  render n locked input side x =
      if leb n x.scratch_frames then some (ran x.scratch_frames (H.run input side x.host)) else none

  abbrev lv2_processor : Bool → String → Processor Fl
  lv2_processor has_probe failure = record {
    State = Plugin;
    has_probe = has_probe;
    scratch = λ x. x.scratch_frames;
    setup = setup failure;
    render = render;
  }

  abbrev pub eq_processor : Processor Fl
  eq_processor = lv2_processor false "LV2 EQ instantiation failed"

  abbrev pub limiter_processor : Processor Fl
  limiter_processor = lv2_processor true "LV2 limiter instantiation failed"

  instantiated-scratch :
      (failure : String) (frames scratch : ℕ) (made : H.Host × Bool) (y : Plugin)
      → some (instantiated failure frames scratch made) ≡ some (y, none)
      → y.scratch_frames ≡ max_frames frames
  instantiated-scratch failure frames scratch (host, false) y h = cc
  instantiated-scratch failure frames scratch (host, true) y h =
      let q : y ≡ record { host = H.apply_preset host; scratch_frames = max_frames frames } = cc in
      ap (λ (p : Plugin). p.scratch_frames) q

  pub lv2_processor-ProcessorLaws :
      (has_probe : Bool) (failure : String) → ProcessorLaws (lv2_processor has_probe failure)
  lv2_processor-ProcessorLaws has_probe failure = record {
    setup-scratch = λ rate frames x y h.
        instantiated-scratch failure frames x.scratch_frames (H.create_instance rate frames x.host)
          y h;
    render-scratch = λ n locked i side x h. (
      ran x.scratch_frames (H.run i side x.host),
      let fit : leb n x.scratch_frames ≡ true = ground (arith, h) in
          ap (λ b. if b then some (ran x.scratch_frames (H.run i side x.host)) else none) fit,
      refl,
    );
  }

-- The two nodes' functions.
module _ {F : FloatOps} (S : Samples F) (H : Lv2Host F.Float) where
  unfoldable pub limiter_on_process :
      Cycle F.Float → FilterNode S (limiter_processor H) → Processed S (limiter_processor H)
  limiter_on_process c node = on_process S (limiter_processor H) c node

  unfoldable pub limiter_initialize_on_worker :
      ℕ → ℕ → FilterNode S (limiter_processor H) → FilterNode S (limiter_processor H)
  limiter_initialize_on_worker rate frames node =
      initialize_on_worker S (limiter_processor H) rate frames node
