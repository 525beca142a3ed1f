-- ===== src/Filter/Tests.antt =====
-- Tests of the filter nodes, and their theorem at a plugin that gives its input back.
use ee_eq_cli.Common.{Bool, true, false, List, [], ◌∷◌, Option, none, some, ◌≡◌, refl, arith}
use ee_eq_cli.Floats.Decimal.{Decimal, plus, decimals}
use ee_eq_cli.Convolver.{Samples}
use ee_eq_cli.Filter.{
  Cycle, Processor, FilterNode, new_node, is_ready, on_process, initialize_on_worker, Processed,
  idle, wrote, out_of_range,
}
use ee_eq_cli.Filter.Lv2.{Lv2Host, eq_processor, lv2_processor-ProcessorLaws}
use ee_eq_cli.Filter.Safety.{Safe, new_node-Safe}
use ee_eq_cli.Filter.Events.{Event, cycle, worker, after_events, after_events-Safe}

-- Gains in thousandths are not used here: the plugin copies.
abbrev samples : Samples decimals
samples = record {
  add_f = λ a b. a;
  sub_f = λ a b. a;
  mul_f = λ a b. a;
  div_f = λ a b. a;
  sqrt_f = λ a. a;
  le_f = λ a b. false;
  hundredths = λ n. plus 0;
}

abbrev copying : Lv2Host Decimal
copying = record {
  Host = Unit {0};
  create_instance = λ rate frames h. (h, true);
  apply_preset = λ h. h;
  run = λ input side h. (h, input);
}

abbrev equalizer : Processor Decimal
equalizer = eq_processor copying

abbrev fresh : FilterNode samples equalizer
fresh =
    new_node samples equalizer false (plus 1000) (plus 1000)
      (record { host = tt; scratch_frames = 0 })

-- Two frames a cycle, with no buffer on the right output.
abbrev two_frames : Cycle Decimal
two_frames = record {
  rate = 48000;
  n_samples = 2;
  in_left = some (plus 1 ∷ plus 2 ∷ []);
  in_right = some (plus 3 ∷ plus 4 ∷ []);
  probe_left = none;
  probe_right = none;
  out_left = some (plus 0 ∷ plus 0 ∷ []);
  out_right = none;
  volume = plus 1000;
  locked = true;
}

abbrev events : List (
    Event samples equalizer
      (lv2_processor-ProcessorLaws copying false "LV2 EQ instantiation failed"))
events = cycle two_frames (omega arith) ∷ worker ∷ cycle two_frames (omega arith) ∷ []

after_events-Safe_example :
    (m : FilterNode samples equalizer) × (after_events samples equalizer
        (lv2_processor-ProcessorLaws copying false "LV2 EQ instantiation failed")
        events
        fresh
      ≡ some m)
    × Safe samples equalizer m
after_events-Safe_example =
    after_events-Safe samples equalizer
      (lv2_processor-ProcessorLaws copying false "LV2 EQ instantiation failed") events fresh
      (new_node-Safe samples equalizer false (plus 1000) (plus 1000)
        (record { host = tt; scratch_frames = 0 }))

abbrev ready_after : Option (FilterNode samples equalizer) → Bool
ready_after none = false
ready_after (some m) = is_ready samples equalizer m

-- The node is ready after its initialization.
becomes_ready :
    ready_after (
      after_events samples equalizer
        (lv2_processor-ProcessorLaws copying false "LV2 EQ instantiation failed")
        events
        fresh)
    ≡ true
unfolding is_ready on_process initialize_on_worker
becomes_ready = refl

-- A cycle of 9,000 frames without buffers, before the first initialization, reads beyond them.
abbrev is_out_of_range : Processed samples equalizer → Bool
is_out_of_range (idle node) = false
is_out_of_range (wrote node out) = false
is_out_of_range out_of_range = true

large_cycle :
    is_out_of_range (on_process samples equalizer (record two_frames { n_samples = 9000 }) fresh)
    ≡ true
unfolding on_process
large_cycle = refl
