-- ===== src/Convolver/Tests.antt =====
-- Tests of the convolver's host, and its theorems at an engine that gives its input back.
use ee_eq_cli.Common.{
  ℕ, true, false, List, [], ◌∷◌, none, some, ◌≡◌, refl, ◌⊎◌, length, ok, subst, arith,
}
use ee_eq_cli.Floats.Decimal.{Decimal, plus, decimals}
use ee_eq_cli.Preset.{no_convolver}
use ee_eq_cli.Convolver.{Samples, SoundFile, KernelData, Engine}
use ee_eq_cli.Convolver.Blocks.{normalized_zita_block_size, bit_and, double_up, at_least_64}
use ee_eq_cli.Convolver.Kernels.{load_kernel_file}
use ee_eq_cli.Convolver.Host.{ConvolverHost, no_pending, over, process_buffered, process_blocks}
use ee_eq_cli.Convolver.Latency.{EngineLaws}
use ee_eq_cli.Convolver.Delay.{Delayed, blocks_of, process_buffered-Delayed}
use ee_eq_cli.Convolver.Powers.{Close, normalized_zita_block_size-Close}

-- Blocks of 48,000 Hz streams.
block_of_1024 : normalized_zita_block_size 1024 ≡ some 1024
unfolding normalized_zita_block_size bit_and double_up
block_of_1024 = refl

block_of_1000 : normalized_zita_block_size 1000 ≡ some 512
unfolding normalized_zita_block_size bit_and double_up
block_of_1000 = refl

block_of_48 : normalized_zita_block_size 48 ≡ some 64
unfolding normalized_zita_block_size bit_and double_up
block_of_48 = refl

normalized_zita_block_size-Close_example :
    (r : ℕ) × (normalized_zita_block_size 1000 ≡ some (at_least_64 r)) × Close 1000 r
normalized_zita_block_size-Close_example =
    normalized_zita_block_size-Close 1000 (omega arith) (omega arith)

abbrev samples : Samples decimals
samples = record {
  add_f = λ a b. a;
  sub_f = λ a b. a;
  mul_f = λ a b. a;
  div_f = λ a b. a;
  sqrt_f = λ a. a;
  le_f = λ a b. false;
  hundredths = λ n. plus 0;
}

abbrev echo : Engine Decimal
echo = record {
  Convproc = Unit {0};
  new = tt;
  configure = λ size block c. (c, true);
  impdata_create = λ i o xs c. (c, true);
  start_process = λ fifo c. (c, true);
  stop_process = λ c. c;
  cleanup = λ c. c;
  in_process = λ c. true;
  process = λ l r c. (c, some (l, r));
}

echo-EngineLaws : EngineLaws echo
echo-EngineLaws = record {
  process-length = λ n l r c out hl hr e.
      let q : (l, r) ≡ out = cc in subst (λ o. (length o.0 ≡ n) × (length o.1 ≡ n)) q (hl, hr);
}

abbrev empty_kernel : KernelData Decimal
empty_kernel = record {
  rate = 48000;
  channels = 2;
  left = [];
  right = [];
  left_right = [];
  right_left = [];
}

-- A stream of three samples a call, and an engine of two.
abbrev host : ConvolverHost samples echo
host = record {
  preset = no_convolver decimals;
  kernel = empty_kernel;
  original_kernel = empty_kernel;
  conv = some tt;
  stream_block_size = 3;
  block_size = 2;
  pending = no_pending;
  ready = true;
}

abbrev three : List Decimal
three = plus 1 ∷ plus 2 ∷ plus 3 ∷ []

-- The first call puts one zero before its two samples.
first_call :
    (process_buffered samples echo three three host).buffers
    ≡ some (plus 0 ∷ plus 1 ∷ plus 2 ∷ [], plus 0 ∷ plus 1 ∷ plus 2 ∷ [])
unfolding process_buffered process_blocks
first_call = refl

process_buffered-Delayed_example :
    ((g : ConvolverHost samples echo) × (blocks_of samples echo echo-EngineLaws three three host
        ≡ over g false))
    ⊎ Delayed samples echo echo-EngineLaws host 3 (process_buffered samples echo three three host)
process_buffered-Delayed_example =
    process_buffered-Delayed samples echo echo-EngineLaws three three host refl
      (record { balanced = (refl, refl); delay = omega arith })

-- A stereo file, its samples in turn.
abbrev file : SoundFile Decimal
file = record {
  error = none;
  frames = 2;
  channels = 2;
  samplerate = 48000;
  frames_read = 2;
  buffer = plus 1 ∷ plus 10 ∷ plus 2 ∷ plus 20 ∷ [];
}

loads_stereo :
    load_kernel_file samples file
    ≡ ok (record empty_kernel { left = plus 1 ∷ plus 2 ∷ []; right = plus 10 ∷ plus 20 ∷ [] })
unfolding load_kernel_file
loads_stereo = refl
