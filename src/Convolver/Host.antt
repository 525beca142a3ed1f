-- ===== src/Convolver/Host.antt =====
-- The host's calls (src/convolver_host.cpp): load, validate_rate, ensure_ready, process,
-- process_zita_block, process_buffered and stop. The vectors `block_left_` and `block_right_` are
-- scratch space, and stand for no state.
use ee_eq_cli.Common.{
  ℕ, zero, suc, ◌-◌, ◌==◌, leb, Bool, true, false, not, ◌&&◌, ◌||◌, String, List, [], ◌++◌, Option,
  none, some, length, take, drop, replicate, decimal, ◌<>◌, Result, ok, err, on_option,
  if◌then◌else◌,
}
use ee_eq_cli.Floats.{FloatOps}
use ee_eq_cli.Preset.{ConvolverPreset}
use ee_eq_cli.Convolver.{Samples, SoundFile, KernelData, Engine}
use ee_eq_cli.Convolver.Blocks.{normalized_zita_block_size}
use ee_eq_cli.Convolver.Kernels.{load_kernel_file, apply_ir_width_and_autogain}

-- The samples that wait on both sides of the engine's blocks.
pub record Pending (Fl : Type 0) : Type 0 where
  pub input_left : List Fl
  pub input_right : List Fl
  pub output_left : List Fl
  pub output_right : List Fl

abbrev pub no_pending : {Fl : Type 0} → Pending Fl
no_pending = record { input_left = []; input_right = []; output_left = []; output_right = [] }

module _ {F : FloatOps} (S : Samples F) (E : Engine F.Float) where
  open F use {Double, Float, f_zero}
  open E use {Convproc, configure, impdata_create, start_process, stop_process, cleanup, in_process}

  pub record ConvolverHost : Type 0 where
    pub preset : ConvolverPreset Double
    pub kernel : KernelData Float
    pub original_kernel : KernelData Float
    pub conv : Option Convproc
    pub stream_block_size : ℕ
    pub block_size : ℕ
    pub pending : Pending Float
    pub ready : Bool

  -- A host that fails to load is dropped by its caller.
  unfoldable pub load :
      ConvolverPreset Double → SoundFile Float → ConvolverHost → Result ConvolverHost
  load preset file h = elim (load_kernel_file S file) [
    | err e ↦ err e
    | ok kernel ↦ ok (record h {
      preset = preset;
      original_kernel = kernel;
      kernel = apply_ir_width_and_autogain S preset kernel;
    })
  ]

  unfoldable pub validate_rate : ℕ → ConvolverHost → Option String
  validate_rate sample_rate h =
      if h.kernel.rate == 0 || h.kernel.rate == sample_rate
      then none
      else some (
          "convolver kernel sample rate "
          <> decimal h.kernel.rate
          <> " Hz does not match active stream rate "
          <> decimal sample_rate
          <> " Hz")

  -- The engine's calls in `ensure_ready`, each only where those before it succeed.
  abbrev and_then : Convproc × Bool → (Convproc → Convproc × Bool) → Convproc × Bool
  and_then (c, true) k = k c
  and_then (c, false) k = (c, false)

  abbrev cross_data : KernelData Float → Convproc → Convproc × Bool
  cross_data kernel c =
      if kernel.channels == 4
      then and_then (impdata_create 0 1 kernel.left_right c)
          (λ c. impdata_create 1 0 kernel.right_left c)
      else (c, true)

  -- With the realtime scheduler first, where the environment asks for it.
  abbrev or_else : Convproc × Bool → (Convproc → Convproc × Bool) → Convproc × Bool
  or_else (c, true) k = (c, true)
  or_else (c, false) k = k c

  abbrev cleaned : Convproc × Bool → Convproc × Bool
  cleaned (c, true) = (c, true)
  cleaned (c, false) = (cleanup c, false)

  abbrev start_engine : Bool → Convproc → Convproc × Bool
  start_engine fifo c =
      cleaned (
        if fifo
        then or_else (start_process true c) (start_process false)
        else start_process false c)

  abbrev pub build : Bool → KernelData Float → ℕ → Convproc → Convproc × Bool
  build fifo kernel block_size c = and_then (configure (length kernel.left) block_size c) (λ c.
      and_then (impdata_create 0 0 kernel.left c) (λ c.
        and_then (impdata_create 1 1 kernel.right c)
          (λ c. and_then (cross_data kernel c) (start_engine fifo))))

  abbrev stopped : Option Convproc → Option Convproc
  stopped none = none
  stopped (some c) = some (stop_process c)

  abbrev pub built : ConvolverHost → Convproc × Bool → ConvolverHost × Bool
  built h (c, false) = (record h { conv = some c }, false)
  built h (c, true) = (record h { conv = some c; pending = no_pending; ready = true }, true)

  -- The old engine is stopped and is gone when the new one takes its place.
  abbrev pub rebuild : Bool → ℕ → ℕ → ConvolverHost → ConvolverHost × Bool
  rebuild fifo stream_block_size block_size h =
      let fresh = record h {
        stream_block_size = stream_block_size;
        block_size = block_size;
        ready = false;
      } in
      built fresh (build fifo h.kernel block_size E.new)

  -- `fifo` is `use_realtime_convolver_thread()`. None where the block size is never found.
  unfoldable pub ensure_ready : Bool → ℕ → ConvolverHost → Option (ConvolverHost × Bool)
  ensure_ready fifo stream_block_size h =
      on_option (normalized_zita_block_size stream_block_size) none (λ block_size. some (
        if stream_block_size == 0 || block_size == 0
        then (h, false)
        else if h.ready && (h.stream_block_size == stream_block_size && h.block_size == block_size)
        then (h, true)
        else rebuild fifo stream_block_size block_size h))

  -- What a call of `process` leaves: the host, and the two buffers where it succeeds.
  pub record Processed : Type 0 where
    pub host : ConvolverHost
    pub buffers : Option (List Float × List Float)

  abbrev pub refused : ConvolverHost → Processed
  refused h = record { host = h; buffers = none }

  abbrev pub processed : ConvolverHost → Convproc × Option (List Float × List Float) → Processed
  processed h (c, out) = record { host = record h { conv = some c }; buffers = out }

  abbrev pub process_zita_block : List Float → List Float → ConvolverHost → Processed
  process_zita_block left right h =
      on_option h.conv (refused h) (λ c. processed h (E.process left right c))

  -- The end of a round of the loop.
  abbrev pub queue_block : Pending Float → ℕ → List Float × List Float → Pending Float
  queue_block p n (left, right) = record {
    input_left = drop n p.input_left;
    input_right = drop n p.input_right;
    output_left = p.output_left ++ left;
    output_right = p.output_right ++ right;
  }

  -- A host whose loop is over: it has failed or not.
  pub data Looped : Type 0 where
    over : ConvolverHost → Bool → Looped
    running : Looped

  abbrev pub after_block :
      (ConvolverHost → Looped) → ConvolverHost → Option (List Float × List Float) → Looped
  after_block next h none = over h false
  after_block next h (some out) =
      next (record h { pending = queue_block h.pending h.block_size out })

  -- A round of the loop, where there is a block.
  abbrev pub next_block : Bool → (ConvolverHost → Looped) → ConvolverHost → Looped
  next_block false next h = over h true
  next_block true next h =
      let r =
        process_zita_block (take h.block_size h.pending.input_left)
          (take h.block_size h.pending.input_right) h in
      after_block next r.host r.buffers

  -- The `while` loop; `rounds` bounds it.
  unfoldable pub process_blocks : ℕ → ConvolverHost → Looped
  process_blocks zero h = running
  process_blocks (suc rounds) h =
      next_block (leb h.block_size (length h.pending.input_left)) (process_blocks rounds) h

  -- Enough samples are ready, and go out.
  abbrev pub full : ℕ → ConvolverHost → Processed
  full n h =
      let p = h.pending in
      record {
        host = record h {
          pending = record p {
            output_left = drop n p.output_left;
            output_right = drop n p.output_right;
          };
        };
        buffers = some (take n p.output_left, take n p.output_right);
      }

  -- Too few are ready, and go out after zeros.
  abbrev pub short : ℕ → ConvolverHost → Processed
  short n h =
      let p = h.pending in
      let offset = n - length p.output_left in
      record {
        host = record h { pending = record p { output_left = []; output_right = [] } };
        buffers =
            some
              (replicate offset f_zero ++ p.output_left, replicate offset f_zero ++ p.output_right);
      }

  abbrev pub emit : ℕ → ConvolverHost → Processed
  emit n h = if leb n (length h.pending.output_left) then full n h else short n h

  abbrev pub end_loop : ℕ → ConvolverHost → Looped → Processed
  end_loop n h (over r true) = emit n r
  end_loop n h (over r false) = refused r
  end_loop n h running = refused h

  abbrev pub with_input : List Float → List Float → ConvolverHost → ConvolverHost
  with_input left right h = record h {
    pending = record (h.pending) {
      input_left = h.pending.input_left ++ left;
      input_right = h.pending.input_right ++ right;
    };
  }

  unfoldable pub process_buffered : List Float → List Float → ConvolverHost → Processed
  process_buffered left right h =
      let fed = with_input left right h in
      end_loop (length left) fed (process_blocks (suc (length fed.pending.input_left)) fed)

  abbrev runs : Option Convproc → Bool
  runs none = false
  runs (some c) = in_process c

  -- `locked` is whether the mutex is free.
  unfoldable pub process : Bool → List Float → List Float → ConvolverHost → Processed
  process locked left right h =
      if not locked || not h.ready
      then refused h
      else if not (runs h.conv)
      then refused h
      else if not (length left == h.stream_block_size) || not (length right == h.stream_block_size)
      then refused h
      else if not (h.stream_block_size == h.block_size)
      then process_buffered left right h
      else process_zita_block left right h

  unfoldable pub stop : ConvolverHost → ConvolverHost
  stop h = record h { conv = stopped h.conv; pending = no_pending; ready = false }
