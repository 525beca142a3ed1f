-- ===== src/Convolver.antt =====
-- The convolver's host (src/convolver_host.hpp and src/convolver_host.cpp). The convolution engine
-- (zita-convolver's `Convproc`), the sound file library and the arithmetic of `float` are
-- parameters. The mutex makes each call one step.
pub mod Blocks
pub mod Kernels
pub mod Host
pub mod Powers
pub mod Latency
pub mod Delay
mod Tests
use ee_eq_cli.Common.{ℕ, ℤ, Bool, String, List, Option}
use ee_eq_cli.Floats.{FloatOps}

-- The arithmetic of `float` that the host uses.
pub record Samples (F : FloatOps) : Type 0 where
  pub add_f : F.Float → F.Float → F.Float
  pub sub_f : F.Float → F.Float → F.Float
  pub mul_f : F.Float → F.Float → F.Float
  pub div_f : F.Float → F.Float → F.Float
  pub sqrt_f : F.Float → F.Float
  pub le_f : F.Float → F.Float → Bool
  -- `static_cast<float>(n) * 0.01F`
  pub hundredths : ℤ → F.Float

-- What SndfileHandle says of a file: `strError()` where `error()` is not 0, the frames that
-- `readf` reads, and the samples of all of them, the channels in turn.
pub record SoundFile (Fl : Type 0) : Type 0 where
  pub error : Option String
  pub frames : ℕ
  pub channels : ℕ
  pub samplerate : ℕ
  pub frames_read : ℕ
  pub buffer : List Fl

-- `ConvolverHost::KernelData`
pub record KernelData (Fl : Type 0) : Type 0 where
  pub rate : ℕ
  pub channels : ℕ
  pub left : List Fl
  pub right : List Fl
  pub left_right : List Fl
  pub right_left : List Fl

-- `Convproc`. A call that may fail returns whether it succeeds; `process` gives the engine's two
-- outputs for its two inputs.
pub record Engine (Fl : Type 0) : Type 1 where
  pub Convproc : Type 0
  pub new : Convproc
  pub configure : (size block_size : ℕ) → Convproc → Convproc × Bool
  pub impdata_create : (inp out : ℕ) → List Fl → Convproc → Convproc × Bool
  pub start_process : (fifo : Bool) → Convproc → Convproc × Bool
  -- `stop_process`, and the loop that waits for it.
  pub stop_process : Convproc → Convproc
  pub cleanup : Convproc → Convproc
  pub in_process : Convproc → Bool
  pub process : List Fl → List Fl → Convproc → Convproc × Option (List Fl × List Fl)
