-- ===== src/Convolver/Kernels.antt =====
-- Reading a kernel and shaping it (src/convolver_host.cpp, load_kernel_file, normalize_kernel,
-- apply_ir_width_and_autogain).
use ee_eq_cli.Common.{
  ℕ, zero, suc, ◌+◌, ◌*◌, ◌==◌, Bool, not, ◌&&◌, ◌||◌, ℤ, String, List, [], ◌∷◌, map, Option, none,
  some, get_elem?, ◌<>◌, Result, ok, err, if◌then◌else◌,
}
use ee_eq_cli.Floats.{FloatOps}
use ee_eq_cli.Preset.{ConvolverPreset}
use ee_eq_cli.Convolver.{Samples, SoundFile, KernelData}

module _ {F : FloatOps} (S : Samples F) where
  open F use {Double, Float, f_zero, f_one, f_lt}
  open S use {add_f, sub_f, mul_f, div_f, sqrt_f, le_f, hundredths}

  abbrev value_at : Option Float → Float
  value_at none = f_zero
  value_at (some x) = x

  -- `buffer[stride * i + offset]` for `n` frames from the `i`-th on; a new vector is of zeros.
  abbrev pub column : ℕ → ℕ → List Float → ℕ → ℕ → List Float
  column stride offset buffer i zero = []
  column stride offset buffer i (suc n) =
      value_at (get_elem? buffer (stride * i + offset)) ∷ column stride offset buffer (i + 1) n

  abbrev pub kernel_of : SoundFile Float → KernelData Float
  kernel_of f =
      let take_column = λ (offset : ℕ). column f.channels offset f.buffer 0 f.frames in
      if f.channels == 4
      then record {
        rate = f.samplerate;
        channels = 4;
        left = take_column 0;
        right = take_column 3;
        left_right = take_column 1;
        right_left = take_column 2;
      }
      else record {
        rate = f.samplerate;
        channels = 2;
        left = take_column 0;
        right = if f.channels == 1 then take_column 0 else take_column 1;
        left_right = [];
        right_left = [];
      }

  abbrev open_error : SoundFile Float → Option String
  open_error f = f.error

  unfoldable pub load_kernel_file : SoundFile Float → Result (KernelData Float)
  load_kernel_file f = elim f.error [
    | some e ↦ err ("failed to open convolver kernel: " <> e)
    | none ↦
        if f.frames == 0
          || (not (f.channels == 1) && not (f.channels == 2) && not (f.channels == 4))
        then err "only mono, stereo, and true stereo impulse files are supported"
        else if not (f.frames_read == f.frames)
        then err "failed to read complete convolver kernel file"
        else ok (kernel_of f)
  ]

  -- The sum of the squares, in the order of the loop.
  abbrev power_from : Float → List Float → Float
  power_from p [] = p
  power_from p (x ∷ xs) = power_from (add_f p (mul_f x x)) xs

  abbrev pub power : List Float → Float
  power xs = power_from f_zero xs

  -- `std::max` keeps the first of two equal values, `std::min` too.
  abbrev max_f : Float → Float → Float
  max_f a b = if f_lt a b then b else a

  abbrev min_f : Float → Float → Float
  min_f a b = if f_lt b a then b else a

  abbrev four : KernelData Float → Bool
  four kernel = kernel.channels == 4

  abbrev pub kernel_power : KernelData Float → Float
  kernel_power kernel =
      max_f
        (max_f (max_f (power kernel.left) (power kernel.right))
          (if four kernel then power kernel.left_right else f_zero))
        (if four kernel then power kernel.right_left else f_zero)

  abbrev scale : Float → List Float → List Float
  scale gain xs = map (λ x. mul_f x gain) xs

  unfoldable pub normalize_kernel : KernelData Float → KernelData Float
  normalize_kernel kernel =
      let gain = min_f f_one (div_f f_one (sqrt_f (kernel_power kernel))) in
      if le_f (kernel_power kernel) f_zero then kernel else record kernel {
        left = scale gain kernel.left;
        right = scale gain kernel.right;
        left_right = if four kernel then scale gain kernel.left_right else kernel.left_right;
        right_left = if four kernel then scale gain kernel.right_left else kernel.right_left;
      }

  -- Both lists have the kernel's length.
  abbrev zip_with : (Float → Float → Float) → List Float → List Float → List Float
  zip_with f [] ys = []
  zip_with f (x ∷ xs) [] = []
  zip_with f (x ∷ xs) (y ∷ ys) = f x y ∷ zip_with f xs ys

  -- `x` of the source, from the width.
  abbrev crossfeed : ℤ → Float
  crossfeed ir_width = div_f (sub_f f_one (hundredths ir_width)) (add_f f_one (hundredths ir_width))

  abbrev pub widened : ℤ → KernelData Float → KernelData Float
  widened ir_width k =
      let x = crossfeed ir_width in
      let plus = λ (a : Float). λ (b : Float). add_f a (mul_f x b) in
      let minus = λ (a : Float). λ (b : Float). sub_f a (mul_f x b) in
      record k {
        left = zip_with plus k.left k.right;
        right = zip_with plus k.right k.left;
        left_right = if four k then zip_with minus k.left_right k.right_left else k.left_right;
        right_left = if four k then zip_with minus k.right_left k.left_right else k.right_left;
      }

  unfoldable pub apply_ir_width_and_autogain :
      ConvolverPreset Double → KernelData Float → KernelData Float
  apply_ir_width_and_autogain preset original_kernel =
      let kernel = widened preset.ir_width original_kernel in
      if preset.autogain then normalize_kernel kernel else kernel
