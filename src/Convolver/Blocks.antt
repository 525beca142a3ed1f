-- ===== src/Convolver/Blocks.antt =====
-- The engine's block size (src/convolver_host.cpp, normalized_zita_block_size). `uint32_t` wraps
-- at 2^32.
use ee_eq_cli.Common.{
  ℕ, zero, suc, ◌+◌, ◌-◌, ◌*◌, ◌/◌, ◌%◌, ◌^◌, ltb, leb, ◌==◌, Bool, not, ◌&&◌, Option, none, some,
  on_option, if◌then◌else◌,
}

-- `a & b` of numbers of `bits` bits.
unfoldable pub bit_and : ℕ → ℕ → ℕ → ℕ
bit_and zero a b = 0
bit_and (suc bits) a b = (a % 2) * (b % 2) + 2 * bit_and bits (a / 2) (b / 2)

abbrev pub is_power_of_two : ℕ → Bool
is_power_of_two value = not (value == 0) && bit_and 32 value (value - 1) == 0

abbrev pub shift_left : ℕ → ℕ
shift_left n = (n * 2) % 2 ^ 32

-- The `while` loop; none while it runs.
unfoldable pub double_up : ℕ → ℕ → ℕ → Option ℕ
double_up zero limit block_size = none
double_up (suc rounds) limit block_size =
    let more = double_up rounds limit (shift_left block_size) in
    if leb (shift_left block_size) limit then more else some block_size

abbrev pub at_least_64 : ℕ → ℕ
at_least_64 n = if ltb n 64 then 64 else n

-- 32 rounds, which are enough below 2^31; above it the shift wraps, and unless the size is a power
-- of two the loop never ends.
unfoldable pub normalized_zita_block_size : ℕ → Option ℕ
normalized_zita_block_size stream_block_size =
    if stream_block_size == 0
    then some 0
    else if is_power_of_two stream_block_size
    then some (at_least_64 stream_block_size)
    else on_option (double_up 32 stream_block_size 1) none (λ n. some (at_least_64 n))
