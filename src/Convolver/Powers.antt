-- ===== src/Convolver/Powers.antt =====
-- The engine's block size is a power of two, close to the stream's (src/convolver_host.cpp,
-- is_power_of_two and normalized_zita_block_size).
use ee_eq_cli.Common.{
  ℕ, zero, suc, ◌+◌, ◌-◌, ◌*◌, ◌/◌, ◌%◌, ◌≤◌, ◌<◌, leb, ◌==◌, Option, none, some, ◌≡◌, refl, sym,
  ap, subst, ◌∙◌, ◌⊎◌, inl, inr, on_option, if_cases, Bool-cases, arith,
}
use ee_eq_cli.Convolver.Blocks.{
  bit_and, is_power_of_two, shift_left, double_up, at_least_64, normalized_zita_block_size,
}

abbrev pub pow2 : ℕ → ℕ
pow2 zero = 1
pow2 (suc k) = pow2 k * 2

parity : (u : ℕ) → (u % 2 ≡ 0) ⊎ (u % 2 ≡ 1)
parity u = elim (Bool-cases (u % 2 == 0)) [
  | inl e ↦ inl (ground (arith, e))
  | inr e ↦ inr (ground (arith, e))
]

bit_and-same : (bits u : ℕ) → u < pow2 bits → bit_and bits u u ≡ 0 → u ≡ 0
unfolding bit_and
bit_and-same zero u below h = omega (arith, below)
bit_and-same (suc bits) u below h =
    let sum : (u % 2) * (u % 2) + 2 * bit_and bits (u / 2) (u / 2) ≡ 0 = h in
    let half : u / 2 ≡ 0 = bit_and-same bits (u / 2) (omega (arith, below)) (omega (arith, sum)) in
    elim (parity u) [
      | inl e ↦ omega (arith, half, e)
      | inr e ↦
          absurd (let one : (u % 2) * (u % 2) ≡ 1 = ap (λ d. d * d) e in omega (arith, sum, one))
    ]

bit_and-pow2 :
    (bits v : ℕ) → 1 ≤ v → v < pow2 bits → bit_and bits v (v - 1) ≡ 0 → (k : ℕ) × (v ≡ pow2 k)
unfolding bit_and
bit_and-pow2 zero v pos below h = absurd (omega (arith, pos, below))
bit_and-pow2 (suc bits) v pos below h =
    let sum : (v % 2) * ((v - 1) % 2) + 2 * bit_and bits (v / 2) ((v - 1) / 2) ≡ 0 = h in
    elim (parity v) [
      | inl e ↦
          let same : (v - 1) / 2 ≡ v / 2 - 1 = omega (arith, e, pos) in
          let (k, q) =
            bit_and-pow2 bits (v / 2) (omega (arith, e, pos)) (omega (arith, below))
              (ap (bit_and bits (v / 2)) (sym same) ∙ omega (arith, sum)) in
          (suc k, omega (arith, e, q))
      | inr e ↦
          let same : (v - 1) / 2 ≡ v / 2 = omega (arith, e) in
          let none_left : v / 2 ≡ 0 =
            bit_and-same bits (v / 2) (omega (arith, below))
              (ap (bit_and bits (v / 2)) (sym same) ∙ omega (arith, sum)) in
          (0, omega (arith, e, none_left))
    ]

-- Close below the size, and a power of two.
abbrev pub Close : ℕ → ℕ → Type 0
Close n r = (k : ℕ) × (r ≡ pow2 k) × (r ≤ n) × (n < r * 2)

-- The loop starts at a power of two, and has rounds for those that are left.
double_up-Close :
    (rounds limit k : ℕ)
    → pow2 k ≤ limit
    → limit < 2147483648
    → rounds + k ≡ 32
    → (r : ℕ) × (double_up rounds limit (pow2 k) ≡ some r) × Close limit r
unfolding double_up
double_up-Close zero limit k low high enough = absurd (
    let last : k ≡ 32 = omega (arith, enough) in
    let q : pow2 k ≡ 4294967296 = ap pow2 last in omega (arith, low, high, q))
double_up-Close (suc rounds) limit k low high enough =
    if_cases {A = Option ℕ} (λ o. (r : ℕ) × (o ≡ some r) × Close limit r)
      (leb (shift_left (pow2 k)) limit)
      (λ e.
        subst (λ b. (r : ℕ) × (double_up rounds limit b ≡ some r) × Close limit r) (sym doubled)
          (double_up-Close rounds limit (suc k) (subst (λ b. b ≤ limit) doubled (ground (arith, e)))
            high (omega (arith, enough))))
      (λ e. (pow2 k, refl, (k, refl, low, subst (λ b. limit < b) doubled (ground (arith, e)))))
  where
    doubled : shift_left (pow2 k) ≡ pow2 k * 2
    doubled = omega (arith, low, high)

-- What the engine gets for a stream's block size: at least 64, and otherwise the largest power of
-- two that is not above the size.
pub normalized_zita_block_size-Close :
    (n : ℕ)
    → 1 ≤ n
    → n < 2147483648
    → (r : ℕ) × (normalized_zita_block_size n ≡ some (at_least_64 r)) × Close n r
unfolding normalized_zita_block_size
normalized_zita_block_size-Close n pos small =
    if_cases {A = Option ℕ} (λ o. (r : ℕ) × (o ≡ some (at_least_64 r)) × Close n r) (n == 0)
      (λ z. absurd (ground (arith, z, pos)))
      (λ z.
        if_cases {A = Option ℕ} (λ o. (r : ℕ) × (o ≡ some (at_least_64 r)) × Close n r)
          (is_power_of_two n)
          (λ e.
            let bits : bit_and 32 n (n - 1) ≡ 0 = ground (arith, e) in
            let (k, q) = bit_and-pow2 32 n pos (omega (arith, small)) bits in
            (n, refl, (k, q, omega arith, omega (arith, pos))))
          (λ e.
            let (r, found, close) = double_up-Close 32 n 0 pos small refl in
            (r, ap (λ o. on_option o none (λ m. some (at_least_64 m))) found, close)))
