-- ===== src/Floats/Decimal.antt =====
-- Values for the float parameter on which tests run: thousandths, and a NaN. Only the comparisons
-- follow IEEE; the arithmetic rounds to thousandths.
use ee_eq_cli.Common.{
  ℕ, ℤ, pos, negsuc, ◌+◌, ◌-◌, ◌*◌, ◌/◌, ◌^◌, Bool, true, false, not, String, Option, none, some,
  ltb, ◌==◌, ◌≡◌, refl, ◌=s◌, arith, if◌then◌else◌,
}
use ee_eq_cli.Floats.{FloatOps, FloatLaws}

-- `minus n` is -(n + 1) thousandths.
pub data Decimal : Type 0 where
  plus minus : ℕ → Decimal
  nan : Decimal

abbrev lt : Decimal → Decimal → Bool
lt (plus a) (plus b) = ltb a b
lt (minus a) (plus b) = true
lt (plus a) (minus b) = false
lt (minus a) (minus b) = ltb b a
lt nan _ = false
lt _ nan = false

abbrev ne : Decimal → Decimal → Bool
ne (plus a) (plus b) = not (a == b)
ne (minus a) (minus b) = not (a == b)
ne _ _ = true

abbrev binary : (ℕ → ℕ → ℕ) → Decimal → Decimal → Decimal
binary f (plus a) (plus b) = plus (f a b)
binary f _ _ = nan

abbrev percent : Decimal → ℤ
percent (plus a) = pos (a / 10)
percent (minus a) = negsuc (a / 10)
percent nan = pos 0

-- The texts that the tests use.
abbrev read : String → Option (Decimal × ℕ)
read text =
    if text =s "0.5"
    then some (plus 500, 3)
    else (if text =s "1.5x"
        then some (plus 1500, 3)
        else (if text =s "2"
            then some (plus 2000, 1)
            else (if text =s "nan" then some (nan, 3) else none)))

abbrev pub decimals : FloatOps
decimals = record {
  Double = Decimal;
  Float = Decimal;
  dec = λ neg m k. if neg then minus (m * 1000 / 10 ^ k - 1) else plus (m * 1000 / 10 ^ k);
  of_nat = λ n. plus (n * 1000);
  add_d = binary (λ a b. a + b);
  sub_d = binary (λ a b. a - b);
  mul_d = binary (λ a b. a * b / 1000);
  div_d = binary (λ a b. a * 1000 / b);
  pow_d = binary (λ a b. a);
  f_zero = plus 0;
  f_one = plus 1000;
  f_max = plus 1500;
  f_lt = lt;
  f_ne = ne;
  percent = percent;
  stof = read;
}

ne_one : (v : Decimal) → ne v (plus 1000) ≡ false → v ≡ plus 1000
ne_one (plus a) h = ground arith
ne_one (minus a) h = ground arith
ne_one nan h = ground arith

pub decimals-FloatLaws : FloatLaws decimals
decimals-FloatLaws = record { ne_one = ne_one; one_not_below = refl; one_not_above = refl }
