-- ===== src/Floats.antt =====
-- The floating-point types and the operations on them that the program uses. The language has
-- them and antt does not, so they are a parameter of the model.
pub mod Decimal
use ee_eq_cli.Common.{ℕ, ℤ, Bool, false, Option, String, ◌≡◌}

pub record FloatOps : Type 1 where
  pub Double : Type 0
  pub Float : Type 0
  -- The literal `m / 10^k`, negated if the flag is set.
  pub dec : Bool → ℕ → ℕ → Double
  pub of_nat : ℕ → Double
  pub add_d : Double → Double → Double
  pub sub_d : Double → Double → Double
  pub mul_d : Double → Double → Double
  pub div_d : Double → Double → Double
  pub pow_d : Double → Double → Double
  -- The `float` literals 0.0F, 1.0F and 1.5F, `<` and `!=`.
  pub f_zero : Float
  pub f_one : Float
  pub f_max : Float
  pub f_lt : Float → Float → Bool
  pub f_ne : Float → Float → Bool
  -- `static_cast<int>(v * 100.0F)`
  pub percent : Float → ℤ
  -- `std::stof`: the value and the number of bytes read, or none where it throws.
  pub stof : String → Option (Float × ℕ)

-- What IEEE comparison gives: `x != 1.0F` fails only at 1.0F, which lies between 0.0F and 1.5F.
pub record FloatLaws (F : FloatOps) : Type 0 where
  pub ne_one : (v : F.Float) → F.f_ne v F.f_one ≡ false → v ≡ F.f_one
  pub one_not_below : F.f_lt F.f_one F.f_zero ≡ false
  pub one_not_above : F.f_lt F.f_max F.f_one ≡ false
