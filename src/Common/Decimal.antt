-- ===== src/Common/Decimal.antt =====
-- Numbers as `std::format("{}", n)` writes them.
use Prim.Native.Nat.{ℕ, zero, suc, ◌/◌, ◌%◌, ◌+◌}
use Prim.Native.String.{String}
use ee_eq_cli.Common.Text.{◌<>◌}
use ee_eq_cli.Common.Tests.{ltb, if◌then◌else◌}
use ee_eq_cli.Common.Integers.{ℤ, pos, negsuc}

abbrev digit : ℕ → String
digit zero = "0"
digit (suc zero) = "1"
digit (suc (suc zero)) = "2"
digit (suc (suc (suc zero))) = "3"
digit (suc (suc (suc (suc zero)))) = "4"
digit (suc (suc (suc (suc (suc zero))))) = "5"
digit (suc (suc (suc (suc (suc (suc zero)))))) = "6"
digit (suc (suc (suc (suc (suc (suc (suc zero))))))) = "7"
digit (suc (suc (suc (suc (suc (suc (suc (suc zero)))))))) = "8"
digit (suc (suc (suc (suc (suc (suc (suc (suc (suc n))))))))) = "9"

-- With the fuel 20, numbers of up to 20 digits, as those of 64 bits are.
abbrev decimal_at : ℕ → ℕ → String
decimal_at zero n = ""
decimal_at (suc fuel) n =
    let high = decimal_at fuel (n / 10) in if ltb n 10 then digit n else high <> digit (n % 10)

abbrev pub decimal : ℕ → String
decimal n = decimal_at 20 n

abbrev pub signed_decimal : ℤ → String
signed_decimal (pos n) = decimal n
signed_decimal (negsuc n) = "-" <> decimal (n + 1)
