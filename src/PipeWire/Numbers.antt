-- ===== src/PipeWire/Numbers.antt =====
-- `std::strtoul` and `std::strtoull` in base 10, as src/pipewire_router.cpp calls them: spaces, a
-- sign, digits; a number of more than 64 bits becomes the largest, and a minus sign negates
-- modulo 2^64.
use ee_eq_cli.Common.{
  ℕ, ◌+◌, ◌-◌, ◌*◌, ◌%◌, ◌^◌, ltb, leb, ◌==◌, Bool, ◌&&◌, ◌||◌, String, List, [], ◌∷◌, Option, none,
  some, on_option, if◌then◌else◌,
}
use ee_eq_cli.Kernel.{codes}

-- The value, and what `end` points to.
pub record Number : Type 0 where
  pub value : ℕ
  pub rest : List ℕ

abbrev is_space : ℕ → Bool
is_space c = c == 32 || leb 9 c && leb c 13

abbrev skip_spaces : List ℕ → List ℕ
skip_spaces [] = []
skip_spaces (c ∷ cs) = let rest = skip_spaces cs in if is_space c then rest else c ∷ cs

abbrev is_digit : ℕ → Bool
is_digit c = leb 48 c && leb c 57

abbrev digits : ℕ → List ℕ → Number
digits n [] = record { value = n; rest = [] }
digits n (c ∷ cs) =
    let more = digits (n * 10 + (c - 48)) cs in
    if is_digit c then more else record { value = n; rest = c ∷ cs }

abbrev saturate : ℕ → ℕ
saturate n = if ltb n (2 ^ 64) then n else 2 ^ 64 - 1

abbrev negate : ℕ → ℕ
negate n = if ltb n (2 ^ 64) then (2 ^ 64 - n) % 2 ^ 64 else 2 ^ 64 - 1

abbrev number : (ℕ → ℕ) → List ℕ → Option Number
number f [] = none
number f (c ∷ cs) =
    let n = digits 0 (c ∷ cs) in
    if is_digit c then some (record { value = f n.value; rest = n.rest }) else none

abbrev signed : List ℕ → Option Number
signed [] = none
signed (c ∷ cs) =
    if c == 45
    then number negate cs
    else if c == 43
    then number saturate cs
    else number saturate (c ∷ cs)

-- None where there is no number: `end` is the beginning and the value 0.
abbrev pub strtoull : String → Option Number
strtoull s = signed (skip_spaces (codes s))

-- `end != begin && *end == '\0'`: the number that the whole text is.
abbrev whole : Number → Option ℕ
whole n = elim n.rest [ [] ↦ some n.value | c ∷ cs ↦ none ]

abbrev pub whole_number : String → Option ℕ
whole_number s = on_option (strtoull s) none whole

unfoldable pub parse_uint32 : Option String → ℕ
parse_uint32 none = 0
parse_uint32 (some value) = on_option (strtoull value) 0 (λ n. n.value % 2 ^ 32)

unfoldable pub parse_uint64 : Option String → ℕ
parse_uint64 none = 0
parse_uint64 (some value) = on_option (strtoull value) 0 (λ n. n.value)
