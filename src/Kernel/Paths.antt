-- ===== src/Kernel/Paths.antt =====
-- What src/kernel_resolver.cpp uses of `std::filesystem::path`, on a system whose paths have
-- slashes.
use ee_eq_cli.Common.{
  ◌==◌, Bool, false, ◌||◌, String, Option, none, some, is_empty, ◌=s◌, ◌<>◌, code, starts_with,
  if◌then◌else◌, on_option,
}

-- 47 is the slash, 46 the dot.
abbrev has_slash : String → Bool
has_slash String.[] = false
has_slash (String.◌∷◌ c s) = code c == 47 || has_slash s

abbrev ends_with_slash : String → Bool
ends_with_slash String.[] = false
ends_with_slash (String.◌∷◌ c s) =
    let rest = ends_with_slash s in if is_empty s then code c == 47 else rest

-- `a / b`
unfoldable pub join : String → String → String
join a b =
    if starts_with b "/"
    then b
    else (if is_empty a || ends_with_slash a then a <> b else a <> ("/" <> b))

unfoldable pub filename : String → String
filename String.[] = ""
filename (String.◌∷◌ c s) =
    let rest = filename s in
    if has_slash s then rest else (if code c == 47 then s else String.◌∷◌ c s)

-- The parts before the last dot and from it on.
abbrev at_dot : String → Option (String × String)
at_dot String.[] = none
at_dot (String.◌∷◌ c s) =
    on_option (at_dot s) (if code c == 46 then some ("", String.◌∷◌ c s) else none)
      (λ p. some (String.◌∷◌ c p.0, p.1))

abbrev is_dots : String → Bool
is_dots f = f =s "." || f =s ".."

unfoldable pub stem : String → String
stem path =
    let f = filename path in
    if is_dots f then f else on_option (at_dot f) f (λ p. if is_empty p.0 then f else p.0)

unfoldable pub extension : String → String
extension path =
    let f = filename path in
    if is_dots f then "" else on_option (at_dot f) "" (λ p. if is_empty p.0 then "" else p.1)
