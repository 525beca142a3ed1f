-- ===== src/Common/Text.antt =====
-- Texts: the C++ std::string operations that the program uses on whole texts.
use Prim.Native.String
use Prim.Native.String.append
use Prim.Native.String.{String}
pub use Prim.Native.Char.{Char, code}
pub use text.Mathlib.Text.{starts_with}
use text.Mathlib.Text.{◌==◌ as str_eq}
use text.Mathlib.TextEquality.{eq_iff}
use mathlib.Core.Path.{◌≡◌, refl, ap}
use mathlib.Core.Logic.{◌↔◌}
use mathlib.Core.Bool.{Bool, true, false, ◌||◌}
use mathlib.Core.List.{List, [], ◌∷◌}

-- `s.empty()`
abbrev pub is_empty : String → Bool
is_empty String.[] = true
is_empty (String.◌∷◌ c s) = false

infix 50 ◌=s◌
abbrev pub ◌=s◌ : String → String → Bool
◌=s◌ = str_eq

pub =s_iff : (s t : String) → ((s =s t) ≡ true) ↔ (s ≡ t)
=s_iff = eq_iff

infixr 65 ◌<>◌
abbrev pub ◌<>◌ : String → String → String
s <> t = String.◌++◌ s t

pub is_empty_iff : (s : String) → (is_empty s ≡ true) ↔ (s ≡ "")
is_empty_iff String.[] = (λ _. refl, λ _. refl)
is_empty_iff (String.◌∷◌ c s) = (λ h. cc, λ h. ap is_empty h)

-- `std::ranges::find(xs, x) != xs.end()`
abbrev pub contains : List String → String → Bool
contains [] x = false
contains (y ∷ ys) x = y =s x || contains ys x

pub is_empty-append : (s t : String) → is_empty s ≡ false → is_empty (s <> t) ≡ false
is_empty-append String.[] t h = cc
is_empty-append (String.◌∷◌ c s) t h = rw (append.cons c s t) refl
