-- ===== src/Common/Members.antt =====
-- Membership in a list of texts.
use mathlib.Core.Path.{◌≡◌, refl, ◌∙◌}
use mathlib.Core.Logic.{inl, inr}
use mathlib.Core.Bool.{true, false, ◌||◌}
use mathlib.Core.List.{List, [], ◌∷◌, ◌++◌}
use Prim.Native.String.{String}
use native.Mathlib.Omega.{arith}
use ee_eq_cli.Common.Text.{◌=s◌, =s_iff, contains}
use ee_eq_cli.Common.Lists.{All}
use ee_eq_cli.Common.Tests.{if◌then◌else◌, if_cases, Bool-cases}

abbrev pub Distinct : List String → Type 0
Distinct [] = Unit
Distinct (x ∷ xs) = (contains xs x ≡ false) × Distinct xs

-- `std::erase`
abbrev pub erase : List String → String → List String
erase [] x = []
erase (y ∷ ys) x = let rest = erase ys x in if y =s x then rest else y ∷ rest

pub =s_refl : (x : String) → (x =s x) ≡ true
=s_refl x = (=s_iff x x).1 refl

=s_comm_at : (x y : String) → y ≡ x → (x =s y) ≡ false → (y =s x) ≡ false
=s_comm_at x y p h = cc

pub =s_comm : (x y : String) → (x =s y) ≡ false → (y =s x) ≡ false
=s_comm x y h = elim (Bool-cases (y =s x)) [
  | inl e ↦ =s_comm_at x y ((=s_iff y x).0 e) h
  | inr e ↦ e
]

pub contains-append :
    (xs : List String) (x y : String) → contains (xs ++ (x ∷ [])) y ≡ (contains xs y || x =s y)
contains-append [] x y = ground arith
contains-append (z ∷ xs) x y = rw (contains-append xs x y) (ground arith)

pub Distinct-append :
    (xs : List String) (x : String)
    → contains xs x ≡ false
    → Distinct xs
    → Distinct (xs ++ (x ∷ []))
Distinct-append [] x h d = (refl, tt)
Distinct-append (z ∷ xs) x h (fresh, d) = (
  rw (contains-append xs x z, fresh, =s_comm z x (ground (arith, h))) refl,
  Distinct-append xs x (ground (arith, h)) d,
)

pub contains-erase :
    (xs : List String) (x y : String) → (x =s y) ≡ false → contains (erase xs x) y ≡ contains xs y
contains-erase [] x y n = refl
contains-erase (z ∷ xs) x y n =
    if_cases {A = List String} (λ l. contains l y ≡ contains (z ∷ xs) y) (z =s x)
      (λ e. rw ((=s_iff z x).0 e, n) (contains-erase xs x y n))
      (λ e. rw (contains-erase xs x y n) refl)

pub contains-erase_eq : (xs : List String) (x : String) → contains (erase xs x) x ≡ false
contains-erase_eq [] x = refl
contains-erase_eq (z ∷ xs) x =
    if_cases {A = List String} (λ l. contains l x ≡ false) (z =s x) (λ _. contains-erase_eq xs x)
      (λ e. rw e (contains-erase_eq xs x))

pub Distinct-erase : (xs : List String) (x : String) → Distinct xs → Distinct (erase xs x)
Distinct-erase [] x d = tt
Distinct-erase (z ∷ xs) x (fresh, d) =
    if_cases {A = List String} Distinct (z =s x) (λ _. Distinct-erase xs x d)
      (λ e. (contains-erase xs x z (=s_comm z x e) ∙ fresh, Distinct-erase xs x d))

module _ {κ} (P : String → Type κ) where
  pub All-erase : (xs : List String) (x : String) → All P xs → All P (erase xs x)
  All-erase [] x h = tt
  All-erase (z ∷ xs) x (p, h) =
      if_cases {A = List String} (All P) (z =s x) (λ _. All-erase xs x h)
        (λ _. (p, All-erase xs x h))
