-- ===== src/Common/Search.antt =====
-- Searches of a sequence: the standard algorithms `find_if`, `any_of`, `count_if` and `erase_if`,
-- and `std::vector::push_back`.
use Prim.Native.Nat.{ℕ, suc}
use mathlib.Core.Path.{◌≡◌, refl, subst}
use mathlib.Core.Bool.{Bool, true, false, ◌||◌}
use mathlib.Core.Option.{Option, none, some}
use mathlib.Core.List.{List, [], ◌∷◌, ◌++◌}
use native.Mathlib.Omega.{arith}
use ee_eq_cli.Common.Tests.{if◌then◌else◌, if_cases, ◌==◌}
use ee_eq_cli.Common.Lists.{All}

module _ {ℓ} {A : Type ℓ} (test : A → Bool) where
  abbrev pub any : List A → Bool
  any [] = false
  any (x ∷ xs) = test x || any xs

  -- The first member that passes.
  abbrev pub find : List A → Option A
  find [] = none
  find (x ∷ xs) = let rest = find xs in if test x then some x else rest

  abbrev pub count : List A → ℕ
  count [] = 0
  count (x ∷ xs) = let rest = count xs in if test x then suc rest else rest

  -- The members that pass, in their order.
  abbrev pub keep : List A → List A
  keep [] = []
  keep (x ∷ xs) = let rest = keep xs in if test x then x ∷ rest else rest

  pub find-test : (xs : List A) (a : A) → find xs ≡ some a → test a ≡ true
  find-test [] a = λ h. cc
  find-test (x ∷ xs) a =
      if_cases {A = Option A} (λ o. o ≡ some a → test a ≡ true) (test x)
        (λ e h. let p : x ≡ a = cc in subst_test p e) (λ e h. find-test xs a h)
    where
      subst_test : {x y : A} → x ≡ y → test x ≡ true → test y ≡ true
      subst_test p e = cc

  pub any-append : (xs ys : List A) → any (xs ++ ys) ≡ (any xs || any ys)
  any-append [] ys = refl
  any-append (x ∷ xs) ys = rw (any-append xs ys) (ground arith)

  pub any-append_left : (xs ys : List A) → any xs ≡ true → any (xs ++ ys) ≡ true
  any-append_left xs ys h = rw (any-append xs ys, h) refl

  module _ {κ} (P : A → Type κ) where
    pub keep-All : (xs : List A) → ((x : A) → test x ≡ true → P x) → All P (keep xs)
    keep-All [] h = tt
    keep-All (x ∷ xs) h =
        if_cases {A = List A} (All P) (test x) (λ e. (h x e, keep-All xs h)) (λ e. keep-All xs h)

module _ {ℓ κ μ} {A : Type ℓ} (P : A → Type κ) (Q : A → Type μ) where
  pub map-All : (xs : List A) → ((x : A) → P x → Q x) → All P xs → All Q xs
  map-All [] f h = tt
  map-All (x ∷ xs) f (p, h) = (f x p, map-All xs f h)

  pub All-keep :
      (test : A → Bool) (xs : List A)
      → ((x : A) → test x ≡ true → P x → Q x)
      → All P xs
      → All Q (keep test xs)
  All-keep test [] f h = tt
  All-keep test (x ∷ xs) f (p, h) =
      if_cases {A = List A} (All Q) (test x) (λ e. (f x e p, All-keep test xs f h))
        (λ e. All-keep test xs f h)

module _ {ℓ κ} {A : Type ℓ} (P : A → Type κ) where
  pub find-All : (test : A → Bool) (xs : List A) (a : A) → All P xs → find test xs ≡ some a → P a
  find-All test [] a h = λ e. cc
  find-All test (x ∷ xs) a (p, h) =
      if_cases {A = Option A} (λ o. o ≡ some a → P a) (test x)
        (λ e q. subst P (let r : x ≡ a = cc in r) p) (λ e q. find-All test xs a h q)

-- `push_back`
abbrev pub push_back {ℓ} : {A : Type ℓ} → List A → A → List A
push_back xs x = xs ++ (x ∷ [])

abbrev pub has : ℕ → List ℕ → Bool
has n = any (λ x. x == n)
