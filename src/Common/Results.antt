-- ===== src/Common/Results.antt =====
-- The program's error convention: a function fills `std::string& error` and returns a default
-- value, and its caller tests `error.empty()`. Here the text travels as a value.
use Prim.Native.String.{String}
use mathlib.Core.Path.{◌≡◌, refl}

pub data Result {ℓ} (A : Type ℓ) : Type ℓ where
  ok : A → Result A
  err : String → Result A

-- A branch on a result: `if (!error.empty()) { … }`, and what follows.
abbrev pub on_result {ℓ κ} : {A : Type ℓ} {X : Type κ} → Result A → (String → X) → (A → X) → X
on_result (ok a) f g = g a
on_result (err e) f g = f e

pub on_result_cases {ℓ κ μ} :
    {A : Type ℓ} {X : Type κ} (P : X → Type μ) (r : Result A) {f : String → X} {g : A → X}
    → ((e : String) → r ≡ err e → P (f e))
    → ((a : A) → r ≡ ok a → P (g a))
    → P (on_result r f g)
on_result_cases P (ok a) p q = q a refl
on_result_cases P (err e) p q = p e refl
