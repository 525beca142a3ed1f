-- ===== src/Outcome.antt =====
-- A computation that fills the program's error text, or in which the JSON library throws.
use ee_eq_cli.Common.{is_empty, if◌then◌else◌, Bool, true, false, String, ◌≡◌, refl, subst}

pub data Outcome {ℓ} (A : Type ℓ) : Type ℓ where
  ok : A → Outcome A
  err : String → Outcome A
  throw : String → Outcome A

-- Run `k` on the value; an error text or an exception ends the function.
infixl 5 ◌>>=◌ ◌>>◌
abbrev pub ◌>>=◌ {ℓ κ} : {A : Type ℓ} {X : Type κ} → Outcome A → (A → Outcome X) → Outcome X
throw what >>= k = throw what
err e >>= k = err e
ok a >>= k = k a

abbrev pub ◌>>◌ {κ} : {X : Type κ} → Outcome (Unit {0}) → Outcome X → Outcome X
check >> rest = check >>= λ _. rest

-- `if (!test) { error = e; return {}; }`
abbrev pub require : Bool → String → Outcome (Unit {0})
require true e = ok tt
require false e = err e

-- What succeeds has run all its parts.
module _ {ℓ κ} {A : Type ℓ} {X : Type κ} where
  pub bind_inv :
      (m : Outcome A) (k : A → Outcome X) {x : X}
      → (m >>= k) ≡ ok x
      → (a : A) × (m ≡ ok a) × (k a ≡ ok x)
  bind_inv (ok a) k h = (a, refl, h)
  bind_inv (err e) k h = cc
  bind_inv (throw e) k h = cc

module _ {κ} {X : Type κ} where
  pub require_inv :
      (test : Bool) (e : String) (rest : Outcome X) {x : X}
      → (require test e >> rest) ≡ ok x
      → (test ≡ true) × (rest ≡ ok x)
  require_inv true e rest h = (refl, h)
  require_inv false e rest h = cc

pub ok_inj {ℓ} : {A : Type ℓ} {x y : A} → ◌≡◌ {A = Outcome A} (ok x) (ok y) → x ≡ y
ok_inj h = cc

-- `P` of the value, if there is one.
module _ {ℓ κ} {X : Type ℓ} (P : X → Type κ) where
  pub record Holds (m : Outcome X) : Type (ℓ ⊔ κ) where
    pub at : {x : X} → m ≡ ok x → P x

  pub ok-Holds : {x : X} → P x → Holds (ok x)
  ok-Holds p = record { at = λ h. subst P (ok_inj h) p }

  pub err-Holds : (e : String) → Holds (err e)
  err-Holds e = record { at = λ h. cc }

  pub bind-Holds {μ} :
      {A : Type μ} (m : Outcome A) (k : A → Outcome X)
      → ((a : A) → m ≡ ok a → Holds (k a))
      → Holds (m >>= k)
  bind-Holds (ok a) k f = f a refl
  bind-Holds (err e) k f = err-Holds e
  bind-Holds (throw what) k f = record { at = λ h. cc }

  pub require-Holds :
      (test : Bool) (e : String) (rest : Outcome X)
      → (test ≡ true → Holds rest)
      → Holds (require test e >> rest)
  require-Holds true e rest f = f refl
  require-Holds false e rest f = err-Holds e

-- An error text that is not empty: the caller tests `error.empty()`.
pub record Explained {ℓ} {X : Type ℓ} (m : Outcome X) : Type ℓ where
  pub at : {e : String} → m ≡ err e → is_empty e ≡ false

module _ {ℓ} {X : Type ℓ} where
  pub ok-Explained : (x : X) → Explained (ok x)
  ok-Explained x = record { at = λ h. cc }

  pub throw-Explained : (what : String) → Explained {X = X} (throw what)
  throw-Explained what = record { at = λ h. cc }

  pub err-Explained : (e : String) → is_empty e ≡ false → Explained {X = X} (err e)
  err-Explained e n = record { at = λ h. subst (λ e. is_empty e ≡ false) (text_of h) n }
    where
      text_of : {d e : String} → ◌≡◌ {A = Outcome X} (err d) (err e) → d ≡ e
      text_of h = cc

  pub bind-Explained {μ} :
      {A : Type μ} (m : Outcome A) (k : A → Outcome X)
      → Explained m
      → ((a : A) → m ≡ ok a → Explained (k a))
      → Explained (m >>= k)
  bind-Explained (ok a) k w f = f a refl
  bind-Explained (err e) k w f = err-Explained e (w.at refl)
  bind-Explained (throw what) k w f = throw-Explained what

  pub require-Explained :
      (test : Bool) (e : String) (rest : Outcome X)
      → is_empty e ≡ false
      → Explained rest
      → Explained (require test e >> rest)
  require-Explained true e rest n w = w
  require-Explained false e rest n w = err-Explained e n

  pub if-Explained :
      (b : Bool) (x y : Outcome X) → Explained x → Explained y → Explained (if b then x else y)
  if-Explained true x y v w = v
  if-Explained false x y v w = w
