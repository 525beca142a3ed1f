-- ===== src/Json/Reading.antt =====
-- Reading back what was written.
use ee_eq_cli.Common.{
  true, false, String, List, some, ◌≡◌, ◌∙◌, sym, ap, ◌=s◌, Bool-cases, inl, inr,
}
use ee_eq_cli.Floats.{FloatOps}
use ee_eq_cli.Json.{JsonLib, JsonLaws, Codec, lookup}
use ee_eq_cli.Outcome.{ok, ◌>>=◌}

module _ {F : FloatOps} {J : JsonLib F} (L : JsonLaws J) where
  open J use {Json, object, set_key, is_object, contains, at_key, value}

  -- `value` at a member of an object that holds `x`.
  pub value-object :
      {A : Type 0} (c : Codec Json A) (m : List (String × Json)) (k : String) (d x : A)
      → lookup k m ≡ some (c.put x)
      → c.get (c.put x) ≡ ok x
      → value c (object m) k d ≡ ok x
  value-object c m k d x e g =
      L.value-present c (object m) k d (L.object-is_object m) (L.object-contains m k (c.put x) e)
      ∙ ap (λ o. o >>= c.get) (L.object-at m k (c.put x) e)
      ∙ g

  pub value-set :
      {A : Type 0} (c : Codec Json A) (j : Json) (k : String) (d x : A)
      → is_object j ≡ true
      → c.get (c.put x) ≡ ok x
      → value c (set_key j k (c.put x)) k d ≡ ok x
  value-set c j k d x o g =
      L.value-present c (set_key j k (c.put x)) k d (L.set-is_object j k (c.put x) o)
        (L.set-contains j k (c.put x) o)
      ∙ ap (λ r. r >>= c.get) (L.set-at j k (c.put x) o)
      ∙ g

  pub value-set_ne :
      {A : Type 0} (c : Codec Json A) (j : Json) (k l : String) (v : Json) (d : A)
      → is_object j ≡ true
      → (k =s l) ≡ false
      → value c (set_key j k v) l d ≡ value c j l d
  value-set_ne c j k l v d o n = elim (Bool-cases (contains j l)) [
    | inl has ↦
        L.value-present c (set_key j k v) l d (L.set-is_object j k v o)
          (L.set-contains_ne j k l v o n ∙ has)
        ∙ ap (λ r. r >>= c.get) (L.set-at_ne j k l v o n)
        ∙ sym (L.value-present c j l d o has)
    | inr lacks ↦
        L.value-absent c (set_key j k v) l d (L.set-is_object j k v o)
          (L.set-contains_ne j k l v o n ∙ lacks)
        ∙ sym (L.value-absent c j l d o lacks)
  ]
