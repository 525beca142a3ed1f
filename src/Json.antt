-- ===== src/Json.antt =====
-- The JSON library (nlohmann::json, a third-party package) as the program uses it: a parameter of
-- the model. Its documented behaviour stands in `JsonLaws`.
pub mod Reading
pub mod Model
pub mod Throwing
use ee_eq_cli.Common.{
  ℕ, ℤ, Bool, true, false, String, List, [], ◌∷◌, Option, none, some, ◌≡◌, ◌≢◌, if◌then◌else◌, ◌=s◌,
}
use ee_eq_cli.Floats.{FloatOps}
use ee_eq_cli.Outcome.{Outcome, ok, err, ◌>>=◌, Explained}

-- `json = x` and `json.get<A>()`; the latter throws at a value of another kind.
pub record Codec (J A : Type 0) : Type 0 where
  pub put : A → J
  pub get : J → Outcome A

pub record JsonLib (F : FloatOps) : Type 1 where
  pub Json : Type 0
  -- `json{{"k", v}, …}`, `json[k] = v`
  pub object : List (String × Json) → Json
  pub set_key : Json → String → Json → Json
  pub is_object : Json → Bool
  pub is_array : Json → Bool
  pub contains : Json → String → Bool
  pub at_key : Json → String → Outcome Json
  -- The keys in the order of iteration.
  pub keys : Json → List String
  -- `nlohmann::json::parse` of the bytes; `throw` where it throws.
  pub parse : List ℕ → Outcome Json
  pub value : {A : Type 0} → Codec Json A → Json → String → A → Outcome A
  pub text : Codec Json String
  pub texts : Codec Json (List String)
  pub bool : Codec Json Bool
  -- At the types of `pid` and `sink_serial`, which are natural numbers, and at `int`.
  pub int : Codec Json ℕ
  pub signed : Codec Json ℤ
  pub float : Codec Json F.Float
  pub double : Codec Json F.Double

abbrev pub lookup : {J : Type 0} → String → List (String × J) → Option J
lookup k [] = none
lookup k ((j, v) ∷ m) = if j =s k then some v else lookup k m

module _ {F : FloatOps} (J : JsonLib F) where
  open J use {
    Json, object, set_key, is_object, contains, at_key, value, text, texts, bool, int, float,
    double,
  }

  pub record JsonLaws : Type 1 where
    pub object-is_object : (m : List (String × Json)) → is_object (object m) ≡ true
    pub object-contains :
        (m : List (String × Json)) (k : String) (v : Json)
        → lookup k m ≡ some v
        → contains (object m) k ≡ true
    pub object-lacks :
        (m : List (String × Json)) (k : String) → lookup k m ≡ none → contains (object m) k ≡ false
    pub object-at :
        (m : List (String × Json)) (k : String) (v : Json)
        → lookup k m ≡ some v
        → at_key (object m) k ≡ ok v
    pub set-is_object :
        (j : Json) (k : String) (v : Json) → is_object j ≡ true → is_object (set_key j k v) ≡ true
    pub set-contains :
        (j : Json) (k : String) (v : Json) → is_object j ≡ true → contains (set_key j k v) k ≡ true
    pub set-at :
        (j : Json) (k : String) (v : Json) → is_object j ≡ true → at_key (set_key j k v) k ≡ ok v
    pub set-contains_ne :
        (j : Json) (k l : String) (v : Json)
        → is_object j ≡ true
        → (k =s l) ≡ false
        → contains (set_key j k v) l ≡ contains j l
    pub set-at_ne :
        (j : Json) (k l : String) (v : Json)
        → is_object j ≡ true
        → (k =s l) ≡ false
        → at_key (set_key j k v) l ≡ at_key j l
    -- `value(k, d)`: the member if there is one, else `d`.
    pub value-present :
        {A : Type 0} (c : Codec Json A) (j : Json) (k : String) (d : A)
        → is_object j ≡ true
        → contains j k ≡ true
        → value c j k d ≡ (at_key j k >>= c.get)
    pub value-absent :
        {A : Type 0} (c : Codec Json A) (j : Json) (k : String) (d : A)
        → is_object j ≡ true
        → contains j k ≡ false
        → value c j k d ≡ ok d
    pub text-get : (x : String) → text.get (text.put x) ≡ ok x
    pub texts-get : (x : List String) → texts.get (texts.put x) ≡ ok x
    pub bool-get : (x : Bool) → bool.get (bool.put x) ≡ ok x
    pub int-get : (x : ℕ) → int.get (int.put x) ≡ ok x
    pub float-get : (x : F.Float) → float.get (float.put x) ≡ ok x
    pub double-get : (x : F.Double) → double.get (double.put x) ≡ ok x

  -- The library throws, it does not fill the program's error text.
  pub record JsonThrows : Type 1 where
    pub at_key-throws : (j : Json) (k : String) → Explained (at_key j k)
    pub value-throws :
        {A : Type 0} (c : Codec Json A)
        → ((j : Json) → Explained (c.get j))
        → (j : Json) (k : String) (d : A) → Explained (value c j k d)
    pub text-throws : (j : Json) → Explained (text.get j)
    pub texts-throws : (j : Json) → Explained (texts.get j)
    pub bool-throws : (j : Json) → Explained (bool.get j)
    pub signed-throws : (j : Json) → Explained (J.signed.get j)
    pub double-throws : (j : Json) → Explained (double.get j)
    pub parse-throws : (bytes : List ℕ) (e : String) → J.parse bytes ≢ err e
