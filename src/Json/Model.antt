-- ===== src/Json/Model.antt =====
-- A JSON library for tests: an object is a chain of members. Parsing is a parameter.
use ee_eq_cli.Common.{
  ℕ, ℤ, Bool, true, false, String, List, [], ◌∷◌, Option, none, some, ◌≡◌, refl, ap, ◌=s◌, =s_iff,
  if◌then◌else◌, is_some, on_option, if_cases,
}
use ee_eq_cli.Floats.{FloatOps}
use ee_eq_cli.Outcome.{Outcome, ok, throw, ◌>>=◌}
use ee_eq_cli.Json.{JsonLib, JsonLaws, Codec, lookup}

module _ (F : FloatOps) where
  pub data Value : Type 0 where
    null empty : Value
    member : String → Value → Value → Value
    text : String → Value
    texts : List String → Value
    bool : Bool → Value
    nat : ℕ → Value
    signed : ℤ → Value
    float : F.Float → Value
    double : F.Double → Value

  abbrev pub object : List (String × Value) → Value
  object [] = empty
  object ((k, v) ∷ m) = member k v (object m)

  abbrev pub find : Value → String → Option Value
  find (member j v rest) k = let r = find rest k in if j =s k then some v else r
  find _ k = none

  abbrev set_key : Value → String → Value → Value
  set_key (member j w rest) k v =
      let r = set_key rest k v in if j =s k then member j v rest else member j w r
  set_key _ k v = member k v empty

  abbrev pub is_object : Value → Bool
  is_object empty = true
  is_object (member k v rest) = true
  is_object _ = false

  abbrev is_array : Value → Bool
  is_array (texts xs) = true
  is_array _ = false

  abbrev keys : Value → List String
  keys (member k v rest) = k ∷ keys rest
  keys _ = []

  abbrev pub mismatch : {A : Type 0} → Outcome A
  mismatch = throw "[json.exception.type_error.302] type must be of another kind"

  abbrev pub get_text : Value → Outcome String
  get_text (text x) = ok x
  get_text _ = mismatch

  abbrev pub get_texts : Value → Outcome (List String)
  get_texts (texts x) = ok x
  get_texts _ = mismatch

  abbrev pub get_bool : Value → Outcome Bool
  get_bool (bool x) = ok x
  get_bool _ = mismatch

  abbrev pub get_nat : Value → Outcome ℕ
  get_nat (nat x) = ok x
  get_nat _ = mismatch

  abbrev pub get_signed : Value → Outcome ℤ
  get_signed (signed x) = ok x
  get_signed _ = mismatch

  abbrev pub get_float : Value → Outcome F.Float
  get_float (float x) = ok x
  get_float _ = mismatch

  abbrev pub get_double : Value → Outcome F.Double
  get_double (double x) = ok x
  get_double _ = mismatch

  abbrev pub values : (List ℕ → Outcome Value) → JsonLib F
  values parse = record {
    Json = Value;
    object = object;
    set_key = set_key;
    is_object = is_object;
    is_array = is_array;
    contains = λ j k. is_some (find j k);
    at_key =
        λ j k. on_option (find j k) (throw "[json.exception.out_of_range.403] key not found") ok;
    keys = keys;
    parse = parse;
    value = λ c j k d. if is_object j then on_option (find j k) (ok d) c.get else mismatch;
    text = record { put = text; get = get_text };
    texts = record { put = texts; get = get_texts };
    bool = record { put = bool; get = get_bool };
    int = record { put = nat; get = get_nat };
    signed = record { put = signed; get = get_signed };
    float = record { put = float; get = get_float };
    double = record { put = double; get = get_double };
  }

  find-object : (m : List (String × Value)) (k : String) → find (object m) k ≡ lookup k m
  find-object [] k = refl
  find-object ((j, v) ∷ m) k = ap (λ r. if j =s k then some v else r) (find-object m k)

  =s_refl : (k : String) → (k =s k) ≡ true
  =s_refl k = (=s_iff k k).1 refl

  find-set : (j : Value) (k : String) (v : Value) → find (set_key j k v) k ≡ some v
  find-set (member l w rest) k v =
      if_cases (λ j. find j k ≡ some v) (l =s k) (λ e. rw e refl) (λ e. rw e (find-set rest k v))
  find-set null k v = rw (=s_refl k) refl
  find-set empty k v = rw (=s_refl k) refl
  find-set (text x) k v = rw (=s_refl k) refl
  find-set (texts x) k v = rw (=s_refl k) refl
  find-set (bool x) k v = rw (=s_refl k) refl
  find-set (nat x) k v = rw (=s_refl k) refl
  find-set (signed x) k v = rw (=s_refl k) refl
  find-set (float x) k v = rw (=s_refl k) refl
  find-set (double x) k v = rw (=s_refl k) refl

  find-set_ne :
      (j : Value) (k l : String) (v : Value) → (k =s l) ≡ false → find (set_key j k v) l ≡ find j l
  find-set_ne (member i w rest) k l v n =
      if_cases (λ j. find j l ≡ find (member i w rest) l) (i =s k)
        (λ e. rw ((=s_iff i k).0 e, n) refl) (λ e. rw (find-set_ne rest k l v n) refl)
  find-set_ne null k l v n = rw n refl
  find-set_ne empty k l v n = rw n refl
  find-set_ne (text x) k l v n = rw n refl
  find-set_ne (texts x) k l v n = rw n refl
  find-set_ne (bool x) k l v n = rw n refl
  find-set_ne (nat x) k l v n = rw n refl
  find-set_ne (signed x) k l v n = rw n refl
  find-set_ne (float x) k l v n = rw n refl
  find-set_ne (double x) k l v n = rw n refl

  object-is_object : (m : List (String × Value)) → is_object (object m) ≡ true
  object-is_object [] = refl
  object-is_object ((k, v) ∷ m) = refl

  set-is_object :
      (j : Value) (k : String) (v : Value) → is_object j ≡ true → is_object (set_key j k v) ≡ true
  set-is_object (member i w rest) k v h =
      if_cases (λ j. is_object j ≡ true) (i =s k) (λ _. refl) (λ _. refl)
  set-is_object empty k v h = refl
  set-is_object null k v h = refl
  set-is_object (text x) k v h = refl
  set-is_object (texts x) k v h = refl
  set-is_object (bool x) k v h = refl
  set-is_object (nat x) k v h = refl
  set-is_object (signed x) k v h = refl
  set-is_object (float x) k v h = refl
  set-is_object (double x) k v h = refl

  module _ (parse : List ℕ → Outcome Value) where
    value-present :
        {A : Type 0} (c : Codec Value A) (j : Value) (d : A) (o : Option Value)
        → is_object j ≡ true
        → is_some o ≡ true
        → (if is_object j then on_option o (ok d) c.get else mismatch)
          ≡ (on_option o (throw "[json.exception.out_of_range.403] key not found") ok >>= c.get)
    value-present c j d none o h = cc
    value-present c j d (some v) o h = rw o refl

    value-absent :
        {A : Type 0} (c : Codec Value A) (j : Value) (d : A) (o : Option Value)
        → is_object j ≡ true
        → is_some o ≡ false
        → (if is_object j then on_option o (ok d) c.get else mismatch) ≡ ok d
    value-absent c j d none o h = rw o refl
    value-absent c j d (some v) o h = cc

    pub values-JsonLaws : JsonLaws (values parse)
    values-JsonLaws = record {
      object-is_object = object-is_object;
      object-contains = λ m k v e. rw (find-object m k, e) refl;
      object-lacks = λ m k e. rw (find-object m k, e) refl;
      object-at = λ m k v e. rw (find-object m k, e) refl;
      set-is_object = set-is_object;
      set-contains = λ j k v _. rw (find-set j k v) refl;
      set-at = λ j k v _. rw (find-set j k v) refl;
      set-contains_ne = λ j k l v _ n. rw (find-set_ne j k l v n) refl;
      set-at_ne = λ j k l v _ n. rw (find-set_ne j k l v n) refl;
      value-present = λ c j k d o h. value-present c j d (find j k) o h;
      value-absent = λ c j k d o h. value-absent c j d (find j k) o h;
      text-get = λ x. refl;
      texts-get = λ x. refl;
      bool-get = λ x. refl;
      int-get = λ x. refl;
      float-get = λ x. refl;
      double-get = λ x. refl;
    }
