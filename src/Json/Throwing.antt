-- ===== src/Json/Throwing.antt =====
-- The JSON library for tests throws, and leaves the program's error text alone.
use ee_eq_cli.Common.{ℕ, String, List, Option, none, some, ◌≢◌, on_option}
use ee_eq_cli.Floats.{FloatOps}
use ee_eq_cli.Outcome.{Outcome, ok, err, Explained, ok-Explained, throw-Explained, if-Explained}
use ee_eq_cli.Json.{JsonThrows}
use ee_eq_cli.Json.Model.{
  Value, values, null, empty, member, text, texts, bool, nat, signed, float, double, get_text,
  get_texts, get_bool, get_signed, get_double, find, is_object,
}

module _ (F : FloatOps) where
  found-Explained :
      {A : Type 0} (o : Option (Value F)) (d : Outcome A) (k : Value F → Outcome A)
      → Explained d
      → ((v : Value F) → Explained (k v))
      → Explained (on_option o d k)
  found-Explained none d k w f = w
  found-Explained (some v) d k w f = f v

  text-Explained : (j : Value F) → Explained (get_text F j)
  text-Explained null = throw-Explained _
  text-Explained empty = throw-Explained _
  text-Explained (member k v rest) = throw-Explained _
  text-Explained (text x) = ok-Explained x
  text-Explained (texts x) = throw-Explained _
  text-Explained (bool x) = throw-Explained _
  text-Explained (nat x) = throw-Explained _
  text-Explained (signed x) = throw-Explained _
  text-Explained (float x) = throw-Explained _
  text-Explained (double x) = throw-Explained _

  texts-Explained : (j : Value F) → Explained (get_texts F j)
  texts-Explained null = throw-Explained _
  texts-Explained empty = throw-Explained _
  texts-Explained (member k v rest) = throw-Explained _
  texts-Explained (text x) = throw-Explained _
  texts-Explained (texts x) = ok-Explained x
  texts-Explained (bool x) = throw-Explained _
  texts-Explained (nat x) = throw-Explained _
  texts-Explained (signed x) = throw-Explained _
  texts-Explained (float x) = throw-Explained _
  texts-Explained (double x) = throw-Explained _

  bool-Explained : (j : Value F) → Explained (get_bool F j)
  bool-Explained null = throw-Explained _
  bool-Explained empty = throw-Explained _
  bool-Explained (member k v rest) = throw-Explained _
  bool-Explained (text x) = throw-Explained _
  bool-Explained (texts x) = throw-Explained _
  bool-Explained (bool x) = ok-Explained x
  bool-Explained (nat x) = throw-Explained _
  bool-Explained (signed x) = throw-Explained _
  bool-Explained (float x) = throw-Explained _
  bool-Explained (double x) = throw-Explained _

  signed-Explained : (j : Value F) → Explained (get_signed F j)
  signed-Explained null = throw-Explained _
  signed-Explained empty = throw-Explained _
  signed-Explained (member k v rest) = throw-Explained _
  signed-Explained (text x) = throw-Explained _
  signed-Explained (texts x) = throw-Explained _
  signed-Explained (bool x) = throw-Explained _
  signed-Explained (nat x) = throw-Explained _
  signed-Explained (signed x) = ok-Explained x
  signed-Explained (float x) = throw-Explained _
  signed-Explained (double x) = throw-Explained _

  double-Explained : (j : Value F) → Explained (get_double F j)
  double-Explained null = throw-Explained _
  double-Explained empty = throw-Explained _
  double-Explained (member k v rest) = throw-Explained _
  double-Explained (text x) = throw-Explained _
  double-Explained (texts x) = throw-Explained _
  double-Explained (bool x) = throw-Explained _
  double-Explained (nat x) = throw-Explained _
  double-Explained (signed x) = throw-Explained _
  double-Explained (float x) = throw-Explained _
  double-Explained (double x) = ok-Explained x

  pub values-JsonThrows :
      (parse : List ℕ → Outcome (Value F))
      → ((bytes : List ℕ) (e : String) → parse bytes ≢ err e)
      → JsonThrows (values F parse)
  values-JsonThrows parse w = record {
    at_key-throws = λ j k. found-Explained (find F j k) _ ok (throw-Explained _) ok-Explained;
    value-throws = λ c g j k d.
        if-Explained (is_object F j) _ _
          (found-Explained (find F j k) (ok d) c.get (ok-Explained d) g) (throw-Explained _);
    text-throws = text-Explained;
    texts-throws = texts-Explained;
    bool-throws = bool-Explained;
    signed-throws = signed-Explained;
    double-throws = double-Explained;
    parse-throws = w;
  }
