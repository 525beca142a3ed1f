-- ===== src/Kernel/Found.antt =====
-- What the search for a kernel gives.
use ee_eq_cli.Common.{
  ℕ, arith, true, false, String, List, [], ◌∷◌, All, none, some, is_empty, ◌<>◌, ◌≡◌, refl, ◌⊎◌,
  get_elem?,
}
use ee_eq_cli.Kernel.{
  ResolvedKernel, Entry, FileSystem, Resolution, app_data_dir, extension_is, matches,
  normalize_name, words, lower_ascii, trim_front, trim_back, isalnum, tolower, same, codes,
}
use ee_eq_cli.Kernel.Paths.{join, stem}

-- A regular file of the directory with the extension `.irs`, whose name is the kernel's when both
-- are normalized.
pub record InDirectory (es : List Entry) (name : String) (k : ResolvedKernel) : Type 0 where
  pub entry : Entry
  pub place : ℕ
  pub listed : get_elem? es place ≡ some entry
  pub path : k.path ≡ entry.path
  pub regular : entry.is_regular_file ≡ true
  pub irs : extension_is entry.path ".irs" ≡ true
  pub named : same (normalize_name (codes (stem entry.path))) (normalize_name (codes name)) ≡ true

-- The file with the kernel's very name and the extension `.irs`.
pub record IsExact (fs : FileSystem) (name : String) (k : ResolvedKernel) : Type 0 where
  pub name_kept : k.name ≡ name
  pub path : k.path ≡ join (join (app_data_dir fs) "irs") (name <> ".irs")
  pub there : fs.exists k.path ≡ true

-- What is found is a file with the extension `.irs`, and so no SOFA file; where nothing is found, the
-- warning says why.
pub record IsResolution (fs : FileSystem) (name : String) (r : Resolution) : Type 0 where
  pub found :
      (k : ResolvedKernel)
      → r.kernel ≡ some k
      → (k.is_sofa ≡ false)
        × (IsExact fs name k ⊎ InDirectory (fs.entries (join (app_data_dir fs) "irs")) name k)
  pub explained : r.kernel ≡ none → is_empty r.warning ≡ false

-- The same for the directory's loop.
record IsSearched (es : List Entry) (name : String) (r : Resolution) : Type 0 where
  found : (k : ResolvedKernel) → r.kernel ≡ some k → (k.is_sofa ≡ false) × InDirectory es name k
  explained : r.kernel ≡ none → is_empty r.warning ≡ false

regular : (name : String) (e : Entry) → matches name e ≡ true → e.is_regular_file ≡ true
unfolding matches
regular name e m = ground (arith, m)

-- A byte that is no letter or digit, in lower case or not.
abbrev pub IsForeign : ℕ → Type 0
IsForeign c = isalnum (tolower c) ≡ false

foreign_gap : (cs : List ℕ) → All IsForeign cs → words true (lower_ascii cs) ≡ []
unfolding words lower_ascii
foreign_gap [] w = refl
foreign_gap (c ∷ cs) (n, w) = rw n (foreign_gap cs w)

-- A name without letters and digits of ASCII has the empty normalized name: any two such names
-- match each other.
pub normalize_name-foreign : (name : List ℕ) → All IsForeign name → normalize_name name ≡ []
unfolding normalize_name lower_ascii words trim_front trim_back
normalize_name-foreign [] w = refl
normalize_name-foreign (c ∷ cs) (n, w) = rw (n, foreign_gap cs w) refl
