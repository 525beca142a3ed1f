-- ===== src/Kernel.antt =====
-- The search for a convolver's kernel (src/kernel_resolver.hpp and src/kernel_resolver.cpp). The
-- file system is a parameter. A name's characters stand for its bytes: all bytes of a character
-- outside ASCII are neither letters nor digits, so `normalize_name` makes one space of them.
pub mod Paths
pub mod Found
mod Tests
use Prim.Native.String
use ee_eq_cli.Common.{
  ℕ, ◌+◌, leb, ◌==◌, Bool, true, false, not, ◌&&◌, ◌||◌, String, List, [], ◌∷◌, Option, none, some,
  is_empty, ◌=s◌, ◌<>◌, code, if◌then◌else◌,
}
use ee_eq_cli.Preset.{ConvolverPreset}
use ee_eq_cli.Kernel.Paths.{join, stem, extension, filename}

pub record ResolvedKernel : Type 0 where
  pub name : String
  pub path : String
  pub is_sofa : Bool

-- An entry of `directory_iterator`.
pub record Entry : Type 0 where
  pub path : String
  pub is_regular_file : Bool

pub record FileSystem : Type 0 where
  pub getenv : String → Option String
  pub current_path : String
  pub exists : String → Bool
  pub is_directory : String → Bool
  -- In the order of iteration.
  pub entries : String → List Entry

-- The kernel, and the text of `warning`.
pub record Resolution : Type 0 where
  pub kernel : Option ResolvedKernel
  pub warning : String

abbrev non_empty : Option String → Bool
non_empty none = false
non_empty (some v) = not (is_empty v)

abbrev value_or : Option String → String
value_or none = ""
value_or (some v) = v

abbrev runtime_dir_name : String
runtime_dir_name = "eq-cli"

pub app_data_dir : FileSystem → String
app_data_dir fs =
    if non_empty (fs.getenv "XDG_DATA_HOME")
    then join (value_or (fs.getenv "XDG_DATA_HOME")) runtime_dir_name
    else (if non_empty (fs.getenv "HOME")
        then join (join (join (value_or (fs.getenv "HOME")) ".local") "share") runtime_dir_name
        else join (join (join fs.current_path ".local") "share") runtime_dir_name)

unfoldable pub derive_kernel_name : {D : Type 0} → ConvolverPreset D → String
derive_kernel_name preset =
    if not (is_empty preset.kernel_name)
    then preset.kernel_name
    else (if not (is_empty preset.kernel_path) then stem preset.kernel_path else "")

abbrev pub codes : String → List ℕ
codes String.[] = []
codes (String.◌∷◌ c s) = code c ∷ codes s

abbrev pub tolower : ℕ → ℕ
tolower n = if leb 65 n && leb n 90 then n + 32 else n

unfoldable pub lower_ascii : List ℕ → List ℕ
lower_ascii [] = []
lower_ascii (c ∷ cs) = tolower c ∷ lower_ascii cs

abbrev pub isalnum : ℕ → Bool
isalnum n = (leb 48 n && leb n 57) || (leb 65 n && leb n 90) || (leb 97 n && leb n 122)

-- The first loop of `normalize_name`, with `last_was_space`.
unfoldable pub words : Bool → List ℕ → List ℕ
words last [] = []
words last (c ∷ cs) =
    let in_word = words false cs in
    let in_gap = words true cs in
    if isalnum c then c ∷ in_word else (if last then in_gap else 32 ∷ in_gap)

unfoldable pub trim_front : List ℕ → List ℕ
trim_front [] = []
trim_front (c ∷ cs) = let rest = trim_front cs in if c == 32 then rest else c ∷ cs

abbrev put : ℕ → List ℕ → List ℕ
put c [] = if c == 32 then [] else c ∷ []
put c (d ∷ ds) = c ∷ d ∷ ds

unfoldable pub trim_back : List ℕ → List ℕ
trim_back [] = []
trim_back (c ∷ cs) = put c (trim_back cs)

unfoldable pub normalize_name : List ℕ → List ℕ
normalize_name value = trim_back (trim_front (words false (lower_ascii value)))

abbrev pub same : List ℕ → List ℕ → Bool
same [] [] = true
same [] (y ∷ ys) = false
same (x ∷ xs) [] = false
same (x ∷ xs) (y ∷ ys) = x == y && same xs ys

unfoldable pub extension_is : String → String → Bool
extension_is path ext = same (lower_ascii (codes (extension path))) (codes ext)

-- An entry that the search does not pass over.
unfoldable pub matches : String → Entry → Bool
matches kernel_name e =
    e.is_regular_file
    && (extension_is e.path ".irs" || extension_is e.path ".sofa")
    && same (normalize_name (codes (stem e.path))) (normalize_name (codes kernel_name))

abbrev pub taken : Entry → Resolution
taken e =
    if extension_is e.path ".sofa"
    then record {
      kernel = none;
      warning =
          "SOFA kernel matched by fuzzy name but SOFA support is not implemented yet: "
          <> filename e.path;
    }
    else record {
      kernel = some (record { name = stem e.path; path = e.path; is_sofa = false });
      warning =
          "convolver kernel exact name not found; using fuzzy local match: " <> filename e.path;
    }

abbrev pub not_found : String → String → Resolution
not_found base_dir kernel_name = record {
  kernel = none;
  warning = "convolver kernel not found under " <> base_dir <> ": " <> kernel_name;
}

-- The loop over the directory.
unfoldable pub search : String → String → List Entry → Resolution
search base_dir kernel_name [] = not_found base_dir kernel_name
search base_dir kernel_name (e ∷ es) =
    let rest = search base_dir kernel_name es in if matches kernel_name e then taken e else rest

unfoldable pub resolve_in : FileSystem → String → String → Resolution
resolve_in fs base_dir kernel_name =
    if fs.exists (join base_dir (kernel_name <> ".irs"))
    then record {
      kernel = some (record {
        name = kernel_name;
        path = join base_dir (kernel_name <> ".irs");
        is_sofa = false;
      });
      warning = "";
    }
    else (if fs.exists (join base_dir (kernel_name <> ".sofa"))
        then record {
          kernel = none;
          warning =
              "SOFA kernel found but SOFA convolver support is not implemented yet: "
              <> kernel_name;
        }
        else (if fs.exists base_dir && fs.is_directory base_dir
            then search base_dir kernel_name (fs.entries base_dir)
            else not_found base_dir kernel_name))

unfoldable pub resolve_convolver_kernel : {D : Type 0} → FileSystem → ConvolverPreset D → Resolution
resolve_convolver_kernel fs preset =
    if is_empty (derive_kernel_name preset)
    then record {
      kernel = none;
      warning = "convolver has no kernel-name or kernel-path; skipping convolver";
    }
    else resolve_in fs (join (app_data_dir fs) "irs") (derive_kernel_name preset)
