-- ===== src/Kernel/Tests.antt =====
-- The search for a kernel in a directory with two files.
use ee_eq_cli.Common.{
  ℕ, true, false, String, List, [], ◌∷◌, Option, none, some, ◌≡◌, refl, ◌=s◌, if◌then◌else◌,
}
use ee_eq_cli.Floats.Decimal.{Decimal, decimals}
use ee_eq_cli.Preset.{ConvolverPreset, no_convolver}
use ee_eq_cli.Kernel.{
  FileSystem, resolve_convolver_kernel, resolve_in, search, matches, extension_is, normalize_name,
  words, lower_ascii, trim_front, trim_back, app_data_dir, derive_kernel_name,
}
use ee_eq_cli.Kernel.Paths.{join, stem, extension, filename}
use ee_eq_cli.Kernel.Found.{normalize_name-foreign}

abbrev home : String → Option String
home name = if name =s "HOME" then some "/home/a" else none

abbrev disk : FileSystem
disk = record {
  getenv = home;
  current_path = "/";
  exists = λ p. p =s "/home/a/.local/share/eq-cli/irs";
  is_directory = λ p. true;
  entries = λ p.
      record { path = "/home/a/.local/share/eq-cli/irs/notes.txt"; is_regular_file = true }
      ∷ record { path = "/home/a/.local/share/eq-cli/irs/Big Room__2.IRS"; is_regular_file = true }
      ∷ [];
}

abbrev preset : ConvolverPreset Decimal
preset = record (no_convolver decimals) { kernel_name = "big-room 2" }

finds : resolve_convolver_kernel disk preset ≡ record {
  kernel = some (record {
    name = "Big Room__2";
    path = "/home/a/.local/share/eq-cli/irs/Big Room__2.IRS";
    is_sofa = false;
  });
  warning = "convolver kernel exact name not found; using fuzzy local match: Big Room__2.IRS";
}
unfolding resolve_convolver_kernel resolve_in search matches extension_is normalize_name words
    lower_ascii trim_front trim_back app_data_dir derive_kernel_name join stem extension filename
finds = refl

-- "Зал"
abbrev hall : List ℕ
hall = 1047 ∷ 1072 ∷ 1083 ∷ []

normalize_name-foreign_example : normalize_name hall ≡ []
normalize_name-foreign_example = normalize_name-foreign hall (refl, (refl, (refl, tt)))
