-- ===== src/Preset/Labels.antt =====
-- The label tables (src/lsp_labels.hpp) and `validate_label` (src/ee_eq_preset_parser.cpp).
use Prim.Native.Nat.add
use ee_eq_cli.Common.{
  ℕ, suc, ◌+◌, true, String, List, [], ◌∷◌, get_elem?, Option, none, some, ◌≡◌, ◌=s◌, =s_iff, ◌<>◌,
  contains, if◌then◌else◌, if_cases, arith, on_option, ap, Bool-cases, inl, inr,
}
use ee_eq_cli.Outcome.{Outcome, ok, err}

abbrev pub eq_mode_labels : List String
eq_mode_labels = "IIR" ∷ "FIR" ∷ "FFT" ∷ "SPM" ∷ []

abbrev pub band_mode_labels : List String
band_mode_labels =
    "RLC (BT)" ∷ "RLC (MT)" ∷ "BWC (BT)" ∷ "BWC (MT)" ∷ "LRX (BT)" ∷ "LRX (MT)" ∷ "APO (DR)" ∷ []

abbrev pub band_type_labels : List String
band_type_labels =
    "Off" ∷ "Bell" ∷ "Hi-pass" ∷ "Hi-shelf" ∷ "Lo-pass" ∷ "Lo-shelf" ∷ "Notch" ∷ "Resonance"
    ∷ "Allpass" ∷ "Bandpass" ∷ "Ladder-pass" ∷ "Ladder-rej" ∷ []

abbrev pub band_slope_labels : List String
band_slope_labels = "x1" ∷ "x2" ∷ "x3" ∷ "x4" ∷ []

abbrev pub limiter_mode_labels : List String
limiter_mode_labels =
    "Herm Thin" ∷ "Herm Wide" ∷ "Herm Tail" ∷ "Herm Duck" ∷ "Exp Thin" ∷ "Exp Wide" ∷ "Exp Tail"
    ∷ "Exp Duck" ∷ "Line Thin" ∷ "Line Wide" ∷ "Line Tail" ∷ "Line Duck" ∷ []

abbrev pub limiter_oversampling_labels : List String
limiter_oversampling_labels =
    "None" ∷ "Half x2/16 bit" ∷ "Half x2/24 bit" ∷ "Half x3/16 bit" ∷ "Half x3/24 bit"
    ∷ "Half x4/16 bit" ∷ "Half x4/24 bit" ∷ "Half x6/16 bit" ∷ "Half x6/24 bit" ∷ "Half x8/16 bit"
    ∷ "Half x8/24 bit" ∷ "Full x2/16 bit" ∷ "Full x2/24 bit" ∷ "Full x3/16 bit" ∷ "Full x3/24 bit"
    ∷ "Full x4/16 bit" ∷ "Full x4/24 bit" ∷ "Full x6/16 bit" ∷ "Full x6/24 bit" ∷ "Full x8/16 bit"
    ∷ "Full x8/24 bit" ∷ "True Peak/16 bit" ∷ "True Peak/24 bit" ∷ []

abbrev pub limiter_dithering_labels : List String
limiter_dithering_labels =
    "None" ∷ "7bit" ∷ "8bit" ∷ "11bit" ∷ "12bit" ∷ "15bit" ∷ "16bit" ∷ "23bit" ∷ "24bit" ∷ []

abbrev pub limiter_sidechain_labels : List String
limiter_sidechain_labels = "Internal" ∷ "External" ∷ "Link" ∷ []

-- The distance that `std::ranges::find` finds.
abbrev find_from : ℕ → List String → String → Option ℕ
find_from i [] value = none
find_from i (x ∷ xs) value = let r = find_from (suc i) xs value in if x =s value then some i else r

-- A label's place in its table, 0 if it is not there. The result's type is `float` in the source.
unfoldable pub label_index : List String → String → ℕ
label_index labels value = on_option (find_from 0 labels value) 0 (λ i. i)

unfoldable pub validate_label : String → List String → String → Outcome String
validate_label value labels field =
    if contains labels value
    then ok value
    else err ("unsupported value '" <> value <> "' for " <> field)

pub validate_label_inv :
    (value : String) (labels : List String) (field : String) {x : String}
    → validate_label value labels field ≡ ok x
    → contains labels x ≡ true
unfolding validate_label
validate_label_inv value labels field {x} h =
    if_cases {A = Outcome String} (λ r. r ≡ ok x → contains labels x ≡ true) (contains labels value)
      (λ e h. cc) (λ _ h. cc) h

find_from_lem :
    (i : ℕ) (xs : List String) (value : String)
    → contains xs value ≡ true
    → (k : ℕ) × (find_from i xs value ≡ some (i + k)) × (get_elem? xs k ≡ some value)
find_from_lem i [] value h = cc
find_from_lem i (x ∷ xs) value h = elim (Bool-cases (x =s value)) [
  | inl e ↦ (0, rw e (ap some (ground arith)), ap some ((=s_iff x value).0 e))
  | inr e ↦
      let (k, found, at) = find_from_lem (suc i) xs value (ground (arith, h)) in
      (suc k, rw (e, found) (ap some (ground arith)), at)
]

-- The index of a label of a table leads back to the label.
pub label_index-get :
    (labels : List String) (value : String)
    → contains labels value ≡ true
    → get_elem? labels (label_index labels value) ≡ some value
unfolding label_index
label_index-get labels value h =
    let (k, found, at) = find_from_lem 0 labels value h in rw (label_index, found, add.zero k) at
