-- ===== src/Preset/Valid.antt =====
-- What reading the equalizer, the limiter and the convolver gives.
use ee_eq_cli.Common.{
  ℕ, ℤ, pos, negsuc, ◌≤◌, sym, zero, suc, arith, true, false, String, List, [], ◌∷◌, length, All,
  ◌≡◌, refl, ap, ◌∙◌, contains, ◌<>◌, if_cases, ltb,
}
use ee_eq_cli.Floats.{FloatOps}
use ee_eq_cli.Outcome.{Outcome, ◌>>=◌, Holds, ok-Holds, bind-Holds}
use ee_eq_cli.Json.{JsonLib}
use ee_eq_cli.Preset.{EqBand, EqPreset}
use ee_eq_cli.Preset.Labels.{
  validate_label, validate_label_inv, eq_mode_labels, band_type_labels, band_mode_labels,
  band_slope_labels,
}
use ee_eq_cli.Preset.Bands.{
  max_bands, clamp_int, parse_band, parse_bands, band_members, default_bands, default_at, fill,
  band_key, default_band_frequencies, default_band_qs,
}

pub record IsBand {D : Type 0} (b : EqBand D) : Type 0 where
  pub type : contains band_type_labels b.type ≡ true
  pub mode : contains band_mode_labels b.mode ≡ true
  pub slope : contains band_slope_labels b.slope ≡ true

is_band :
    {D : Type 0} {b : EqBand D}
    → contains band_type_labels b.type ≡ true
    → contains band_mode_labels b.mode ≡ true
    → contains band_slope_labels b.slope ≡ true
    → IsBand b
is_band t m s = record { type = t; mode = m; slope = s }

valid :
    (labels : List String) (field y : String)
    → Holds (λ x. contains labels x ≡ true) (validate_label y labels field)
valid labels field y = record { at = validate_label_inv y labels field }

module _ {F : FloatOps} (J : JsonLib F) where
  open F use {Double}
  open J use {Json, value, text, bool, double}

  -- What `label` returns is in the table.
  pub label-Holds :
      {A : Type 0} (P : A → Type 0) (m : Outcome String) (labels : List String) (field : String)
      (k : String → Outcome A)
      → ((x : String) → contains labels x ≡ true → Holds P (k x))
      → Holds P ((m >>= λ x. validate_label x labels field) >>= k)
  label-Holds P m labels field k f =
      bind-Holds P (m >>= λ x. validate_label x labels field) k (λ x e. f x (
        (bind-Holds (λ x. contains labels x ≡ true) m (λ x. validate_label x labels field)
            (λ y _. valid labels field y)).at
          e))

  band_members-IsBand :
      (v : Json) (key : String) (band : EqBand Double) → Holds IsBand (band_members J v key band)
  band_members-IsBand v key band =
      label-Holds IsBand (value text v "type" band.type) band_type_labels (key <> ".type") _
        (λ type t.
          label-Holds IsBand (value text v "mode" band.mode) band_mode_labels (key <> ".mode") _
            (λ mode m.
              label-Holds IsBand (value text v "slope" band.slope) band_slope_labels
                (key <> ".slope") _
                (λ slope s. bind-Holds IsBand (value bool v "solo" band.solo) _ (λ solo _.
                  bind-Holds IsBand (value bool v "mute" band.mute) _ (λ mute _.
                    bind-Holds IsBand (value double v "gain" band.gain_db) _ (λ gain _.
                      bind-Holds IsBand (value double v "frequency" band.frequency) _
                        (λ frequency _. bind-Holds IsBand (value double v "q" band.q) _ (λ q _.
                          bind-Holds IsBand (value double v "width" band.width) _
                            (λ width _. ok-Holds IsBand (is_band t m s))))))))))

  parse_band-IsBand :
      (json : Json) (key : String) (band : EqBand Double)
      → IsBand band
      → Holds IsBand (parse_band J json key band)
  unfolding parse_band
  parse_band-IsBand json key band w =
      if_cases {A = Outcome (EqBand Double)} (Holds IsBand) (J.contains json key)
        (λ _. bind-Holds IsBand (J.at_key json key) _ (λ v _. band_members-IsBand v key band))
        (λ _. ok-Holds IsBand w)

  -- Two arrays of `n` bands.
  abbrev pub AreBands : ℕ → List (EqBand Double) × List (EqBand Double) → Type 0
  AreBands n (ls, rs) = (length ls ≡ n) × (length rs ≡ n) × All IsBand ls × All IsBand rs

  pub parse_bands-AreBands :
      (left right : Json) (i n : ℕ) (ls rs : List (EqBand Double))
      → AreBands n (ls, rs)
      → Holds (AreBands n) (parse_bands J left right i ls rs)
  unfolding parse_bands
  parse_bands-AreBands left right i n [] rs w = ok-Holds (AreBands n) (w.0, w.0, tt, tt)
  parse_bands-AreBands left right i n (l ∷ ls) [] w = ok-Holds (AreBands n) (w.1, w.1, tt, tt)
  parse_bands-AreBands left right i zero (l ∷ ls) (r ∷ rs) w = ground (arith, w)
  parse_bands-AreBands left right i (suc n) (l ∷ ls) (r ∷ rs) (p, q, (wl, wls), (wr, wrs)) =
      bind-Holds (AreBands (suc n)) (parse_band J left (band_key i) l) _ (λ l' e.
        bind-Holds (AreBands (suc n)) (parse_band J right (band_key i) r) _ (λ r' f.
          bind-Holds (AreBands (suc n)) (parse_bands J left right (suc i) ls rs) _ (λ rest g.
            let (a, b, c, d) =
              (parse_bands-AreBands left right (suc i) n ls rs
                  (ground (arith, p), ground (arith, q), wls, wrs)).at
                g in
            ok-Holds (AreBands (suc n)) (
              ap suc a,
              ap suc b,
              ((parse_band-IsBand left (band_key i) l wl).at e, c),
              ((parse_band-IsBand right (band_key i) r wr).at f, d),
            ))))

length-fill :
    (F : FloatOps) (n : ℕ) (last : F.Double) (xs : List F.Double) → length (fill F n last xs) ≡ n
unfolding fill
length-fill F zero last xs = refl
length-fill F (suc n) last [] = ap suc (length-fill F n last [])
length-fill F (suc n) last (x ∷ xs) = ap suc (length-fill F n x xs)

-- An equalizer as the parser returns it.
pub record IsEqualizer {D : Type 0} (e : EqPreset D) : Type 0 where
  pub mode : contains eq_mode_labels e.mode ≡ true
  pub some_bands : 1 ≤ e.num_bands
  pub few_bands : e.num_bands ≤ 32
  pub left_full : length e.left ≡ 32
  pub right_full : length e.right ≡ 32
  pub left_labels : All IsBand e.left
  pub right_labels : All IsBand e.right
  pub linked : e.split_channels ≡ false → e.right ≡ e.left

module _ (F : FloatOps) where
  open F use {Double}

  default_at-IsBand : (num_bands i : ℕ) (f q : Double) → IsBand (default_at F num_bands i f q)
  default_at-IsBand num_bands i f q =
      if_cases {A = EqBand Double} IsBand (ltb i num_bands) (λ _. is_band refl refl refl)
        (λ _. is_band refl refl refl)

  pub default_bands-IsBand :
      (num_bands i : ℕ) (fs qs : List Double) → All IsBand (default_bands F num_bands i fs qs)
  unfolding default_bands
  default_bands-IsBand num_bands i [] qs = tt
  default_bands-IsBand num_bands i (f ∷ fs) [] = tt
  default_bands-IsBand num_bands i (f ∷ fs) (q ∷ qs) =
      (default_at-IsBand num_bands i f q, default_bands-IsBand num_bands (suc i) fs qs)

  length-default_bands :
      (num_bands i : ℕ) (fs qs : List Double)
      → length fs ≡ length qs
      → length (default_bands F num_bands i fs qs) ≡ length fs
  unfolding default_bands
  length-default_bands num_bands i [] qs h = refl
  length-default_bands num_bands i (f ∷ fs) [] h = ground (arith, h)
  length-default_bands num_bands i (f ∷ fs) (q ∷ qs) h =
      ap suc (length-default_bands num_bands (suc i) fs qs (ground (arith, h)))

  -- `n` bands of the array are on, the others off.
  pub defaults_full :
      (n : ℕ)
      → length (default_bands F n 0 (default_band_frequencies F n) (default_band_qs F n)) ≡ 32
  unfolding default_band_frequencies default_band_qs
  defaults_full n =
      length-default_bands n 0 (default_band_frequencies F n) (default_band_qs F n)
        (length-fill F max_bands _ _ ∙ sym (length-fill F max_bands _ _))
      ∙ length-fill F max_bands _ _

pub clamped : (n : ℤ) → (1 ≤ clamp_int n) × (clamp_int n ≤ 32)
clamped (pos n) = ground arith
clamped (negsuc n) = ground arith
