-- ===== src/Lv2/Equalizer.antt =====
-- Which port of an equalizer shows which setting of a preset (src/lsp_eq_port_mapper.cpp), written
-- out setting by setting.
use ee_eq_cli.Common.{
  ℕ, zero, suc, false, ◌+◌, String, List, [], ◌∷◌, ◌++◌, ◌<>◌, decimal, some, ◌≡◌, refl, sym, subst,
  ◌∙◌, length, contains, All, get_elem?, if◌then◌else◌, arith,
}
use ee_eq_cli.Floats.{FloatOps}
use ee_eq_cli.Preset.{EqBand, EqPreset}
use ee_eq_cli.Preset.Labels.{
  label_index, eq_mode_labels, band_mode_labels, band_type_labels, band_slope_labels,
}
use ee_eq_cli.Lv2.{Lv2HostCore}
use ee_eq_cli.Lv2.Ports.{Infinities, get_control_port_value}
use ee_eq_cli.Lv2.Reaching.{Reached}
use ee_eq_cli.Lv2.Mappers.{
  Levels, Tags, left_tags, right_tags, band_writes, channel_writes, apply_eq_preset_to_host,
}
use ee_eq_cli.Lv2.Writes.{Applied, eq_symbols, symbols-eq_writes, apply_eq-AllApplied}

module _ (F : FloatOps) (I : Infinities F.Float) (L : Levels F) where
  open F use {Double, Float, dec, mul_d, div_d, f_zero, f_one}
  open L use {of_index, to_float, exp, ln10}

  -- The port with the symbol, if `h` has one, reads the value in `r`, within the port's bounds.
  abbrev pub Shows : Lv2HostCore Float → Lv2HostCore Float → String → Float → Type 0
  Shows h r symbol value = Applied F I L h r (symbol, value)

  -- The ports of a band: `side` is "l" or "r".
  pub record BandShows (h r : Lv2HostCore Float) (side : String) (i : ℕ) (band : EqBand Double)
      : Type 0 where
    pub type :
        Shows h r
          (("ft" <> side) <> "_" <> decimal i)
          (of_index (label_index band_type_labels band.type))
    pub mode :
        Shows h r
          (("fm" <> side) <> "_" <> decimal i)
          (of_index (label_index band_mode_labels band.mode))
    pub slope :
        Shows h r
          (("s" <> side) <> "_" <> decimal i)
          (of_index (label_index band_slope_labels band.slope))
    pub solo : Shows h r (("xs" <> side) <> "_" <> decimal i) (if band.solo then f_one else f_zero)
    pub mute : Shows h r (("xm" <> side) <> "_" <> decimal i) (if band.mute then f_one else f_zero)
    pub frequency : Shows h r (("f" <> side) <> "_" <> decimal i) (to_float band.frequency)
    pub q : Shows h r (("q" <> side) <> "_" <> decimal i) (to_float band.q)
    pub width : Shows h r (("w" <> side) <> "_" <> decimal i) (to_float band.width)
    -- A gain in decibels as a factor.
    pub gain :
        Shows h r
          (("g" <> side) <> "_" <> decimal i)
          (to_float (exp (mul_d (div_d band.gain_db (dec false 20 0)) ln10)))

  -- What the host `r` shows of a preset, where `h` is the host before.
  pub record EqShows (preset : EqPreset Double) (h r : Lv2HostCore Float) : Type 0 where
    pub mode : Shows h r "mode" (of_index (label_index eq_mode_labels preset.mode))
    pub balance : Shows h r "bal" (to_float preset.balance)
    pub pitch_left : Shows h r "frqs_l" (to_float preset.pitch_left)
    pub pitch_right : Shows h r "frqs_r" (to_float preset.pitch_right)
    pub linked : Shows h r "clink" (if preset.split_channels then f_zero else f_one)
    pub left :
        (i : ℕ) (band : EqBand Double)
        → get_elem? preset.left i ≡ some band
        → BandShows h r "l" i band
    pub right :
        (i : ℕ) (band : EqBand Double)
        → get_elem? preset.right i ≡ some band
        → BandShows h r "r" i band
    pub others :
        (other : String)
        → contains (eq_symbols F I L 32 32) other ≡ false
        → get_control_port_value F I other r ≡ get_control_port_value F I other h

  All-split :
      (P : String × Float → Type 0) (xs ys : List (String × Float))
      → All P (xs ++ ys)
      → All P xs × All P ys
  All-split P [] ys a = (tt, a)
  All-split P (x ∷ xs) ys (p, a) = let (l, r) = All-split P xs ys a in ((p, l), r)

  -- The writes of the band in place `i`.
  channel-band :
      (P : String × Float → Type 0) (t : Tags) (k : ℕ) (bands : List (EqBand Double)) (n i : ℕ)
      (band : EqBand Double)
      → n ≡ k + i
      → get_elem? bands i ≡ some band
      → All P (channel_writes F I L t k bands)
      → All P (band_writes F I L t n band)
  channel-band P t k [] n i band p e a = cc
  channel-band P t k (b ∷ bands) n zero band p e a =
      let same : b ≡ band = cc in
      let place : k ≡ n = omega (arith, p) in
      subst (λ m. All P (band_writes F I L t m band)) place
        (subst (λ x. All P (band_writes F I L t k x)) same
          (All-split P (band_writes F I L t k b) (channel_writes F I L t (suc k) bands) a).0)
  channel-band P t k (b ∷ bands) n (suc i) band p e a =
      channel-band P t (suc k) bands n i band (omega (arith, p)) e
        (All-split P (band_writes F I L t k b) (channel_writes F I L t (suc k) bands) a).1

  left-BandShows :
      (h r : Lv2HostCore Float) (i : ℕ) (band : EqBand Double)
      → All (Applied F I L h r) (band_writes F I L left_tags i band)
      → BandShows h r "l" i band
  left-BandShows h r i band (a, (b, (c, (d, (e, (f, (g, (w, (x, _))))))))) = record {
    type = a;
    mode = b;
    slope = c;
    solo = d;
    mute = e;
    frequency = f;
    q = g;
    width = w;
    gain = x;
  }

  right-BandShows :
      (h r : Lv2HostCore Float) (i : ℕ) (band : EqBand Double)
      → All (Applied F I L h r) (band_writes F I L right_tags i band)
      → BandShows h r "r" i band
  right-BandShows h r i band (a, (b, (c, (d, (e, (f, (g, (w, (x, _))))))))) = record {
    type = a;
    mode = b;
    slope = c;
    solo = d;
    mute = e;
    frequency = f;
    q = g;
    width = w;
    gain = x;
  }

  -- With 32 bands on each side, whatever calls the host has had before: each setting of the
  -- equalizer's preset is what its own port reads afterwards, within the port's bounds, and the
  -- ports that the mapper does not name read what they read before.
  pub apply_eq-EqShows :
      (preset : EqPreset Double) (h : Lv2HostCore Float)
      → length preset.left ≡ 32
      → length preset.right ≡ 32
      → Reached F I h
      → EqShows preset h (apply_eq_preset_to_host F I L preset h)
  apply_eq-EqShows preset h left right reached =
      let r = apply_eq_preset_to_host F I L preset h in
      let all = apply_eq-AllApplied F I L preset h left right reached in
      let same : eq_symbols F I L 32 32
          ≡ eq_symbols F I L (length preset.left) (length preset.right) =
        rw (left, right) refl in
      let (mode, (bal, (pl, (pr, (link, bands))))) = all.applied in
      let (ls, rs) =
        All-split (Applied F I L h r) (channel_writes F I L left_tags 0 preset.left)
          (channel_writes F I L right_tags 0 preset.right) bands in
      record {
        mode = mode;
        balance = bal;
        pitch_left = pl;
        pitch_right = pr;
        linked = link;
        left = λ i band e.
            left-BandShows h r i band (
              channel-band (Applied F I L h r) left_tags 0 preset.left i i band (omega arith) e ls);
        right = λ i band e. right-BandShows h r i band (
            channel-band (Applied F I L h r) right_tags 0 preset.right i i band (omega arith) e rs);
        others = λ other n.
            all.others other (
              subst (λ l. contains l other ≡ false) (same ∙ sym (symbols-eq_writes F I L preset))
                n);
      }
