-- ===== src/Lv2/Urids.antt =====
-- The numbers that stand for URIs (src/lv2_host_core.cpp, map_urid and the plugin's unmap).
use ee_eq_cli.Common.{
  ℕ, ◌+◌, ◌%◌, ◌^◌, ◌<◌, ◌==◌, true, false, not, String, List, [], ◌∷◌, Option, none, some, ◌≡◌,
  refl, sym, ap, subst, ◌∙◌, ◌=s◌, =s_iff, keep, on_option_cases, if◌then◌else◌, if_cases,
  Bool-cases, inl, inr, arith,
}
use ee_eq_cli.Lv2.{Lv2HostCore, Urid, Mapped, find_uri, find_urid, map_urid, uri_of, unmap_urid}

find_urid-keep :
    (n m : ℕ) (urids : List Urid)
    → (n == m) ≡ false
    → find_urid m (keep (λ u. not (u.urid == n)) urids) ≡ find_urid m urids
find_urid-keep n m [] e = refl
find_urid-keep n m (u ∷ urids) e =
    if_cases {A = List Urid} (λ l. find_urid m l ≡ find_urid m (u ∷ urids)) (not (u.urid == n))
      (λ _. ap (λ o. if u.urid == m then some u else o) (find_urid-keep n m urids e))
      (λ q.
        let d : (u.urid == m) ≡ false = ground (arith, q, e) in rw d (find_urid-keep n m urids e))

module _ {Fl : Type 0} where
  -- Every number that a URI has leads back to it, and numbers that are given are below the next.
  pub record Consistent (h : Lv2HostCore Fl) : Type 0 where
    pub back :
        (uri : String) (u : Urid)
        → find_uri uri h.uri_to_urid ≡ some u
        → unmap_urid u.urid h ≡ some uri
    pub below : (urid : ℕ) (uri : String) → unmap_urid urid h ≡ some uri → urid < h.next_urid

  abbrev pub with_urid : String → Lv2HostCore Fl → Lv2HostCore Fl
  with_urid uri h = record h {
    next_urid = (h.next_urid + 1) % 2 ^ 32;
    uri_to_urid = record { uri = uri; urid = h.next_urid } ∷ h.uri_to_urid;
    urid_to_uri =
        record { uri = uri; urid = h.next_urid }
        ∷ keep (λ u. not (u.urid == h.next_urid)) h.urid_to_uri;
  }

  -- A number that is given keeps its URI, and the new one gets the new URI.
  unmap-with_urid :
      (uri : String) (h : Lv2HostCore Fl) → unmap_urid h.next_urid (with_urid uri h) ≡ some uri
  unfolding unmap_urid
  unmap-with_urid uri h =
      let same : (h.next_urid == h.next_urid) ≡ true = ground arith in rw same refl

  unmap-with_urid_ne :
      (uri : String) (h : Lv2HostCore Fl) (urid : ℕ)
      → (h.next_urid == urid) ≡ false
      → unmap_urid urid (with_urid uri h) ≡ unmap_urid urid h
  unfolding unmap_urid
  unmap-with_urid_ne uri h urid other =
      rw other (ap uri_of (find_urid-keep h.next_urid urid h.urid_to_uri other))

  -- What `map_urid` does for a URI: the number leads to the URI, and numbers that were given stay.
  pub record Maps (uri : String) (h : Lv2HostCore Fl) (r : Mapped Fl) : Type 0 where
    pub leads_back : unmap_urid r.urid r.host ≡ some uri
    pub kept : (n : ℕ) (u : String) → unmap_urid n h ≡ some u → unmap_urid n r.host ≡ some u
    pub consistent : Consistent r.host

  with_urid-back :
      (uri wanted : String) (h : Lv2HostCore Fl) (u : Urid)
      → Consistent h
      → find_uri wanted (with_urid uri h).uri_to_urid ≡ some u
      → unmap_urid u.urid (with_urid uri h) ≡ some wanted
  with_urid-back uri wanted h u c =
      if_cases {A = Option Urid}
        (λ o. o ≡ some u → unmap_urid u.urid (with_urid uri h) ≡ some wanted) (uri =s wanted)
        (λ e q.
          let p : h.next_urid ≡ u.urid = ap_urid q in
          subst (λ n. unmap_urid n (with_urid uri h) ≡ some wanted) p
            (unmap-with_urid uri h ∙ ap some ((=s_iff uri wanted).0 e)))
        (λ e q.
          let b = c.back wanted u q in
          unmap-with_urid_ne uri h u.urid (let l = c.below u.urid wanted b in ground (arith, l))
          ∙ b)
    where
      ap_urid : {v w : Urid} → ◌≡◌ {A = Option Urid} (some v) (some w) → v.urid ≡ w.urid
      ap_urid q = cc

  with_urid-Consistent :
      (uri : String) (h : Lv2HostCore Fl)
      → h.next_urid + 1 < 2 ^ 32
      → Consistent h
      → Consistent (with_urid uri h)
  with_urid-Consistent uri h room c = record {
    back = λ wanted u q. with_urid-back uri wanted h u c q;
    below = λ n wanted q. elim (Bool-cases (h.next_urid == n)) [
      | inl e ↦ ground (arith, e, room)
      | inr e ↦
          let l = c.below n wanted (sym (unmap-with_urid_ne uri h n e) ∙ q) in
          omega (arith, l, room)
    ];
  }

  -- With a number left, `map_urid` gives a URI a number that leads back to it, the one it has if it
  -- has one, and takes no other URI's number: the plugin's unmap still gives every URI that it
  -- gave before.
  pub map_urid-Maps :
      (uri : String) (h : Lv2HostCore Fl)
      → h.next_urid + 1 < 4294967296
      → Consistent h
      → Maps uri h (map_urid uri h)
  unfolding map_urid
  map_urid-Maps uri h room c =
      on_option_cases {X = Mapped Fl} (Maps uri h) (find_uri uri h.uri_to_urid)
        (λ _. record {
          leads_back = unmap-with_urid uri h;
          kept =
              λ n u q. unmap-with_urid_ne uri h n (let l = c.below n u q in ground (arith, l)) ∙ q;
          consistent = with_urid-Consistent uri h room c;
        })
        (λ u e. record { leads_back = c.back uri u e; kept = λ n v q. q; consistent = c })

  -- The constructor leaves nothing mapped.
  pub nothing_mapped-Consistent :
      (h : Lv2HostCore Fl) → h.uri_to_urid ≡ [] → h.urid_to_uri ≡ [] → Consistent h
  unfolding unmap_urid
  nothing_mapped-Consistent h a b = record {
    back = λ uri u q. let p : find_uri uri h.uri_to_urid ≡ none = ap (find_uri uri) a in cc;
    below = λ n uri q.
        let p : uri_of (find_urid n h.urid_to_uri) ≡ none = ap (λ l. uri_of (find_urid n l)) b in
        cc;
  }
