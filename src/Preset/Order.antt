-- ===== src/Preset/Order.antt =====
-- What the loop over `plugins_order` keeps.
use ee_eq_cli.Common.{
  arith, Bool, true, false, ◌||◌, String, List, [], ◌∷◌, ◌++◌, ◌≡◌, refl, sym, subst, ◌=s◌,
  contains, All, All-append, Distinct, Distinct-append, contains-append, starts_with, if_cases,
}
use ee_eq_cli.Outcome.{Outcome, ok, ◌>>=◌, bind_inv, ok_inj}
use ee_eq_cli.Preset.Plugins.{Order, push_plugin_kind, read_plugin, read_order}

-- The plugins that the program runs.
abbrev pub IsKind : String → Type 0
IsKind k = contains ("equalizer" ∷ "limiter" ∷ "convolver" ∷ []) k ≡ true

pub record IsOrder (o : Order) : Type 0 where
  pub distinct : Distinct o.kinds
  pub known : All IsKind o.kinds
  pub equalizer : o.has_equalizer ≡ contains o.kinds "equalizer"

push_inv :
    (kinds : List String) (k : String) {x : List String}
    → push_plugin_kind kinds k ≡ ok x
    → (contains kinds k ≡ false) × (kinds ++ (k ∷ []) ≡ x)
unfolding push_plugin_kind
push_inv kinds k {x} h =
    if_cases {A = Outcome (List String)}
      (λ r. r ≡ ok x → (contains kinds k ≡ false) × (kinds ++ (k ∷ []) ≡ x)) (contains kinds k)
      (λ _ h. cc) (λ e h. (e, cc)) h

-- A kind is added, and `flag` says whether the equalizer is among the kinds now.
pushed :
    (o : Order) (k : String) (flag : Bool) {x : Order}
    → IsKind k
    → IsOrder o
    → (o.has_equalizer || k =s "equalizer") ≡ flag
    → (push_plugin_kind o.kinds k
        >>= (λ kinds. ok (record o { kinds = kinds; has_equalizer = flag })))
      ≡ ok x
    → IsOrder x
pushed o k flag {x} known w f h =
    let (kinds, p, q) = bind_inv (push_plugin_kind o.kinds k) _ h in
    let (fresh, same) = push_inv o.kinds k p in
    subst IsOrder (to_x kinds same q) (record {
      distinct = Distinct-append o.kinds k fresh w.distinct;
      known = All-append IsKind o.kinds (k ∷ []) w.known (known, tt);
      equalizer = rw (contains-append o.kinds k "equalizer", ← w.equalizer) (sym f);
    })
  where
    to_x :
        (kinds : List String)
        → o.kinds ++ (k ∷ []) ≡ kinds
        → ◌≡◌ {A = Outcome Order} (ok (record o { kinds = kinds; has_equalizer = flag })) (ok x)
        → record o { kinds = o.kinds ++ (k ∷ []); has_equalizer = flag } ≡ x
    to_x kinds same q = cc

read_plugin-IsOrder :
    (plugin : String) (o : Order) {x : Order} → IsOrder o → read_plugin plugin o ≡ ok x → IsOrder x
unfolding read_plugin
read_plugin-IsOrder plugin o {x} w =
    if_cases {A = Outcome Order} (λ r. r ≡ ok x → IsOrder x) (starts_with plugin "equalizer")
      (λ _. pushed o "equalizer" true refl w (ground arith))
      (λ _.
        if_cases {A = Outcome Order} (λ r. r ≡ ok x → IsOrder x) (starts_with plugin "limiter")
          (λ _. pushed o "limiter" o.has_equalizer refl w (ground arith))
          (λ _.
            if_cases {A = Outcome Order} (λ r. r ≡ ok x → IsOrder x)
              (starts_with plugin "convolver")
              (λ _. pushed o "convolver" o.has_equalizer refl w (ground arith))
              (λ _ h.
                subst IsOrder (ok_inj h)
                  (record { distinct = w.distinct; known = w.known; equalizer = w.equalizer }))))

pub read_order-IsOrder :
    (plugins : List String) (o : Order) {x : Order}
    → IsOrder o
    → read_order plugins o ≡ ok x
    → IsOrder x
unfolding read_order
read_order-IsOrder [] o w h = subst IsOrder (ok_inj h) w
read_order-IsOrder (plugin ∷ plugins) o w h =
    let (mid, p, q) = bind_inv (read_plugin plugin o) (read_order plugins) h in
    read_order-IsOrder plugins mid (read_plugin-IsOrder plugin o w p) q
