-- ===== src/Controller/Sessions.antt =====
-- Which session a backend holds: for which preset and sink it was started, and what was set since.
use ee_eq_cli.Common.{Bool, true, ◌≡◌, subst, sym, if◌then◌else◌, if_cases}
use ee_eq_cli.Floats.{FloatOps, FloatLaws}
use ee_eq_cli.Backend.{SessionBackend, BackendLaws}
use ee_eq_cli.Controller.{DesiredConfig, DaemonController}
use ee_eq_cli.Controller.Handlers.{adopt, push_settings}
use ee_eq_cli.Controller.Invariant.{Runs}
use ee_eq_cli.Controller.Starts.{start, after_start}
use ee_eq_cli.Controller.Spec.{adopt_view, started-Runs}

module _ {F : FloatOps} (B : SessionBackend F) where
  open F use {Float, f_one, f_ne}

  -- Only bypass and volume have been set since.
  pub data Adjusted (b : B.State) : B.State → Type 0 where
    untouched : Adjusted b b
    bypassed : {b' : B.State} (x : Bool) → Adjusted b b' → Adjusted b (B.set_bypass b' x)
    turned : {b' : B.State} (v : Float) → Adjusted b b' → Adjusted b (B.set_volume b' v)

  push_settings-Adjusted : (b : B.State) (c : DesiredConfig F) → Adjusted b (push_settings B b c)
  unfolding push_settings
  push_settings-Adjusted b c =
      let first : Adjusted b (if c.bypass then B.set_bypass b true else b) =
        if_cases {A = B.State} (Adjusted b) c.bypass (λ _. bypassed true untouched)
          (λ _. untouched) in
      if_cases {A = B.State} (Adjusted b) (f_ne c.volume f_one) (λ _. turned c.volume first)
        (λ _. first)

  module _ (Q : FloatLaws F) (L : BackendLaws B) where
    -- The backend runs the session of `c`: a start with the preset, the origin and the sink of `c`
    -- has succeeded, only bypass and volume were set since, and they are those of `c`.
    pub record Plays (c : DesiredConfig F) (b : B.State) : Type 0 where
      pub before : B.State
      pub started : (B.start_session before c.preset c.preset_origin c.sink_selector).started ≡ true
      pub since : Adjusted (B.start_session before c.preset c.preset_origin c.sink_selector).state b
      pub runs : Runs B Q L c b

    pub started-Plays :
        (s : DaemonController B) (c : DesiredConfig F)
        → (start B s c).started ≡ true
        → Plays c (adopt B c (after_start B s c)).backend
    started-Plays s c h = record {
      before = s.backend;
      started = h;
      since =
          subst (Adjusted (start B s c).state) (sym (adopt_view B c (after_start B s c)).1)
            (push_settings-Adjusted (start B s c).state c);
      runs = started-Runs B Q L s c h;
    }
