-- ===== src/Controller/Invariant.antt =====
-- The controller's invariant, and that every request keeps it.
use ee_eq_cli.Common.{true, false, String, Option, none, some, ◌≡◌, refl, ◌≢◌, arith, if_cases}
use ee_eq_cli.Floats.{FloatOps, FloatLaws}
use ee_eq_cli.Backend.{SessionBackend, BackendLaws, active}
use ee_eq_cli.Protocol.{SessionLifecycleState, HealthState}
use ee_eq_cli.Controller.{
  DesiredConfig, DaemonController, is_enabled, set_runtime_state_from_backend_locked,
  clear_effective_state_locked,
}
use ee_eq_cli.Controller.Handlers.{
  Step, push_settings, adopt, succeed, give_up, roll_back, start_or_roll_back, with_backend,
  with_health,
}

-- Between requests the session is not in transition.
abbrev pub IsSettled : SessionLifecycleState → Type 0
IsSettled SessionLifecycleState.enabling = ⊥
IsSettled SessionLifecycleState.disabling = ⊥
IsSettled _ = Unit {0}

module _ {F : FloatOps} (B : SessionBackend F) where
  open F use {Float, f_zero, f_one, f_max, f_lt, f_ne}

  -- `volume` accepts no value below 0.0 or above 1.5.
  abbrev pub IsInRange : Option (DesiredConfig F) → Type 0
  IsInRange none = Unit {0}
  IsInRange (some c) = (f_lt c.volume f_zero ≡ false) × (f_lt f_max c.volume ≡ false)

  -- A running session has the desired preset, bypass and volume.
  abbrev pub IsSynced : Option (DesiredConfig F) → B.State → Type 0
  IsSynced none b = Unit {0}
  IsSynced (some c) b =
      active B b ≡ true
      → ((B.snapshot b).preset_origin ≡ c.preset_origin)
        × ((B.snapshot b).bypass ≡ c.bypass)
        × ((B.snapshot b).volume ≡ c.volume)

  pub record Inv (s : DaemonController B) : Type 0 where
    pub settled : IsSettled s.status.session_state
    pub owned : active B s.backend ≡ true → is_enabled s.desired ≡ true
    pub synced : IsSynced s.desired s.backend
    pub in_range : IsInRange s.desired
    pub idle :
        is_enabled s.desired ≡ false
        → (s.status.effective.session_active ≡ false)
          × (s.status.session_state ≢ SessionLifecycleState.enabled)

  module _ (Q : FloatLaws F) (L : BackendLaws B) where
    -- After a start and `push_settings` the session is the desired one.
    pub record Runs (c : DesiredConfig F) (b : B.State) : Type 0 where
      pub is_active : active B b ≡ true
      pub origin : (B.snapshot b).preset_origin ≡ c.preset_origin
      pub bypass : (B.snapshot b).bypass ≡ c.bypass
      pub volume : (B.snapshot b).volume ≡ c.volume

    pub push_settings-Runs :
        (c : DesiredConfig F) (b : B.State)
        → active B b ≡ true
        → (B.snapshot b).preset_origin ≡ c.preset_origin
        → (B.snapshot b).bypass ≡ false
        → (B.snapshot b).volume ≡ f_one
        → Runs c (push_settings B b c)
    unfolding push_settings
    push_settings-Runs c b a o y v = ground (
      arith,
      Q.ne_one c.volume,
      L.bypass_active b true,
      L.bypass_origin b true,
      L.bypass_set b true,
      L.bypass_volume b true,
      L.volume_active b c.volume,
      L.volume_origin b c.volume,
      L.volume_set b c.volume,
      L.volume_bypass b c.volume,
      L.volume_active (B.set_bypass b true) c.volume,
      L.volume_origin (B.set_bypass b true) c.volume,
      L.volume_set (B.set_bypass b true) c.volume,
      L.volume_bypass (B.set_bypass b true) c.volume,
    )

    pub set_runtime_state-Inv :
        (s : DaemonController B) (c : DesiredConfig F)
        → s.desired ≡ some c
        → c.enabled ≡ true
        → IsInRange (some c)
        → Runs c s.backend
        → Inv (set_runtime_state_from_backend_locked B s)
    unfolding set_runtime_state_from_backend_locked
    set_runtime_state-Inv s c d e r h = ground arith

    pub adopt-Inv :
        (s : DaemonController B) (c : DesiredConfig F)
        → c.enabled ≡ true
        → IsInRange (some c)
        → active B s.backend ≡ true
        → (B.snapshot s.backend).preset_origin ≡ c.preset_origin
        → (B.snapshot s.backend).bypass ≡ false
        → (B.snapshot s.backend).volume ≡ f_one
        → Inv (adopt B c s)
    unfolding adopt
    adopt-Inv s c e r a o y v =
        set_runtime_state-Inv _ c refl e r (push_settings-Runs c s.backend a o y v)

    pub started-Inv :
        (s : DaemonController B) (c : DesiredConfig F)
        → (let r = B.start_session s.backend c.preset c.preset_origin c.sink_selector in
            c.enabled ≡ true
            → IsInRange (some c)
            → r.started ≡ true
            → Inv (adopt B c (with_backend B r.state s)))
    started-Inv s c e r h =
        adopt-Inv _ c e r (L.start_active s.backend c.preset c.preset_origin c.sink_selector h)
          (L.start_origin s.backend c.preset c.preset_origin c.sink_selector h)
          (L.start_bypass s.backend c.preset c.preset_origin c.sink_selector h)
          (L.start_volume s.backend c.preset c.preset_origin c.sink_selector h)

    pub with_health-Inv :
        (s : DaemonController B) (h : HealthState) (e : String) → Inv s → Inv (with_health B h e s)
    with_health-Inv s h e v = ground arith

    pub succeed-Inv : (s : DaemonController B) → Inv s → Inv (succeed B s).1
    unfolding succeed
    succeed-Inv s v = with_health-Inv s HealthState.ok "" v

    pub give_up-Inv :
        (d : Option (DesiredConfig F)) (e : String) (s : DaemonController B)
        → IsInRange d
        → active B s.backend ≡ false
        → Inv (give_up B d e s).1
    unfolding give_up clear_effective_state_locked
    give_up-Inv none e s r a = ground arith
    give_up-Inv (some c) e s r a = ground arith

    pub roll_back-Inv :
        (d : Option (DesiredConfig F)) (e : String) (s : DaemonController B)
        → IsInRange d
        → active B s.backend ≡ false
        → Inv (roll_back B d e s).1
    unfolding roll_back
    roll_back-Inv none e s r a = give_up-Inv none e s r a
    roll_back-Inv (some c) e s r a =
        if_cases (λ (p : Step B). Inv p.1) c.enabled
          (λ on.
            if_cases (λ (p : Step B). Inv p.1) _
              (λ up. with_health-Inv _ HealthState.degraded e (started-Inv s c on r up))
              (λ down.
                give_up-Inv (some c) e _ r
                  (L.start_failed s.backend c.preset c.preset_origin c.sink_selector down)))
          (λ off. give_up-Inv (some c) e s r a)

    pub start_or_roll_back-Inv :
        (d : Option (DesiredConfig F)) (c : DesiredConfig F) (s : DaemonController B)
        → IsInRange d
        → IsInRange (some c)
        → c.enabled ≡ true
        → Inv (start_or_roll_back B d c s).1
    unfolding start_or_roll_back
    start_or_roll_back-Inv d c s r r' e =
        if_cases (λ (p : Step B). Inv p.1) _ (λ up. succeed-Inv _ (started-Inv s c e r' up))
          (λ down.
            roll_back-Inv d _ _ r
              (L.start_failed s.backend c.preset c.preset_origin c.sink_selector down))
