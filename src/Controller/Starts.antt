-- ===== src/Controller/Starts.antt =====
-- The branches of the handlers that start a session: the start succeeds, or the previous session is
-- started again, or that fails too, or there was none.
use ee_eq_cli.Common.{true, false, String, Option, none, some, ◌≡◌, refl, if_cases}
use ee_eq_cli.Floats.{FloatOps}
use ee_eq_cli.Backend.{SessionBackend, Started}
use ee_eq_cli.Protocol.{HealthState}
use ee_eq_cli.Controller.{DesiredConfig, DaemonController, is_enabled}
use ee_eq_cli.Controller.Handlers.{
  Step, adopt, succeed, give_up, roll_back, start_or_roll_back, start_desired, with_backend,
  with_health, reply,
}

module _ {F : FloatOps} (B : SessionBackend F) where
  abbrev pub start : DaemonController B → DesiredConfig F → Started B.State
  start s c = B.start_session s.backend c.preset c.preset_origin c.sink_selector

  abbrev pub after_start : DaemonController B → DesiredConfig F → DaemonController B
  after_start s c = with_backend B (start s c).state s

  -- The previous session runs again, and the error is reported.
  abbrev pub recovered : DesiredConfig F → String → DaemonController B → Step B
  recovered c e s =
      let back = with_health B HealthState.degraded e (adopt B c s) in (reply B back false e, back)

  pub record RollBack (d : Option (DesiredConfig F)) (e : String) (s : DaemonController B)
      (P : Step B → Type 0) : Type 0 where
    pub back :
        (c : DesiredConfig F)
        → d ≡ some c
        → c.enabled ≡ true
        → (start s c).started ≡ true
        → P (recovered c e (after_start s c))
    pub lost :
        (c : DesiredConfig F)
        → d ≡ some c
        → c.enabled ≡ true
        → (start s c).started ≡ false
        → P (give_up B d e (after_start s c))
    pub off : is_enabled d ≡ false → P (give_up B d e s)

  pub roll_back-cases :
      (P : Step B → Type 0) (d : Option (DesiredConfig F)) (e : String) (s : DaemonController B)
      → RollBack d e s P
      → P (roll_back B d e s)
  unfolding roll_back
  roll_back-cases P none e s b = b.off refl
  roll_back-cases P (some c) e s b =
      if_cases P c.enabled
        (λ on.
          if_cases P (start s c).started (λ up. b.back c refl on up)
            (λ down. b.lost c refl on down))
        (λ off. b.off off)

  pub record Start (d : Option (DesiredConfig F)) (c : DesiredConfig F) (s : DaemonController B)
      (P : Step B → Type 0) : Type 0 where
    pub up : (start s c).started ≡ true → P (succeed B (adopt B c (after_start s c)))
    pub down : (start s c).started ≡ false → RollBack d (start s c).error (after_start s c) P

  pub start_or_roll_back-cases :
      (P : Step B → Type 0) (d : Option (DesiredConfig F)) (c : DesiredConfig F)
      (s : DaemonController B)
      → Start d c s P
      → P (start_or_roll_back B d c s)
  unfolding start_or_roll_back
  start_or_roll_back-cases P d c s b =
      if_cases P (start s c).started (λ h. b.up h)
        (λ h. roll_back-cases P d (start s c).error (after_start s c) (b.down h))

  pub start_desired-cases :
      (P : Step B → Type 0) (c : DesiredConfig F) (s : DaemonController B)
      → ((start s c).started ≡ true
          → P (succeed B (adopt B (record c { enabled = true }) (after_start s c))))
      → ((start s c).started ≡ false
          → P (give_up B (some (record c { enabled = false })) (start s c).error (after_start s c)))
      → P (start_desired B c s)
  unfolding start_desired
  start_desired-cases P c s up down = if_cases P (start s c).started up down
