-- ===== src/Controller/Rollback.antt =====
-- Requests that fail: what they leave of the configuration and of the session.
use ee_eq_cli.Common.{
  Bool, true, false, String, Option, some, ok, ◌≡◌, refl, is_empty, ◌⊎◌, inl, inr, if_cases, ◌∙◌,
}
use ee_eq_cli.Floats.{FloatOps, FloatLaws}
use ee_eq_cli.Preset.{ParsedPreset}
use ee_eq_cli.Backend.{SessionBackend, BackendLaws}
use ee_eq_cli.Protocol.{SessionLifecycleState, DaemonRequest}
use ee_eq_cli.Controller.{
  Host, DesiredConfig, DaemonController, LoadedPresetSource, daemon_mode_environment_error,
}
use ee_eq_cli.Controller.Handlers.{
  Step, apply, enable, candidate, apply_parsed, apply_locked, start_or_roll_back, roll_back,
  handle_request, run_command, command_of, switched_off, with_session, with_backend,
}
use ee_eq_cli.Controller.Starts.{start, after_start}
use ee_eq_cli.Controller.Sessions.{Plays, started-Plays}
use ee_eq_cli.Controller.Spec.{Allowed, adopt_view, handle_request-Allowed}

module _ {F : FloatOps} (B : SessionBackend F) where
  open F use {Double}

  Kept : DaemonRequest → Option (DesiredConfig F) → Option (DesiredConfig F) → Type 0
  Kept r d d' = (d' ≡ d) ⊎ ((command_of r.command ≡ enable) × (d' ≡ switched_off B d))

  Allowed-Kept :
      {host : Host F} {r : DaemonRequest} {d d' : Option (DesiredConfig F)} {run a run' : Bool}
      → Allowed B host r d run a d' run'
      → a ≡ false
      → Kept r d d'
  unfolding Kept
  Allowed-Kept Allowed.refused e = inl refl
  Allowed-Kept (Allowed.rolled_back k on) e = inl refl
  Allowed-Kept (Allowed.lost k) e = inl refl
  Allowed-Kept (Allowed.not_enabled c k p) e = inr (k, rw p refl)
  Allowed-Kept (Allowed.answered k) e = cc
  Allowed-Kept (Allowed.already c k p on) e = cc
  Allowed-Kept (Allowed.applied loaded parsed k l p) e = cc
  Allowed-Kept (Allowed.enabled c k p) e = cc
  Allowed-Kept (Allowed.stopped k) e = cc
  Allowed-Kept (Allowed.set_aside c k p on) e = cc
  Allowed-Kept (Allowed.switched c k p on) e = cc
  Allowed-Kept (Allowed.bypassed c k p on) e = cc
  Allowed-Kept (Allowed.turned c v k p on) e = cc

  module _ (Q : FloatLaws F) (L : BackendLaws B) where
    -- A request that is not accepted changes nothing of the desired configuration, but that a
    -- failing `enable` leaves it switched off.
    pub rejected-keeps-desired :
        (host : Host F) (s : DaemonController B) (r : DaemonRequest)
        → (let p = handle_request B host s r in
            p.0.ok ≡ false
            → (p.1.desired ≡ s.desired)
              ⊎ ((command_of r.command ≡ enable) × (p.1.desired ≡ switched_off B s.desired)))
    unfolding Kept
    rejected-keeps-desired host s r e = Allowed-Kept (handle_request-Allowed B Q L host r s) e

    -- The state in which `apply` tries to start the new session, with the old one stopped.
    abbrev pub ready_for_apply : DaemonController B → DaemonController B
    ready_for_apply s =
        with_backend B (B.stop_session s.backend) (with_session B SessionLifecycleState.enabling s)

    roll_back_lem :
        (c : DesiredConfig F) (e : String) (s : DaemonController B)
        → c.enabled ≡ true
        → (start B s c).started ≡ true
        → (let p = roll_back B (some c) e s in
            (p.0.ok ≡ false) × (p.0.error ≡ e) × (p.1.desired ≡ some c) × Plays B Q L c p.1.backend)
    unfolding roll_back
    roll_back_lem c e s on up =
        let plays = started-Plays B Q L s c up in
        let view = adopt_view B c (after_start B s c) in
        if_cases
          (λ (p : Step B).
            (p.0.ok ≡ false) × (p.0.error ≡ e) × (p.1.desired ≡ some c) × Plays B Q L c p.1.backend)
          c.enabled
          (λ _.
            if_cases
              (λ (p : Step B).
                (p.0.ok ≡ false)
                × (p.0.error ≡ e)
                × (p.1.desired ≡ some c)
                × Plays B Q L c p.1.backend)
              (start B s c).started (λ _. (refl, refl, view.0, plays)) (λ down. cc))
          (λ off. cc)

    apply_parsed-back :
        (s : DaemonController B) (w c : DesiredConfig F)
        → s.desired ≡ some c
        → c.enabled ≡ true
        → (start B (ready_for_apply s) w).started ≡ false
        → apply_parsed B s w
          ≡ roll_back B
              (some c)
              (start B (ready_for_apply s) w).error
              (after_start B (ready_for_apply s) w)
    unfolding apply_parsed start_or_roll_back
    apply_parsed-back s w c e on down = simp (e, on, down)

    module _ (host : Host F) (s : DaemonController B) (r : DaemonRequest)
        (loaded : LoadedPresetSource) (parsed : ParsedPreset Double)
        (allowed : is_empty (daemon_mode_environment_error host.getenv) ≡ true)
        (asked : command_of r.command ≡ apply) (path : is_empty r.preset_path ≡ false)
        (read : host.load_preset_source r.preset_path ≡ ok loaded)
        (good : host.parse_easy_effects_preset loaded.bytes ≡ ok parsed) where
      abbrev wanted : DesiredConfig F
      wanted = candidate B s.desired r loaded.origin parsed

      handle_request-apply : handle_request B host s r ≡ apply_parsed B s wanted
      unfolding handle_request run_command apply_locked
      handle_request-apply = simp (allowed, asked, path, read, good)

      -- `apply` of a valid preset while another session is enabled: if the new session cannot be
      -- started and the old one can be started again, the request is refused with the new session's
      -- error, and the old configuration is kept and plays again: its preset and its sink are what
      -- was started last, with its bypass and volume.
      pub apply-rolls_back :
          (c : DesiredConfig F)
          → s.desired ≡ some c
          → c.enabled ≡ true
          → (start B (ready_for_apply s) wanted).started ≡ false
          → (start B (after_start B (ready_for_apply s) wanted) c).started ≡ true
          → (let p = handle_request B host s r in
              (p.0.ok ≡ false)
              × (p.0.error ≡ (start B (ready_for_apply s) wanted).error)
              × (p.1.desired ≡ some c)
              × Plays B Q L c p.1.backend)
      apply-rolls_back c e on down up =
          rw (handle_request-apply ∙ apply_parsed-back s wanted c e on down)
            (roll_back_lem c _ (after_start B (ready_for_apply s) wanted) on up)
