-- ===== src/Controller/Spec.antt =====
-- What the daemon promises, without its cached status: an abstract state of two parts, the desired
-- configuration and whether a session runs, and the steps that a request may take on it. The
-- handlers refine these steps.
use ee_eq_cli.Common.{
  Bool, true, false, not, String, Option, some, ok, ◌≡◌, refl, arith, is_empty, ◌⊎◌, inl, inr,
  if_cases, ap, sym, ◌∙◌,
}
use ee_eq_cli.Floats.{FloatOps, FloatLaws}
use ee_eq_cli.Preset.{ParsedPreset}
use ee_eq_cli.Backend.{SessionBackend, BackendLaws, RuntimeSnapshot, active}
use ee_eq_cli.Protocol.{SessionLifecycleState, DaemonRequest}
use ee_eq_cli.Controller.{
  Host, DesiredConfig, DaemonController, LoadedPresetSource, is_enabled,
  set_runtime_state_from_backend_locked, clear_effective_state_locked,
}
use ee_eq_cli.Controller.Handlers.{
  Step, Command, status, list_sinks, apply, enable, disable, switch_sink, bypass, volume, shutdown,
  push_settings, adopt, succeed, give_up, start_or_roll_back, start_desired, candidate,
  apply_parsed, disable_locked, list_sinks_locked, shutdown_locked, stop_and_clear, handle_request,
  command_of, switched_off, means_on, with_session, start_or_roll_back,
}
use ee_eq_cli.Controller.Invariant.{Runs, push_settings-Runs}
use ee_eq_cli.Controller.Starts.{start, after_start, start_or_roll_back-cases, start_desired-cases}
use ee_eq_cli.Controller.Cases.{stopped_for_switch, handle_request-cases}

-- The commands that start a session and go back to the previous one if that fails.
abbrev pub is_transaction : Command → Bool
is_transaction apply = true
is_transaction switch_sink = true
is_transaction _ = false

module _ {F : FloatOps} (B : SessionBackend F) where
  open F use {Float, Double, f_one}

  abbrev pub with_enabled : Bool → DesiredConfig F → DesiredConfig F
  with_enabled b c = record c { enabled = b }

  -- `Allowed host r d run accepted d' run'`: the request may take the desired configuration `d`
  -- and the flag `run` (a session runs) to `d'` and `run'`, and answer `accepted`.
  pub data Allowed (host : Host F) (r : DaemonRequest) (d : Option (DesiredConfig F)) (run : Bool)
      : Bool → Option (DesiredConfig F) → Bool → Type 0 where
    refused : Allowed host r d run false d run
    answered :
        (command_of r.command ≡ status) ⊎ (command_of r.command ≡ list_sinks)
        → Allowed host r d run true d run
    already :
        (c : DesiredConfig F)
        → command_of r.command ≡ enable
        → d ≡ some c
        → c.enabled ≡ true
        → Allowed host r d run true d run
    applied :
        (loaded : LoadedPresetSource) (parsed : ParsedPreset Double)
        → command_of r.command ≡ apply
        → host.load_preset_source r.preset_path ≡ ok loaded
        → host.parse_easy_effects_preset loaded.bytes ≡ ok parsed
        → Allowed host r d run true (some (candidate B d r loaded.origin parsed)) true
    -- A session could not be started: the previous one runs again,
    rolled_back :
        is_transaction (command_of r.command) ≡ true
        → is_enabled d ≡ true
        → Allowed host r d run false d true
    -- or none does. The configuration is the previous one in both cases.
    lost : is_transaction (command_of r.command) ≡ true → Allowed host r d run false d false
    enabled :
        (c : DesiredConfig F)
        → command_of r.command ≡ enable
        → d ≡ some c
        → Allowed host r d run true (some (with_enabled true c)) true
    not_enabled :
        (c : DesiredConfig F)
        → command_of r.command ≡ enable
        → d ≡ some c
        → Allowed host r d run false (some (with_enabled false c)) false
    stopped :
        (command_of r.command ≡ disable) ⊎ (command_of r.command ≡ shutdown)
        → Allowed host r d run true (switched_off B d) false
    set_aside :
        (c : DesiredConfig F)
        → command_of r.command ≡ switch_sink
        → d ≡ some c
        → c.enabled ≡ false
        → Allowed host r d run true (some (record c { sink_selector = r.sink_selector })) run
    switched :
        (c : DesiredConfig F)
        → command_of r.command ≡ switch_sink
        → d ≡ some c
        → c.enabled ≡ true
        → Allowed host r d run true (some (record c { sink_selector = r.sink_selector })) true
    bypassed :
        (c : DesiredConfig F)
        → command_of r.command ≡ bypass
        → d ≡ some c
        → c.enabled ≡ true
        → Allowed host r d run true (some (record c { bypass = means_on r.sink_selector })) run
    turned :
        (c : DesiredConfig F) (v : Float)
        → command_of r.command ≡ volume
        → d ≡ some c
        → c.enabled ≡ true
        → Allowed host r d run true (some (record c { volume = v })) run

  pub adopt_view :
      (c : DesiredConfig F) (s : DaemonController B)
      → ((adopt B c s).desired ≡ some c) × ((adopt B c s).backend ≡ push_settings B s.backend c)
  unfolding adopt set_runtime_state_from_backend_locked
  adopt_view c s = ground arith

  give_up_view :
      (d : Option (DesiredConfig F)) (e : String) (s : DaemonController B)
      → ((give_up B d e s).1.desired ≡ d)
        × ((give_up B d e s).1.backend ≡ s.backend)
        × ((give_up B d e s).0.ok ≡ false)
  unfolding give_up clear_effective_state_locked
  give_up_view d e s = (refl, refl, refl)

  module _ (Q : FloatLaws F) (L : BackendLaws B) where
    -- A session that has been started and adopted is the one that `c` describes.
    pub started-Runs :
        (s : DaemonController B) (c : DesiredConfig F)
        → (start B s c).started ≡ true
        → Runs B Q L c (adopt B c (after_start B s c)).backend
    started-Runs s c h = rw (adopt_view c (after_start B s c)).1 (
        push_settings-Runs B Q L c (start B s c).state
          (L.start_active s.backend c.preset c.preset_origin c.sink_selector h)
          (L.start_origin s.backend c.preset c.preset_origin c.sink_selector h)
          (L.start_bypass s.backend c.preset c.preset_origin c.sink_selector h)
          (L.start_volume s.backend c.preset c.preset_origin c.sink_selector h))

    module _ (host : Host F) (r : DaemonRequest) where
      -- The step that a handler takes, seen abstractly.
      abbrev Refines : Option (DesiredConfig F) → Bool → Step B → Type 0
      Refines d run p = Allowed host r d run p.0.ok p.1.desired (active B p.1.backend)

      reindex :
          {d d' e' : Option (DesiredConfig F)} {run a a' x x' : Bool}
          → a ≡ a'
          → d' ≡ e'
          → x ≡ x'
          → Allowed host r d run a' e' x'
          → Allowed host r d run a d' x
      reindex p q t h = rw (p, q, t) h

      give_up-Refines :
          (d : Option (DesiredConfig F)) (run : Bool) (e : String) (s : DaemonController B)
          → active B s.backend ≡ false
          → (d' : Option (DesiredConfig F)) → Allowed host r d run false d' false
          → Refines d run (give_up B d' e s)
      unfolding give_up clear_effective_state_locked
      give_up-Refines d run e s a d' h = reindex refl refl a h

      started-Refines :
          (d : Option (DesiredConfig F)) (run : Bool) (c : DesiredConfig F) (s : DaemonController B)
          → (start B s c).started ≡ true
          → Allowed host r d run true (some c) true
          → Refines d run (succeed B (adopt B c (after_start B s c)))
      unfolding succeed
      started-Refines d run c s h x =
          reindex refl (adopt_view c (after_start B s c)).0 (started-Runs s c h).is_active x

      failed_start :
          (s : DaemonController B) (c : DesiredConfig F)
          → (start B s c).started ≡ false
          → active B (after_start B s c).backend ≡ false
      failed_start s c h = L.start_failed s.backend c.preset c.preset_origin c.sink_selector h

      -- Start, or go back: `run` may be anything, since the session is stopped before.
      transaction-Refines :
          (d : Option (DesiredConfig F)) (run : Bool) (c : DesiredConfig F) (s : DaemonController B)
          → is_transaction (command_of r.command) ≡ true
          → Allowed host r d run true (some c) true
          → Refines d run (start_or_roll_back B d c s)
      transaction-Refines d run c s k x = start_or_roll_back-cases B (Refines d run) d c s (record {
        up = λ h. started-Refines d run c s h x;
        down = λ h. record {
          back = λ c' e on h'.
              reindex refl ((adopt_view c' (after_start B (after_start B s c) c')).0 ∙ sym e)
                (started-Runs (after_start B s c) c' h').is_active
                (rolled_back k (ap is_enabled e ∙ on));
          lost = λ c' e on h'.
              give_up-Refines d run _ _ (failed_start (after_start B s c) c' h') d (lost k);
          off = λ _. give_up-Refines d run _ _ (failed_start s c h) d (lost k);
        };
      })

      apply-Refines :
          (s : DaemonController B) (c : DesiredConfig F)
          → is_transaction (command_of r.command) ≡ true
          → Allowed host r s.desired (active B s.backend) true (some c) true
          → Refines s.desired (active B s.backend) (apply_parsed B s c)
      unfolding apply_parsed
      apply-Refines s c k x = transaction-Refines s.desired (active B s.backend) c _ k x

      enable-Refines :
          (c : DesiredConfig F) (s : DaemonController B)
          → command_of r.command ≡ enable
          → s.desired ≡ some c
          → Refines s.desired
              (active B s.backend)
              (start_desired B c (with_session B SessionLifecycleState.enabling s))
      enable-Refines c s k e =
          let s' = with_session B SessionLifecycleState.enabling s in
          start_desired-cases B (Refines s.desired (active B s.backend)) c s'
            (λ h.
              started-Refines s.desired (active B s.backend) (with_enabled true c) s' h
                (enabled c k e))
            (λ h.
              give_up-Refines s.desired (active B s.backend) _ _ (failed_start s' c h) _
                (not_enabled c k e))

      stop-Refines :
          (s : DaemonController B)
          → (command_of r.command ≡ disable) ⊎ (command_of r.command ≡ shutdown)
          → Allowed host r s.desired
              (active B s.backend)
              true
              (stop_and_clear B s).desired
              (active B (stop_and_clear B s).backend)
      unfolding stop_and_clear clear_effective_state_locked
      stop-Refines s k = reindex refl refl (L.stop_inactive s.backend) (stopped k)

      list_sinks-Refines :
          (s : DaemonController B)
          → command_of r.command ≡ list_sinks
          → Refines s.desired (active B s.backend) (list_sinks_locked B s)
      unfolding list_sinks_locked
      list_sinks-Refines s k =
          let same =
            ap (λ (n : RuntimeSnapshot Float). n.session_active) (L.list_snapshot s.backend) in
          if_cases (Refines s.desired (active B s.backend))
            (not (is_empty (B.list_sinks s.backend).error)) (λ _. reindex refl refl same refused)
            (λ _. reindex refl refl same (answered (inr k)))

      -- Every request takes an allowed step: seen as the desired configuration and the flag
      -- whether a session runs, the controller does what `Allowed` permits for that command.
      pub handle_request-Allowed :
          (s : DaemonController B)
          → (let p = handle_request B host s r in
              Allowed host r s.desired
                (active B s.backend)
                p.0.ok
                p.1.desired
                (active B p.1.backend))
      unfolding succeed disable_locked shutdown_locked
      handle_request-Allowed s =
          handle_request-cases B host s r (Refines s.desired (active B s.backend)) (record {
            refused = λ e _. refused;
            answered = λ k. answered (inl k);
            already = λ c k e on. already c k e (ground arith);
            applied = λ loaded parsed k l p.
                apply-Refines s _ (ap is_transaction k) (applied loaded parsed k l p);
            enabled = λ c k e. enable-Refines c s k e;
            disabled = λ k. stop-Refines s (inl k);
            set_aside = λ c k e off. set_aside c k e off;
            switched = λ c k e on. rw e (
                transaction-Refines (some c) (active B s.backend) _
                  (stopped_for_switch B host s r c) (ap is_transaction k) (switched c k refl on));
            bypassed =
                λ c k e on. reindex refl refl (L.bypass_active s.backend _) (bypassed c k e on);
            turned =
                λ c x k e on. reindex refl refl (L.volume_active s.backend x) (turned c x k e on);
            listed = λ k. list_sinks-Refines s k;
            stopped = λ k. stop-Refines s (inr k);
          })
