-- ===== src/Controller/Cases.antt =====
-- The branches of `handle_request`: what is to be shown in each for a property of every request.
use ee_eq_cli.Common.{
  Bool, true, false, not, ◌&&◌, ◌||◌, String, some, ok, err, ◌≡◌, refl, ◌⊎◌, inl, inr, is_empty,
  if_cases, on_option_cases, on_result_cases, List, ℕ,
}
use ee_eq_cli.Floats.{FloatOps}
use ee_eq_cli.Preset.{ParsedPreset}
use ee_eq_cli.Backend.{SessionBackend}
use ee_eq_cli.Protocol.{SessionLifecycleState, DaemonRequest}
use ee_eq_cli.Controller.{
  Host, DesiredConfig, DaemonController, LoadedPresetSource, daemon_mode_environment_error,
}
use ee_eq_cli.Controller.Handlers.{
  Step, Command, status, apply, enable, disable, switch_sink, bypass, volume, list_sinks, shutdown,
  unknown, candidate, apply_parsed, apply_locked, enable_locked, enable_desired, start_desired,
  is_enabled_state, disable_locked, list_sinks_locked, switch_sink_locked, switch_desired,
  start_or_roll_back, bypass_locked, bypass_desired, volume_locked, volume_desired, shutdown_locked,
  succeed, with_backend, with_desired, with_session, run_command, handle_request, parse_volume,
  command_of, refuse, reply, means_on, means_off,
}

module _ {F : FloatOps} (B : SessionBackend F) (host : Host F) (s : DaemonController B)
    (r : DaemonRequest) where
  open F use {Float, Double, f_zero, f_max, f_lt}

  -- Why a request is refused: an error of the file loader or the parser, or a text of the program's.
  abbrev pub IsReason : String → Type 0
  IsReason e =
      (host.load_preset_source r.preset_path ≡ err e)
      ⊎ ((bytes : List ℕ) × (host.parse_easy_effects_preset bytes ≡ err e))
      ⊎ (is_empty e ≡ false)

  abbrev pub renamed : DesiredConfig F → DesiredConfig F
  renamed c = record c { sink_selector = r.sink_selector }

  abbrev pub stopped_for_switch : DesiredConfig F → DaemonController B
  stopped_for_switch c =
      with_backend B (B.stop_session s.backend)
        (with_session B SessionLifecycleState.enabling (with_desired B (some (renamed c)) s))

  pub record Branches (P : Step B → Type 0) : Type 0 where
    pub refused : (e : String) → IsReason e → P (refuse B s e)
    pub answered : command_of r.command ≡ status → P (reply B s true "", s)
    pub already :
        (c : DesiredConfig F)
        → command_of r.command ≡ enable
        → s.desired ≡ some c
        → c.enabled && is_enabled_state s.status.session_state ≡ true
        → P (reply B s true "", s)
    pub applied :
        (loaded : LoadedPresetSource) (parsed : ParsedPreset Double)
        → command_of r.command ≡ apply
        → host.load_preset_source r.preset_path ≡ ok loaded
        → host.parse_easy_effects_preset loaded.bytes ≡ ok parsed
        → P (apply_parsed B s (candidate B s.desired r loaded.origin parsed))
    pub enabled :
        (c : DesiredConfig F)
        → command_of r.command ≡ enable
        → s.desired ≡ some c
        → P (start_desired B c (with_session B SessionLifecycleState.enabling s))
    pub disabled : command_of r.command ≡ disable → P (disable_locked B s)
    pub set_aside :
        (c : DesiredConfig F)
        → command_of r.command ≡ switch_sink
        → s.desired ≡ some c
        → c.enabled ≡ false
        → (let s' = with_desired B (some (renamed c)) s in P (reply B s' true "", s'))
    pub switched :
        (c : DesiredConfig F)
        → command_of r.command ≡ switch_sink
        → s.desired ≡ some c
        → c.enabled ≡ true
        → P (start_or_roll_back B (some c) (renamed c) (stopped_for_switch c))
    pub bypassed :
        (c : DesiredConfig F)
        → command_of r.command ≡ bypass
        → s.desired ≡ some c
        → c.enabled ≡ true
        → (let is_on = means_on r.sink_selector in
            P (
              succeed B (
                with_backend B
                  (B.set_bypass s.backend is_on)
                  (with_desired B (some (record c { bypass = is_on })) s))))
    pub turned :
        (c : DesiredConfig F) (x : Float)
        → command_of r.command ≡ volume
        → s.desired ≡ some c
        → c.enabled ≡ true
        → (let s' =
              with_backend B
                (B.set_volume s.backend x)
                (with_desired B (some (record c { volume = x })) s) in
            P (reply B s' true "", s'))
    pub listed : command_of r.command ≡ list_sinks → P (list_sinks_locked B s)
    pub stopped : command_of r.command ≡ shutdown → P (shutdown_locked B s)

  not-true : (b : Bool) → not b ≡ true → b ≡ false
  not-true false e = refl
  not-true true e = cc

  not-false : (b : Bool) → not b ≡ false → b ≡ true
  not-false true e = refl
  not-false false e = cc

  module _ (P : Step B → Type 0) (b : Branches P) where
    own : (e : String) → is_empty e ≡ false → P (refuse B s e)
    own e h = b.refused e (inr (inr h))

    apply-cases : command_of r.command ≡ apply → P (apply_locked B host s r)
    unfolding apply_locked
    apply-cases k =
        if_cases P (is_empty r.preset_path) (λ _. own _ refl)
          λ _.
            on_result_cases P (host.load_preset_source r.preset_path) (λ e h. b.refused e (inl h))
              λ loaded l.
                on_result_cases P (host.parse_easy_effects_preset loaded.bytes)
                  (λ e h. b.refused e (inr (inl (loaded.bytes, h))))
                  λ parsed p. b.applied loaded parsed k l p

    enable-cases : command_of r.command ≡ enable → P (enable_locked B s)
    unfolding enable_locked enable_desired
    enable-cases k =
        on_option_cases P s.desired (λ _. own _ refl)
          λ c e.
            if_cases P (c.enabled && is_enabled_state s.status.session_state)
              (λ a. b.already c k e a) (λ _. b.enabled c k e)

    switch-cases : command_of r.command ≡ switch_sink → P (switch_sink_locked B s r)
    unfolding switch_sink_locked switch_desired
    switch-cases k =
        on_option_cases P s.desired (λ _. own _ refl)
          λ c e.
            if_cases P (is_empty r.sink_selector) (λ _. own _ refl)
              λ _.
                if_cases P (not c.enabled) (λ off. b.set_aside c k e (not-true c.enabled off))
                  (λ on. b.switched c k e (not-false c.enabled on))

    bypass-cases : command_of r.command ≡ bypass → P (bypass_locked B s r)
    unfolding bypass_locked bypass_desired
    bypass-cases k =
        on_option_cases P s.desired (λ _. own _ refl)
          λ c e.
            if_cases P c.enabled
              (λ on.
                if_cases P (not (means_on r.sink_selector) && not (means_off r.sink_selector))
                  (λ _. own _ refl) (λ _. b.bypassed c k e on))
              (λ _. own _ refl)

    volume-cases : command_of r.command ≡ volume → P (volume_locked B s r)
    unfolding volume_locked volume_desired
    volume-cases k =
        on_option_cases P s.desired (λ _. own _ refl)
          λ c e.
            if_cases P c.enabled
              (λ on.
                on_option_cases P (parse_volume F r.sink_selector) (λ _. own _ refl)
                  λ x _.
                    if_cases P (f_lt x f_zero || f_lt f_max x) (λ _. own _ refl)
                      (λ _. b.turned c x k e on))
              (λ _. own _ refl)

    run_command-cases : (c : Command) → command_of r.command ≡ c → P (run_command B host s r c)
    unfolding run_command
    run_command-cases status k = b.answered k
    run_command-cases apply k = apply-cases k
    run_command-cases enable k = enable-cases k
    run_command-cases disable k = b.disabled k
    run_command-cases switch_sink k = switch-cases k
    run_command-cases bypass k = bypass-cases k
    run_command-cases volume k = volume-cases k
    run_command-cases list_sinks k = b.listed k
    run_command-cases shutdown k = b.stopped k
    run_command-cases unknown k = own _ refl

    pub handle_request-cases : P (handle_request B host s r)
    unfolding handle_request
    handle_request-cases =
        if_cases P (not (is_empty (daemon_mode_environment_error host.getenv)))
          (λ h. own _ (not-true _ h)) (λ _. run_command-cases (command_of r.command) refl)
