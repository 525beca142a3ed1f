-- ===== src/Controller/Errors.antt =====
-- The error texts of responses.
use ee_eq_cli.Common.{
  true, false, String, Option, err, ◌≡◌, refl, ◌↔◌, ◌≢◌, arith, is_empty, is_empty_iff, inl, inr,
  sym, ◌∙◌, ℕ, List, Bool-cases,
}
use ee_eq_cli.Floats.{FloatOps}
use ee_eq_cli.Backend.{SessionBackend, BackendLaws}
use ee_eq_cli.Protocol.{DaemonRequest}
use ee_eq_cli.Controller.{Host, DesiredConfig, DaemonController}
use ee_eq_cli.Controller.Handlers.{
  Step, succeed, give_up, start_or_roll_back, start_desired, apply_parsed, disable_locked,
  list_sinks_locked, shutdown_locked, handle_request,
}
use ee_eq_cli.Controller.Starts.{start, start_or_roll_back-cases, start_desired-cases}
use ee_eq_cli.Controller.Cases.{IsReason, handle_request-cases}

-- The file loader and the parser give no empty error text.
pub record HostLaws {F : FloatOps} (host : Host F) : Type 0 where
  pub load_error :
      (path : String) (e : String) → host.load_preset_source path ≡ err e → is_empty e ≡ false
  pub parse_error :
      (bytes : List ℕ) (e : String)
      → host.parse_easy_effects_preset bytes ≡ err e
      → is_empty e ≡ false

module _ {F : FloatOps} (B : SessionBackend F) where
  abbrev Explained : Step B → Type 0
  Explained p = is_empty p.0.error ≡ p.0.ok

  succeed-Explained : (s : DaemonController B) → Explained (succeed B s)
  unfolding succeed
  succeed-Explained s = refl

  disable-Explained : (s : DaemonController B) → Explained (disable_locked B s)
  unfolding disable_locked succeed
  disable-Explained s = refl

  shutdown-Explained : (s : DaemonController B) → Explained (shutdown_locked B s)
  unfolding shutdown_locked
  shutdown-Explained s = refl

  give_up-Explained :
      (d : Option (DesiredConfig F)) (e : String) (s : DaemonController B)
      → is_empty e ≡ false
      → Explained (give_up B d e s)
  unfolding give_up
  give_up-Explained d e s h = h

  list_sinks-Explained : (s : DaemonController B) → Explained (list_sinks_locked B s)
  unfolding list_sinks_locked
  list_sinks-Explained s = ground arith

  module _ (L : BackendLaws B) where
    nonempty : (e : String) → e ≢ "" → is_empty e ≡ false
    nonempty e h = elim (Bool-cases (is_empty e)) [
      | inl y ↦ absurd (h ((is_empty_iff e).0 y))
      | inr n ↦ n
    ]

    failed :
        (s : DaemonController B) (c : DesiredConfig F)
        → (start B s c).started ≡ false
        → is_empty (start B s c).error ≡ false
    failed s c h = nonempty _ (L.start_error s.backend c.preset c.preset_origin c.sink_selector h)

    start_or_roll_back-Explained :
        (d : Option (DesiredConfig F)) (c : DesiredConfig F) (s : DaemonController B)
        → Explained (start_or_roll_back B d c s)
    start_or_roll_back-Explained d c s = start_or_roll_back-cases B Explained d c s (record {
      up = λ _. succeed-Explained _;
      down = λ h. record {
        back = λ c' _ _ _. failed s c h;
        lost = λ c' _ _ _. give_up-Explained d _ _ (failed s c h);
        off = λ _. give_up-Explained d _ _ (failed s c h);
      };
    })

    start_desired-Explained :
        (c : DesiredConfig F) (s : DaemonController B) → Explained (start_desired B c s)
    start_desired-Explained c s =
        start_desired-cases B Explained c s (λ _. succeed-Explained _)
          (λ h. give_up-Explained _ _ _ (failed s c h))

    -- A response's error text is empty exactly if the request was accepted, so that the client,
    -- which prints that text, never reports a failure without a reason.
    pub error-empty_iff :
        (host : Host F) (s : DaemonController B) (r : DaemonRequest)
        → HostLaws host
        → (let p = handle_request B host s r in (p.0.error ≡ "") ↔ (p.0.ok ≡ true))
    unfolding apply_parsed
    error-empty_iff host s r w = iff (handle_request B host s r) (
        handle_request-cases B host s r Explained (record {
          refused = λ e reason. explained e reason;
          answered = λ _. refl;
          already = λ c _ _ _. refl;
          applied = λ loaded parsed _ _ _. start_or_roll_back-Explained _ _ _;
          enabled = λ c _ _. start_desired-Explained c _;
          disabled = λ _. disable-Explained s;
          set_aside = λ c _ _ _. refl;
          switched = λ c _ _ _. start_or_roll_back-Explained _ _ _;
          bypassed = λ c _ _ _. succeed-Explained _;
          turned = λ c x _ _ _. refl;
          listed = λ _. list_sinks-Explained s;
          stopped = λ _. shutdown-Explained s;
        }))
      where
        explained : (e : String) → IsReason B host s r e → is_empty e ≡ false
        explained e (inl h) = w.load_error r.preset_path e h
        explained e (inr (inl (bytes, h))) = w.parse_error bytes e h
        explained e (inr (inr h)) = h

        iff : (p : Step B) → Explained p → (p.0.error ≡ "") ↔ (p.0.ok ≡ true)
        iff p h =
            (λ e. sym h ∙ (is_empty_iff p.0.error).1 e, λ e. (is_empty_iff p.0.error).0 (h ∙ e))
