-- ===== src/Controller/Answers.antt =====
-- What a client reads of the daemon's answer to a request.
use ee_eq_cli.Common.{
  arith, ℕ, Bool, true, false, ◌||◌, String, ◌≡◌, refl, ap, ◌∙◌, if_cases, inl, inr, if◌then◌else◌,
}
use ee_eq_cli.Floats.{FloatOps, FloatLaws}
use ee_eq_cli.Outcome.{ok}
use ee_eq_cli.Json.{JsonLib, JsonLaws}
use ee_eq_cli.Backend.{SessionBackend, BackendLaws}
use ee_eq_cli.Protocol.{DaemonRequest, DaemonStatus, no_status}
use ee_eq_cli.Protocol.Encoding.{is_starting, shows_status, response_to_json, response_from_json}
use ee_eq_cli.Protocol.RoundTrip.{response-round_trip}
use ee_eq_cli.Controller.{
  Host, DaemonController, create, status_locked, refreshed, is_enabled, desired_of,
  set_shutdown_callback,
}
use ee_eq_cli.Controller.Handlers.{handle_request}
use ee_eq_cli.Controller.Requests.{Event, Reach, request, install, worker_lost, here, next}
use ee_eq_cli.Controller.Status.{handle_request-IsCurrent}
use ee_eq_cli.Controller.Lifecycle.{handle_request-process}

or_true : (a b : Bool) → b ≡ true → (a || b) ≡ true
or_true false b h = h
or_true true b h = refl

module _ {F : FloatOps} (B : SessionBackend F) where
  refreshed-daemon_state :
      (s : DaemonController B) (t : DaemonStatus F.Float)
      → (refreshed B (B.snapshot s.backend) s.init_error_degraded t).daemon_state ≡ t.daemon_state
  unfolding refreshed
  refreshed-daemon_state s t = ground arith

  status-daemon_state :
      (s : DaemonController B) → (status_locked B s).daemon_state ≡ s.status.daemon_state
  unfolding status_locked
  status-daemon_state s =
      if_cases {A = DaemonStatus F.Float} (λ t. t.daemon_state ≡ s.status.daemon_state)
        (is_enabled s.desired)
        (λ _. refreshed-daemon_state s (record (s.status) { desired = desired_of B s.desired }))
        (λ _. refl)

  -- A daemon that has been created has left its first process state.
  abbrev Started : DaemonController B → Type 0
  Started s = is_starting s.status.daemon_state ≡ false

  request-Started :
      (host : Host F) (s : DaemonController B) (r : DaemonRequest)
      → Started s
      → Started (handle_request B host s r).1
  request-Started host s r h = elim (handle_request-process B host s r) [
    | inl k ↦ ap is_starting k.0 ∙ h
    | inr k ↦ ap is_starting k.1.stopping
  ]

  module _ {J : JsonLib F} (L : JsonLaws J) where
    shows :
        (t : DaemonStatus F.Float) → is_starting t.daemon_state ≡ false → shows_status J t ≡ true
    unfolding shows_status
    shows t h = ground (arith, h)

  create-Started :
      (b : B.State) (version started_at : String) (pid : ℕ)
      → Started (create B b version pid started_at)
  unfolding create
  create-Started b version started_at pid = refl

  Event-Started :
      {K : FloatLaws F} {M : BackendLaws B} {s t : DaemonController B}
      → Event B K M s t
      → Started s
      → Started t
  unfolding set_shutdown_callback
  Event-Started {s = s} (request host r) h = request-Started host s r h
  Event-Started (install) h = h
  Event-Started (worker_lost b a) h = h

  Reach-Started :
      {K : FloatLaws F} {M : BackendLaws B} {s t : DaemonController B}
      → Started s
      → Reach B K M s t
      → Started t
  Reach-Started h here = h
  Reach-Started h (next r e) = Event-Started e (Reach-Started h r)

  module _ (K : FloatLaws F) (M : BackendLaws B) {J : JsonLib F} (L : JsonLaws J) where
    -- Whatever has happened to a daemon since it was created, the object that it sends in answer
    -- to a request is read by the client as the very response, its status and its list of sinks
    -- included.
    pub answer-round_trip :
        (b : B.State) (version started_at : String) (pid : ℕ) {s : DaemonController B}
        → Reach B K M (create B b version pid started_at) s
        → (host : Host F) (r : DaemonRequest)
        → (let answer = (handle_request B host s r).0 in
            response_from_json J (response_to_json J answer) ≡ ok answer)
    answer-round_trip b version started_at pid {s} reach host r =
        let p = handle_request B host s r in
        response-round_trip L p.0
        ∙ ap (λ t. ok (record (p.0) { status = if t then p.0.status else no_status F }))
            (shows L p.0.status (
              ap (λ t. is_starting t.daemon_state) (handle_request-IsCurrent B host s r)
              ∙ ap is_starting (status-daemon_state p.1)
              ∙ request-Started host s r
                  (Reach-Started (create-Started b version started_at pid) reach)))
