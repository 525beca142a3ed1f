-- ===== src/Server/Serving.antt =====
-- The accept loop over the controller.
use ee_eq_cli.Common.{
  suc, true, false, String, List, [], ◌∷◌, ◌++◌, ok, err, ◌≡◌, refl, ap, ◌∙◌, sym, subst, is_empty,
  if◌then◌else◌, if_cases, inl, inr, Bool-cases,
}
use ee_eq_cli.Floats.{FloatOps}
use ee_eq_cli.Protocol.{DaemonRequest}
use ee_eq_cli.Backend.{SessionBackend}
use ee_eq_cli.Controller.{
  Host, DaemonController, set_shutdown_callback, daemon_mode_environment_error,
}
use ee_eq_cli.Controller.Handlers.{
  Step, handle_request, run_command, command_of, shutdown, shutdown_locked,
}
use ee_eq_cli.Controller.Lifecycle.{shutdown-IsStopped, handle_request-process}
use ee_eq_cli.Server.{
  Poll, again, idle, unaccepted, stop_signal, broken, client, Server, round, accept_loop,
  server_start, ran,
}

module _ {F : FloatOps} (B : SessionBackend F) (host : Host F) where
  loop-done :
      (polls : List (Poll B host)) (s : Server B host)
      → s.done ≡ true
      → accept_loop B host polls s ≡ s
  unfolding accept_loop
  loop-done [] s h = refl
  loop-done (p ∷ polls) s h = rw h refl

  loop-open :
      (p : Poll B host) (polls : List (Poll B host)) (s : Server B host)
      → s.done ≡ false
      → accept_loop B host (p ∷ polls) s ≡ accept_loop B host polls (round B host p s)
  unfolding accept_loop
  loop-open p polls s h = ap (λ b. if b then s else accept_loop B host polls (round B host p s)) h

  loop-append :
      (polls more : List (Poll B host)) (s : Server B host)
      → accept_loop B host (polls ++ more) s ≡ accept_loop B host more (accept_loop B host polls s)
  unfolding accept_loop
  loop-append [] more s = refl
  loop-append (p ∷ polls) more s = elim (Bool-cases s.done) [
    | inl e ↦
        loop-done (p ∷ polls ++ more) s e
        ∙ sym (loop-done more s e)
        ∙ ap (accept_loop B host more) (sym (loop-done (p ∷ polls) s e))
    | inr e ↦
        loop-open p (polls ++ more) s e
        ∙ loop-append polls more (round B host p s)
        ∙ ap (accept_loop B host more) (sym (loop-open p polls s e))
  ]

  -- The rounds that end the loop by themselves.
  pub data Ends : Poll B host → Type 0 where
    signalled : Ends stop_signal
    broke : (e : String) → Ends (broken e)

  -- The server with nothing done since `s` but the end of its loop.
  abbrev pub IsOver : Server B host → Server B host → Type 0
  IsOver s t = (t.done ≡ true) × (t.controller ≡ s.controller) × (t.responses ≡ s.responses)

  round-IsOver : (p : Poll B host) (s : Server B host) → Ends p → IsOver s (round B host p s)
  unfolding round
  round-IsOver _ s signalled = (refl, refl, refl)
  round-IsOver _ s (broke e) = (refl, refl, refl)

  last-IsOver :
      (p : Poll B host) (after : List (Poll B host)) (s : Server B host)
      → Ends p
      → IsOver s (accept_loop B host (p ∷ after) s)
  last-IsOver p after s ends = elim (Bool-cases s.done) [
    | inl d ↦ subst (IsOver s) (sym (loop-done (p ∷ after) s d)) (d, refl, refl)
    | inr d ↦
        let over = round-IsOver p s ends in
        subst (IsOver s) (sym (loop-open p after s d ∙ loop-done after (round B host p s) over.0))
          over
  ]

  -- After a signal to stop, or an error of `poll`, the server handles no request: whatever would
  -- come after it, the loop is over with the controller and the responses that it had before.
  pub stop-ends :
      (c : DaemonController B) (before after : List (Poll B host)) (p : Poll B host)
      → Ends p
      → IsOver
          (accept_loop B host before (server_start B host c))
          (accept_loop B host (before ++ (p ∷ after)) (server_start B host c))
  stop-ends c before after p ends =
      subst (IsOver (accept_loop B host before (server_start B host c)))
        (sym (loop-append before (p ∷ after) (server_start B host c)))
        (last-IsOver p after (accept_loop B host before (server_start B host c)) ends)

  abbrev Installed : Server B host → Type 0
  Installed s = s.controller.shutdown_callback ≡ true

  request-Installed :
      (c : DaemonController B) (r : DaemonRequest)
      → c.shutdown_callback ≡ true
      → (handle_request B host c r).1.shutdown_callback ≡ true
  request-Installed c r h = elim (handle_request-process B host c r) [
    | inl k ↦ k.1 ∙ h
    | inr k ↦ k.1.installed ∙ h
  ]

  loop-Installed :
      (polls : List (Poll B host)) (s : Server B host)
      → Installed s
      → Installed (accept_loop B host polls s)
  unfolding accept_loop round
  loop-Installed [] s h = h
  loop-Installed (p ∷ polls) s h =
      if_cases {A = Server B host} Installed s.done (λ _. h)
        (λ _. loop-Installed polls (round B host p s) (kept p))
    where
      kept : (p : Poll B host) → Installed (round B host p s)
      kept again = h
      kept idle = h
      kept unaccepted = h
      kept stop_signal = h
      kept (broken e) = h
      kept (client (ok r)) = request-Installed s.controller r h
      kept (client (err e)) = h

  handle-shutdown :
      (c : DaemonController B) (r : DaemonRequest)
      → is_empty (daemon_mode_environment_error host.getenv) ≡ true
      → command_of r.command ≡ shutdown
      → handle_request B host c r ≡ shutdown_locked B c
  unfolding handle_request run_command
  handle-shutdown c r e k = rw (e, k) refl

  round-shutdown :
      (s : Server B host) (r : DaemonRequest)
      → is_empty (daemon_mode_environment_error host.getenv) ≡ true
      → command_of r.command ≡ shutdown
      → Installed s
      → (round B host (client (ok r)) s).done ≡ true
  unfolding round
  round-shutdown s r e k h =
      ap (λ (p : Step B). ran B host p.1.callback_runs) (handle-shutdown s.controller r e k)
      ∙ ap (ran B host) (
          (shutdown-IsStopped B s.controller).callback
          ∙ ap (λ b. if b then suc s.controller.callback_runs else s.controller.callback_runs) h)

  -- After an accepted `shutdown` the server accepts nothing more: whatever came before it and
  -- comes after it, the loop ends as it would if that request were the last connection.
  pub shutdown-ends :
      (c : DaemonController B) (before after : List (Poll B host)) (r : DaemonRequest)
      → is_empty (daemon_mode_environment_error host.getenv) ≡ true
      → command_of r.command ≡ shutdown
      → ((accept_loop B host (before ++ (client (ok r) ∷ after)) (server_start B host c)
            ≡ accept_loop B host (before ++ (client (ok r) ∷ [])) (server_start B host c))
          × ((accept_loop B host (before ++ (client (ok r) ∷ after)) (server_start B host c)).done
              ≡ true))
  unfolding server_start set_shutdown_callback
  shutdown-ends c before after r e k =
      let start = server_start B host c in
      let s = accept_loop B host before start in
      let installed = loop-Installed before start refl in
      let (same, done) = last s installed in
      (
        loop-append before (client (ok r) ∷ after) start
            ∙ same
            ∙ sym (loop-append before (client (ok r) ∷ []) start),
        ap (λ (t : Server B host). t.done) (loop-append before (client (ok r) ∷ after) start)
            ∙ done,
      )
    where
      last :
          (s : Server B host)
          → Installed s
          → (accept_loop B host (client (ok r) ∷ after) s
              ≡ accept_loop B host (client (ok r) ∷ []) s)
            × ((accept_loop B host (client (ok r) ∷ after) s).done ≡ true)
      last s h = elim (Bool-cases s.done) [
        | inl d ↦ (
          loop-done (client (ok r) ∷ after) s d ∙ sym (loop-done (client (ok r) ∷ []) s d),
          ap (λ (t : Server B host). t.done) (loop-done (client (ok r) ∷ after) s d) ∙ d,
        )
        | inr d ↦
            let q = round-shutdown s r e k h in
            let stop =
              loop-open (client (ok r)) after s d
              ∙ loop-done after (round B host (client (ok r)) s) q in
            (
              stop
                  ∙ sym (
                      loop-open (client (ok r)) [] s d
                      ∙ loop-done [] (round B host (client (ok r)) s) q),
              ap (λ (t : Server B host). t.done) stop ∙ q,
            )
      ]
