-- ===== src/Server/Tests.antt =====
-- The socket loops, and the server over the real backend and a router for tests.
use ee_eq_cli.Common.{ℕ, true, false, List, [], ◌∷◌, ◌++◌, none, ok, err, ◌≡◌, refl, ◌≤◌, length}
use ee_eq_cli.Floats.Decimal.{decimals}
use ee_eq_cli.Preset.{no_preset}
use ee_eq_cli.Router.Simple.{simple_router, simple_router-RouterLaws}
use ee_eq_cli.Backend.{SessionBackend, BackendLaws}
use ee_eq_cli.Backend.Real.{RealSessionBackend, real_backend, real_backend-BackendLaws, drained}
use ee_eq_cli.Client.{ask}
use ee_eq_cli.Controller.{Host, DaemonController, create, daemon_mode_environment_error}
use ee_eq_cli.Controller.Handlers.{command_of}
use ee_eq_cli.Server.{
  took, interrupted, refused, write_all, Round, chunk, end, poll_interrupted, read_payload,
  max_payload, Poll, client, stop_signal, accept_loop, server_start,
}
use ee_eq_cli.Server.Reading.{IsPart, write_all-IsPart, gathered, read_payload-gathered}
use ee_eq_cli.Server.Serving.{IsOver, signalled, stop-ends, shutdown-ends}

write_all-IsPart_example :
    IsPart
      (1 ∷ 2 ∷ 3 ∷ [])
      (write_all (took 1 ∷ interrupted ∷ refused "EPIPE" ∷ []) (1 ∷ 2 ∷ 3 ∷ []))
write_all-IsPart_example =
    write_all-IsPart (took 1 ∷ interrupted ∷ refused "EPIPE" ∷ []) (1 ∷ 2 ∷ 3 ∷ [])

abbrev rounds : List Round
rounds = chunk (7 ∷ 8 ∷ []) ∷ poll_interrupted ∷ chunk (9 ∷ []) ∷ end ∷ []

abbrev three : List ℕ
three = 7 ∷ 8 ∷ 9 ∷ []

read_payload-gathered_example : (three ≡ gathered rounds) × (length three ≤ max_payload)
unfolding read_payload
read_payload-gathered_example = read_payload-gathered rounds {text = three} refl

abbrev B : SessionBackend decimals
B = real_backend simple_router

L : BackendLaws B
L = real_backend-BackendLaws simple_router simple_router-RouterLaws

abbrev host : Host decimals
host = record {
  getenv = λ name. none;
  load_preset_source = λ path. ok (record { origin = path; bytes = [] });
  parse_easy_effects_preset = λ bytes. ok (no_preset decimals);
}

abbrev backend : RealSessionBackend simple_router
backend = record {
  router = none;
  preset_origin = "";
  worker = false;
  stop_requested = false;
  worker_failed = false;
  stop_fd = drained;
}

fresh : DaemonController B
unfolding create
fresh = create B backend "0.3" 42 "now"

abbrev polls : List (Poll B host)
polls = client (err "daemon is shutting down") ∷ client (ok (ask "apply" "a.json" "hdmi")) ∷ []

stop-ends_example :
    IsOver B host
      (accept_loop B host polls (server_start B host fresh))
      (accept_loop B host (polls ++ (stop_signal ∷ polls)) (server_start B host fresh))
stop-ends_example = stop-ends B host fresh polls polls stop_signal signalled

shutdown-ends_example :
    (accept_loop B host
        (polls ++ (client (ok (ask "shutdown" "" "")) ∷ polls))
        (server_start B host fresh)
      ≡ accept_loop B host
          (polls ++ (client (ok (ask "shutdown" "" "")) ∷ []))
          (server_start B host fresh))
    × ((accept_loop B host
          (polls ++ (client (ok (ask "shutdown" "" "")) ∷ polls))
          (server_start B host fresh)).done
        ≡ true)
unfolding daemon_mode_environment_error command_of
shutdown-ends_example = shutdown-ends B host fresh polls polls (ask "shutdown" "" "") refl refl
