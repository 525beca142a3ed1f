-- ===== src/Client/Tests.antt =====
-- A client and a daemon over the real backend and a router for tests.
use ee_eq_cli.Common.{
  ℕ, ◌==◌, ap, if_cases, false, String, List, [], ◌∷◌, none, some, ok, ◌≡◌, refl, if◌then◌else◌,
}
use ee_eq_cli.Floats.Decimal.{Decimal, decimals, decimals-FloatLaws}
use ee_eq_cli.Outcome.{Outcome, throw}
use ee_eq_cli.Json.{JsonLib, JsonLaws}
use ee_eq_cli.Json.Model.{Value, values, values-JsonLaws}
use ee_eq_cli.Preset.{no_preset}
use ee_eq_cli.Router.Simple.{simple_router, simple_router-RouterLaws}
use ee_eq_cli.Backend.{SessionBackend, BackendLaws}
use ee_eq_cli.Backend.Real.{
  RealSessionBackend, real_backend, real_backend-BackendLaws, drained, start_session, stop_session,
  set_bypass, set_volume, snapshot,
}
use ee_eq_cli.Protocol.{DaemonStatus, DaemonRequest, DaemonResponse}
use ee_eq_cli.Protocol.Encoding.{
  request_to_json, response_to_json, status_to_json, shows_status, add_status, add_sinks,
  answer_part,
}
use ee_eq_cli.Controller.{
  Host, DaemonController, create, daemon_mode_environment_error, status_locked,
  set_runtime_state_from_backend_locked, clear_effective_state_locked,
}
use ee_eq_cli.Controller.Handlers.{
  handle_request, run_command, apply_locked, apply_parsed, start_or_roll_back, adopt, push_settings,
  succeed, candidate, command_of,
}
use ee_eq_cli.Controller.Requests.{here}
use ee_eq_cli.Client.{Exit, ask, failed, handle_daemon_mode, apply_options}
use ee_eq_cli.Client.Answers.{
  Delivered, send_daemon_request, send-answered, applies, client_of, client-accepted,
}

abbrev B : SessionBackend decimals
B = real_backend simple_router

L : BackendLaws B
L = real_backend-BackendLaws simple_router simple_router-RouterLaws

abbrev host : Host decimals
host = record {
  getenv = λ name. none;
  load_preset_source = λ path. ok (record { origin = path; bytes = [] });
  parse_easy_effects_preset = λ bytes. ok (no_preset decimals);
}

abbrev backend : RealSessionBackend simple_router
backend = record {
  router = none;
  preset_origin = "";
  worker = false;
  stop_requested = false;
  worker_failed = false;
  stop_fd = drained;
}

fresh : DaemonController B
unfolding create
fresh = create B backend "0.3" 42 "now"

abbrev options : List String
options = "--sink" ∷ "speakers" ∷ []

abbrev arguments : List String
arguments = "apply" ∷ "a.json" ∷ options

abbrev absolute : String → String
absolute path = path

abbrev dump : DaemonStatus Decimal → String
dump s = s.version

abbrev apply_request : DaemonRequest
apply_request = ask "apply" "a.json" "speakers"

abbrev no_start : List String → Exit
no_start l = failed ""

-- A wire for one request and its response, whose texts are a byte each.
abbrev plain : JsonLib decimals
plain = values decimals (λ bytes. throw "no text")

abbrev dump_value : Value decimals → Outcome (List ℕ)
dump_value j = Outcome.ok (if plain.contains j "command" then 1 ∷ [] else 2 ∷ [])

abbrev parse_byte : Value decimals → Value decimals → List ℕ → Outcome (Value decimals)
parse_byte asked answered [] = throw "[json.exception.parse_error.101] unexpected end of input"
parse_byte asked answered (n ∷ ns) = if n == 1 then Outcome.ok asked else Outcome.ok answered

abbrev answer_text : Value decimals
answer_text = response_to_json plain (handle_request B host fresh apply_request).0

abbrev read_text : List ℕ → Outcome (Value decimals)
read_text = parse_byte (request_to_json plain apply_request) answer_text

abbrev J : JsonLib decimals
J = values decimals read_text

json-JsonLaws : JsonLaws J
json-JsonLaws = values-JsonLaws decimals read_text

asked-Delivered : Delivered J dump_value (request_to_json J apply_request)
unfolding request_to_json
asked-Delivered = (1 ∷ [], refl, refl)

same_text : (r : DaemonResponse Decimal) → response_to_json plain r ≡ response_to_json J r
unfolding response_to_json status_to_json shows_status
same_text r = refl

status_byte :
    (r : DaemonResponse Decimal) (sinks : List String)
    → dump_value (add_status J r.status (add_sinks J sinks (answer_part J r))) ≡ Outcome.ok (2 ∷ [])
unfolding shows_status
status_byte r [] =
    if_cases {A = Value decimals} (λ v. dump_value v ≡ Outcome.ok (2 ∷ []))
      (shows_status J r.status) (λ _. refl) (λ _. refl)
status_byte r (x ∷ xs) =
    if_cases {A = Value decimals} (λ v. dump_value v ≡ Outcome.ok (2 ∷ []))
      (shows_status J r.status) (λ _. refl) (λ _. refl)

answer_byte : (r : DaemonResponse Decimal) → dump_value (response_to_json J r) ≡ Outcome.ok (2 ∷ [])
unfolding response_to_json
answer_byte r = status_byte r r.sinks

answered-Delivered :
    Delivered J dump_value (response_to_json J (handle_request B host fresh apply_request).0)
answered-Delivered = (
  2 ∷ [],
  answer_byte (handle_request B host fresh apply_request).0,
  ap Outcome.ok (same_text (handle_request B host fresh apply_request).0),
)

send-answered_example :
    send_daemon_request J dump_value (λ q. (handle_request B host fresh q).0) apply_request
    ≡ ok (handle_request B host fresh apply_request).0
unfolding fresh
send-answered_example =
    send-answered B decimals-FloatLaws L json-JsonLaws dump_value backend "0.3" "now" 42 here host
      apply_request asked-Delivered answered-Delivered

client-accepted_example :
    (let answer = (handle_request B host fresh apply_request).0 in
      (e : Exit) × (handle_daemon_mode decimals
          (client_of B decimals-FloatLaws L json-JsonLaws dump_value host fresh absolute dump)
          no_start
          arguments
        ≡ some e)
      × (e.success ≡ answer.ok)
      × (e.errors ≡ (if answer.ok then [] else answer.error ∷ [])))
unfolding fresh apply_options
client-accepted_example =
    client-accepted B decimals-FloatLaws L json-JsonLaws dump_value backend "0.3" "now" 42 here host
      absolute dump no_start arguments apply_request (applies "a.json" "speakers" options refl)
      asked-Delivered answered-Delivered

-- With a preset and a sink, the session runs.
played : DaemonController B
unfolding fresh handle_request run_command daemon_mode_environment_error apply_locked apply_parsed
    start_or_roll_back adopt push_settings succeed candidate command_of
    set_runtime_state_from_backend_locked clear_effective_state_locked start_session stop_session
    set_bypass set_volume snapshot status_locked
played = (handle_request B host fresh (ask "apply" "a.json" "speakers")).1

abbrev start_arguments : List String
start_arguments = "start" ∷ "-s" ∷ "speakers" ∷ "-p" ∷ "a.json" ∷ []
