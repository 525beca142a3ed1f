-- ===== src/Protocol/Tests.antt =====
-- The protocol over the JSON library for tests.
use ee_eq_cli.Common.{true, [], ◌∷◌, ◌≡◌, if◌then◌else◌}
use ee_eq_cli.Floats.Decimal.{Decimal, decimals}
use ee_eq_cli.Outcome.{ok, throw}
use ee_eq_cli.Json.{JsonLib, JsonLaws}
use ee_eq_cli.Json.Model.{values, values-JsonLaws}
use ee_eq_cli.Protocol.{
  DaemonProcessState, SessionLifecycleState, DaemonStatus, DaemonRequest, DaemonResponse, no_status,
}
use ee_eq_cli.Protocol.Encoding.{
  request_to_json, request_from_json, response_to_json, response_from_json, shows_status,
}
use ee_eq_cli.Protocol.RoundTrip.{request-round_trip, response-round_trip}

abbrev J : JsonLib decimals
J = values decimals (λ bytes. throw "no text")

L : JsonLaws J
L = values-JsonLaws decimals (λ bytes. throw "no text")

abbrev running : DaemonStatus Decimal
running = record (no_status decimals) {
  daemon_state = DaemonProcessState.ready;
  session_state = SessionLifecycleState.enabled;
  pid = 42;
}

abbrev two_sinks : DaemonResponse Decimal
two_sinks = record { ok = true; error = ""; status = running; sinks = "a" ∷ "b" ∷ [] }

abbrev apply : DaemonRequest
apply = record { command = "apply"; preset_path = "/p.json"; sink_selector = "hdmi" }

request-round_trip_example : request_from_json J (request_to_json J apply) ≡ ok apply
request-round_trip_example = request-round_trip L apply

response-round_trip_example :
    response_from_json J (response_to_json J two_sinks)
    ≡ ok (record two_sinks {
      status = if shows_status J running then running else no_status decimals;
    })
response-round_trip_example = response-round_trip L two_sinks
