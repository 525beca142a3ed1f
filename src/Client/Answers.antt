-- ===== src/Client/Answers.antt =====
-- A client and a daemon joined by their socket: what the client exits with
-- (src/main.cpp, and the encoding and decoding in src/daemon_ipc.cpp).
use ee_eq_cli.Common.{
  ℕ, true, false, String, List, [], ◌∷◌, Option, some, Result, err, ◌≡◌, refl, sym, ◌∙◌, ap, ◌<>◌,
  if◌then◌else◌, Bool-cases, inl, inr,
}
use ee_eq_cli.Floats.{FloatOps, FloatLaws}
use ee_eq_cli.Outcome.{Outcome, throw, ◌>>=◌}
use ee_eq_cli.Json.{JsonLib, JsonLaws}
use ee_eq_cli.Backend.{SessionBackend, BackendLaws}
use ee_eq_cli.Protocol.{DaemonStatus, DaemonRequest, DaemonResponse, no_status}
use ee_eq_cli.Protocol.Encoding.{
  request_to_json, request_from_json, response_to_json, response_from_json,
}
use ee_eq_cli.Protocol.RoundTrip.{request-round_trip}
use ee_eq_cli.Controller.{Host, DaemonController, create}
use ee_eq_cli.Controller.Handlers.{handle_request}
use ee_eq_cli.Controller.Requests.{Reach}
use ee_eq_cli.Controller.Answers.{answer-round_trip}
use ee_eq_cli.Client.{
  ClientHost, Exit, failed, ask, reply, apply_options, apply_command, argument_command,
  client_command, handle_daemon_mode,
}

-- `dump` is nlohmann's `dump()`: the bytes of a value, or what it throws.
module _ {F : FloatOps} (J : JsonLib F) (dump : J.Json → Outcome (List ℕ)) where
  open F use {Float}
  open J use {Json, parse}

  -- The text of the value is read as that value, which fails of a NaN, dumped as null, and of text
  -- that is no UTF-8.
  abbrev pub Delivered : Json → Type 0
  Delivered j = (bytes : List ℕ) × (dump j ≡ Outcome.ok bytes) × (parse bytes ≡ Outcome.ok j)

  -- `read_request_json` on the bytes, and the server's call of the controller.
  abbrev serve_decoded :
      (DaemonRequest → DaemonResponse Float) → Outcome DaemonRequest → DaemonResponse Float
  serve_decoded serve (Outcome.ok r) = serve r
  serve_decoded serve (Outcome.err e) = record {
    ok = false;
    error = e;
    status = no_status F;
    sinks = [];
  }
  serve_decoded serve (throw what) = record {
    ok = false;
    error = "invalid daemon request: " <> what;
    status = no_status F;
    sinks = [];
  }

  -- What goes to the client: nothing where `dump` throws, which ends the daemon.
  abbrev dumped : Outcome (List ℕ) → List ℕ
  dumped (Outcome.ok bytes) = bytes
  dumped (Outcome.err e) = []
  dumped (throw what) = []

  unfoldable pub serve_bytes : (DaemonRequest → DaemonResponse Float) → List ℕ → List ℕ
  serve_bytes serve bytes =
      dumped (dump (response_to_json J (serve_decoded serve (parse bytes >>= request_from_json J))))

  abbrev decoded : Outcome (DaemonResponse Float) → Result (DaemonResponse Float)
  decoded (Outcome.ok r) = Result.ok r
  decoded (Outcome.err e) = err e
  decoded (throw what) = err ("invalid daemon response: " <> what)

  abbrev exchange :
      (DaemonRequest → DaemonResponse Float) → Outcome (List ℕ) → Result (DaemonResponse Float)
  exchange serve (Outcome.ok bytes) =
      decoded (parse (serve_bytes serve bytes) >>= response_from_json J)
  exchange serve (Outcome.err e) = err e
  exchange serve (throw what) = err what

  -- `send_daemon_request` over a connected socket that carries bytes without loss. An exception of
  -- the request's `dump` is not caught and ends the client: here it is an error.
  unfoldable pub send_daemon_request :
      (DaemonRequest → DaemonResponse Float) → DaemonRequest → Result (DaemonResponse Float)
  send_daemon_request serve r = exchange serve (dump (request_to_json J r))

  serve_bytes-answer :
      JsonLaws J
      → (serve : DaemonRequest → DaemonResponse Float) (r : DaemonRequest) (bytes back : List ℕ)
      → parse bytes ≡ Outcome.ok (request_to_json J r)
      → dump (response_to_json J (serve r)) ≡ Outcome.ok back
      → serve_bytes serve bytes ≡ back
  unfolding serve_bytes
  serve_bytes-answer L serve r bytes back read written =
      rw (read, request-round_trip L r, written) refl

  send-serve :
      JsonLaws J
      → (serve : DaemonRequest → DaemonResponse Float) (r : DaemonRequest)
      → Delivered (request_to_json J r)
      → Delivered (response_to_json J (serve r))
      → response_from_json J (response_to_json J (serve r)) ≡ Outcome.ok (serve r)
      → send_daemon_request serve r ≡ Result.ok (serve r)
  unfolding send_daemon_request
  send-serve L serve r (bytes, sent, read) (back, answered, got) h =
      rw (sent, serve_bytes-answer L serve r bytes back read answered, got, h) refl

-- The command lines that carry a request and exit by its answer alone, and the request; `health`,
-- `doctor` and `current-sink` look at the status in the answer. `absolute` makes a path absolute.
pub data Carries (F : FloatOps) (host : ClientHost F) : List String → DaemonRequest → Type 0 where
  applies :
      (path sink : String) (options : List String)
      → apply_options F host options "" ≡ Result.ok sink
      → Carries F host ("apply" ∷ path ∷ options) (ask "apply" (host.absolute path) sink)
  switches :
      (sink : String) (rest : List String)
      → Carries F host ("switch-sink" ∷ sink ∷ rest) (ask "switch-sink" "" sink)
  bypasses :
      (mode : String) (rest : List String)
      → Carries F host ("bypass" ∷ mode ∷ rest) (ask "bypass" "" mode)
  turns :
      (value : String) (rest : List String)
      → Carries F host ("volume" ∷ value ∷ rest) (ask "volume" "" value)
  asks : (rest : List String) → Carries F host ("status" ∷ rest) (ask "status" "" "")
  enables : (rest : List String) → Carries F host ("enable" ∷ rest) (ask "enable" "" "")
  disables : (rest : List String) → Carries F host ("disable" ∷ rest) (ask "disable" "" "")
  lists : (rest : List String) → Carries F host ("list-sinks" ∷ rest) (ask "list-sinks" "" "")
  shuts : (rest : List String) → Carries F host ("shutdown" ∷ rest) (ask "shutdown" "" "")

module _ {F : FloatOps} (host : ClientHost F) where
  open F use {Float}

  -- The exit tells what the response says.
  abbrev pub Tells : DaemonResponse Float → Option Exit → Type 0
  Tells r o =
      (e : Exit) × (o ≡ some e)
      × (e.success ≡ r.ok)
      × (e.errors ≡ (if r.ok then [] else r.error ∷ []))

  reply-Tells :
      (request : DaemonRequest) (show : DaemonResponse Float → Exit) (r : DaemonResponse Float)
      → host.send_daemon_request request ≡ Result.ok r
      → ((r.ok ≡ true) → ((show r).success ≡ true) × ((show r).errors ≡ []))
      → Tells r (some (reply F host request show))
  unfolding reply
  reply-Tells request show r sent fine = elim (Bool-cases r.ok) [
    | inl on ↦ (
      show r,
      rw (sent, on) refl,
      (fine on).0 ∙ rw on refl,
      (fine on).1 ∙ sym (ap (λ b. if b then [] else r.error ∷ []) on),
    )
    | inr off ↦ (failed r.error, rw (sent, off) refl, rw off refl, rw off refl)
  ]

  carried-Tells :
      (start : List String → Exit) (arguments : List String) (request : DaemonRequest)
      (r : DaemonResponse Float)
      → Carries F host arguments request
      → host.send_daemon_request request ≡ Result.ok r
      → Tells r (handle_daemon_mode F host start arguments)
  unfolding handle_daemon_mode client_command apply_command argument_command
  carried-Tells start _ _ r (applies path sink options e) sent =
      rw e (reply-Tells _ _ r sent (λ _. (refl, refl)))
  carried-Tells start _ _ r (switches sink rest) sent = reply-Tells _ _ r sent (λ _. (refl, refl))
  carried-Tells start _ _ r (bypasses mode rest) sent = reply-Tells _ _ r sent (λ _. (refl, refl))
  carried-Tells start _ _ r (turns value rest) sent = reply-Tells _ _ r sent (λ on. (on, refl))
  carried-Tells start _ _ r (asks rest) sent = reply-Tells _ _ r sent (λ _. (refl, refl))
  carried-Tells start _ _ r (enables rest) sent = reply-Tells _ _ r sent (λ _. (refl, refl))
  carried-Tells start _ _ r (disables rest) sent = reply-Tells _ _ r sent (λ _. (refl, refl))
  carried-Tells start _ _ r (lists rest) sent = reply-Tells _ _ r sent (λ _. (refl, refl))
  carried-Tells start _ _ r (shuts rest) sent = reply-Tells _ _ r sent (λ _. (refl, refl))

module _ {F : FloatOps} (B : SessionBackend F) (K : FloatLaws F) (M : BackendLaws B) {J : JsonLib F}
    (L : JsonLaws J) (dump : J.Json → Outcome (List ℕ)) where
  -- A client of a daemon in state `s`.
  abbrev pub client_of :
      Host F
      → DaemonController B
      → (String → String)
      → (DaemonStatus F.Float → String)
      → ClientHost F
  client_of host s absolute dump_status = record {
    absolute = absolute;
    send_daemon_request = send_daemon_request J dump (λ r. (handle_request B host s r).0);
    dump_status = dump_status;
  }

  -- Whatever has happened to a daemon since it was created, a request sent to it brings the client
  -- the controller's very response, its status and its list of sinks included, if the texts of
  -- the request and of the response are read back as the values that were dumped.
  pub send-answered :
      (b : B.State) (version started_at : String) (pid : ℕ) {s : DaemonController B}
      → Reach B K M (create B b version pid started_at) s
      → (host : Host F) (r : DaemonRequest) → Delivered J dump (request_to_json J r)
      → Delivered J dump (response_to_json J (handle_request B host s r).0)
      → send_daemon_request J dump (λ q. (handle_request B host s q).0) r
        ≡ Result.ok (handle_request B host s r).0
  send-answered b version started_at pid {s} reach host r there back =
      send-serve J dump L (λ q. (handle_request B host s q).0) r there back
        (answer-round_trip B K M L b version started_at pid reach host r)

  -- The commands `apply`, `switch-sink`, `bypass`, `volume`, `status`, `enable`, `disable`,
  -- `list-sinks` and `shutdown`, sent to a running daemon: if the texts of the request and of the
  -- response are read back as the values that were dumped, the client exits successfully exactly
  -- if the controller accepts the request, and otherwise logs the controller's error.
  pub client-accepted :
      (b : B.State) (version started_at : String) (pid : ℕ) {s : DaemonController B}
      → Reach B K M (create B b version pid started_at) s
      → (host : Host F) (absolute : String → String) (dump_status : DaemonStatus F.Float → String)
        (start : List String → Exit) (arguments : List String) (r : DaemonRequest)
      → Carries F (client_of host s absolute dump_status) arguments r
      → Delivered J dump (request_to_json J r)
      → Delivered J dump (response_to_json J (handle_request B host s r).0)
      → (let answer = (handle_request B host s r).0 in
          (e : Exit) × (handle_daemon_mode F (client_of host s absolute dump_status) start arguments
            ≡ some e)
          × (e.success ≡ answer.ok)
          × (e.errors ≡ (if answer.ok then [] else answer.error ∷ [])))
  client-accepted b version started_at pid {s} reach host absolute dump_status start arguments r
        carries there back =
      carried-Tells (client_of host s absolute dump_status) start arguments r
        (handle_request B host s r).0 carries
        (send-answered b version started_at pid reach host r there back)
