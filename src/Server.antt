-- ===== src/Server.antt =====
-- The daemon's socket server (src/daemon_ipc.cpp). What the system calls answer is a list: one
-- answer for each round of a loop. The loops end with the round that ends them; `open_` says that
-- the answers ran out first.
pub mod Reading
pub mod Serving
mod Tests
use ee_eq_cli.Common.{
  ℕ, zero, suc, ◌*◌, ltb, Bool, true, false, not, ◌&&◌, String, List, [], ◌∷◌, ◌++◌, length, Result,
  ok, err, ◌<>◌, if◌then◌else◌, on_result, is_empty,
}
use ee_eq_cli.Floats.{FloatOps}
use ee_eq_cli.Outcome.{Outcome, throw}
use ee_eq_cli.Protocol.{SessionLifecycleState, DaemonRequest, DaemonResponse, no_status}
use ee_eq_cli.Backend.{SessionBackend}
use ee_eq_cli.Controller.{Host, DaemonController, set_shutdown_callback}
use ee_eq_cli.Controller.Handlers.{handle_request}

abbrev drop : {A : Type 0} → ℕ → List A → List A
drop n [] = []
drop zero (x ∷ xs) = x ∷ xs
drop (suc n) (x ∷ xs) = drop n xs

abbrev take : {A : Type 0} → ℕ → List A → List A
take n [] = []
take zero (x ∷ xs) = []
take (suc n) (x ∷ xs) = x ∷ take n xs

-- One call of `send`: how many bytes it took, or its error.
pub data Sent : Type 0 where
  took : ℕ → Sent
  interrupted : Sent
  refused : String → Sent

-- The bytes that went out, and how the loop ended.
pub data Written : Type 0 where
  all_written : List ℕ → Written
  not_written : List ℕ → String → Written
  writing : List ℕ → Written

abbrev pub after : List ℕ → Written → Written
after bytes (all_written xs) = all_written (bytes ++ xs)
after bytes (not_written xs e) = not_written (bytes ++ xs) e
after bytes (writing xs) = writing (bytes ++ xs)

abbrev pub write_all : List Sent → List ℕ → Written
write_all answers [] = all_written []
write_all [] (b ∷ bs) = writing []
write_all (took n ∷ answers) (b ∷ bs) =
    after (take n (b ∷ bs)) (write_all answers (drop n (b ∷ bs)))
write_all (interrupted ∷ answers) (b ∷ bs) = write_all answers (b ∷ bs)
write_all (refused e ∷ answers) (b ∷ bs) = not_written [] ("socket write failed: " <> e)

abbrev pub max_payload : ℕ
max_payload = 64 * 1024

-- What a round of `read_request_json` meets: the deadline, the answer of `poll`, that of `read`.
pub data Round : Type 0 where
  deadline_passed poll_interrupted poll_timed_out signalled nothing read_interrupted end : Round
  poll_failed read_failed : String → Round
  chunk : List ℕ → Round

pub data Received : Type 0 where
  payload : List ℕ → Received
  failed : String → Received
  open_ : List ℕ → Received

-- The loop, with the payload so far.
unfoldable pub read_payload : List Round → List ℕ → Received
read_payload [] bytes = open_ bytes
read_payload (deadline_passed ∷ rounds) bytes = failed "timed out reading daemon request"
read_payload (poll_interrupted ∷ rounds) bytes = read_payload rounds bytes
read_payload (poll_timed_out ∷ rounds) bytes = failed "timed out reading daemon request"
read_payload (signalled ∷ rounds) bytes = failed "daemon is shutting down"
read_payload (nothing ∷ rounds) bytes = read_payload rounds bytes
read_payload (read_interrupted ∷ rounds) bytes = read_payload rounds bytes
read_payload (end ∷ rounds) bytes = payload bytes
read_payload (poll_failed e ∷ rounds) bytes = failed ("failed to poll daemon request: " <> e)
read_payload (read_failed e ∷ rounds) bytes = failed ("failed to read daemon request: " <> e)
read_payload (chunk xs ∷ rounds) bytes =
    let rest = read_payload rounds (bytes ++ xs) in
    if ltb max_payload (length (bytes ++ xs))
    then failed "daemon request exceeds maximum payload size"
    else rest

module _ {F : FloatOps} (B : SessionBackend F) (host : Host F) where
  open F use {Float}

  -- What a round of the accept loop meets. `client` has read a request, or an error.
  pub data Poll : Type 0 where
    again idle unaccepted stop_signal : Poll
    broken : String → Poll
    client : Result DaemonRequest → Poll

  -- The controller, the responses so far, `error` and `done`.
  pub record Server : Type 0 where
    pub controller : DaemonController B
    pub responses : List (DaemonResponse Float)
    pub error : String
    pub done : Bool

  abbrev refusal : String → DaemonResponse Float
  refusal e = record { ok = false; error = e; status = no_status F; sinks = [] }

  -- The callback sets `done`: it has run if `callback_runs` is not 0.
  abbrev pub ran : ℕ → Bool
  ran zero = false
  ran (suc n) = true

  abbrev answered : DaemonController B → Server → Result DaemonRequest → Server
  answered c s (err e) = record s { responses = s.responses ++ (refusal e ∷ []) }
  answered c s (ok request) =
      let p = handle_request B host c request in
      record s {
        controller = p.1;
        responses = s.responses ++ (p.0 ∷ []);
        done = ran p.1.callback_runs;
      }

  -- One round of the accept loop.
  unfoldable pub round : Poll → Server → Server
  round again s = s
  round idle s = s
  round unaccepted s = s
  round stop_signal s = record s { done = true }
  round (broken e) s = record s { error = "daemon poll failed: " <> e; done = true }
  round (client r) s = answered s.controller s r

  -- `while (!done)`; a break sets `done` here.
  unfoldable pub accept_loop : List Poll → Server → Server
  accept_loop [] s = s
  accept_loop (p ∷ polls) s = let rest = accept_loop polls (round p s) in if s.done then s else rest

  -- The start of the loop, and the exit status.
  unfoldable pub server_start : DaemonController B → Server
  server_start c = record {
    controller = set_shutdown_callback B c;
    responses = [];
    error = "";
    done = false;
  }
