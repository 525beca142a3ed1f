-- ===== src/Backend/Worker.antt =====
-- The worker thread's loop (src/daemon_backend.cpp, `worker_loop`). What each `poll` and `read`
-- returns is the system's choice, so the loop runs over the list of these answers; `running` is
-- the value of `stop_requested_` that it reads before each `poll`.
use ee_eq_cli.Common.{
  ℕ, suc, Bool, true, false, not, ◌||◌, List, [], ◌∷◌, ◌++◌, ◌∙◌, ◌≡◌, refl, if◌then◌else◌, Option,
  none, some, ltb, arith,
}
use ee_eq_cli.Common.{All}

-- `errno` after a failed call.
pub data Errno : Type 0 where
  eintr eagain other : Errno

pub data Wake : Type 0 where
  -- The router's eventfd is not readable, or it was read, or `read` failed.
  idle was_read : Wake
  read_failed : Errno → Wake

pub data PollResult : Type 0 where
  failed : Errno → PollResult
  timeout : PollResult
  ready : (stop : Bool) → Wake → PollResult

-- One round: the value of `stop_requested_`, and the answers.
pub record Round : Type 0 where
  pub stop_requested : Bool
  pub poll : PollResult

-- The timeout given to `poll`: none is -1, else the milliseconds clamped to `int`. The router's
-- timeout is never negative.
abbrev int_max : ℕ
int_max = 2147483647

pub poll_timeout : Option ℕ → Option ℕ
poll_timeout none = none
poll_timeout (some ms) = some (if ltb int_max ms then int_max else ms)

-- Whether the loop goes on, whether it has failed, and how often due tasks have run.
pub record Loop : Type 0 where
  pub running : Bool
  pub worker_failed : Bool
  pub task_runs : ℕ

abbrev run_due_tasks : Loop → Loop
run_due_tasks w = record w { task_runs = suc w.task_runs }

abbrev leave : Loop → Loop
leave w = record w { running = false }

abbrev fail : Loop → Loop
fail w = record w { running = false; worker_failed = true }

on_wake : Wake → Loop → Loop
on_wake (read_failed other) w = fail w
on_wake _ w = run_due_tasks w

on_poll : PollResult → Loop → Loop
unfolding on_wake
on_poll (failed eintr) w = w
on_poll (failed _) w = fail w
on_poll timeout w = run_due_tasks w
on_poll (ready true wake) w = leave w
on_poll (ready false wake) w = on_wake wake w

pub round : Loop → Round → Loop
unfolding on_poll
round w r = if not w.running then w else (if r.stop_requested then leave w else on_poll r.poll w)

pub worker_loop : Loop → List Round → Loop
worker_loop w [] = w
worker_loop w (r ∷ rs) = worker_loop (round w r) rs

-- A round that ends the loop: `stop_session` has set the flag, or its signal has arrived.
abbrev pub asks_stop : Round → Bool
asks_stop r = r.stop_requested || stop_signalled r.poll
  where
    stop_signalled : PollResult → Bool
    stop_signalled (ready stop wake) = stop
    stop_signalled _ = false

-- A system error that the loop does not retry.
abbrev pub is_fatal : PollResult → Bool
is_fatal (failed eintr) = false
is_fatal (failed _) = true
is_fatal (ready false (read_failed other)) = true
is_fatal _ = false

stays_left : (w : Loop) (rs : List Round) → w.running ≡ false → worker_loop w rs ≡ w
unfolding worker_loop round
stays_left w [] e = refl
stays_left w (r ∷ rs) e = simp e (stays_left w rs e)

round-stops : (w : Loop) (r : Round) → asks_stop r ≡ true → (round w r).running ≡ false
unfolding round on_poll on_wake
round-stops w r e = ground arith

-- However the system has answered before, a round in which the stop flag is set or the stop signal
-- can be read is the loop's last, so that `stop_session` can join the thread; what follows
-- changes nothing more.
pub worker_loop-stops :
    (w : Loop) (before : List Round) (r : Round) (after : List Round)
    → asks_stop r ≡ true
    → ((worker_loop w (before ++ r ∷ after)).running ≡ false)
      × (worker_loop w (before ++ r ∷ after) ≡ worker_loop w (before ++ r ∷ []))
unfolding worker_loop
worker_loop-stops w [] r after e =
    let left = round-stops w r e in
    let same = stays_left (round w r) after left in (rw same left, same)
worker_loop-stops w (x ∷ before) r after e = worker_loop-stops (round w x) before r after e

round-worker_failed :
    (w : Loop) (r : Round) → is_fatal r.poll ≡ false → (round w r).worker_failed ≡ w.worker_failed
unfolding round on_poll on_wake
round-worker_failed w r e = ground arith

-- The worker reports a failure only for an error of `poll` or `read` that is not to be retried:
-- interrupted calls, timeouts and empty reads leave the session usable.
pub worker_loop-worker_failed :
    (w : Loop) (rs : List Round)
    → All (λ (r : Round). is_fatal r.poll ≡ false) rs
    → (worker_loop w rs).worker_failed ≡ w.worker_failed
unfolding worker_loop
worker_loop-worker_failed w [] h = refl
worker_loop-worker_failed w (r ∷ rs) (e, h) =
    worker_loop-worker_failed (round w r) rs h ∙ round-worker_failed w r e
