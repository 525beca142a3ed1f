-- ===== src/Backend/Tests.antt =====
-- The worker's loop on concrete answers of the system.
use ee_eq_cli.Common.{true, false, List, [], ◌∷◌, ◌++◌, ◌≡◌, refl}
use ee_eq_cli.Backend.Worker.{
  Loop, Round, failed, timeout, ready, eintr, idle, was_read, worker_loop, worker_loop-stops,
  worker_loop-worker_failed,
}

abbrev started : Loop
started = record { running = true; worker_failed = false; task_runs = 0 }

abbrev earlier : List Round
earlier =
    record { stop_requested = false; poll = failed eintr }
    ∷ record { stop_requested = false; poll = timeout }
    ∷ record { stop_requested = false; poll = ready false was_read }
    ∷ []

abbrev stopping : Round
stopping = record { stop_requested = false; poll = ready true idle }

worker_loop-stops_example :
    ((worker_loop started (earlier ++ stopping ∷ earlier)).running ≡ false)
    × (worker_loop started (earlier ++ stopping ∷ earlier)
        ≡ worker_loop started (earlier ++ stopping ∷ []))
worker_loop-stops_example = worker_loop-stops started earlier stopping earlier refl

worker_loop-worker_failed_example : (worker_loop started earlier).worker_failed ≡ false
worker_loop-worker_failed_example =
    worker_loop-worker_failed started earlier (refl, (refl, (refl, tt)))
