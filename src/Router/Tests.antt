-- ===== src/Router/Tests.antt =====
-- The task queue on concrete times.
use ee_eq_cli.Common.{arith, ℕ, List, [], ◌∷◌, some, ◌≡◌, refl, ◌+◌, replicate}
use ee_eq_cli.Router.Tasks.{
  Task, next_task_timeout, run_due_tasks, IsSorted, due_actions, later_tasks, emplace, emplace_all,
  followed, run_due_tasks_lem,
}

-- Tasks that are due at 5 ms, at 5 ms and at 9 ms.
abbrev queue : List (Task ℕ)
queue =
    record { due = 5000000; action = 1 }
    ∷ record { due = 5000000; action = 2 }
    ∷ record { due = 9000000; action = 3 }
    ∷ []

queue-IsSorted : IsSorted queue
queue-IsSorted = ground arith

waits : next_task_timeout 1000000 queue ≡ some 4
unfolding next_task_timeout
waits = refl

-- Each action schedules a task at 7 ms.
abbrev again_later : ℕ → List (Task ℕ)
again_later a = record { due = 7000000; action = a + 10 } ∷ []

run_due_tasks_lem_example :
    run_due_tasks (λ a rest. emplace_all (again_later a) rest) (replicate 3 5000000) queue
    ≡ record {
      actions = due_actions 5000000 queue;
      queue =
          emplace_all
            (followed again_later (due_actions 5000000 queue))
            (later_tasks 5000000 queue);
    }
run_due_tasks_lem_example =
    run_due_tasks_lem 5000000 again_later (λ a. (refl, tt)) 2 queue (omega arith) queue-IsSorted

-- The tasks of the two that were due come before that of 9 ms.
runs_two :
    run_due_tasks (λ a rest. emplace_all (again_later a) rest) (replicate 3 5000000) queue
    ≡ record {
      actions = 1 ∷ 2 ∷ [];
      queue =
          record { due = 7000000; action = 11 }
          ∷ record { due = 7000000; action = 12 }
          ∷ record { due = 9000000; action = 3 }
          ∷ [];
    }
unfolding run_due_tasks emplace
runs_two = refl
