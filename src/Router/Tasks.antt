-- ===== src/Router/Tasks.antt =====
-- The router's queue of delayed tasks (src/pipewire_router.cpp): `std::multimap` from the time at
-- which a task is due, a list in the order of its keys. Times are in nanoseconds. The mutex makes
-- each access one step. A task's action may schedule others: `act` gives what it schedules, with
-- the time at which it does.
use ee_eq_cli.Common.{
  ℕ, arith, ◌+◌, ◌-◌, ◌*◌, ◌/◌, ◌≤◌, ltb, leb, zero, suc, true, false, List, [], ◌∷◌, ◌++◌, length,
  replicate, All, Option, none, some, ◌≡◌, refl, sym, ap, ◌∙◌, if◌then◌else◌, if_cases, Bool-cases,
  inl, inr,
}

pub record Task (T : Type 0) : Type 0 where
  pub due : ℕ
  pub action : T

-- The actions that `run_due_tasks` has run, and the queue it leaves.
pub record Ran (T : Type 0) : Type 0 where
  pub actions : List T
  pub queue : List (Task T)

module _ {T : Type 0} where
  -- `emplace`: after the tasks that are due at the same time.
  unfoldable pub emplace : Task T → List (Task T) → List (Task T)
  emplace t [] = t ∷ []
  emplace t (u ∷ us) = let rest = emplace t us in if leb u.due t.due then u ∷ rest else t ∷ u ∷ us

  -- A delay of `delay` milliseconds at the time `now`.
  unfoldable pub schedule_task : ℕ → ℕ → T → List (Task T) → List (Task T)
  schedule_task now delay action queue =
      emplace (record { due = now + delay * 1000000; action = action }) queue

  -- In milliseconds.
  unfoldable pub next_task_timeout : ℕ → List (Task T) → Option ℕ
  next_task_timeout now [] = none
  next_task_timeout now (t ∷ ts) = if leb t.due now then some 0 else some ((t.due - now) / 1000000)

  abbrev pub before : T → Ran T → Ran T
  before a r = record r { actions = a ∷ r.actions }

  module _ (act : T → List (Task T) → List (Task T)) where
    -- `clock` is what the clock says in each round; with no round left the loop is still running.
    unfoldable pub run_due_tasks : List ℕ → List (Task T) → Ran T
    run_due_tasks [] queue = record { actions = []; queue = queue }
    run_due_tasks (now ∷ clock) [] = record { actions = []; queue = [] }
    run_due_tasks (now ∷ clock) (t ∷ ts) =
        let rest = run_due_tasks clock (act t.action ts) in
        if ltb now t.due then record { actions = []; queue = t ∷ ts } else before t.action rest

  -- The order of the map.
  abbrev pub Above : ℕ → List (Task T) → Type 0
  Above n [] = Unit
  Above n (t ∷ ts) = n ≤ t.due

  abbrev pub IsSorted : List (Task T) → Type 0
  IsSorted [] = Unit
  IsSorted (t ∷ ts) = Above t.due ts × IsSorted ts

  Above-emplace :
      (n : ℕ) (t : Task T) (q : List (Task T)) → n ≤ t.due → Above n q → Above n (emplace t q)
  unfolding emplace
  Above-emplace n t [] h a = h
  Above-emplace n t (u ∷ us) h a =
      if_cases {A = List (Task T)} (Above n) (leb u.due t.due) (λ _. a) (λ _. h)

  pub emplace-IsSorted : (t : Task T) (q : List (Task T)) → IsSorted q → IsSorted (emplace t q)
  unfolding emplace
  emplace-IsSorted t [] w = (tt, tt)
  emplace-IsSorted t (u ∷ us) (a, w) =
      if_cases {A = List (Task T)} IsSorted (leb u.due t.due)
        (λ e. (Above-emplace u.due t us (ground (arith, e)) a, emplace-IsSorted t us w))
        (λ e. (ground (arith, e), (a, w)))

  -- The actions that are due, and the tasks that are not.
  abbrev pub due_actions : ℕ → List (Task T) → List T
  due_actions now [] = []
  due_actions now (t ∷ ts) =
      let rest = due_actions now ts in if ltb now t.due then rest else t.action ∷ rest

  abbrev pub later_tasks : ℕ → List (Task T) → List (Task T)
  later_tasks now [] = []
  later_tasks now (t ∷ ts) =
      let rest = later_tasks now ts in if ltb now t.due then t ∷ rest else rest

  -- What the actions of due tasks schedule, in the order in which they run.
  abbrev pub followed : (T → List (Task T)) → List T → List (Task T)
  followed follow [] = []
  followed follow (a ∷ rest) = follow a ++ followed follow rest

  abbrev pub emplace_all : List (Task T) → List (Task T) → List (Task T)
  emplace_all [] q = q
  emplace_all (t ∷ ts) q = emplace_all ts (emplace t q)

  none_due :
      (now n : ℕ) (q : List (Task T))
      → ltb now n ≡ true
      → Above n q
      → IsSorted q
      → (due_actions now q ≡ []) × (later_tasks now q ≡ q)
  none_due now n [] h a w = (refl, refl)
  none_due now n (t ∷ ts) h a (b, w) =
      let late : ltb now t.due ≡ true = ground (arith, h, a) in
      let (d, l) = none_due now t.due ts late b w in (rw (late, d) refl, rw (late, l) refl)

  emplace_all-append :
      (xs ys q : List (Task T)) → emplace_all (xs ++ ys) q ≡ emplace_all ys (emplace_all xs q)
  emplace_all-append [] ys q = refl
  emplace_all-append (x ∷ xs) ys q = emplace_all-append xs ys (emplace x q)

  emplace_all-IsSorted : (xs q : List (Task T)) → IsSorted q → IsSorted (emplace_all xs q)
  emplace_all-IsSorted [] q w = w
  emplace_all-IsSorted (x ∷ xs) q w = emplace_all-IsSorted xs (emplace x q) (emplace-IsSorted x q w)

  -- A task for later leaves the due ones as they are, and comes among the others.
  due-emplace :
      (now : ℕ) (t : Task T) (q : List (Task T))
      → ltb now t.due ≡ true
      → (due_actions now (emplace t q) ≡ due_actions now q)
        × (IsSorted q → later_tasks now (emplace t q) ≡ emplace t (later_tasks now q))
  unfolding emplace
  due-emplace now t [] late = (rw late refl, λ _. rw late refl)
  due-emplace now t (u ∷ us) late =
      let (d, l) = due-emplace now t us late in
      elim (Bool-cases (leb u.due t.due)) [
        | inl e ↦ elim (Bool-cases (ltb now u.due)) [
          | inl h ↦ (rw (e, h) d, λ w. rw (e, h, e, l w.1) refl)
          | inr h ↦ (rw (e, h, d) refl, λ w. rw (e, h) (l w.1))
        ]
        | inr e ↦
            let h : ltb now u.due ≡ true = ground (arith, e, late) in
            (
              rw (e, late, h) refl,
              λ w. rw (e, late, h, (none_due now u.due us h w.0 w.1).1, e) refl,
            )
      ]

  due-emplace_all :
      (now : ℕ) (xs q : List (Task T))
      → All (λ t. ltb now t.due ≡ true) xs
      → IsSorted q
      → (due_actions now (emplace_all xs q) ≡ due_actions now q)
        × (later_tasks now (emplace_all xs q) ≡ emplace_all xs (later_tasks now q))
  due-emplace_all now [] q h w = (refl, refl)
  due-emplace_all now (x ∷ xs) q (late, h) w =
      let (d, l) = due-emplace_all now xs (emplace x q) h (emplace-IsSorted x q w) in
      let (d', l') = due-emplace now x q late in (d ∙ d', l ∙ ap (emplace_all xs) (l' w))

  -- While the clock stands still and each action schedules tasks for later only, the tasks that
  -- are due are run in the queue's order, which is that of their times; the others stay, and the
  -- tasks that the actions schedule are put among them. One round more than there are due tasks is
  -- enough.
  pub run_due_tasks_lem :
      (now : ℕ) (follow : T → List (Task T))
      → ((a : T) → All (λ t. ltb now t.due ≡ true) (follow a))
      → (n : ℕ) (q : List (Task T)) → length (due_actions now q) ≤ n
      → IsSorted q
      → run_due_tasks (λ a rest. emplace_all (follow a) rest) (replicate (suc n) now) q ≡ record {
        actions = due_actions now q;
        queue = emplace_all (followed follow (due_actions now q)) (later_tasks now q);
      }
  unfolding run_due_tasks
  run_due_tasks_lem now follow f n [] h w = refl
  run_due_tasks_lem now follow f zero (t ∷ ts) h (a, w) = elim (Bool-cases (ltb now t.due)) [
    | inl late ↦ let (d, l) = none_due now t.due ts late a w in rw (late, d, l) refl
    | inr due ↦
        let some_due : suc (length (due_actions now ts)) ≤ 0 = rw due at h in
        let no : false ≡ true = ground (arith, some_due) in cc
  ]
  run_due_tasks_lem now follow f (suc n) (t ∷ ts) h (a, w) = elim (Bool-cases (ltb now t.due)) [
    | inl late ↦ let (d, l) = none_due now t.due ts late a w in rw (late, d, l) refl
    | inr due ↦
        let enough : suc (length (due_actions now ts)) ≤ suc n = rw due at h in
        let (d, l) = due-emplace_all now (follow t.action) ts (f t.action) w in
        let rest =
          run_due_tasks_lem now follow f n (emplace_all (follow t.action) ts)
            (rw d (omega (arith, enough))) (emplace_all-IsSorted (follow t.action) ts w) in
        rw (due, rest, d, l)
          (ap (λ q. record { actions = t.action ∷ due_actions now ts; queue = q })
            (sym (
              emplace_all-append (follow t.action) (followed follow (due_actions now ts))
                (later_tasks now ts))))
  ]
