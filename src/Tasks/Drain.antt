-- ===== src/Tasks/Drain.antt =====
-- tasks.py, `AsyncTaskQueue`: what a worker leaves of the queue after a number of turns.
use imghost.Prelude.{
  ℕ, zero, suc, ◌+◌, ◌≤◌, ◌<◌, ◌≡◌, refl, String, Option, none, some, List, [], ◌∷◌, ◌++◌, arith,
  Bool-cases, Option-cases, ◌⊎◌, inl, inr, All, All-append,
}
use imghost.Tasks.{Outcome, QueuedTask, TaskRunResult, raised, run_result, other_value, runs_again}
use imghost.Tasks.Sync.{rounds}
use imghost.Tasks.Async.{
  AsyncTaskQueue, enqueue, handle_task_result, record_outcome, execute_task, take_turn, run_worker,
}

-- The attempts that the waiting items may still take, a `None` counted as one.
unfoldable pub work : {K : Type 0} → List (Option (QueuedTask K)) → ℕ
work [] = 0
work (none ∷ rest) = suc (work rest)
work (some item ∷ rest) = rounds item.attempt item.max_attempts + work rest

abbrev pub IsTask : {K : Type 0} → Option (QueuedTask K) → Type 0
IsTask none = ⊥
IsTask (some _) = Unit

work-append : {K : Type 0} (a b : List (Option (QueuedTask K))) → work (a ++ b) ≡ work a + work b
unfolding work
work-append [] b = omega arith
work-append (none ∷ a) b = rw (work-append a b) (omega arith)
work-append (some item ∷ a) b = rw (work-append a b) (omega arith)

no_work : {K : Type 0} (p : List (Option (QueuedTask K))) → All IsTask p → work p ≤ 0 → p ≡ []
unfolding work
no_work [] tasks enough = refl
no_work (none ∷ rest) tasks enough = absurd tasks.0
no_work (some item ∷ rest) tasks enough = absurd (omega arith)

module _ {K S : Type 0} where
  -- The turn leaves the queue as it is, or puts the item back with fewer attempts left.
  abbrev Shrinks : QueuedTask K → AsyncTaskQueue K S → AsyncTaskQueue K S → Type 0
  Shrinks item q q' =
      (q'.pending ≡ q.pending)
      ⊎ ((again : QueuedTask K) × (q'.pending ≡ q.pending ++ some again ∷ [])
          × (rounds again.attempt again.max_attempts < rounds item.attempt item.max_attempts))

  handle-Shrinks :
      (queue_name : String) (item : QueuedTask K) (result : TaskRunResult) (q : AsyncTaskQueue K S)
      → Shrinks item q (handle_task_result queue_name item result q)
  unfolding handle_task_result
  handle-Shrinks queue_name item result q =
      elim (Bool-cases (runs_again result item.attempt item.max_attempts)) [
        | inr p ↦ rw p (inl refl)
        | inl p ↦ rw p (elim (Option-cases (q.tasks item.task_name)) [
          | inl e ↦ rw (e, enqueue) (inl refl)
          | inr (task, e) ↦ rw (e, enqueue) (inr (_, refl, ground arith))
        ])
      ]

  record_outcome-Shrinks :
      (queue_name : String) (item : QueuedTask K) (outcome : Outcome) (q : AsyncTaskQueue K S)
      → Shrinks item q (record_outcome queue_name item outcome q)
  unfolding record_outcome
  record_outcome-Shrinks queue_name item (raised text) q = inl refl
  record_outcome-Shrinks queue_name item other_value q = inl refl
  record_outcome-Shrinks queue_name item (run_result result) q =
      handle-Shrinks queue_name item result q

  take_turn-Shrinks :
      (item : QueuedTask K) (q : AsyncTaskQueue K S) → Shrinks item q (take_turn item q)
  unfolding take_turn execute_task
  take_turn-Shrinks item q = elim (Option-cases (q.tasks item.task_name)) [
    | inl e ↦ rw (e, take_turn) (inl refl)
    | inr (task, e) ↦ rw (e, take_turn) (record_outcome-Shrinks _ item _ _)
  ]

  -- What waits after a turn still are tasks, with an attempt less.
  after_turn :
      (item : QueuedTask K) (q : AsyncTaskQueue K S) (turns : ℕ)
      → All IsTask q.pending
      → rounds item.attempt item.max_attempts + work q.pending ≤ suc turns
      → All IsTask (take_turn item q).pending × (work (take_turn item q).pending ≤ turns)
  unfolding work
  after_turn item q turns tasks enough = elim (take_turn-Shrinks item q) [
    | inl e ↦ rw e (tasks, omega arith)
    | inr (again, e, fewer) ↦
        rw e (
          All-append IsTask q.pending (some again ∷ []) tasks (tt, tt),
          rw work-append (omega arith),
        )
  ]

  -- With a turn for each attempt that the waiting tasks may take, retries included, a worker leaves
  -- the queue empty: no task is retried for ever.
  pub run_worker-empties :
      (turns : ℕ) (q : AsyncTaskQueue K S)
      → All IsTask q.pending
      → work q.pending ≤ turns
      → (run_worker turns q).pending ≡ []
  unfolding run_worker work
  run_worker-empties zero q tasks enough = no_work q.pending tasks enough
  run_worker-empties (suc turns) q tasks enough =
      go (run_worker-empties turns) q.pending refl tasks enough
    where
      go :
          ((q : AsyncTaskQueue K S)
            → All IsTask q.pending
            → work q.pending ≤ turns
            → (run_worker turns q).pending ≡ [])
          → (p : List (Option (QueuedTask K))) → q.pending ≡ p
          → All IsTask p
          → work p ≤ suc turns
          → (run_worker (suc turns) q).pending ≡ []
      go next [] e tasks enough = rw (e, run_worker) e
      go next (none ∷ rest) e tasks enough = absurd tasks.0
      go next (some item ∷ rest) e tasks enough =
          let (tasks', enough') =
            after_turn item (record q { pending = rest }) turns tasks.1 enough in
          rw (e, run_worker) (next _ tasks' enough')
