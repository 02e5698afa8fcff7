-- ===== src/Tasks/Stopping.antt =====
-- tasks.py, `AsyncTaskQueue.stop`: what becomes of a task that wants to be retried while the workers
-- are told to return.
use imghost.Prelude.{
  ℕ, suc, ◌<◌, ◌≡◌, refl, String, true, Option, none, some, List, [], ◌∷◌, ◌++◌, arith, max,
}
use imghost.Tasks.{RegisteredTask, QueuedTask, run_result, run_handler, retry_scheduled, runs_again}
use imghost.Tasks.Async.{
  AsyncTaskQueue, enqueue, handle_task_result, record_outcome, execute_task, take_turn, run_worker,
  stop,
}

module _ {K S : Type 0} (q : AsyncTaskQueue K S) (item : QueuedTask K)
    (task : RegisteredTask K S) where
  abbrev again : QueuedTask K
  again = record item { attempt = suc item.attempt }

  turn_requeues :
      (pending : List (Option (QueuedTask K))) (reason : Option String) (world : S)
      → q.tasks item.task_name ≡ some task
      → run_handler task item.kwargs item.attempt item.max_attempts q.world ≡ (
        run_result (record { state = retry_scheduled; reason = reason; retryable = true }),
        world,
      )
      → item.attempt < item.max_attempts
      → (take_turn item (record q { pending = pending })).pending ≡ pending ++ some again ∷ []
  unfolding take_turn execute_task record_outcome
  turn_requeues pending reason world known wants more =
      let first : max 1 (suc item.attempt) ≡ suc item.attempt = omega arith in
      let last : max 1 item.max_attempts ≡ item.max_attempts = omega arith in
      let goes : runs_again (record { state = retry_scheduled; reason = reason; retryable = true })
            item.attempt item.max_attempts
          ≡ true =
        ground arith in
      rw (known, take_turn)
        (rw wants (rw (goes, handle_task_result) (rw (known, enqueue) (rw first (rw last refl)))))

  last_turn :
      (turns : ℕ) (q' : AsyncTaskQueue K S) {rest : List (Option (QueuedTask K))}
      → q'.pending ≡ none ∷ rest
      → (run_worker (suc turns) q').pending ≡ rest
  unfolding run_worker
  last_turn turns q' e = rw (e, run_worker) refl

  first_turn :
      (turns : ℕ) (rest : List (Option (QueuedTask K)))
      → run_worker (suc turns) (record q { pending = some item ∷ rest })
        ≡ run_worker turns (take_turn item (record q { pending = rest }))
  unfolding run_worker
  first_turn turns rest = refl

module _ {K S : Type 0} (q : AsyncTaskQueue K S) (item : QueuedTask K)
    (task : RegisteredTask K S) where
  -- A queue of one worker, with the item as all that waits.
  abbrev pub one_left : AsyncTaskQueue K S
  one_left = record q { workers = 1; pending = some item ∷ [] }

  stop_one :
      (turns : ℕ)
      → stop turns one_left
        ≡ record (run_worker turns (record one_left { pending = some item ∷ none ∷ [] })) {
          workers = 0;
        }
  unfolding stop
  stop_one turns = refl

  -- Stopping a queue with one worker, while its last task wants to be retried and has an attempt left,
  -- leaves the retry in the queue with no worker to take it: the retry is put behind the `None` that
  -- the worker returns at.
  pub stop-leaves_retry :
      (turns : ℕ) (reason : Option String) (world : S)
      → q.tasks item.task_name ≡ some task
      → run_handler task item.kwargs item.attempt item.max_attempts q.world ≡ (
        run_result (record { state = retry_scheduled; reason = reason; retryable = true }),
        world,
      )
      → item.attempt < item.max_attempts
      → ((stop (suc (suc turns)) one_left).pending ≡ some (again q item task) ∷ [])
        × ((stop (suc (suc turns)) one_left).workers ≡ 0)
  stop-leaves_retry turns reason world known wants more = rw stop_one (
      rw (first_turn one_left item task) (
        last_turn one_left item task turns _
            (turn_requeues one_left item task (none ∷ []) reason world known wants more),
        refl,
      ))
