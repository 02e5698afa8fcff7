-- ===== src/Tasks/Async.antt =====
-- tasks.py, `AsyncTaskQueue`: tasks wait in an `asyncio.Queue`, from which workers take them. One
-- turn of a worker is one pass of the loop of `_run_worker`.
use imghost.Prelude.{
  ℕ, zero, suc, max, String, Option, none, some, List, [], ◌∷◌, ◌++◌, if◌then◌else◌,
}
use imghost.Http.{key_error, Result, ok, raise}
use imghost.Tasks.{
  TaskRunResult, Outcome, RegisteredTask, QueuedTask, Entry, Kwargs, queued, started,
  retry_scheduled, succeeded, failed_permanent, raised, run_result, other_value, enqueued,
  task_state, terminal_state, runs_again, get, run_handler, details, closing,
}

-- `None` in the queue tells a worker to return.
pub record AsyncTaskQueue (K S : Type 0) : Type 0 where
  pub tasks : String → Option (RegisteredTask K S)
  pub worker_count : ℕ
  pub pending : List (Option (QueuedTask K))
  pub workers : ℕ
  pub world : S
  pub log : List (Entry K)

module _ {K S : Type 0} where
  abbrev pub record_entries : List (Entry K) → AsyncTaskQueue K S → AsyncTaskQueue K S
  record_entries entries q = record q { log = q.log ++ entries }

  abbrev put : Option (QueuedTask K) → AsyncTaskQueue K S → AsyncTaskQueue K S
  put item q = record q { pending = q.pending ++ item ∷ [] }

  -- `_resolve_queue_name`
  abbrev pub resolve_queue_name : RegisteredTask K S → Option String → String
  resolve_queue_name task queue = get queue task.default_queue

  unfoldable pub enqueue :
      (task_name : String) (queue : Option String) (kwargs : Kwargs K)
      → AsyncTaskQueue K S
      → Result (Unit {0}) × AsyncTaskQueue K S
  enqueue task_name queue kwargs q = elim (q.tasks task_name) [
    | none ↦ (raise (key_error task_name), q)
    | some task ↦
        let resolved_queue = resolve_queue_name task queue in
        let attempt = max 1 (get kwargs.attempt_key 1) in
        let max_attempts = max 1 (get kwargs.max_attempts_key task.max_attempts) in
        let item : QueuedTask K = record {
          task_name = task_name;
          kwargs = kwargs.rest;
          attempt = attempt;
          max_attempts = max_attempts;
        } in
        (
          ok tt,
          record_entries
              (enqueued resolved_queue task_name
                ∷ task_state task_name queued
                    (details resolved_queue attempt max_attempts none kwargs.rest)
                ∷ [])
              (put (some item) q),
        )
  ]

  -- `_handle_task_result`
  unfoldable pub handle_task_result :
      (queue_name : String) → QueuedTask K → TaskRunResult → AsyncTaskQueue K S → AsyncTaskQueue K S
  unfolding enqueue
  handle_task_result queue_name item result q =
      let d = details queue_name item.attempt item.max_attempts result.reason item.kwargs in
      let again : Kwargs K = record {
        attempt_key = some (suc item.attempt);
        max_attempts_key = some item.max_attempts;
        rest = item.kwargs;
      } in
      if runs_again result item.attempt item.max_attempts
      then (enqueue item.task_name (some queue_name) again
          (record_entries (task_state item.task_name retry_scheduled d ∷ []) q)).1
      else record_entries (closing item.task_name (terminal_state result.state) d) q

  -- The `except` of `_execute_task`, a value of another type, or a result.
  unfoldable pub record_outcome :
      (queue_name : String) → QueuedTask K → Outcome → AsyncTaskQueue K S → AsyncTaskQueue K S
  unfolding handle_task_result
  record_outcome queue_name item (raised text) q =
      record_entries
        (closing item.task_name failed_permanent
          (details queue_name item.attempt item.max_attempts (some text) item.kwargs))
        q
  record_outcome queue_name item other_value q =
      record_entries
        (task_state item.task_name succeeded
            (details queue_name item.attempt item.max_attempts none item.kwargs)
          ∷ [])
        q
  record_outcome queue_name item (run_result result) q = handle_task_result queue_name item result q

  -- `_execute_task`
  unfoldable pub execute_task :
      RegisteredTask K S
      → (queue_name : String) → QueuedTask K
      → AsyncTaskQueue K S
      → AsyncTaskQueue K S
  unfolding record_outcome
  execute_task task queue_name item q =
      let (outcome, world) = run_handler task item.kwargs item.attempt item.max_attempts q.world in
      record_outcome queue_name item outcome (record q {
        world = world;
        log =
            q.log
            ++ task_state item.task_name started
                (details queue_name item.attempt item.max_attempts none item.kwargs)
              ∷ [];
      })

  -- A turn with an item. The lookup of a name that is not registered raises, and the loop drops
  -- the item.
  unfoldable pub take_turn : QueuedTask K → AsyncTaskQueue K S → AsyncTaskQueue K S
  unfolding execute_task
  take_turn item q = elim (q.tasks item.task_name) [
    | none ↦ q
    | some task ↦ execute_task task (resolve_queue_name task none) item q
  ]

  -- A worker's loop for at most `turns` turns: it waits when the queue is empty, and returns at a
  -- `None`.
  unfoldable pub run_worker : (turns : ℕ) → AsyncTaskQueue K S → AsyncTaskQueue K S
  unfolding take_turn
  run_worker zero q = q
  run_worker (suc turns) q = elim q.pending [
    | [] ↦ q
    | none ∷ rest ↦ record q { pending = rest }
    | some item ∷ rest ↦ run_worker turns (take_turn item (record q { pending = rest }))
  ]

  unfoldable pub start : AsyncTaskQueue K S → AsyncTaskQueue K S
  start q = elim q.workers [ zero ↦ record q { workers = q.worker_count } | suc _ ↦ q ]

  put_sentinels : ℕ → AsyncTaskQueue K S → AsyncTaskQueue K S
  put_sentinels zero q = q
  put_sentinels (suc n) q = put_sentinels n (put none q)

  gather : (turns workers : ℕ) → AsyncTaskQueue K S → AsyncTaskQueue K S
  unfolding run_worker
  gather turns zero q = q
  gather turns (suc workers) q = gather turns workers (run_worker turns q)

  -- Each worker runs up to its `None`, one after the other.
  unfoldable pub stop : (turns : ℕ) → AsyncTaskQueue K S → AsyncTaskQueue K S
  unfolding put_sentinels gather
  stop turns q = record (gather turns q.workers (put_sentinels q.workers q)) { workers = 0 }
