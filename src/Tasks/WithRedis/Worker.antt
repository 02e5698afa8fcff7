-- ===== src/Tasks/WithRedis/Worker.antt =====
-- src/imghost/tasks.py, `RedisTaskQueue`: enqueueing a task, and the turns of a worker.
use imghost.Prelude.{
  ℕ, zero, suc, ◌-◌, String, Option, none, some, [], ◌∷◌, ◌++◌, map, if◌then◌else◌,
}
use imghost.Http.{other, key_error, Result, ok, raise}
use imghost.Redis.{prefixed, is_redis_unavailable}
use imghost.RateLimits.WithRedis.{is_empty}
use imghost.Tasks.{
  Outcome, RegisteredTask, QueuedTask, Kwargs, queued, started, retry_scheduled, succeeded, raised,
  run_result, other_value, enqueued, task_state, terminal_state, runs_again, get, run_handler,
  details, closing,
}
use imghost.Tasks.Async
use imghost.Tasks.WithRedis.{
  ListClient, Payload, Json, WorkerEntry, recorded, worker_failed, RedisTaskQueue, tell, queue_key,
  queue_of_key, dequeue_queue_names, add_queue,
}

abbrev pub message : {K Raw : Type 0} → Json K Raw → QueuedTask K → Raw
message json item = json.dumps (record {
  task_name = some item.task_name;
  kwargs = some item.kwargs;
  attempt = some item.attempt;
  max_attempts = some item.max_attempts;
})

-- The `except Exception` of a turn: `None` is the text of a task name that is missing.
unfoldable pub failure_of : {K : Type 0} → (worker_index : ℕ) → Option (Payload K) → WorkerEntry K
failure_of worker_index none = worker_failed "unknown" worker_index none
failure_of worker_index (some payload) =
    worker_failed (get payload.task_name "None") worker_index (elim payload.kwargs [
      | none ↦ none
      | some kwargs ↦ some (kwargs, get payload.attempt 1, get payload.max_attempts 1)
    ])

module _ {K S : Type 0} where
  -- The task and the item of a message; any key that is missing raises.
  unfoldable pub read_job :
      (String → Option (RegisteredTask K S))
      → Payload K
      → Option (RegisteredTask K S × QueuedTask K)
  read_job tasks payload = elim payload.task_name [
    | none ↦ none
    | some task_name ↦ elim payload.kwargs [
      | none ↦ none
      | some kwargs ↦ elim (tasks task_name) [
        | none ↦ none
        | some task ↦ some (
          task,
          record {
            task_name = task_name;
            kwargs = kwargs;
            attempt = get payload.attempt 1;
            max_attempts = get payload.max_attempts task.max_attempts;
          },
        )
      ]
    ]
  ]

module _ {K S Store : Type 0} where
  -- Finally, one active job less, where there is one.
  unfoldable pub finish_turn :
      (worker_index : ℕ)
      → Option (Payload K)
      → Result (Unit {0}) × RedisTaskQueue K S Store
      → RedisTaskQueue K S Store
  unfolding failure_of
  finish_turn worker_index payload (ok a, q) = record q { active_jobs = q.active_jobs - 1 }
  finish_turn worker_index payload (raise e, q) =
      tell (failure_of worker_index payload ∷ []) (record q { active_jobs = q.active_jobs - 1 })

module _ {K S Store Raw : Type 0} (client : ListClient Store Raw) (json : Json K Raw)
    (prefix : String) where
  -- The answer of `rpush`, and the fallback where it raised RedisUnavailable.
  unfoldable pub pushed :
      (resolved_queue : String)
      → QueuedTask K
      → Result (Unit {0}) × Store
      → RedisTaskQueue K S Store
      → Result (Unit {0}) × RedisTaskQueue K S Store
  unfolding Async.enqueue
  pushed resolved_queue item (ok a, store) q = (
    ok tt,
    tell
        (recorded (enqueued resolved_queue item.task_name)
          ∷ recorded (
              task_state item.task_name queued
                (details resolved_queue item.attempt item.max_attempts none item.kwargs))
          ∷ [])
        (record q { store = store }),
  )
  pushed resolved_queue item (raise e, store) q =
      let kwargs : Kwargs K = record {
        attempt_key = some item.attempt;
        max_attempts_key = some item.max_attempts;
        rest = item.kwargs;
      } in
      if is_redis_unavailable e
      then (let (r, fallback) =
            Async.enqueue item.task_name (some resolved_queue) kwargs q.fallback in
          (r, record q { store = store; fallback = fallback }))
      else (raise e, record q { store = store })

  unfoldable pub enqueue :
      (task_name : String) (queue : Option String) (kwargs : Kwargs K)
      → RedisTaskQueue K S Store
      → Result (Unit {0}) × RedisTaskQueue K S Store
  unfolding add_queue prefixed pushed
  enqueue task_name queue kwargs q = elim (q.tasks task_name) [
    | none ↦ (raise (key_error task_name), q)
    | some task ↦
        let resolved_queue = get queue task.default_queue in
        let item : QueuedTask K = record {
          task_name = task_name;
          kwargs = kwargs.rest;
          attempt = get kwargs.attempt_key 1;
          max_attempts = get kwargs.max_attempts_key task.max_attempts;
        } in
        pushed resolved_queue item
          (client.rpush (queue_key prefix resolved_queue) (message json item) q.store)
          (record q { known_queues = add_queue resolved_queue q.known_queues })
  ]

  -- `_handle_result`
  unfoldable pub handle_result :
      (queue_name : String)
      → QueuedTask K
      → Outcome
      → RedisTaskQueue K S Store
      → Result (Unit {0}) × RedisTaskQueue K S Store
  unfolding enqueue
  handle_result queue_name item (run_result result) q =
      let d = details queue_name item.attempt item.max_attempts result.reason item.kwargs in
      let again : Kwargs K = record {
        attempt_key = some (suc item.attempt);
        max_attempts_key = some item.max_attempts;
        rest = item.kwargs;
      } in
      if runs_again result item.attempt item.max_attempts
      then enqueue item.task_name (some queue_name) again
          (tell (recorded (task_state item.task_name retry_scheduled d) ∷ []) q)
      else (ok tt, tell (map recorded (closing item.task_name (terminal_state result.state) d)) q)
  handle_result queue_name item other_value q = (
    ok tt,
    tell
        (recorded (
            task_state item.task_name succeeded
              (details queue_name item.attempt item.max_attempts none item.kwargs))
          ∷ [])
        q,
  )
  handle_result queue_name item (raised text) q = (raise (other text), q)

  -- The handler's call, and what follows from it.
  unfoldable pub run_job :
      RegisteredTask K S
      → (queue_name : String) → QueuedTask K
      → RedisTaskQueue K S Store
      → Result (Unit {0}) × RedisTaskQueue K S Store
  unfolding handle_result
  run_job task queue_name item q =
      let (outcome, world) =
        run_handler task item.kwargs item.attempt item.max_attempts q.fallback.world in
      handle_result queue_name item outcome (record q {
        active_jobs = suc q.active_jobs;
        fallback = record q.fallback { world = world };
        log =
            q.log
            ++ recorded (
                task_state item.task_name started
                  (details queue_name item.attempt item.max_attempts none item.kwargs))
              ∷ [];
      })

  -- A turn with a message that was taken from the list.
  unfoldable pub take_message :
      (worker_index : ℕ) (key : String) (raw_payload : Raw)
      → RedisTaskQueue K S Store
      → RedisTaskQueue K S Store
  unfolding read_job finish_turn run_job queue_of_key
  take_message worker_index key raw_payload q = elim (json.loads raw_payload) [
    | none ↦ finish_turn worker_index none (raise (other "payload"), q)
    | some payload ↦ elim (read_job q.tasks payload) [
      | none ↦ finish_turn worker_index (some payload) (raise (other "payload"), q)
      | some (task, item) ↦
          finish_turn worker_index (some payload) (run_job task (queue_of_key key) item q)
    ]
  ]

  -- The answer of `blpop`. An error other than RedisUnavailable ends the worker.
  unfoldable pub popped :
      (worker_index : ℕ)
      → Result (Option (String × Raw)) × Store
      → RedisTaskQueue K S Store
      → Result (Unit {0}) × RedisTaskQueue K S Store
  unfolding take_message
  popped worker_index (raise e, store) q =
      (if is_redis_unavailable e then ok tt else raise e, record q { store = store })
  popped worker_index (ok none, store) q = (ok tt, record q { store = store })
  popped worker_index (ok (some (key, raw_payload)), store) q =
      (ok tt, take_message worker_index key raw_payload (record q { store = store }))

  -- One pass of the loop of `_run_worker`
  unfoldable pub take_turn :
      (worker_index : ℕ) → RedisTaskQueue K S Store → Result (Unit {0}) × RedisTaskQueue K S Store
  unfolding popped prefixed
  take_turn worker_index q =
      let queue_keys = map (queue_key prefix) (dequeue_queue_names q) in
      if is_empty queue_keys
      then (ok tt, q)
      else popped worker_index (client.blpop queue_keys q.store) q

  unfoldable pub run_worker :
      (turns worker_index : ℕ) → RedisTaskQueue K S Store → RedisTaskQueue K S Store
  unfolding take_turn
  run_worker zero worker_index q = q
  run_worker (suc turns) worker_index q =
      let (r, q') = take_turn worker_index q in
      elim r [ ok a ↦ run_worker turns worker_index q' | raise e ↦ q' ]
