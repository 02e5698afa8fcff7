-- ===== src/Tasks/WithRedis.antt =====
-- src/imghost/tasks.py, `RedisTaskQueue`: tasks wait in lists of Redis, and in the queue of this
-- process when Redis cannot be reached. A worker's turn runs its handler to the end before another
-- starts. What the telemetry is told of subsystems is left out.
use Prim.Native.Nat.{Ordering}
pub mod Worker
pub mod Trace
pub mod Agreement
pub mod Status
use Prim.Native.String.{compare}
use Prim.Native.String.{◌++◌ as append}
use imghost.Prelude
use imghost.Prelude.{
  ℕ, zero, suc, ◌+◌, ◌-◌, String, Bool, true, false, not, ◌&&◌, ◌||◌, ◌==◌, max, Option, none, some,
  List, [], ◌∷◌, ◌++◌, map, keep, str_eq, sum_by, if◌then◌else◌,
}
use imghost.Text.{strip, last_part}
use imghost.Http.{other, key_error, Exec, Result, ok, raise, ◌>>=◌, pure}
use imghost.Redis.{prefixed, is_redis_unavailable}
use imghost.RateLimits.WithRedis.{is_empty}
use imghost.Tasks.{
  TaskRunResult, Outcome, RegisteredTask, QueuedTask, Entry, Kwargs, queued, started,
  retry_scheduled, succeeded, raised, run_result, other_value, enqueued, task_state, terminal_state,
  runs_again, get, run_handler, details, closing,
}
use imghost.Tasks
use imghost.Tasks.Async
use imghost.Tasks.Async.{AsyncTaskQueue}

-- The calls of a Redis client on lists of messages, whose texts are a type `Raw`.
pub record ListClient (Store Raw : Type 0) : Type 0 where
  pub rpush : (key : String) (value : Raw) → Exec Store (Unit {0})
  pub blpop : (keys : List String) → Exec Store (Option (String × Raw))
  pub llen : String → Exec Store ℕ

-- A message as an object, with the keys that may be missing.
pub record Payload (K : Type 0) : Type 0 where
  pub task_name : Option String
  pub kwargs : Option K
  pub attempt : Option ℕ
  pub max_attempts : Option ℕ

-- `json.dumps`, and `json.loads` where it gives an object
pub record Json (K Raw : Type 0) : Type 0 where
  pub dumps : Payload K → Raw
  pub loads : Raw → Option (Payload K)

-- What the telemetry is told: an entry as of the other queues, or the failure of a worker, as a
-- state and as a failure, with the attempts where the message had its `kwargs`.
pub data WorkerEntry (K : Type 0) : Type 0 where
  recorded : Entry K → WorkerEntry K
  worker_failed :
      (task_name : String) (worker_index : ℕ) (kwargs : Option (K × ℕ × ℕ)) → WorkerEntry K

-- The fallback has the world that the handlers work on. `known_queues` is the set, in order.
pub record RedisTaskQueue (K S Store : Type 0) : Type 0 where
  pub tasks : String → Option (RegisteredTask K S)
  pub worker_count : ℕ
  pub runs_worker : Bool
  pub worker_queues : Option (List String)
  pub known_queues : List String
  pub fallback : AsyncTaskQueue K S
  pub workers : ℕ
  pub active_jobs : ℕ
  pub store : Store
  pub log : List (WorkerEntry K)

is_member : String → List String → Bool
is_member s [] = false
is_member s (q ∷ qs) = str_eq s q || is_member s qs

-- `queue.strip().lower()`, with `lower` as a function
normalize_from : (lower : String → String) → List String → (seen : List String) → List String
unfolding strip is_member
normalize_from lower [] seen = []
normalize_from lower (raw_queue ∷ queues) seen =
    let queue = lower (strip raw_queue) in
    let skipped = normalize_from lower queues seen in
    let kept = queue ∷ normalize_from lower queues (queue ∷ seen) in
    if str_eq queue "" || is_member queue seen then skipped else kept

unfoldable pub normalize_task_queues :
    (lower : String → String) → Option (List String) → Option (List String)
unfolding normalize_from
normalize_task_queues lower none = none
normalize_task_queues lower (some queues) = some (normalize_from lower queues [])

-- A set of names, sorted
unfoldable pub add_queue : String → List String → List String
add_queue queue [] = queue ∷ []
add_queue queue (q ∷ qs) = elim (compare queue q) [
  | Ordering.lt ↦ queue ∷ q ∷ qs
  | Ordering.eq ↦ q ∷ qs
  | Ordering.gt ↦ q ∷ add_queue queue qs
]

add_queues : List String → List String → List String
unfolding add_queue
add_queues [] known = known
add_queues (q ∷ qs) known = add_queues qs (add_queue q known)

abbrev pub queue_key : (prefix queue : String) → String
queue_key prefix queue = prefixed prefix (append "queue:" queue)

-- str(queue_key).split("queue:")[-1]
unfoldable pub queue_of_key : String → String
unfolding last_part
queue_of_key key = last_part "queue:" key

module _ {K S Store : Type 0} where
  -- `__init__`, with the names normalized
  unfoldable pub initial :
      (worker_count : ℕ) (runs_worker : Bool) (worker_queues : Option (List String))
      → AsyncTaskQueue K S
      → Store
      → RedisTaskQueue K S Store
  unfolding add_queues
  initial worker_count runs_worker worker_queues fallback store = record {
    tasks = λ name. none;
    worker_count = max 1 worker_count;
    runs_worker = runs_worker;
    worker_queues = worker_queues;
    known_queues = add_queues (get worker_queues []) ("default" ∷ "thumbnails" ∷ []);
    fallback = fallback;
    workers = 0;
    active_jobs = 0;
    store = store;
    log = [];
  }

  unfoldable pub register :
      String → RegisteredTask K S → RedisTaskQueue K S Store → RedisTaskQueue K S Store
  unfolding Tasks.register
  register task_name task q = record q {
    tasks = Tasks.register q.tasks task_name task;
    fallback = record q.fallback { tasks = Tasks.register q.fallback.tasks task_name task };
  }

  abbrev pub tell : List (WorkerEntry K) → RedisTaskQueue K S Store → RedisTaskQueue K S Store
  tell entries q = record q { log = q.log ++ entries }

  -- `_dequeue_queue_names` and `_join_queue_names`
  abbrev pub dequeue_queue_names : RedisTaskQueue K S Store → List String
  dequeue_queue_names q = get q.worker_queues q.known_queues

  unfoldable pub join_queue_names : RedisTaskQueue K S Store → List String
  unfolding is_member keep
  join_queue_names q = elim q.worker_queues [
    | none ↦ q.known_queues
    | some queues ↦ keep (λ queue. is_member queue q.known_queues) queues
  ]

  unfoldable pub start : RedisTaskQueue K S Store → RedisTaskQueue K S Store
  unfolding Async.start
  start q =
      let started = record q { fallback = Async.start q.fallback } in
      if not q.runs_worker || not (q.workers == 0) || is_empty (dequeue_queue_names q)
      then started
      else record started { workers = q.worker_count }

  -- The workers are cancelled between two turns.
  unfoldable pub stop : (turns : ℕ) → RedisTaskQueue K S Store → RedisTaskQueue K S Store
  unfolding Async.stop
  stop turns q = record q { workers = 0; fallback = Async.stop turns q.fallback }
