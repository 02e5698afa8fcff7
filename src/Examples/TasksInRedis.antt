-- ===== src/Examples/TasksInRedis.antt =====
-- The task queue in Redis, with one list as the store.
use imghost.Prelude.{
  ℕ, suc, ◌≡◌, refl, String, true, Option, none, some, List, [], ◌∷◌, ◌++◌, arith,
}
use imghost.Http.{Exec, ok}
use imghost.Redis.{prefixed}
use imghost.Tasks.{RegisteredTask, Kwargs, run_result, retry_scheduled}
use imghost.Tasks.Sync
use imghost.Tasks.Sync.{Run}
use imghost.Tasks.Async.{AsyncTaskQueue}
use imghost.Tasks.Agreement.{trace}
use imghost.Tasks.WithRedis.{ListClient, Payload, Json, RedisTaskQueue, queue_of_key}
use imghost.Tasks.WithRedis.Worker.{enqueue, run_worker}
use imghost.Tasks.WithRedis.Trace.{worker_trace}
use imghost.Tasks.WithRedis.Agreement.{redis_queue-agrees}

abbrev Message : Type 0
Message = Payload String

-- Messages as the objects that they stand for.
abbrev plain_json : Json String Message
plain_json = record { dumps = λ p. p; loads = λ p. some p }

abbrev pop_first : List String → Exec (List Message) (Option (String × Message))
pop_first (key ∷ keys) (m ∷ rest) = (ok (some (key, m)), rest)
pop_first (key ∷ keys) [] = (ok none, [])
pop_first [] s = (ok none, s)

abbrev one_list : ListClient (List Message) Message
one_list = record {
  rpush = λ key m s. (ok tt, s ++ m ∷ []);
  blpop = pop_first;
  llen = λ key s. (ok 0, s);
}

-- Its world is the number of its calls; it never succeeds.
abbrev thumbnails : RegisteredTask String ℕ
thumbnails = record {
  handler = λ kwargs metadata n. (
    run_result
        (record { state = retry_scheduled; reason = some "storage_read_failed"; retryable = true }),
    suc n,
  );
  default_queue = "thumbnails";
  max_attempts = 3;
  pass_retry_metadata = true;
}

abbrev tasks : String → Option (RegisteredTask String ℕ)
tasks name = some thumbnails

abbrev fallback : AsyncTaskQueue String ℕ
fallback = record {
  tasks = tasks;
  worker_count = 1;
  pending = [];
  workers = 1;
  world = 0;
  log = [];
}

abbrev waiting_none : RedisTaskQueue String ℕ (List Message)
waiting_none = record {
  tasks = tasks;
  worker_count = 1;
  runs_worker = true;
  worker_queues = some ("thumbnails" ∷ []);
  known_queues = "default" ∷ "thumbnails" ∷ [];
  fallback = fallback;
  workers = 1;
  active_jobs = 0;
  store = [];
  log = [];
}

abbrev plain : Kwargs String
plain = record { attempt_key = none; max_attempts_key = none; rest = "m1" }

abbrev worked_off : RedisTaskQueue String ℕ (List Message)
worked_off =
    run_worker one_list plain_json "imghost" 3 0
      (enqueue one_list plain_json "imghost" "generate_thumbnail" (some "thumbnails") plain
        waiting_none).1

three_runs : worked_off.fallback.world ≡ 3
unfolding run_worker enqueue
three_runs = refl

redis_queue-agrees_example :
    (r : Run String ℕ) × (Sync.enqueue tasks "generate_thumbnail"
        (some "thumbnails")
        plain
        (record { world = 0; log = [] })
      ≡ ok (some r))
    × (worked_off.store ≡ [])
    × (worked_off.fallback.world ≡ r.world)
    × (worker_trace worked_off.log ≡ trace r.log)
unfolding queue_of_key prefixed
redis_queue-agrees_example =
    redis_queue-agrees one_list plain_json "imghost" "thumbnails" (λ p. refl) refl (λ s. s)
      (λ s m. (_, refl, refl)) (λ s m rest e. (rest, rw e refl, refl))
      (λ s e. ([], rw e refl, refl)) tasks 1 1 0 fallback "generate_thumbnail" thumbnails refl "m1"
      ("default" ∷ "thumbnails" ∷ []) [] 0 refl (omega arith)
