-- ===== src/Examples/Tasks.antt =====
-- The task queues with a handler that wants to be retried.
use imghost.Prelude.{
  ℕ, suc, ◌≡◌, ◌≤◌, ◌<◌, refl, String, true, Option, none, some, List, [], ◌∷◌, arith,
}
use imghost.Http.{ok}
use imghost.Tasks.{RegisteredTask, QueuedTask, Kwargs, run_result, retry_scheduled}
use imghost.Tasks.Sync
use imghost.Tasks.Sync.{Run}
use imghost.Tasks.Async.{AsyncTaskQueue, enqueue, run_worker, stop}
use imghost.Tasks.Attempts.{counted, enqueue-runs_within}
use imghost.Tasks.Drain.{run_worker-empties, work}
use imghost.Tasks.Agreement.{queues-agree, trace}
use imghost.Tasks.Stopping.{stop-leaves_retry, one_left}

-- Its world is the number of its calls; it never succeeds.
abbrev thumbnails : RegisteredTask String ℕ
thumbnails = record {
  handler = λ kwargs metadata n. (
    run_result
        (record { state = retry_scheduled; reason = some "storage_read_failed"; retryable = true }),
    suc n,
  );
  default_queue = "thumbnails";
  max_attempts = 3;
  pass_retry_metadata = true;
}

abbrev tasks : String → Option (RegisteredTask String ℕ)
tasks name = some thumbnails

abbrev counted_tasks : String → Option (RegisteredTask String (ℕ × ℕ))
counted_tasks name = some (counted thumbnails)

abbrev plain : Kwargs String
plain = record { attempt_key = none; max_attempts_key = none; rest = "m1" }

enqueue-runs_within_example :
    (r' : Run String (ℕ × ℕ)) × (Sync.enqueue counted_tasks "generate_thumbnail" none plain
        (record { world = (0, 0); log = [] })
      ≡ ok (some r'))
    × (0 < r'.world.0)
    × (r'.world.0 ≤ 3)
enqueue-runs_within_example =
    enqueue-runs_within counted_tasks "generate_thumbnail" none thumbnails "m1" 0 [] refl
      (omega arith)

abbrev waiting : QueuedTask String
waiting = record { task_name = "generate_thumbnail"; kwargs = "m1"; attempt = 1; max_attempts = 3 }

abbrev queue : List (Option (QueuedTask String)) → AsyncTaskQueue String ℕ
queue pending = record {
  tasks = tasks;
  worker_count = 1;
  pending = pending;
  workers = 1;
  world = 0;
  log = [];
}

run_worker-empties_example : (run_worker 6 (queue (some waiting ∷ some waiting ∷ []))).pending ≡ []
unfolding work
run_worker-empties_example =
    run_worker-empties 6 (queue (some waiting ∷ some waiting ∷ [])) (tt, (tt, tt)) (omega arith)

three_calls : (run_worker 3 (queue (some waiting ∷ []))).world ≡ 3
unfolding run_worker
three_calls = refl

queues-agree_example :
    let q = (enqueue "generate_thumbnail" (some "slow") plain (queue [])).1 in
    let q' = run_worker 3 q in
    (r : Run String ℕ) × (Sync.enqueue tasks "generate_thumbnail"
        (some "slow")
        plain
        (record { world = 0; log = [] })
      ≡ ok (some r))
    × (q'.pending ≡ [])
    × (q'.world ≡ r.world)
    × (trace q'.log ≡ trace r.log)
queues-agree_example =
    queues-agree tasks 1 1 "generate_thumbnail" "slow" thumbnails refl "m1" 0 [] (omega arith)

stop-leaves_retry_example :
    ((stop 2 (one_left (queue []) waiting thumbnails)).pending
      ≡ some (record waiting { attempt = 2 }) ∷ [])
    × ((stop 2 (one_left (queue []) waiting thumbnails)).workers ≡ 0)
stop-leaves_retry_example =
    stop-leaves_retry (queue []) waiting thumbnails 0 (some "storage_read_failed") 1 refl refl
      (omega arith)
