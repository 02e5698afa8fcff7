-- ===== src/Tasks/WithRedis/Status.antt =====
-- src/imghost/tasks.py, `RedisTaskQueue`: the lengths of the queues and what is told of them.
use imghost.Prelude.{ℕ, String, Bool, true, ◌&&◌, ◌==◌, List, [], ◌∷◌, sum_by, if◌then◌else◌}
use imghost.Http.{Exec, Result, ok, raise, ◌>>=◌, pure}
use imghost.Redis.{prefixed, is_redis_unavailable}
use imghost.Tasks.WithRedis.{
  ListClient, RedisTaskQueue, queue_key, dequeue_queue_names, join_queue_names,
}

all_zero : List ℕ → Bool
all_zero [] = true
all_zero (n ∷ ns) = n == 0 && all_zero ns

lengths_zero : Result (List ℕ) → Result Bool
unfolding all_zero
lengths_zero (ok lengths) = ok (all_zero lengths)
lengths_zero (raise e) = if is_redis_unavailable e then ok true else raise e

zip : List String → List ℕ → List (String × ℕ)
zip [] ns = []
zip (q ∷ qs) [] = []
zip (q ∷ qs) (n ∷ ns) = (q, n) ∷ zip qs ns

lengths_or_none : List String → Result (List ℕ) → Result (List (String × ℕ))
unfolding zip
lengths_or_none queues (ok lengths) = ok (zip queues lengths)
lengths_or_none queues (raise e) = if is_redis_unavailable e then ok [] else raise e

module _ {Store Raw : Type 0} (client : ListClient Store Raw) (prefix : String) where
  unfoldable pub read_queue_lengths : List String → Exec Store (List ℕ)
  unfolding prefixed
  read_queue_lengths [] = pure []
  read_queue_lengths (queue ∷ queues) = do
    length ← client.llen (queue_key prefix queue)
    lengths ← read_queue_lengths queues
    pure (length ∷ lengths)

  module _ {K S : Type 0} where
    -- `_all_queues_empty`
    unfoldable pub all_queues_empty :
        RedisTaskQueue K S Store → Result Bool × RedisTaskQueue K S Store
    unfolding read_queue_lengths lengths_zero join_queue_names
    all_queues_empty q =
        let (r, store) = read_queue_lengths (join_queue_names q) q.store in
        (lengths_zero r, record q { store = store })

    -- `_safe_queue_lengths`
    unfoldable pub safe_queue_lengths :
        RedisTaskQueue K S Store → Result (List (String × ℕ)) × RedisTaskQueue K S Store
    unfolding read_queue_lengths lengths_or_none
    safe_queue_lengths q =
        let (r, store) = read_queue_lengths q.known_queues q.store in
        (lengths_or_none q.known_queues r, record q { store = store })

pub record RuntimeStatus : Type 0 where
  pub worker_count : ℕ
  pub worker_enabled : Bool
  pub worker_queues : List String
  pub active_workers : ℕ
  pub active_jobs : ℕ
  pub queue_depth : ℕ
  pub queues : List (String × ℕ)

-- What `runtime_status` gives, by the lengths of the queues
unfoldable pub runtime_status :
    {K S Store : Type 0} → List (String × ℕ) → RedisTaskQueue K S Store → RuntimeStatus
runtime_status queues q = record {
  worker_count = q.worker_count;
  worker_enabled = q.runs_worker;
  worker_queues = dequeue_queue_names q;
  active_workers = q.workers;
  active_jobs = q.active_jobs;
  queue_depth = sum_by (λ v. v.1) queues;
  queues = queues;
}
