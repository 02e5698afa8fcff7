-- ===== src/Tasks/WithRedis/Agreement.antt =====
-- tasks.py: a worker on a list of Redis, compared on one task with the synchronous queue.
use mathlib.Core.List.{append_assoc}
use imghost.Prelude.{
  ℕ, zero, suc, ◌+◌, ◌-◌, ◌≤◌, ◌<◌, ◌≡◌, refl, ap, ◌∙◌, String, Bool, Option, none, some, List, [],
  ◌∷◌, ◌++◌, arith, Bool-cases, inl, inr,
}
use imghost.Http.{Result, ok, raise}
use imghost.Tasks.{
  queued, Outcome, RegisteredTask, QueuedTask, Entry, Kwargs, failed_permanent, succeeded, raised,
  run_result, other_value, runs_again, task_state, enqueued, details, closing, terminal_state,
}
use imghost.Tasks.Sync
use imghost.Tasks.Sync.{Run, attempts, settle, starting}
use imghost.Tasks.Async.{AsyncTaskQueue}
use imghost.Tasks.Agreement.{trace}
use imghost.Tasks.WithRedis.{
  ListClient, Payload, Json, WorkerEntry, RedisTaskQueue, queue_key, queue_of_key,
}
use imghost.Tasks.WithRedis.Worker.{
  message, failure_of, pushed, enqueue, handle_result, finish_turn, run_job, popped, read_job,
  take_message, take_turn, run_worker,
}
use imghost.Tasks.WithRedis.Trace.{failed_attempt, worker_trace, worker_trace-extend, closing-trace}

module _ {K S Store Raw : Type 0} (client : ListClient Store Raw) (json : Json K Raw)
    (prefix queue : String) (json_lem : (p : Payload K) → json.loads (json.dumps p) ≡ some p)
    (name_lem : queue_of_key (queue_key prefix queue) ≡ queue) (messages : Store → List Raw)
    (rpush_lem : (s : Store) (m : Raw)
      → (s' : Store) × (client.rpush (queue_key prefix queue) m s ≡ (ok tt, s'))
        × (messages s' ≡ messages s ++ m ∷ []))
    (blpop_lem : (s : Store) (m : Raw) (rest : List Raw)
      → messages s ≡ m ∷ rest
      → (s' : Store) × (client.blpop (queue_key prefix queue ∷ []) s
          ≡ (ok (some (queue_key prefix queue, m)), s'))
        × (messages s' ≡ rest))
    (blpop_empty_lem : (s : Store)
      → messages s ≡ []
      → (s' : Store) × (client.blpop (queue_key prefix queue ∷ []) s ≡ (ok none, s'))
        × (messages s' ≡ []))
    (tasks : String → Option (RegisteredTask K S)) (worker_count workers worker_index : ℕ)
    (fallback : AsyncTaskQueue K S) (task_name : String) (task : RegisteredTask K S)
    (known : tasks task_name ≡ some task) (kwargs : K) where
  -- A queue whose one worker takes from the one list.
  abbrev at : ℕ → List String → Store → S → List (WorkerEntry K) → RedisTaskQueue K S Store
  at jobs names store world log = record {
    tasks = tasks;
    worker_count = worker_count;
    runs_worker = Bool.true;
    worker_queues = some (queue ∷ []);
    known_queues = names;
    fallback = record fallback { world = world };
    workers = workers;
    active_jobs = jobs;
    store = store;
    log = log;
  }

  abbrev item : ℕ → ℕ → QueuedTask K
  item attempt max_attempts = record {
    task_name = task_name;
    kwargs = kwargs;
    attempt = attempt;
    max_attempts = max_attempts;
  }

  abbrev payload : ℕ → ℕ → Payload K
  payload attempt max_attempts = record {
    task_name = some task_name;
    kwargs = some kwargs;
    attempt = some attempt;
    max_attempts = some max_attempts;
  }

  abbrev Same : RedisTaskQueue K S Store → Run K S → Type 0
  Same q r =
      (messages q.store ≡ []) × (q.fallback.world ≡ r.world) × (worker_trace q.log ≡ trace r.log)

  next_turn :
      (turns : ℕ) (q q' : RedisTaskQueue K S Store)
      → take_turn client json prefix worker_index q ≡ (ok tt, q')
      → run_worker client json prefix (suc turns) worker_index q
        ≡ run_worker client json prefix turns worker_index q'
  unfolding run_worker
  next_turn turns q q' e =
      ap
        (λ t. elim t.0 as (λ x. RedisTaskQueue K S Store) [
          | ok a ↦ run_worker client json prefix turns worker_index t.1
          | raise e ↦ t.1
        ])
        e

  answers :
      (names : List String) (s : Store) (world : S) (log : List (WorkerEntry K))
      {answer : Result (Option (String × Raw)) × Store}
      → client.blpop (queue_key prefix queue ∷ []) s ≡ answer
      → take_turn client json prefix worker_index (at 0 names s world log)
        ≡ popped client json prefix worker_index answer (at 0 names s world log)
  unfolding take_turn
  answers names s world log e =
      ap (λ a. popped client json prefix worker_index a (at 0 names s world log)) e

  idle :
      (turns : ℕ) (names : List String) (s : Store) (world : S) (log : List (WorkerEntry K))
      (r : Run K S)
      → Same (at 0 names s world log) r
      → Same (run_worker client json prefix turns worker_index (at 0 names s world log)) r
  unfolding run_worker popped
  idle zero names s world log r same = same
  idle (suc turns) names s world log r same =
      let (s', e, empty) = blpop_empty_lem s same.0 in
      rw
        (next_turn turns (at 0 names s world log) (at 0 names s' world log)
          (answers names s world log e))
        (idle turns names s' world log r (empty, same.1, same.2))

  takes :
      (attempt max_attempts : ℕ) (names : List String) (s : Store) (world : S)
      (log : List (WorkerEntry K))
      → take_message client json prefix worker_index
          (queue_key prefix queue)
          (message json (item attempt max_attempts))
          (at 0 names s world log)
        ≡ finish_turn worker_index (some (payload attempt max_attempts)) (
            run_job client json prefix task queue
              (item attempt max_attempts)
              (at 0 names s world log))
  unfolding take_message read_job
  takes attempt max_attempts names s world log =
      rw (json_lem (payload attempt max_attempts), take_message) (rw known (rw name_lem refl))

  turn :
      (turns attempt max_attempts : ℕ) (names : List String) (s : Store) (world : S)
      (log : List (WorkerEntry K))
      → messages s ≡ message json (item attempt max_attempts) ∷ []
      → (s' : Store) × (messages s' ≡ [])
        × (run_worker client json prefix (suc turns) worker_index (at 0 names s world log)
            ≡ run_worker client json prefix turns worker_index (
                finish_turn worker_index (some (payload attempt max_attempts)) (
                  run_job client json prefix task queue
                    (item attempt max_attempts)
                    (at 0 names s' world log))))
  unfolding popped
  turn turns attempt max_attempts names s world log waiting =
      let (s', e, empty) = blpop_lem s _ [] waiting in
      (
        s',
        empty,
        next_turn turns _ _ (
            answers names s world log e
            ∙ ap (λ q. (ok tt, q)) (takes attempt max_attempts names s' world log)),
      )

  abbrev run : S → List (Entry K) → Run K S
  run world log = record { world = world; log = log }

  ends :
      (turns : ℕ) (names : List String) (s : Store) (world : S) (log b : List (WorkerEntry K))
      (log' b' : List (Entry K))
      → messages s ≡ []
      → worker_trace log ≡ trace log'
      → worker_trace b ≡ trace b'
      → Same
          (run_worker client json prefix turns worker_index (at 0 names s world (log ++ b)))
          (run world (log' ++ b'))
  ends turns names s world log b log' b' empty same same' =
      idle turns names s world (log ++ b) (run world (log' ++ b'))
        (empty, refl, worker_trace-extend log log' b b' same same')

  settles :
      (turns attempt max_attempts : ℕ) (continue : Run K S → Option (Run K S)) (names : List String)
      (o : Outcome) (s : Store) (world : S) (log : List (WorkerEntry K)) (log' : List (Entry K))
      → messages s ≡ []
      → worker_trace log ≡ trace log'
      → ((names : List String) (s : Store) (log : List (WorkerEntry K)) (log' : List (Entry K))
          → messages s ≡ message json (item (suc attempt) max_attempts) ∷ []
          → attempt < max_attempts
          → worker_trace log ≡ trace log'
          → (r : Run K S) × (continue (record { world = world; log = log' }) ≡ some r)
            × Same (run_worker client json prefix turns worker_index (at 0 names s world log)) r)
      → (r : Run K S) × (settle continue task_name queue kwargs attempt max_attempts o
            (record { world = world; log = log' })
          ≡ some r)
        × Same
            (run_worker client json prefix turns worker_index (
              finish_turn worker_index (some (payload attempt max_attempts)) (
                handle_result client json prefix queue
                  (item attempt max_attempts)
                  o
                  (at 1 names s world log))))
            r
  unfolding settle handle_result finish_turn failure_of enqueue pushed worker_trace trace
      failed_attempt
  settles turns attempt max_attempts continue names (raised text) s world log log' empty same next =
      let d = details queue attempt max_attempts (some text) kwargs in
      (
        _,
        refl,
        ends turns names s world log _ log' (closing task_name failed_permanent d) empty same refl,
      )
  settles turns attempt max_attempts continue names other_value s world log log' empty same next =
      let d = details queue attempt max_attempts none kwargs in
      (
        _,
        refl,
        ends turns names s world log _ log' (task_state task_name succeeded d ∷ []) empty same refl,
      )
  settles turns attempt max_attempts continue names (run_result result) s world log log' empty same
        next =
      let again = message json (item (suc attempt) max_attempts) in
      let d = details queue attempt max_attempts result.reason kwargs in
      elim (Bool-cases (runs_again result attempt max_attempts)) [
        | inl p ↦
            let (s', e, one) = rpush_lem s again in
            rw (p, handle_result)
              (rw known (
                rw e (
                  next _ s' _ _ (one ∙ ap (λ ms. ms ++ again ∷ []) empty) (ground arith) (
                    ap worker_trace (append_assoc log _ _)
                    ∙ worker_trace-extend log log' _ _ same refl))))
        | inr p ↦
            rw (p, handle_result)
              (
                _,
                refl,
                ends turns names s world log _ log'
                    (closing task_name (terminal_state result.state) d) empty same
                    (closing-trace task_name (terminal_state result.state) _ _ refl),
              )
      ]

  agree :
      (f attempt max_attempts : ℕ) (names : List String) (s : Store) (world : S)
      (log : List (WorkerEntry K)) (log' : List (Entry K))
      → messages s ≡ message json (item attempt max_attempts) ∷ []
      → max_attempts ≤ attempt + f
      → worker_trace log ≡ trace log'
      → (r : Run K S) × (attempts
            (suc f)
            task_name
            queue
            task
            kwargs
            attempt
            max_attempts
            (run world log')
          ≡ some r)
        × Same (run_worker client json prefix (suc f) worker_index (at 0 names s world log)) r
  unfolding attempts run_job worker_trace trace
  agree zero attempt max_attempts names s world log log' waiting enough same =
      let (s', empty, e) = turn zero attempt max_attempts names s world log waiting in
      rw e (
        settles zero attempt max_attempts
          (attempts zero task_name queue task kwargs (suc attempt) max_attempts) names _ s' _ _
          (log' ++ starting task_name queue kwargs attempt max_attempts ∷ []) empty
          (worker_trace-extend log log' _ _ same refl)
          (λ names s log log' waiting lt same. absurd (omega arith)))
  agree (suc f) attempt max_attempts names s world log log' waiting enough same =
      let (s', empty, e) = turn (suc f) attempt max_attempts names s world log waiting in
      rw e (
        settles (suc f) attempt max_attempts
          (attempts (suc f) task_name queue task kwargs (suc attempt) max_attempts) names _ s' _ _
          (log' ++ starting task_name queue kwargs attempt max_attempts ∷ []) empty
          (worker_trace-extend log log' _ _ same refl)
          (λ names s log log' waiting lt same.
            agree f (suc attempt) max_attempts names s _ log log' waiting (omega arith) same))

  agree_in :
      (turns f attempt max_attempts : ℕ) (names : List String) (s : Store) (world : S)
      (log : List (WorkerEntry K)) (log' : List (Entry K))
      → turns ≡ suc f
      → messages s ≡ message json (item attempt max_attempts) ∷ []
      → max_attempts ≤ attempt + f
      → worker_trace log ≡ trace log'
      → (r : Run K S) × (attempts
            (suc f)
            task_name
            queue
            task
            kwargs
            attempt
            max_attempts
            (run world log')
          ≡ some r)
        × Same (run_worker client json prefix turns worker_index (at 0 names s world log)) r
  agree_in turns f attempt max_attempts names s world log log' e waiting enough same =
      rw e (agree f attempt max_attempts names s world log log' waiting enough same)

  -- Let Redis answer: `rpush` appends to the list of the queue, `blpop` takes its first message or
  -- says that there is none, a message is read back as it was written, and the name of the queue is
  -- what the worker makes of its key. Then a registered task whose `max_attempts` is 1 or more, that
  -- is enqueued in the ordinary way while the list is empty, comes in `max_attempts` turns of a
  -- worker on that list to what it comes to on a synchronous queue: the list is empty, the handlers
  -- leave the same world, and the same states are recorded for the same attempts in the same order,
  -- from logs that are empty.
  pub redis_queue-agrees :
      (names : List String) (s : Store) (world : S)
      → messages s ≡ []
      → 0 < task.max_attempts
      → let plain : Kwargs K = record {
        attempt_key = none;
        max_attempts_key = none;
        rest = kwargs;
      } in
        let q =
          (enqueue client json prefix task_name (some queue) plain (at 0 names s world [])).1 in
        let q' = run_worker client json prefix task.max_attempts worker_index q in
        (r : Run K S) × (Sync.enqueue tasks task_name (some queue) plain (run world [])
          ≡ ok (some r))
        × (messages q'.store ≡ [])
        × (q'.fallback.world ≡ r.world)
        × (worker_trace q'.log ≡ trace r.log)
  unfolding enqueue pushed Sync.enqueue worker_trace trace
  redis_queue-agrees names s world empty pos =
      let first = message json (item 1 task.max_attempts) in
      let (s', e, one) = rpush_lem s first in
      let enough : task.max_attempts ≡ suc (task.max_attempts - 1) = omega arith in
      rw (known, enqueue, Sync.enqueue)
        (rw e (
          let (r, e', same) =
            agree_in task.max_attempts (task.max_attempts - 1) 1 task.max_attempts _ s' world _
              (enqueued queue task_name
                ∷ task_state task_name queued (details queue 1 task.max_attempts none kwargs)
                ∷ [])
              enough (one ∙ ap (λ ms. ms ++ first ∷ []) empty) (omega arith) refl in
          (r, ap ok e', same.0, same.1, same.2)))
