-- ===== src/Tasks/Agreement.antt =====
-- tasks.py: the two queues of one process, compared on one task.
use mathlib.Core.List.{append_assoc}
use imghost.Prelude.{
  ℕ, zero, suc, ◌+◌, ◌-◌, max, ◌≤◌, ◌<◌, ◌≡◌, refl, sym, ap, ap₂, ◌∙◌, String, Option, none, some,
  List, [], ◌∷◌, ◌++◌, arith, Bool-cases, inl, inr,
}
use imghost.Http.{ok}
use imghost.Tasks.{
  TaskState, Outcome, RegisteredTask, QueuedTask, Details, Entry, Kwargs, raised, run_result,
  other_value, runs_again, run_handler, task_state, started, enqueued, task_failure, details,
  closing, terminal_state, is_terminal_failure,
}
use imghost.Tasks.Sync
use imghost.Tasks.Sync.{Run, rounds, attempts, settle}
use imghost.Tasks.Async.{
  AsyncTaskQueue, enqueue, handle_task_result, record_outcome, execute_task, take_turn, run_worker,
}

-- The states that were recorded, each with the attempt.
unfoldable pub trace : {K : Type 0} → List (Entry K) → List (String × TaskState × ℕ)
trace [] = []
trace (enqueued queue task_name ∷ log) = trace log
trace (task_state task_name state d ∷ log) = (task_name, state, d.attempt) ∷ trace log
trace (task_failure task_name d ∷ log) = trace log

pub trace-append : {K : Type 0} (a b : List (Entry K)) → trace (a ++ b) ≡ trace a ++ trace b
unfolding trace
trace-append [] b = refl
trace-append (enqueued queue task_name ∷ a) b = trace-append a b
trace-append (task_state task_name state d ∷ a) b =
    ap (◌∷◌ (task_name, state, d.attempt)) (trace-append a b)
trace-append (task_failure task_name d ∷ a) b = trace-append a b

-- Logs of equal traces stay so under entries of equal traces.
trace-extend :
    {K : Type 0} (a a' b b' : List (Entry K))
    → trace a ≡ trace a'
    → trace b ≡ trace b'
    → trace (a ++ b) ≡ trace (a' ++ b')
trace-extend a a' b b' h k = trace-append a b ∙ ap₂ ◌++◌ h k ∙ sym (trace-append a' b')

trace-closing :
    {K : Type 0} (task_name : String) (state : TaskState) (d d' : Details K)
    → d.attempt ≡ d'.attempt
    → trace (closing task_name state d) ≡ trace (closing task_name state d')
unfolding trace
trace-closing task_name state d d' h = elim (Bool-cases (is_terminal_failure state)) [
  | inl p ↦ rw p (ap (λ a. (task_name, state, a) ∷ []) h)
  | inr p ↦ rw p (ap (λ a. (task_name, state, a) ∷ []) h)
]

module _ {K S : Type 0} (tasks : String → Option (RegisteredTask K S)) (worker_count workers : ℕ)
    (task_name queue : String) (task : RegisteredTask K S) (known : tasks task_name ≡ some task)
    (kwargs : K) where
  abbrev waiting : List (Option (QueuedTask K)) → S → List (Entry K) → AsyncTaskQueue K S
  waiting pending world log = record {
    tasks = tasks;
    worker_count = worker_count;
    pending = pending;
    workers = workers;
    world = world;
    log = log;
  }

  abbrev item : ℕ → ℕ → QueuedTask K
  item attempt max_attempts = record {
    task_name = task_name;
    kwargs = kwargs;
    attempt = attempt;
    max_attempts = max_attempts;
  }

  abbrev Same : AsyncTaskQueue K S → Run K S → Type 0
  Same q r = (q.pending ≡ []) × (q.world ≡ r.world) × (trace q.log ≡ trace r.log)

  idle :
      (turns : ℕ) (world : S) (log : List (Entry K))
      → run_worker turns (waiting [] world log) ≡ waiting [] world log
  unfolding run_worker
  idle zero world log = refl
  idle (suc turns) world log = refl

  settle-agrees :
      (turns attempt max_attempts : ℕ) (continue : Run K S → Option (Run K S)) (o : Outcome)
      (world : S) (log log' : List (Entry K))
      → trace log ≡ trace log'
      → ((log log' : List (Entry K))
          → attempt < max_attempts
          → trace log ≡ trace log'
          → (r : Run K S) × (continue (record { world = world; log = log' }) ≡ some r)
            × Same
                (run_worker turns (waiting (some (item (suc attempt) max_attempts) ∷ []) world log))
                r)
      → (r : Run K S) × (settle continue task_name queue kwargs attempt max_attempts o
            (record { world = world; log = log' })
          ≡ some r)
        × Same
            (run_worker turns (
              record_outcome task.default_queue
                (item attempt max_attempts)
                o
                (waiting [] world log)))
            r
  unfolding settle record_outcome trace
  settle-agrees turns attempt max_attempts continue (raised text) world log log' same next =
      (_, refl, rw idle (refl, refl, trace-extend log log' _ _ same refl))
  settle-agrees turns attempt max_attempts continue other_value world log log' same next =
      (_, refl, rw idle (refl, refl, trace-extend log log' _ _ same refl))
  settle-agrees turns attempt max_attempts continue (run_result result) world log log' same next =
      elim (Bool-cases (runs_again result attempt max_attempts)) [
        | inl p ↦
            rw (p, handle_task_result, known, enqueue)
              (let first : max 1 (suc attempt) ≡ suc attempt = omega arith in
                let last : max 1 max_attempts ≡ max_attempts = ground arith in
                rw first (
                  rw last (
                    next _ _ (ground arith)
                      (ap trace (append_assoc log _ _) ∙ trace-extend log log' _ _ same refl))))
        | inr p ↦
            rw (p, handle_task_result)
              (
                _,
                refl,
                rw idle (
                  refl,
                  refl,
                  trace-extend log log' _ _ same
                      (trace-closing task_name (terminal_state result.state) _ _ refl),
                ),
              )
      ]

  abbrev begun : String → ℕ → ℕ → List (Entry K)
  begun name attempt max_attempts =
      task_state task_name started (details name attempt max_attempts none kwargs) ∷ []

  turn :
      (attempt max_attempts : ℕ) (world : S) (log : List (Entry K))
      → take_turn (item attempt max_attempts) (waiting [] world log)
        ≡ record_outcome task.default_queue
            (item attempt max_attempts)
            (run_handler task kwargs attempt max_attempts world).0
            (waiting []
              (run_handler task kwargs attempt max_attempts world).1
              (log ++ begun task.default_queue attempt max_attempts))
  unfolding take_turn execute_task
  turn attempt max_attempts world log = rw (known, take_turn) refl

  run_worker-turn :
      (turns attempt max_attempts : ℕ) (world : S) (log : List (Entry K))
      → run_worker (suc turns) (waiting (some (item attempt max_attempts) ∷ []) world log)
        ≡ run_worker turns (take_turn (item attempt max_attempts) (waiting [] world log))
  unfolding run_worker
  run_worker-turn turns attempt max_attempts world log = refl

  attempts-agree :
      (f attempt max_attempts : ℕ) (world : S) (log log' : List (Entry K))
      → max_attempts ≤ attempt + f
      → trace log ≡ trace log'
      → (r : Run K S) × (attempts
            (suc f)
            task_name
            queue
            task
            kwargs
            attempt
            max_attempts
            (record { world = world; log = log' })
          ≡ some r)
        × Same (run_worker (suc f) (waiting (some (item attempt max_attempts) ∷ []) world log)) r
  unfolding attempts trace
  attempts-agree zero attempt max_attempts world log log' enough same = rw run_worker-turn (
      rw turn (
        settle-agrees zero attempt max_attempts
          (attempts zero task_name queue task kwargs (suc attempt) max_attempts) _ _ _
          (log' ++ begun queue attempt max_attempts)
          (trace-extend log log' (begun task.default_queue attempt max_attempts)
            (begun queue attempt max_attempts) same refl)
          (λ log log' lt same. absurd (omega arith))))
  attempts-agree (suc f) attempt max_attempts world log log' enough same = rw run_worker-turn (
      rw turn (
        settle-agrees (suc f) attempt max_attempts
          (attempts (suc f) task_name queue task kwargs (suc attempt) max_attempts) _ _ _
          (log' ++ begun queue attempt max_attempts)
          (trace-extend log log' (begun task.default_queue attempt max_attempts)
            (begun queue attempt max_attempts) same refl)
          (λ log log' lt same.
            attempts-agree f (suc attempt) max_attempts _ log log' (omega arith) same)))

  agree_in :
      (turns f attempt max_attempts : ℕ) (world : S) (log : List (Entry K))
      → turns ≡ suc f
      → max_attempts ≤ attempt + f
      → (r : Run K S) × (attempts
            (suc f)
            task_name
            queue
            task
            kwargs
            attempt
            max_attempts
            (record { world = world; log = log })
          ≡ some r)
        × Same (run_worker turns (waiting (some (item attempt max_attempts) ∷ []) world log)) r
  agree_in turns f attempt max_attempts world log e enough =
      rw e (attempts-agree f attempt max_attempts world log log enough refl)

  -- A task that is enqueued in the ordinary way, on an empty queue with one worker or on a
  -- synchronous one, comes to the same: the handlers leave the same world, and the same states are
  -- recorded for the same attempts, in the same order. The names of the queues are not compared:
  -- the worker records the task's default queue, whichever was asked for.
  pub queues-agree :
      (world : S) (log : List (Entry K))
      → 0 < task.max_attempts
      → let kwargs' : Kwargs K = record {
        attempt_key = none;
        max_attempts_key = none;
        rest = kwargs;
      } in
        let q = (enqueue task_name (some queue) kwargs' (waiting [] world log)).1 in
        let q' = run_worker task.max_attempts q in
        (r : Run K S) × (Sync.enqueue tasks task_name
            (some queue)
            kwargs'
            (record { world = world; log = log })
          ≡ ok (some r))
        × (q'.pending ≡ [])
        × (q'.world ≡ r.world)
        × (trace q'.log ≡ trace r.log)
  unfolding enqueue Sync.enqueue
  queues-agree world log pos =
      let first : max 1 1 ≡ 1 = omega arith in
      let last : max 1 task.max_attempts ≡ task.max_attempts = omega arith in
      let enough : task.max_attempts ≡ suc (task.max_attempts - 1) = omega arith in
      rw (known, enqueue, Sync.enqueue)
        (rw last (
          let (r, e, same) =
            agree_in task.max_attempts (task.max_attempts - 1) 1 task.max_attempts world _ enough
              (omega arith) in
          (r, ap ok e, same.0, same.1, same.2)))
