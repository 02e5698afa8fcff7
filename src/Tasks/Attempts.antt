-- ===== src/Tasks/Attempts.antt =====
-- tasks.py: how often a task runs when it is enqueued.
use imghost.Prelude.{
  ℕ, zero, suc, ◌+◌, ◌-◌, ◌≤◌, ◌<◌, ◌≡◌, refl, ap, String, Option, none, some, List, arith,
  Bool-cases, inl, inr,
}
use imghost.Http.{ok}
use imghost.Tasks.{Outcome, RegisteredTask, Entry, raised, run_result, other_value, runs_again, get}
use imghost.Tasks.Sync.{Run, settle, attempts, enqueue}

module _ {K S : Type 0} where
  -- The task, with its calls counted beside the world.
  unfoldable pub counted : RegisteredTask K S → RegisteredTask K (ℕ × S)
  counted task = record {
    handler = λ kwargs metadata w.
        let (outcome, world) = task.handler kwargs metadata w.1 in (outcome, (suc w.0, world));
    default_queue = task.default_queue;
    max_attempts = task.max_attempts;
    pass_retry_metadata = task.pass_retry_metadata;
  }

module _ {K S : Type 0} (task_name queue : String) (task : RegisteredTask K S) (kwargs : K) where
  -- At most `n` calls more.
  abbrev NoMoreThan : ℕ → Run K (ℕ × S) → Run K (ℕ × S) → Type 0
  NoMoreThan n r r' = (r.world.0 ≤ r'.world.0) × (r'.world.0 ≤ r.world.0 + n)

  -- Settling calls no handler but those of `continue`.
  settle-ends :
      (continue : Run K (ℕ × S) → Option (Run K (ℕ × S))) (n attempt max_attempts : ℕ) (o : Outcome)
      (r : Run K (ℕ × S))
      → ((r : Run K (ℕ × S))
          → attempt < max_attempts
          → (r' : Run K (ℕ × S)) × (continue r ≡ some r') × NoMoreThan n r r')
      → (r' : Run K (ℕ × S)) × (settle continue task_name queue kwargs attempt max_attempts o r
          ≡ some r')
        × NoMoreThan n r r'
  unfolding settle
  settle-ends continue n attempt max_attempts (raised text) r k =
      (_, refl, (omega arith, omega arith))
  settle-ends continue n attempt max_attempts other_value r k =
      (_, refl, (omega arith, omega arith))
  settle-ends continue n attempt max_attempts (run_result result) r k =
      elim (Bool-cases (runs_again result attempt max_attempts)) [
        | inl p ↦ rw p (k _ (ground arith))
        | inr p ↦ rw p (_, refl, (omega arith, omega arith))
      ]

  attempts-ends :
      (f attempt max_attempts : ℕ) (r : Run K (ℕ × S))
      → max_attempts ≤ attempt + f
      → (r' : Run K (ℕ × S)) × (attempts
            (suc f)
            task_name
            queue
            (counted task)
            kwargs
            attempt
            max_attempts
            r
          ≡ some r')
        × (suc r.world.0 ≤ r'.world.0)
        × (r'.world.0 ≤ r.world.0 + suc f)
  unfolding attempts counted
  attempts-ends zero attempt max_attempts r h =
      let (r', e, b) =
        settle-ends (attempts zero task_name queue (counted task) kwargs (suc attempt) max_attempts)
          zero attempt max_attempts _ _ (λ r lt. absurd (omega arith)) in
      (r', e, b.0, omega arith)
  attempts-ends (suc f) attempt max_attempts r h =
      let next = attempts-ends f (suc attempt) max_attempts in
      let (r', e, b) =
        settle-ends
          (attempts (suc f) task_name queue (counted task) kwargs (suc attempt) max_attempts)
          (suc f) attempt max_attempts _ _
          (λ r lt. let (r', e, low, high) = next r (omega arith) in (r', e, (omega arith, high))) in
      (r', e, b.0, omega arith)

-- A task that is enqueued in the ordinary way runs at once, at least one time and no more often than
-- `max_attempts` says (a registered task's is 1 or more), and `enqueue` returns.
pub enqueue-runs_within :
    {K S : Type 0} (tasks : String → Option (RegisteredTask K (ℕ × S))) (task_name : String)
    (queue : Option String) (task : RegisteredTask K S) (kwargs : K) (world : S)
    (log : List (Entry K))
    → tasks task_name ≡ some (counted task)
    → 0 < task.max_attempts
    → (r' : Run K (ℕ × S)) × (enqueue tasks task_name queue
          (record { attempt_key = none; max_attempts_key = none; rest = kwargs })
          (record { world = (0, world); log = log })
        ≡ ok (some r'))
      × (0 < r'.world.0)
      × (r'.world.0 ≤ task.max_attempts)
unfolding enqueue counted
enqueue-runs_within tasks task_name queue task kwargs world log known pos =
    rw (known, enqueue)
      (let (r', e, low, high) =
          attempts-ends task_name (get queue task.default_queue) task kwargs (task.max_attempts - 1)
            1 task.max_attempts _ (omega arith) in
        (r', ap ok e, low, omega arith))
