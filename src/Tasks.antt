-- ===== src/Tasks.antt =====
-- src/imghost/tasks.py: what the queues share. A handler is a function of the world that it works on,
-- and runs to its end before another starts. Attempt numbers are not negative.
pub mod Attempts
pub mod Drain
pub mod Agreement
pub mod Stopping
pub mod Sync
pub mod Async
pub mod WithRedis
use imghost.Prelude.{
  ℕ, suc, ◌+◌, ◌-◌, max, String, Bool, true, false, Option, none, some, List, [], ◌∷◌, ◌++◌, ◌&&◌,
  ltb, if◌then◌else◌,
}
use imghost.Prelude.Dict.{update}
use imghost.Http.{Exception, key_error, Result, ok, raise}

pub data TaskState : Type 0 where
  queued started skipped retry_scheduled succeeded failed_permanent failed_exhausted : TaskState

pub record TaskRunResult : Type 0 where
  pub state : TaskState
  pub reason : Option String
  pub retryable : Bool

-- What awaiting a handler comes to: an exception with its text, a `TaskRunResult`, or another value.
pub data Outcome : Type 0 where
  raised : String → Outcome
  run_result : TaskRunResult → Outcome
  other_value : Outcome

-- The arguments `attempt` and `max_attempts` are given where the task wants them.
pub record RegisteredTask (K S : Type 0) : Type 0 where
  pub handler : K → Option (ℕ × ℕ) → S → Outcome × S
  pub default_queue : String
  pub max_attempts : ℕ
  pub pass_retry_metadata : Bool

pub record Details (K : Type 0) : Type 0 where
  pub queue : String
  pub attempt : ℕ
  pub max_attempts : ℕ
  pub reason : Option String
  pub kwargs : K

-- What the telemetry is told.
pub data Entry (K : Type 0) : Type 0 where
  enqueued : (queue task_name : String) → Entry K
  task_state : (task_name : String) → TaskState → Details K → Entry K
  task_failure : (task_name : String) → Details K → Entry K

-- `kwargs`, with the two keys of the retry metadata apart.
pub record Kwargs (K : Type 0) : Type 0 where
  pub attempt_key : Option ℕ
  pub max_attempts_key : Option ℕ
  pub rest : K

pub record QueuedTask (K : Type 0) : Type 0 where
  pub task_name : String
  pub kwargs : K
  pub attempt : ℕ
  pub max_attempts : ℕ

abbrev pub is_terminal_failure : TaskState → Bool
is_terminal_failure failed_permanent = true
is_terminal_failure failed_exhausted = true
is_terminal_failure _ = false

-- `retry_scheduled` where no attempt is left
abbrev pub terminal_state : TaskState → TaskState
terminal_state retry_scheduled = failed_exhausted
terminal_state s = s

abbrev pub is_retry : TaskState → Bool
is_retry retry_scheduled = true
is_retry _ = false

-- result.state == TASK_STATE_RETRY_SCHEDULED and result.retryable and attempt < max_attempts
abbrev pub runs_again : TaskRunResult → (attempt max_attempts : ℕ) → Bool
runs_again result attempt max_attempts =
    is_retry result.state && result.retryable && ltb attempt max_attempts

abbrev pub get {ℓ} : {A : Type ℓ} → Option A → A → A
get none default = default
get (some a) default = a

module _ {K S : Type 0} where
  unfoldable pub register :
      (String → Option (RegisteredTask K S))
      → String
      → RegisteredTask K S
      → String
      → Option (RegisteredTask K S)
  register tasks task_name task =
      update tasks task_name (some (record task { max_attempts = max 1 task.max_attempts }))

  abbrev pub run_handler : RegisteredTask K S → K → ℕ → ℕ → S → Outcome × S
  run_handler task kwargs attempt max_attempts =
      task.handler kwargs (if task.pass_retry_metadata then some (attempt, max_attempts) else none)

module _ {K : Type 0} where
  abbrev pub details : String → ℕ → ℕ → Option String → K → Details K
  details queue attempt max_attempts reason kwargs = record {
    queue = queue;
    attempt = attempt;
    max_attempts = max_attempts;
    reason = reason;
    kwargs = kwargs;
  }

  -- The records of a state that may be the last.
  abbrev pub closing : String → TaskState → Details K → List (Entry K)
  closing task_name state d =
      if is_terminal_failure state
      then task_state task_name state d ∷ task_failure task_name d ∷ []
      else task_state task_name state d ∷ []
