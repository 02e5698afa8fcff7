-- ===== src/Tasks/Sync.antt =====
-- tasks.py, `SyncTaskQueue`: a task runs when it is enqueued, with its retries.
use imghost.Prelude.{
  ℕ, zero, suc, ◌-◌, String, Option, none, some, List, [], ◌∷◌, ◌++◌, if◌then◌else◌,
}
use imghost.Http.{key_error, Result, ok, raise}
use imghost.Tasks.{
  Outcome, RegisteredTask, Entry, Kwargs, queued, started, retry_scheduled, succeeded,
  failed_permanent, raised, run_result, other_value, enqueued, task_state, terminal_state,
  runs_again, get, run_handler, details, closing,
}

-- The world that the handlers work on, and what the telemetry was told, oldest first.
pub record Run (K S : Type 0) : Type 0 where
  pub world : S
  pub log : List (Entry K)

abbrev pub starting : {K : Type 0} → String → String → K → ℕ → ℕ → Entry K
starting task_name queue kwargs attempt max_attempts =
    task_state task_name started (details queue attempt max_attempts none kwargs)

-- Enough rounds for every attempt.
abbrev pub rounds : ℕ → ℕ → ℕ
rounds attempt max_attempts = suc (max_attempts - attempt)

module _ {K S : Type 0} where
  abbrev pub note : List (Entry K) → Run K S → Run K S
  note entries r = record r { log = r.log ++ entries }

  -- What follows the handler's run: the exception, the value, or the result, with `continue`.
  unfoldable pub settle :
      (continue : Run K S → Option (Run K S)) (task_name queue : String) (kwargs : K)
      (attempt max_attempts : ℕ)
      → Outcome
      → Run K S
      → Option (Run K S)
  settle continue task_name queue kwargs attempt max_attempts (raised text) r = some (
      note
        (closing task_name failed_permanent (details queue attempt max_attempts (some text) kwargs))
        r)
  settle continue task_name queue kwargs attempt max_attempts other_value r = some (
      note (task_state task_name succeeded (details queue attempt max_attempts none kwargs) ∷ []) r)
  settle continue task_name queue kwargs attempt max_attempts (run_result result) r =
      let d = details queue attempt max_attempts result.reason kwargs in
      if runs_again result attempt max_attempts
      then continue (
          note
            (task_state task_name retry_scheduled d
              ∷ task_state task_name queued (details queue (suc attempt) max_attempts none kwargs)
              ∷ [])
            r)
      else some (note (closing task_name (terminal_state result.state) d) r)

  -- The `while True` of `enqueue`: at most `fuel` rounds; `none` where they do not suffice.
  unfoldable pub attempts :
      (fuel : ℕ) (task_name queue : String) (task : RegisteredTask K S) (kwargs : K)
      (attempt max_attempts : ℕ)
      → Run K S
      → Option (Run K S)
  unfolding settle
  attempts zero task_name queue task kwargs attempt max_attempts r = none
  attempts (suc fuel) task_name queue task kwargs attempt max_attempts r =
      let (outcome, world) = run_handler task kwargs attempt max_attempts r.world in
      settle (attempts fuel task_name queue task kwargs (suc attempt) max_attempts) task_name queue
        kwargs attempt max_attempts outcome
        (record {
          world = world;
          log = r.log ++ starting task_name queue kwargs attempt max_attempts ∷ [];
        })

  unfoldable pub enqueue :
      (tasks : String → Option (RegisteredTask K S)) (task_name : String) (queue : Option String)
      (kwargs : Kwargs K)
      → Run K S
      → Result (Option (Run K S))
  unfolding attempts
  enqueue tasks task_name queue kwargs r = elim (tasks task_name) [
    | none ↦ raise (key_error task_name)
    | some task ↦
        let resolved_queue = get queue task.default_queue in
        let attempt = get kwargs.attempt_key 1 in
        let max_attempts = get kwargs.max_attempts_key task.max_attempts in
        ok (
          attempts (rounds attempt max_attempts) task_name resolved_queue task kwargs.rest attempt
            max_attempts
            (note
              (enqueued resolved_queue task_name
                ∷ task_state task_name queued
                    (details resolved_queue attempt max_attempts none kwargs.rest)
                ∷ [])
              r))
  ]
