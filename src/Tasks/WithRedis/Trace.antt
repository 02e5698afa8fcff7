-- ===== src/Tasks/WithRedis/Trace.antt =====
-- tasks.py: the states that a worker on Redis records, as the entries of the other queues have them.
use mathlib.Core.List.{append_assoc}
use imghost.Prelude.{
  ℕ, ◌≡◌, refl, sym, ap, ap₂, ◌∙◌, String, Option, none, some, List, [], ◌∷◌, ◌++◌, map, Bool-cases,
  inl, inr,
}
use imghost.Tasks.{TaskState, Details, Entry, failed_permanent, closing, is_terminal_failure}
use imghost.Tasks.Agreement.{trace, trace-append}
use imghost.Tasks.WithRedis.{WorkerEntry, recorded, worker_failed}

-- The attempt of a failed message, which counts as the first where it has no `kwargs`.
unfoldable pub failed_attempt : {K : Type 0} → Option (K × ℕ × ℕ) → ℕ
failed_attempt none = 1
failed_attempt (some (kwargs, attempt, max_attempts)) = attempt

-- The states that were recorded, as `trace` has them.
unfoldable pub worker_trace : {K : Type 0} → List (WorkerEntry K) → List (String × TaskState × ℕ)
unfolding trace failed_attempt
worker_trace [] = []
worker_trace (recorded e ∷ log) = trace (e ∷ []) ++ worker_trace log
worker_trace (worker_failed task_name worker_index kwargs ∷ log) =
    (task_name, failed_permanent, failed_attempt kwargs) ∷ worker_trace log

worker_trace-append :
    {K : Type 0} (a b : List (WorkerEntry K))
    → worker_trace (a ++ b) ≡ worker_trace a ++ worker_trace b
unfolding worker_trace
worker_trace-append [] b = refl
worker_trace-append (recorded e ∷ a) b =
    ap (◌++◌ (trace (e ∷ []))) (worker_trace-append a b)
    ∙ sym (append_assoc (trace (e ∷ [])) (worker_trace a) (worker_trace b))
worker_trace-append (worker_failed task_name worker_index kwargs ∷ a) b =
    ap (◌∷◌ (task_name, failed_permanent, failed_attempt kwargs)) (worker_trace-append a b)

worker_trace-recorded :
    {K : Type 0} (log : List (Entry K)) → worker_trace (map recorded log) ≡ trace log
unfolding worker_trace trace
worker_trace-recorded [] = refl
worker_trace-recorded (e ∷ log) =
    ap (◌++◌ (trace (e ∷ []))) (worker_trace-recorded log) ∙ sym (trace-append (e ∷ []) log)

-- Logs of equal traces stay so under entries of equal traces.
pub worker_trace-extend :
    {K : Type 0} (a : List (WorkerEntry K)) (a' : List (Entry K)) (b : List (WorkerEntry K))
    (b' : List (Entry K))
    → worker_trace a ≡ trace a'
    → worker_trace b ≡ trace b'
    → worker_trace (a ++ b) ≡ trace (a' ++ b')
worker_trace-extend a a' b b' h k =
    worker_trace-append a b ∙ ap₂ ◌++◌ h k ∙ sym (trace-append a' b')

pub closing-trace :
    {K : Type 0} (task_name : String) (state : TaskState) (d d' : Details K)
    → d.attempt ≡ d'.attempt
    → worker_trace (map recorded (closing task_name state d)) ≡ trace (closing task_name state d')
unfolding trace
closing-trace task_name state d d' h =
    worker_trace-recorded (closing task_name state d)
    ∙ (elim (Bool-cases (is_terminal_failure state)) [
      | inl p ↦ rw p (ap (λ a. (task_name, state, a) ∷ []) h)
      | inr p ↦ rw p (ap (λ a. (task_name, state, a) ∷ []) h)
    ])
