-- ===== src/Scheduler.antt =====
-- src/imghost/scheduler.py: the tick that enqueues the clean-up, under a lease in Redis where Redis is
-- on. What Redis and the queue answer are arguments; times are whole seconds.
pub mod Intervals
use imghost.Prelude.{ℕ, ◌+◌, String, Bool, true, false, Option, none, some, ltb, max, if◌then◌else◌}

pub record Settings : Type 0 where
  pub poll_seconds : ℕ
  pub cleanup_interval_seconds : ℕ
  pub lease_seconds : ℕ

-- What `SET key token EX seconds NX` comes to, or that Redis is not in use.
pub data LeaseReply : Type 0 where
  no_redis : LeaseReply
  unavailable : String → LeaseReply
  answered : (acquired : Bool) → LeaseReply

-- The answers during one tick: to the lease, to `enqueue` (the text of an exception), and to the
-- release of the lease.
pub record Answers : Type 0 where
  pub lease : LeaseReply
  pub enqueue_fails : Option String
  pub release_fails : Option String

pub record SchedulerService : Type 0 where
  pub next_cleanup_at : Option ℕ
  pub last_tick_at : Option ℕ
  pub last_enqueue_at : Option ℕ
  pub last_enqueue_error : Option String
  pub last_lease_acquired_at : Option ℕ
  pub last_lease_error : Option String

unfoldable pub effective_lease_seconds : Settings → ℕ
effective_lease_seconds settings = max settings.lease_seconds settings.cleanup_interval_seconds

-- `_acquire_cleanup_lease`; `time` is what `time()` gives.
unfoldable pub acquire_cleanup_lease :
    LeaseReply → (time : ℕ) → SchedulerService → Bool × SchedulerService
acquire_cleanup_lease no_redis time s = (true, record s { last_lease_error = none })
acquire_cleanup_lease (unavailable text) time s = (false, record s { last_lease_error = some text })
acquire_cleanup_lease (answered false) time s = (false, record s { last_lease_error = none })
acquire_cleanup_lease (answered true) time s =
    (true, record s { last_lease_acquired_at = some time; last_lease_error = none })

-- `_release_cleanup_lease`
unfoldable pub release_cleanup_lease :
    LeaseReply → (release_fails : Option String) → SchedulerService → SchedulerService
release_cleanup_lease no_redis release_fails s = s
release_cleanup_lease lease none s = s
release_cleanup_lease lease (some text) s = record s { last_lease_error = some text }

unfoldable pub is_due : (now : ℕ) → Option ℕ → Bool
is_due now none = true
is_due now (some next) = if ltb now next then false else true

-- The tick from the lease on.
unfoldable pub cleanup_tick :
    Settings → Answers → (now time : ℕ) → SchedulerService → Bool × SchedulerService
unfolding acquire_cleanup_lease release_cleanup_lease
cleanup_tick settings answers now time s =
    let (lease_acquired, s₁) = acquire_cleanup_lease answers.lease time s in
    let retry_at : Option ℕ = some (now + settings.poll_seconds) in
    if lease_acquired
    then (elim answers.enqueue_fails [
      | some text ↦
          let s₂ =
            release_cleanup_lease answers.lease answers.release_fails
              (record s₁ { last_enqueue_error = some text }) in
          (false, record s₂ { next_cleanup_at = retry_at })
      | none ↦ (
        true,
        record s₁ {
          last_enqueue_at = some time;
          last_enqueue_error = none;
          next_cleanup_at = some (now + settings.cleanup_interval_seconds);
        },
      )
    ])
    else (false, record s₁ { next_cleanup_at = retry_at })

unfoldable pub tick :
    Settings → Answers → (now time : ℕ) → SchedulerService → Bool × SchedulerService
unfolding is_due cleanup_tick
tick settings answers now time s =
    let ticked : SchedulerService = record s { last_tick_at = some time } in
    if is_due now s.next_cleanup_at
    then cleanup_tick settings answers now time ticked
    else (false, ticked)
