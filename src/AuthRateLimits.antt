-- ===== src/AuthRateLimits.antt =====
-- src/imghost/auth_rate_limits.py: the limiter of login, registration, API key and admin attempts that
-- keeps its state in memory. Times are whole seconds of a monotonic clock, and the limits are
-- those that the runtime configuration gives.
pub mod Lockout
pub mod Locks
pub mod WithRedis
use imghost.Prelude.{
  ℕ, ◌+◌, String, Bool, Option, none, some, List, [], ◌∷◌, ◌++◌, ◌&&◌, ltb, leb, length,
  if◌then◌else◌,
}
use Prim.Native.String.{◌++◌ as append}
use imghost.Prelude.Dict.{update}
use imghost.Http.{Exception, http, Result, ok, raise, Exec}

abbrev pub too_many_attempts : Exception
too_many_attempts = http 429 "Too many authentication attempts. Try again later."

abbrev pub minute_seconds : ℕ
minute_seconds = 60

-- The loop of `AuthWindowCounter.prune`; `events[0] <= now - window_seconds`, without a subtraction.
unfoldable pub prune : (now window_seconds : ℕ) → List ℕ → List ℕ
prune now window_seconds [] = []
prune now window_seconds (t ∷ events) =
    let rest = prune now window_seconds events in
    if leb (t + window_seconds) now then rest else t ∷ events

pub record AuthLimits : Type 0 where
  pub login_ip_rpm : ℕ
  pub login_account_failures : ℕ
  pub login_account_window_seconds : ℕ
  pub login_lock_seconds : ℕ
  pub registration_ip_rpm : ℕ
  pub api_key_ip_failures : ℕ
  pub api_key_ip_window_seconds : ℕ
  pub api_key_lock_seconds : ℕ
  pub admin_ip_failures : ℕ
  pub admin_ip_window_seconds : ℕ
  pub admin_lock_seconds : ℕ

-- The dicts of counters are read by `setdefault` and emptied by `pop`, so a key that is missing is an
-- empty counter.
pub record InMemoryAuthRateLimiter : Type 0 where
  pub login_ip_attempts : String → List ℕ
  pub registration_ip_attempts : String → List ℕ
  pub login_failures : String → List ℕ
  pub api_key_failures : String → List ℕ
  pub admin_denials : String → List ℕ
  pub locks : String → Option ℕ

abbrev pub new_limiter : InMemoryAuthRateLimiter
new_limiter = record {
  login_ip_attempts = λ _. [];
  registration_ip_attempts = λ _. [];
  login_failures = λ _. [];
  api_key_failures = λ _. [];
  admin_denials = λ _. [];
  locks = λ _. none;
}

abbrev pub login_lock : String → String
login_lock login_key = append "login:account:" login_key

abbrev pub api_key_lock : String → String
api_key_lock ip_key = append "api_key:ip:" ip_key

abbrev pub admin_lock : String → String
admin_lock ip_key = append "admin:ip:" ip_key

unfoldable pub check_lock : (key : String) (now : ℕ) → Exec InMemoryAuthRateLimiter (Unit {0})
check_lock key now s = elim (s.locks key) [
  | none ↦ (ok tt, s)
  | some expiry ↦
      if leb expiry now
      then (ok tt, record s { locks = update s.locks key none })
      else (raise too_many_attempts, s)
]

-- `_enforce_attempt_counter`, with the counter as it leaves it
unfoldable pub enforce_attempt_counter :
    (counter : List ℕ) (now window_seconds limit : ℕ) → Result (Unit {0}) × List ℕ
unfolding prune
enforce_attempt_counter counter now window_seconds limit =
    if leb limit 0
    then (ok tt, counter)
    else (let pruned = prune now window_seconds counter in
        if leb limit (length pruned) then (raise too_many_attempts, pruned) else (ok tt, pruned))

-- `counter.add`, and the count against the threshold: the counter, and whether to lock.
unfoldable pub count_failure : (counter : List ℕ) (now window_seconds threshold : ℕ) → Bool × List ℕ
unfolding prune
count_failure counter now window_seconds threshold =
    let added = counter ++ now ∷ [] in
    if ltb 0 threshold
    then (let pruned = prune now window_seconds added in (leb threshold (length pruned), pruned))
    else (Bool.false, added)

unfoldable pub enforce_login_attempt :
    AuthLimits → (now : ℕ) (ip_key login_key : String) → Exec InMemoryAuthRateLimiter (Unit {0})
unfolding check_lock enforce_attempt_counter
enforce_login_attempt limits now ip_key login_key s =
    let (unlocked, s₁) = check_lock (login_lock login_key) now s in
    let (admitted, counter) =
      enforce_attempt_counter (s₁.login_ip_attempts ip_key) now minute_seconds
        limits.login_ip_rpm in
    elim unlocked [
      | raise e ↦ (raise e, s₁)
      | ok _ ↦ elim admitted [
        | raise e ↦
            (raise e, record s₁ { login_ip_attempts = update s₁.login_ip_attempts ip_key counter })
        | ok _ ↦ (
          ok tt,
          record s₁ {
            login_ip_attempts = update s₁.login_ip_attempts ip_key (counter ++ now ∷ []);
          },
        )
      ]
    ]

-- `self._locks[key] = until`, where the count says so
abbrev pub lock_if : Bool → String → ℕ → (String → Option ℕ) → String → Option ℕ
lock_if reached key until locks = if reached then update locks key (some until) else locks

unfoldable pub record_login_failure :
    AuthLimits → (now : ℕ) (login_key : String) → InMemoryAuthRateLimiter → InMemoryAuthRateLimiter
unfolding count_failure
record_login_failure limits now login_key s =
    let (reached, counter) =
      count_failure (s.login_failures login_key) now limits.login_account_window_seconds
        limits.login_account_failures in
    record s {
      login_failures = update s.login_failures login_key counter;
      locks = lock_if reached (login_lock login_key) (now + limits.login_lock_seconds) s.locks;
    }

unfoldable pub record_login_success :
    (login_key : String) → InMemoryAuthRateLimiter → InMemoryAuthRateLimiter
record_login_success login_key s = record s {
  login_failures = update s.login_failures login_key [];
  locks = update s.locks (login_lock login_key) none;
}

unfoldable pub enforce_registration_attempt :
    AuthLimits → (now : ℕ) (ip_key : String) → Exec InMemoryAuthRateLimiter (Unit {0})
unfolding enforce_attempt_counter
enforce_registration_attempt limits now ip_key s =
    let (admitted, counter) =
      enforce_attempt_counter (s.registration_ip_attempts ip_key) now minute_seconds
        limits.registration_ip_rpm in
    elim admitted [
      | raise e ↦ (
        raise e,
        record s { registration_ip_attempts = update s.registration_ip_attempts ip_key counter },
      )
      | ok _ ↦ (
        ok tt,
        record s {
          registration_ip_attempts = update s.registration_ip_attempts ip_key (counter ++ now ∷ []);
        },
      )
    ]

unfoldable pub enforce_api_key_attempt :
    (now : ℕ) (ip_key : String) → Exec InMemoryAuthRateLimiter (Unit {0})
unfolding check_lock
enforce_api_key_attempt now ip_key = check_lock (api_key_lock ip_key) now

unfoldable pub record_api_key_failure :
    AuthLimits → (now : ℕ) (ip_key : String) → InMemoryAuthRateLimiter → InMemoryAuthRateLimiter
unfolding count_failure
record_api_key_failure limits now ip_key s =
    let (reached, counter) =
      count_failure (s.api_key_failures ip_key) now limits.api_key_ip_window_seconds
        limits.api_key_ip_failures in
    record s {
      api_key_failures = update s.api_key_failures ip_key counter;
      locks = lock_if reached (api_key_lock ip_key) (now + limits.api_key_lock_seconds) s.locks;
    }

unfoldable pub record_api_key_success :
    (ip_key : String) → InMemoryAuthRateLimiter → InMemoryAuthRateLimiter
record_api_key_success ip_key s = record s {
  api_key_failures = update s.api_key_failures ip_key [];
  locks = update s.locks (api_key_lock ip_key) none;
}

unfoldable pub enforce_admin_attempt :
    (now : ℕ) (ip_key : String) → Exec InMemoryAuthRateLimiter (Unit {0})
unfolding check_lock
enforce_admin_attempt now ip_key = check_lock (admin_lock ip_key) now

unfoldable pub record_admin_denial :
    AuthLimits → (now : ℕ) (ip_key : String) → InMemoryAuthRateLimiter → InMemoryAuthRateLimiter
unfolding count_failure
record_admin_denial limits now ip_key s =
    let (reached, counter) =
      count_failure (s.admin_denials ip_key) now limits.admin_ip_window_seconds
        limits.admin_ip_failures in
    record s {
      admin_denials = update s.admin_denials ip_key counter;
      locks = lock_if reached (admin_lock ip_key) (now + limits.admin_lock_seconds) s.locks;
    }
