-- ===== src/AuthRateLimits/WithRedis.antt =====
-- src/imghost/auth_rate_limits.py, `RedisAuthRateLimiter`. `now` is what `monotonic()` gives for the
-- fallback, `bucket` is `int(time() // 60)`.
use Prim.Native.String.{◌++◌ as append}
use imghost.Prelude.{ℕ, String, Option, none, some, ◌&&◌, ◌==◌, leb, ltb, str_eq, if◌then◌else◌}
use imghost.Text.{truthy}
use imghost.Http.{Result, ok, Exec, ◌>>=◌, ◌>>◌, pure, raise_if}
use imghost.Redis.{RedisClient, Numerals, Backed, prefixed, with_redis_fallback}
use imghost.AuthRateLimits
use imghost.AuthRateLimits.{AuthLimits, InMemoryAuthRateLimiter, too_many_attempts}

abbrev pub or_zero : Numerals → Option String → ℕ
or_zero n none = 0
or_zero n (some s) = if str_eq s "" then 0 else n.int s

module _ {Store : Type 0} (client : RedisClient Store) (numerals : Numerals) (prefix : String)
    (limits : AuthLimits) (now bucket : ℕ) where
  abbrev pub key_of : (kind key : String) → String
  key_of kind key = prefixed prefix (append kind key)

  unfoldable pub raise_if_locked : (key : String) → Exec Store (Unit {0})
  raise_if_locked key = do held ← client.get key; raise_if (truthy held) too_many_attempts

  unfoldable pub enforce_rpm_counter : (key_prefix : String) (limit : ℕ) → Exec Store (Unit {0})
  unfolding prefixed
  enforce_rpm_counter key_prefix limit = if limit == 0 then pure tt else (do
    let key = prefixed prefix (append key_prefix (append ":" (numerals.str bucket)))
    stored ← client.get key
    raise_if (leb limit (or_zero numerals stored)) too_many_attempts
    updated ← client.incr key
    if updated == 1 then client.expire key 120 else pure tt)

  unfoldable pub record_failure_counter :
      (counter_key lock_key : String) (threshold window_seconds lock_seconds : ℕ)
      → Exec Store (Unit {0})
  record_failure_counter counter_key lock_key threshold window_seconds lock_seconds = do
    updated ← client.incr counter_key
    (if updated == 1 then client.expire counter_key window_seconds else pure tt)
    if ltb 0 threshold && leb threshold updated
        then client.set lock_key "1" lock_seconds
        else pure tt

  abbrev forget : (counter_key lock_key : String) → Exec Store (Unit {0})
  forget counter_key lock_key = client.delete counter_key >> client.delete lock_key

  -- `_best_effort_clear`: an exception is dropped.
  abbrev best_effort : Result (Unit {0}) × Store → Store
  best_effort (r, store) = store

  abbrev clear_both :
      (InMemoryAuthRateLimiter → InMemoryAuthRateLimiter)
      → Exec Store (Unit {0})
      → Exec (Backed InMemoryAuthRateLimiter Store) (Unit {0})
  clear_both f redis_call s =
      (ok tt, record { fallback = f s.fallback; store = best_effort (redis_call s.store) })

  -- A method of the fallback that cannot raise.
  abbrev plainly :
      (InMemoryAuthRateLimiter → InMemoryAuthRateLimiter) → Exec InMemoryAuthRateLimiter (Unit {0})
  plainly f s = (ok tt, f s)

  unfoldable pub enforce_login_attempt :
      (ip_key login_key : String) → Exec (Backed InMemoryAuthRateLimiter Store) (Unit {0})
  unfolding with_redis_fallback raise_if_locked enforce_rpm_counter
      AuthRateLimits.enforce_login_attempt
  enforce_login_attempt ip_key login_key =
      with_redis_fallback (AuthRateLimits.enforce_login_attempt limits now ip_key login_key) (
        raise_if_locked (key_of "arl:lock:login:account:" login_key)
        >> enforce_rpm_counter (append "arl:req:login:ip:" ip_key) limits.login_ip_rpm)

  unfoldable pub record_login_failure :
      (login_key : String) → Exec (Backed InMemoryAuthRateLimiter Store) (Unit {0})
  unfolding with_redis_fallback record_failure_counter AuthRateLimits.record_login_failure
  record_login_failure login_key =
      with_redis_fallback (plainly (AuthRateLimits.record_login_failure limits now login_key)) (
        record_failure_counter (key_of "arl:fail:login:account:" login_key)
          (key_of "arl:lock:login:account:" login_key) limits.login_account_failures
          limits.login_account_window_seconds limits.login_lock_seconds)

  unfoldable pub record_login_success :
      (login_key : String) → Exec (Backed InMemoryAuthRateLimiter Store) (Unit {0})
  unfolding AuthRateLimits.record_login_success
  record_login_success login_key = clear_both (AuthRateLimits.record_login_success login_key) (
      forget (key_of "arl:fail:login:account:" login_key)
        (key_of "arl:lock:login:account:" login_key))

  unfoldable pub enforce_registration_attempt :
      (ip_key : String) → Exec (Backed InMemoryAuthRateLimiter Store) (Unit {0})
  unfolding with_redis_fallback enforce_rpm_counter AuthRateLimits.enforce_registration_attempt
  enforce_registration_attempt ip_key =
      with_redis_fallback (AuthRateLimits.enforce_registration_attempt limits now ip_key)
        (enforce_rpm_counter (append "arl:req:register:ip:" ip_key) limits.registration_ip_rpm)

  unfoldable pub enforce_api_key_attempt :
      (ip_key : String) → Exec (Backed InMemoryAuthRateLimiter Store) (Unit {0})
  unfolding with_redis_fallback raise_if_locked AuthRateLimits.enforce_api_key_attempt
  enforce_api_key_attempt ip_key =
      with_redis_fallback (AuthRateLimits.enforce_api_key_attempt now ip_key)
        (raise_if_locked (key_of "arl:lock:api_key:ip:" ip_key))

  unfoldable pub record_api_key_failure :
      (ip_key : String) → Exec (Backed InMemoryAuthRateLimiter Store) (Unit {0})
  unfolding with_redis_fallback record_failure_counter AuthRateLimits.record_api_key_failure
  record_api_key_failure ip_key =
      with_redis_fallback (plainly (AuthRateLimits.record_api_key_failure limits now ip_key)) (
        record_failure_counter (key_of "arl:fail:api_key:ip:" ip_key)
          (key_of "arl:lock:api_key:ip:" ip_key) limits.api_key_ip_failures
          limits.api_key_ip_window_seconds limits.api_key_lock_seconds)

  unfoldable pub record_api_key_success :
      (ip_key : String) → Exec (Backed InMemoryAuthRateLimiter Store) (Unit {0})
  unfolding AuthRateLimits.record_api_key_success
  record_api_key_success ip_key =
      clear_both (AuthRateLimits.record_api_key_success ip_key)
        (forget (key_of "arl:fail:api_key:ip:" ip_key) (key_of "arl:lock:api_key:ip:" ip_key))

  unfoldable pub enforce_admin_attempt :
      (ip_key : String) → Exec (Backed InMemoryAuthRateLimiter Store) (Unit {0})
  unfolding with_redis_fallback raise_if_locked AuthRateLimits.enforce_admin_attempt
  enforce_admin_attempt ip_key =
      with_redis_fallback (AuthRateLimits.enforce_admin_attempt now ip_key)
        (raise_if_locked (key_of "arl:lock:admin:ip:" ip_key))

  unfoldable pub record_admin_denial :
      (ip_key : String) → Exec (Backed InMemoryAuthRateLimiter Store) (Unit {0})
  unfolding with_redis_fallback record_failure_counter AuthRateLimits.record_admin_denial
  record_admin_denial ip_key =
      with_redis_fallback (plainly (AuthRateLimits.record_admin_denial limits now ip_key)) (
        record_failure_counter (key_of "arl:fail:admin:ip:" ip_key)
          (key_of "arl:lock:admin:ip:" ip_key) limits.admin_ip_failures
          limits.admin_ip_window_seconds limits.admin_lock_seconds)
