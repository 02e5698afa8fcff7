-- ===== src/Examples/AuthRateLimits.antt =====
-- The limiter of logins at concrete attempts.
use imghost.Prelude.{◌≡◌, ◌≢◌, String, [], ◌∷◌, ◌++◌, arith, ap}
use imghost.Http.{raise}
use imghost.Text.{initial}
use imghost.AuthRateLimits.{
  AuthLimits, InMemoryAuthRateLimiter, new_limiter, enforce_login_attempt, too_many_attempts,
}
use imghost.AuthRateLimits.Lockout.{record_failures, failures-lock_account}
use imghost.AuthRateLimits.Locks.{
  Subject, account, api_key_address, admin_address, lock_key, record_failure,
  record_failure-locks_only,
}

abbrev pub limits : AuthLimits
limits = record {
  login_ip_rpm = 10;
  login_account_failures = 3;
  login_account_window_seconds = 900;
  login_lock_seconds = 300;
  registration_ip_rpm = 5;
  api_key_ip_failures = 20;
  api_key_ip_window_seconds = 600;
  api_key_lock_seconds = 300;
  admin_ip_failures = 10;
  admin_ip_window_seconds = 600;
  admin_lock_seconds = 300;
}

abbrev failed : InMemoryAuthRateLimiter
failed = record_failures limits "ann" ((1 ∷ 2 ∷ []) ++ 3 ∷ []) new_limiter

failures-lock_account_example :
    enforce_login_attempt limits 302 "ip" "ann" failed ≡ (raise too_many_attempts, failed)
failures-lock_account_example =
    failures-lock_account limits "ann" (1 ∷ 2 ∷ []) 3 302 "ip" new_limiter
      ((omega arith, omega arith), ((omega arith, omega arith), tt)) (omega arith) (omega arith)
      (omega arith) (omega arith)

name : Subject → String
name (account k) = k
name (api_key_address k) = k
name (admin_address k) = k

ann_is_not_bob : account "ann" ≢ account "bob"
unfolding name initial
ann_is_not_bob e = absurd (omega (arith, ap (λ t. initial (name t)) e))

record_failure-locks_only_example :
    (record_failure limits 4 (account "ann") failed).locks (lock_key (account "bob"))
    ≡ failed.locks (lock_key (account "bob"))
record_failure-locks_only_example =
    record_failure-locks_only limits 4 (account "ann") (account "bob") failed ann_is_not_bob
