-- ===== src/Examples/RateLimits.antt =====
-- The upload limiter at concrete calls.
use imghost.Prelude.{ℕ, ◌≡◌, ◌≤◌, refl, none, List, [], ◌∷◌, arith, length, keep}
use imghost.Http.{ok, raise}
use imghost.RateLimits.{
  WindowCounter, UploadLimits, InMemoryRateLimiter, enforce_counter, enforce_upload_limits,
  new_limiter, minute_seconds, request_limit_exceeded,
}
use imghost.RateLimits.Window.{live}
use imghost.RateLimits.Runs.{Upload, events_of, from_actor, is_anonymous, in_minute, submit_all}
use imghost.RateLimits.WindowBound.{start, actor_minute_bound, global_minute_bound}
use imghost.RateLimits.Checks.{hourly_bytes_forgotten, refused_charges_nobody}

abbrev limits : UploadLimits
limits = record {
  rate_limit_user_rpm = 3;
  rate_limit_user_bph = 100;
  rate_limit_anon_rpm = 1;
  rate_limit_anon_bph = 100;
  rate_limit_global_anon_rpm = 2;
  rate_limit_global_anon_bph = 100;
}

abbrev call : ℕ → Upload
call now = record { now = now; actor_key = "ip"; byte_count = 60; user = none }

abbrev calls : List Upload
calls = call 1 ∷ call 2 ∷ call 70 ∷ []

second_is_refused : (submit_all limits start calls).accepted ≡ call 1 ∷ call 70 ∷ []
unfolding submit_all
second_is_refused = refl

actor_minute_bound_example :
    length
      (keep (in_minute 60) (events_of (from_actor "ip") (submit_all limits start calls).accepted))
    ≤ 1
actor_minute_bound_example =
    actor_minute_bound limits calls "ip" 60 (omega arith, (omega arith, (omega arith, tt)))
      (omega arith)

global_minute_bound_example :
    length (keep (in_minute 60) (events_of is_anonymous (submit_all limits start calls).accepted))
    ≤ 2
global_minute_bound_example =
    global_minute_bound limits calls 60 (omega arith, (omega arith, (omega arith, tt)))
      (omega arith)

abbrev minute_old : WindowCounter
minute_old = record { events = (0, 100) ∷ [] }

hourly_bytes_forgotten_example :
    enforce_counter minute_old 60 5 100 100 ≡ (ok tt, record { events = [] })
hourly_bytes_forgotten_example =
    hourly_bytes_forgotten minute_old 60 5 100 100 (tt, tt) (omega arith, tt) (omega arith)
      (omega arith)

abbrev busy : InMemoryRateLimiter
busy = record new_limiter { anon_windows = λ k. record { events = (1, 60) ∷ [] } }

busy_refuses : (enforce_upload_limits limits 2 "ip" 60 none busy).0 ≡ raise request_limit_exceeded
unfolding enforce_upload_limits
busy_refuses = refl

refused_charges_nobody_example :
    (keep
        (live 5 minute_seconds)
        ((enforce_upload_limits limits 2 "ip" 60 none busy).1.anon_windows "ip").events
      ≡ keep (live 5 minute_seconds) (busy.anon_windows "ip").events)
    × (keep
          (live 5 minute_seconds)
          (enforce_upload_limits limits 2 "ip" 60 none busy).1.global_anon.events
        ≡ keep (live 5 minute_seconds) busy.global_anon.events)
refused_charges_nobody_example =
    refused_charges_nobody limits 2 "ip" 60 busy "ip" 5 (λ i. (tt, tt)) tt busy_refuses
      (omega arith)
