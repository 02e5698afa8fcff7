-- ===== src/RateLimits.antt =====
-- src/imghost/rate_limits.py: the upload limiter that keeps its windows in memory. Times are whole
-- seconds of a monotonic clock; limits are the non-negative numbers that the configuration admits,
-- and 0 switches a limit off.
pub mod Window
pub mod Runs
pub mod WindowBound
pub mod Checks
pub mod WithRedis
use imghost.Prelude.{
  ℕ, ◌+◌, String, Bool, Option, none, some, List, [], ◌∷◌, ◌++◌, ◌&&◌, ltb, leb, length, sum_by,
  str_eq, if◌then◌else◌,
}
use imghost.Prelude.Dict.{update}
use imghost.Http.{Exception, http, Result, ok, raise}
use imghost.Models.{User}

abbrev pub minute_seconds : ℕ
minute_seconds = 60

abbrev pub hour_seconds : ℕ
hour_seconds = 3600

-- An event is the time of an accepted upload, with its size.
abbrev pub Event : Type 0
Event = ℕ × ℕ

pub record WindowCounter : Type 0 where
  pub events : List Event

-- The loop of `WindowCounter.prune`; `events[0][0] <= now - window_seconds`, without a subtraction.
pub prune_events : ℕ → ℕ → List Event → List Event
prune_events now window_seconds [] = []
prune_events now window_seconds ((t, size) ∷ rest) =
    if leb (t + window_seconds) now then prune_events now window_seconds rest else (t, size) ∷ rest

pub prune : WindowCounter → ℕ → ℕ → WindowCounter
unfolding prune_events
prune c now window_seconds = record { events = prune_events now window_seconds c.events }

pub count : WindowCounter → ℕ → ℕ → ℕ × WindowCounter
unfolding prune
count c now window_seconds = let c' = prune c now window_seconds in (length c'.events, c')

pub bytes_used : WindowCounter → ℕ → ℕ → ℕ × WindowCounter
unfolding prune
bytes_used c now window_seconds =
    let c' = prune c now window_seconds in (sum_by (λ e. e.1) c'.events, c')

pub add : WindowCounter → ℕ → ℕ → WindowCounter
add c now byte_count = record { events = c.events ++ (now, byte_count) ∷ [] }

-- The values that the runtime configuration gives when they are read.
pub record UploadLimits : Type 0 where
  pub rate_limit_user_rpm : ℕ
  pub rate_limit_user_bph : ℕ
  pub rate_limit_anon_rpm : ℕ
  pub rate_limit_anon_bph : ℕ
  pub rate_limit_global_anon_rpm : ℕ
  pub rate_limit_global_anon_bph : ℕ

abbrev pub request_limit_exceeded : Exception
request_limit_exceeded = http 429 "Upload rate limit exceeded."

abbrev pub bandwidth_limit_exceeded : Exception
bandwidth_limit_exceeded = http 429 "Upload bandwidth limit exceeded."

pub enforce_counter :
    WindowCounter → (now rpm_limit bph_limit byte_count : ℕ) → Result (Unit {0}) × WindowCounter
unfolding count bytes_used
enforce_counter c now rpm_limit bph_limit byte_count =
    let (requests_this_minute, c₁) = count c now minute_seconds in
    if ltb 0 rpm_limit && leb rpm_limit requests_this_minute
    then (raise request_limit_exceeded, c₁)
    else (let (bytes_this_hour, c₂) = bytes_used c₁ now hour_seconds in
        if ltb 0 bph_limit && ltb bph_limit (bytes_this_hour + byte_count)
        then (raise bandwidth_limit_exceeded, c₂)
        else (ok tt, c₂))

-- The dicts are read by `setdefault` only, so a key that is missing is an empty counter.
pub record InMemoryRateLimiter : Type 0 where
  pub anon_windows : String → WindowCounter
  pub user_windows : String → WindowCounter
  pub global_anon : WindowCounter

-- `user.rate_limit_rpm if user.rate_limit_rpm is not None else …`
abbrev pub or_default : Option ℕ → ℕ → ℕ
or_default none d = d
or_default (some n) d = n

abbrev pub new_limiter : InMemoryRateLimiter
new_limiter = record {
  anon_windows = λ k. record { events = [] };
  user_windows = λ k. record { events = [] };
  global_anon = record { events = [] };
}

-- The last statement of each branch: `counter.add(…)` once the checks have passed.
enforce_user :
    UploadLimits
    → (now : ℕ) (actor_key : String) (byte_count : ℕ) → User
    → InMemoryRateLimiter
    → Result (Unit {0}) × InMemoryRateLimiter
unfolding enforce_counter add
enforce_user limits now actor_key byte_count user s =
    let rpm_limit = or_default user.rate_limit_rpm limits.rate_limit_user_rpm in
    let bph_limit = or_default user.rate_limit_bph limits.rate_limit_user_bph in
    let (r, c) = enforce_counter (s.user_windows actor_key) now rpm_limit bph_limit byte_count in
    elim r [
      | raise e ↦ (raise e, record s { user_windows = update s.user_windows actor_key c })
      | ok _ ↦ (
        ok tt,
        record s { user_windows = update s.user_windows actor_key (add c now byte_count) },
      )
    ]

enforce_anonymous :
    UploadLimits
    → (now : ℕ) (actor_key : String) (byte_count : ℕ) → InMemoryRateLimiter
    → Result (Unit {0}) × InMemoryRateLimiter
unfolding enforce_counter add
enforce_anonymous limits now actor_key byte_count s =
    let (r, c) =
      enforce_counter (s.anon_windows actor_key) now limits.rate_limit_anon_rpm
        limits.rate_limit_anon_bph byte_count in
    elim r [
      | raise e ↦ (raise e, record s { anon_windows = update s.anon_windows actor_key c })
      | ok _ ↦
          let (r', g) =
            enforce_counter s.global_anon now limits.rate_limit_global_anon_rpm
              limits.rate_limit_global_anon_bph byte_count in
          elim r' [
            | raise e ↦ (
              raise e,
              record s { anon_windows = update s.anon_windows actor_key c; global_anon = g },
            )
            | ok _ ↦ (
              ok tt,
              record s {
                anon_windows = update s.anon_windows actor_key (add c now byte_count);
                global_anon = add g now byte_count;
              },
            )
          ]
    ]

unfoldable pub enforce_upload_limits :
    UploadLimits
    → (now : ℕ) (actor_key : String) (byte_count : ℕ) → Option User
    → InMemoryRateLimiter
    → Result (Unit {0}) × InMemoryRateLimiter
unfolding enforce_user enforce_anonymous
enforce_upload_limits limits now actor_key byte_count (some user) s =
    enforce_user limits now actor_key byte_count user s
enforce_upload_limits limits now actor_key byte_count none s =
    enforce_anonymous limits now actor_key byte_count s
