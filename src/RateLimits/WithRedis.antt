-- ===== src/RateLimits/WithRedis.antt =====
-- src/imghost/rate_limits.py, `RedisRateLimiter`. `now` is what `monotonic()` gives for the fallback,
-- `minute_bucket` is `int(time()) // 60`.
use Prim.Native.String.{◌++◌ as append}
use imghost.Prelude.{
  ℕ, ◌+◌, String, Bool, true, false, Option, none, some, List, [], ◌∷◌, leb, ltb, str_eq, sum_by,
  map, keep, if◌then◌else◌,
}
use imghost.Http.{Exec, ◌>>=◌, ◌>>◌, pure, raise_if}
use imghost.Models.{User}
use imghost.Redis.{RedisClient, Numerals, Backed, prefixed, with_redis_fallback}
use imghost.RateLimits
use imghost.RateLimits.{
  UploadLimits, InMemoryRateLimiter, or_default, request_limit_exceeded, bandwidth_limit_exceeded,
}

abbrev pub is_empty {ℓ} : {A : Type ℓ} → List A → Bool
is_empty [] = true
is_empty (x ∷ xs) = false

module _ {Store : Type 0} (client : RedisClient Store) (numerals : Numerals) (prefix : String)
    (limits : UploadLimits) (now minute_bucket : ℕ) where
  abbrev requests_of : Option String → ℕ
  requests_of none = 0
  requests_of (some s) = if str_eq s "" then 0 else numerals.int s

  unfoldable pub check_requests : (req_key : String) (rpm_limit : ℕ) → Exec Store (Unit {0})
  check_requests req_key rpm_limit =
      if ltb 0 rpm_limit
      then (do
        current_requests ← client.get req_key
        raise_if (leb rpm_limit (requests_of current_requests)) request_limit_exceeded)
      else pure tt

  -- `bucket < cutoff`, where the cutoff is `minute_bucket - 59`
  abbrev pub is_stale : String × String → Bool
  is_stale (field, raw_value) = ltb (numerals.int field + 59) minute_bucket

  abbrev is_fresh : String × String → Bool
  is_fresh (field, raw_value) = leb minute_bucket (numerals.int field + 59)

  unfoldable pub check_bytes :
      (bytes_key : String) (bph_limit byte_count : ℕ) → Exec Store (Unit {0})
  unfolding keep
  check_bytes bytes_key bph_limit byte_count =
      if ltb 0 bph_limit
      then (do
        bucket_values ← client.hgetall bytes_key
        let stale_fields = map (λ v. v.0) (keep is_stale bucket_values)
        let bytes_this_hour = sum_by (λ v. numerals.int v.1) (keep is_fresh bucket_values)
        (if is_empty stale_fields then pure tt else client.hdel bytes_key stale_fields)
        raise_if (ltb bph_limit (bytes_this_hour + byte_count)) bandwidth_limit_exceeded)
      else pure tt

  unfoldable pub enforce_counter :
      (scope : String) (rpm_limit bph_limit byte_count : ℕ) → Exec Store (Unit {0})
  unfolding prefixed check_requests check_bytes
  enforce_counter scope rpm_limit bph_limit byte_count = do
    let req_key =
        prefixed prefix (append "rl:req:" (append scope (append ":" (numerals.str minute_bucket))))
    let bytes_key = prefixed prefix (append "rl:bytes:" scope)
    check_requests req_key rpm_limit
    check_bytes bytes_key bph_limit byte_count
    client.incr req_key
    client.expire req_key 120
    client.hincrby bytes_key (numerals.str minute_bucket) byte_count
    client.expire bytes_key (3600 + 120)

  unfoldable pub enforce_with_redis :
      (actor_key : String) (byte_count : ℕ) → Option User → Exec Store (Unit {0})
  unfolding enforce_counter
  enforce_with_redis actor_key byte_count (some user) =
      enforce_counter (append "user:" actor_key)
        (or_default user.rate_limit_rpm limits.rate_limit_user_rpm)
        (or_default user.rate_limit_bph limits.rate_limit_user_bph) byte_count
  enforce_with_redis actor_key byte_count none =
      enforce_counter (append "anon:" actor_key) limits.rate_limit_anon_rpm
        limits.rate_limit_anon_bph byte_count
      >> enforce_counter "anon:global" limits.rate_limit_global_anon_rpm
          limits.rate_limit_global_anon_bph byte_count

  unfoldable pub enforce_upload_limits :
      (actor_key : String) (byte_count : ℕ)
      → Option User
      → Exec (Backed InMemoryRateLimiter Store) (Unit {0})
  unfolding with_redis_fallback enforce_with_redis RateLimits.enforce_upload_limits
  enforce_upload_limits actor_key byte_count user =
      with_redis_fallback (RateLimits.enforce_upload_limits limits now actor_key byte_count user)
        (enforce_with_redis actor_key byte_count user)
