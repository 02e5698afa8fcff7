-- ===== src/Redis.antt =====
-- src/imghost/redis_support.py: the calls of a Redis client, as a parameter. A call raises where the
-- server cannot be reached, and may have changed the store all the same.
use Prim.Native.String.{◌++◌ as append}
use imghost.Prelude.{ℕ, String, Bool, false, Option, List, str_eq, if◌then◌else◌}
use imghost.Http.{Exception, other, http, lookup_error, key_error, Exec, Result, ok, raise}

pub record RedisClient (Store : Type 0) : Type 0 where
  pub get : String → Exec Store (Option String)
  pub set : (key value : String) (ex : ℕ) → Exec Store (Unit {0})
  pub delete : String → Exec Store (Unit {0})
  pub incr : String → Exec Store ℕ
  pub expire : String → ℕ → Exec Store (Unit {0})
  pub hgetall : String → Exec Store (List (String × String))
  pub hdel : String → List String → Exec Store (Unit {0})
  pub hincrby : (key field : String) (n : ℕ) → Exec Store (Unit {0})

-- `int` and `str` on the numbers that are stored
pub record Numerals : Type 0 where
  pub int : String → ℕ
  pub str : ℕ → String

-- RedisUnavailable
abbrev pub redis_unavailable : Exception
redis_unavailable = other "RedisUnavailable"

abbrev pub is_redis_unavailable : Exception → Bool
is_redis_unavailable (other s) = str_eq s "RedisUnavailable"
is_redis_unavailable (http status detail) = false
is_redis_unavailable (lookup_error s) = false
is_redis_unavailable (key_error s) = false

-- `RedisHandle.prefixed`, with the prefix without its colons
unfoldable pub prefixed : (prefix key : String) → String
prefixed prefix key = if str_eq prefix "" then key else append prefix (append ":" key)

-- A limiter with its fallback in memory.
pub record Backed (Memory Store : Type 0) : Type 0 where
  pub fallback : Memory
  pub store : Store

-- `redis.execute(…)`, and the fallback where it raises RedisUnavailable.
abbrev pub fall_back :
    {Memory Store : Type 0}
    → Exec Memory (Unit {0})
    → Result (Unit {0}) × Store
    → Exec (Backed Memory Store) (Unit {0})
fall_back m (ok a, store) s = (ok a, record s { store = store })
fall_back m (raise e, store) s =
    if is_redis_unavailable e
    then (let (r, memory) = m s.fallback in (r, record { fallback = memory; store = store }))
    else (raise e, record s { store = store })

unfoldable pub with_redis_fallback :
    {Memory Store : Type 0}
    → Exec Memory (Unit {0})
    → Exec Store (Unit {0})
    → Exec (Backed Memory Store) (Unit {0})
with_redis_fallback fallback_call redis_call s = fall_back fallback_call (redis_call s.store) s
