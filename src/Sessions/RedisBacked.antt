-- ===== src/Sessions/RedisBacked.antt =====
-- src/imghost/sessions.py, `RedisBackedSessionBackend`: a session is a token and a key in Redis. What
-- the telemetry is told is left out. `prefixed` is `RedisHandle.prefixed`.
use Prim.Native.String.{◌++◌ as append}
use imghost.Prelude.{ℕ, String, Bool, not, Option, none, some, str_eq, if◌then◌else◌}
use imghost.Tokens.{Json, null, text, other_value}
use imghost.Redis.{prefixed}
use imghost.Http.{Result, ok, raise, other, Exec}
use imghost.Models.{User}
use imghost.Sessions.{
  Settings, Outside, SessionPayload, Redis, sign_payload, session_backend_unavailable,
  session_ttl_seconds, create_signed_token, decode_signed_token,
}

abbrev pub session_key : (prefix session_id : String) → String
session_key prefix session_id = prefixed prefix (append "session:" session_id)

module _ {Store : Type 0} (o : Outside) (redis : Redis Store) (prefix : String)
    (settings : Settings) (now : ℕ) where
  -- The token of a session that was written to Redis, or not.
  abbrev pub give_token :
      SessionPayload → String × Option ℕ → Option (Unit {0}) → Result (String × Option ℕ)
  give_token payload (token, expires_at) (some _) =
      ok (sign_payload o settings payload "redis", expires_at)
  give_token payload created none =
      if settings.session_redis_fail_closed then raise session_backend_unavailable else ok created

  abbrev pub write :
      (user_id : String)
      → String × Option ℕ
      → Result (Option SessionPayload)
      → Exec Store (String × Option ℕ)
  write user_id created (raise e) store = (raise e, store)
  write user_id created (ok none) store = (raise (other "Failed to create session token."), store)
  write user_id created (ok (some payload)) store =
      let (reply, store') =
        redis.set (session_key prefix payload.session_id) (o.dumps_user user_id)
          (session_ttl_seconds settings now created.1) now store in
      (give_token payload created reply, store')

  unfoldable pub create_session :
      (session_id : String) → User → (remember_me : Bool) → Exec Store (String × Option ℕ)
  unfolding create_signed_token decode_signed_token prefixed
  create_session session_id user remember_me store =
      let created = create_signed_token o settings now session_id user remember_me "cookie" in
      write user.id created (decode_signed_token o settings now created.0) store

  -- `user_id if isinstance(user_id, str) and user_id == payload.user_id else None`
  abbrev pub matching_user : (user_id : String) → Json → Option String
  matching_user user_id null = none
  matching_user user_id (other_value b shown) = none
  matching_user user_id (text s) = if str_eq s user_id then some s else none

  abbrev pub read_stored : (user_id raw : String) → Result (Option String)
  read_stored user_id raw = elim (o.loads_user raw) [
    | none ↦ ok none
    | some v ↦ elim v [
      | none ↦ raise (other "object has no attribute 'get'")
      | some stored ↦ ok (matching_user user_id stored)
    ]
  ]

  abbrev pub answer_user : (user_id : String) → Option (Option String) → Result (Option String)
  answer_user user_id none =
      if settings.session_redis_fail_closed
      then raise session_backend_unavailable
      else ok (some user_id)
  answer_user user_id (some none) = ok none
  answer_user user_id (some (some raw)) = read_stored user_id raw

  abbrev pub resolve_payload : Result (Option SessionPayload) → Exec Store (Option String)
  resolve_payload (raise e) store = (raise e, store)
  resolve_payload (ok none) store = (ok none, store)
  resolve_payload (ok (some payload)) store =
      if not (str_eq payload.store "redis")
      then (ok (some payload.user_id), store)
      else (let (reply, store') = redis.get (session_key prefix payload.session_id) now store in
          (answer_user payload.user_id reply, store'))

  unfoldable pub resolve_user : (token : String) → Exec Store (Option String)
  unfolding decode_signed_token prefixed
  resolve_user token store = resolve_payload (decode_signed_token o settings now token) store

  abbrev pub clear_payload : Result (Option SessionPayload) → Exec Store (Unit {0})
  clear_payload (raise e) store = (raise e, store)
  clear_payload (ok none) store = (ok tt, store)
  clear_payload (ok (some payload)) store =
      if not (str_eq payload.store "redis")
      then (ok tt, store)
      else (let (reply, store') = redis.delete (session_key prefix payload.session_id) now store in
          (ok tt, store'))

  unfoldable pub clear_session : (token : Option String) → Exec Store (Unit {0})
  unfolding decode_signed_token prefixed
  clear_session none store = (ok tt, store)
  clear_session (some token) store =
      if str_eq token ""
      then (ok tt, store)
      else clear_payload (decode_signed_token o settings now token) store
