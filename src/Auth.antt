-- ===== src/Auth.antt =====
-- src/imghost/web/auth_context.py: who sends a request. What a lookup of a session gives is a
-- parameter, as either back end of src/imghost/sessions.py; the limiter is that of
-- src/imghost/auth_rate_limits.py in memory. The telemetry is left out.
pub mod Admission
use Prim.Native.Char.{code}
use Prim.Native.String.{[], ◌∷◌}
use imghost.Prelude.{
  ℕ, String, Bool, true, false, not, ◌&&◌, ◌||◌, ◌==◌, Option, none, some, str_eq, if◌then◌else◌,
}
use imghost.Http.{
  Exception, http, lookup_error, key_error, other, Result, ok, raise, Exec, ◌>>=◌, ◌>>◌, pure,
  throw, lift, gets, raise_if, or_raise,
}
use imghost.Models.{User, ApiKey}
use imghost.Users.{Tables, get_user, get_api_key_by_hash, update_api_key}
use imghost.AuthRateLimits
use imghost.AuthRateLimits.{
  AuthLimits, InMemoryAuthRateLimiter, enforce_api_key_attempt, record_api_key_failure,
  record_api_key_success, enforce_admin_attempt, record_admin_denial,
}
use imghost.Sessions.{session_backend_unavailable}

-- The header `Authorization`, empty where it is absent, and the session cookie.
pub record Request : Type 0 where
  pub authorization : String
  pub session_cookie : Option String

pub record ResolvedPrincipal : Type 0 where
  pub user : User
  pub raw_api_key : Option String

-- `Store` is what the back end of the sessions keeps.
pub record Gate (Store : Type 0) : Type 0 where
  pub tables : Tables
  pub limiter : InMemoryAuthRateLimiter
  pub sessions : Store
  pub clear_session_cookie : Bool

-- `header.partition(" ")`, without the separator
unfoldable pub partition_space : String → String × String
partition_space [] = ([], [])
partition_space (c ∷ s) =
    let rest = partition_space s in if code c == 32 then ([], s) else (c ∷ rest.0, rest.1)

abbrev pub may_authenticate : Option User → Bool
may_authenticate none = false
may_authenticate (some u) = not u.suspended

abbrev pub same_text : Exception → Exception → Bool
same_text (other s) (other t) = str_eq s t
same_text _ _ = false

-- `except SessionBackendUnavailable`
abbrev pub is_unavailable : Exception → Bool
is_unavailable e = same_text e session_backend_unavailable

-- `except HTTPException` with one of the two codes
abbrev pub is_denial : Exception → Bool
is_denial (http status detail) = status == 401 || status == 403
is_denial (lookup_error s) = false
is_denial (key_error s) = false
is_denial (other s) = false

abbrev pub not_allowed : Exception
not_allowed = http 403 "User is not allowed to authenticate."

abbrev pub admin_required : Exception
admin_required = http 403 "Admin access required."

-- The times are of the limiter's clock and of `utcnow()`.
pub record Setting (Store : Type 0) : Type 0 where
  pub lower : String → String
  pub sha256 : String → String
  pub resolve_user : (token : String) → Exec Store (Option String)
  pub limits : AuthLimits
  pub clock : ℕ
  pub now : ℕ
  pub ip_key : String

module _ {Store : Type 0} (env : Setting Store) where
  abbrev pub limit : Exec InMemoryAuthRateLimiter (Unit {0}) → Exec (Gate Store) (Unit {0})
  limit f g = let (r, l) = f g.limiter in (r, record g { limiter = l })

  abbrev pub tell_limiter :
      (InMemoryAuthRateLimiter → InMemoryAuthRateLimiter) → Exec (Gate Store) (Unit {0})
  tell_limiter f g = (ok tt, record g { limiter = f g.limiter })

  abbrev pub query : {A : Type 0} → (Tables → Result A × Tables) → Exec (Gate Store) A
  query f g = let (r, t) = f g.tables in (r, record g { tables = t })

  -- `raise …` after a failure was counted
  abbrev pub fail_key : Exception → Exec (Gate Store) ResolvedPrincipal
  fail_key e = tell_limiter (record_api_key_failure env.limits env.clock env.ip_key) >> throw e

  abbrev pub admit_key :
      (token : String) → ApiKey → Option User → Exec (Gate Store) ResolvedPrincipal
  admit_key token key none = fail_key not_allowed
  admit_key token key (some user) = if user.suspended then fail_key not_allowed else (do
    tell_limiter (record_api_key_success env.ip_key)
    query (λ t. update_api_key t (record key { last_used_at = some env.now }))
    pure (record { user = user; raw_api_key = some token }))

  abbrev pub admit_found : (token : String) → Option ApiKey → Exec (Gate Store) ResolvedPrincipal
  admit_found token none = fail_key (http 401 "Invalid API key.")
  admit_found token (some key) = gets (λ g. get_user g.tables key.user_id) >>= admit_key token key

  unfoldable pub by_api_key : (token : String) → Exec (Gate Store) ResolvedPrincipal
  unfolding enforce_api_key_attempt record_api_key_failure record_api_key_success
      get_api_key_by_hash get_user update_api_key
  by_api_key token = do
    limit (enforce_api_key_attempt env.clock env.ip_key)
    found ← gets (λ g. get_api_key_by_hash g.tables (env.sha256 token))
    admit_found token found

  abbrev pub forget_cookie : Exec (Gate Store) (Unit {0})
  forget_cookie g = (ok tt, record g { clear_session_cookie = true })

  -- The end of the function: nobody was found.
  abbrev pub nobody : (required : Bool) → Exec (Gate Store) (Option ResolvedPrincipal)
  nobody required = raise_if required (http 401 "Authentication required.") >> pure none

  abbrev pub no_session : (required : Bool) → Exec (Gate Store) (Option ResolvedPrincipal)
  no_session required = raise_if required (http 401 "Invalid session.") >> pure none

  abbrev pub admit_session :
      (required : Bool) → Option User → Exec (Gate Store) (Option ResolvedPrincipal)
  admit_session required none = forget_cookie >> no_session required
  admit_session required (some user) =
      if user.suspended
      then throw not_allowed
      else pure (some (record { user = user; raw_api_key = none }))

  abbrev pub admit_id :
      (required : Bool) → (user_id : String) → Exec (Gate Store) (Option ResolvedPrincipal)
  admit_id required user_id =
      if str_eq user_id ""
      then forget_cookie >> nobody required
      else (do user ← gets (λ g. get_user g.tables user_id); admit_session required user)

  -- What the back end has answered.
  abbrev pub admit_answer :
      (required : Bool) → Result (Option String) → Exec (Gate Store) (Option ResolvedPrincipal)
  admit_answer required (raise e) = if is_unavailable e then no_session required else throw e
  admit_answer required (ok none) = forget_cookie >> nobody required
  admit_answer required (ok (some user_id)) = admit_id required user_id

  abbrev pub ask_session :
      (required : Bool) (token : String) → Exec (Gate Store) (Option ResolvedPrincipal)
  ask_session required token g =
      let (r, s) = env.resolve_user token g.sessions in
      admit_answer required r (record g { sessions = s })

  unfoldable pub by_session :
      (required : Bool) → Option String → Exec (Gate Store) (Option ResolvedPrincipal)
  unfolding get_user
  by_session required none = nobody required
  by_session required (some token) =
      if str_eq token "" then nobody required else ask_session required token

  unfoldable pub authenticated_principal :
      (required : Bool) → Request → Exec (Gate Store) (Option ResolvedPrincipal)
  unfolding partition_space by_api_key by_session
  authenticated_principal required request =
      let (scheme, token) = partition_space request.authorization in
      if str_eq (env.lower scheme) "bearer" && not (str_eq token "")
      then by_api_key token >>= (λ principal. pure (some principal))
      else by_session required request.session_cookie

  abbrev pub user_of : Option ResolvedPrincipal → Option User
  user_of none = none
  user_of (some principal) = some principal.user

  unfoldable pub authenticated_user : (required : Bool) → Request → Exec (Gate Store) (Option User)
  unfolding authenticated_principal
  authenticated_user required request =
      authenticated_principal required request >>= (λ principal. pure (user_of principal))

  -- `except HTTPException`: a denial is counted, and raised again.
  abbrev pub counting_denials : {A : Type 0} → Result A × Gate Store → Result A × Gate Store
  counting_denials (ok a, g) = (ok a, g)
  counting_denials (raise e, g) =
      if is_denial e
      then (
        raise e,
        record g { limiter = record_admin_denial env.limits env.clock env.ip_key g.limiter },
      )
      else (raise e, g)

  abbrev pub deny : Exception → Exec (Gate Store) User
  deny e = tell_limiter (record_admin_denial env.limits env.clock env.ip_key) >> throw e

  abbrev pub check_admin : Option User → Exec (Gate Store) User
  check_admin none = deny admin_required
  check_admin (some user) = if user.is_admin then pure user else deny admin_required

  unfoldable pub require_admin_user : Request → Exec (Gate Store) User
  unfolding enforce_admin_attempt record_admin_denial authenticated_user
  require_admin_user request = do
    limit (enforce_admin_attempt env.clock env.ip_key)
    user ← (λ g. counting_denials (authenticated_user true request g))
    check_admin user

  -- `none` is a redirection to the login page.
  unfoldable pub require_page_user : Request → Exec (Gate Store) (Option User)
  unfolding authenticated_user
  require_page_user request = authenticated_user false request

  abbrev pub check_page_admin : Option User → Exec (Gate Store) (Option User)
  check_page_admin none =
      tell_limiter (record_admin_denial env.limits env.clock env.ip_key) >> pure none
  check_page_admin (some user) =
      if user.is_admin
      then pure (some user)
      else tell_limiter (record_admin_denial env.limits env.clock env.ip_key)
        >> throw admin_required

  unfoldable pub require_page_admin : Request → Exec (Gate Store) (Option User)
  unfolding enforce_admin_attempt record_admin_denial authenticated_user
  require_page_admin request = do
    limit (enforce_admin_attempt env.clock env.ip_key)
    user ← authenticated_user false request
    check_page_admin user
