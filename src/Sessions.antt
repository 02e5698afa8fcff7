-- ===== src/Sessions.antt =====
-- src/imghost/sessions.py: the sessions of signed tokens, alone and with Redis. Times are
-- microseconds, and `now` is what `utcnow()` gives during a call. Redis is a parameter: a call gives
-- `none` where it is unavailable, and may have changed the store all the same.
pub mod Cookie
pub mod RedisBacked
pub mod Live
pub mod Ends
use Prim.Native.String.{◌++◌ as append}
use imghost.Prelude.{
  ℕ, ◌+◌, ◌-◌, ◌*◌, ◌/◌, String, Bool, true, false, not, ◌&&◌, ◌||◌, Option, none, some, leb, ltb,
  str_eq, if◌then◌else◌,
}
use imghost.Http.{Exception, Result, ok, raise, other, Exec}
use imghost.Models.{User}
use imghost.Tokens.{Signing, Json, null, text, other_value, second, sign, unsign}

pub record Settings : Type 0 where
  pub secret_key : String
  pub session_remember_days : ℕ
  pub session_redis_fail_closed : Bool

pub record SessionPayload : Type 0 where
  pub session_id : String
  pub user_id : String
  pub created_at : String
  pub expires_at : Option String
  pub store : String

pub record Fields : Type 0 where
  pub session_id : Json
  pub user_id : Json
  pub created_at : Json
  pub expires_at : Json
  pub store : Json

-- The json package on payloads and on what Redis holds, and the texts of times. `loads` gives `none`
-- for JSONDecodeError, and `some none` for JSON that is not an object; `loads_user` is
-- `json.loads(raw)` followed by `get("user_id")`.
pub record Outside : Type 0 where
  pub signing : Signing
  pub dumps : SessionPayload → String
  pub loads : String → Option (Option Fields)
  pub dumps_user : (user_id : String) → String
  pub loads_user : String → Option (Option Json)
  pub isoformat : ℕ → String
  pub fromisoformat : String → Option ℕ

pub record Redis (Store : Type 0) : Type 0 where
  pub set : (key value : String) (ex now : ℕ) → Store → Option (Unit {0}) × Store
  pub get : (key : String) (now : ℕ) → Store → Option (Option String) × Store
  pub delete : (key : String) (now : ℕ) → Store → Option (Unit {0}) × Store

abbrev pub session_backend_unavailable : Exception
session_backend_unavailable = other "Redis-backed sessions are currently unavailable."

abbrev pub sign_payload : Outside → Settings → SessionPayload → (store : String) → String
sign_payload o settings payload store =
    sign o.signing settings.secret_key (o.dumps (record payload { store = store }))

-- `created_at + timedelta(days=…)` of a time of whole seconds
abbrev pub expires_after : Settings → (remember_me : Bool) (now : ℕ) → Option ℕ
expires_after settings remember_me now =
    if remember_me
    then some (now / second * second + settings.session_remember_days * 24 * 60 * 60 * second)
    else none

abbrev pub iso : Outside → Option ℕ → Option String
iso o none = none
iso o (some t) = some (o.isoformat t)

abbrev pub new_payload :
    Outside
    → Settings
    → ℕ
    → (session_id user_id : String) (remember_me : Bool) (store : String) → SessionPayload
new_payload o settings now session_id user_id remember_me store = record {
  session_id = session_id;
  user_id = user_id;
  created_at = o.isoformat (now / second * second);
  expires_at = iso o (expires_after settings remember_me now);
  store = store;
}

unfoldable pub create_signed_token :
    Outside
    → Settings
    → ℕ
    → (session_id : String) → User
    → (remember_me : Bool) (store : String) → String × Option ℕ
unfolding sign
create_signed_token o settings now session_id user remember_me store = (
  sign_payload o settings (new_payload o settings now session_id user.id remember_me store) store,
  expires_after settings remember_me now,
)

-- `if value:`
abbrev pub is_truthy : Json → Bool
is_truthy null = false
is_truthy (text s) = not (str_eq s "")
is_truthy (other_value truthy shown) = truthy

-- Whether a token with this `expires_at` may still be used. `fromisoformat` of a value that is no
-- text is a TypeError.
unfoldable pub is_unexpired : Outside → ℕ → Json → Result Bool
is_unexpired o now null = ok true
is_unexpired o now (other_value false shown) = ok true
is_unexpired o now (other_value true shown) = raise (other "fromisoformat: argument must be str")
is_unexpired o now (text s) = if str_eq s "" then ok true else (elim (o.fromisoformat s) [
  | none ↦ ok false
  | some expires_at ↦ ok (not (leb expires_at now))
])

-- `value` if it is a text and not empty
abbrev pub full_text : Json → Option String
full_text null = none
full_text (other_value b shown) = none
full_text (text s) = if str_eq s "" then none else some s

-- `payload.get("store") or "cookie"`
abbrev pub or_cookie : Json → Json
or_cookie v = if is_truthy v then v else text "cookie"

abbrev pub text_of : Json → Option String
text_of null = none
text_of (other_value b shown) = none
text_of (text s) = some s

abbrev pub checked_payload : Fields → Option SessionPayload
checked_payload f = elim (full_text f.session_id) [
  | none ↦ none
  | some session_id ↦ elim (full_text f.user_id) [
    | none ↦ none
    | some user_id ↦ elim (full_text f.created_at) [
      | none ↦ none
      | some created_at ↦ elim (full_text (or_cookie f.store)) [
        | none ↦ none
        | some store ↦ some (record {
          session_id = session_id;
          user_id = user_id;
          created_at = created_at;
          expires_at = text_of f.expires_at;
          store = store;
        })
      ]
    ]
  ]
]

unfoldable pub read_fields : Outside → ℕ → Fields → Result (Option SessionPayload)
unfolding is_unexpired
read_fields o now f = elim (is_unexpired o now f.expires_at) [
  | raise e ↦ raise e
  | ok current ↦ if current then ok (checked_payload f) else ok none
]

unfoldable pub read_payload : Outside → ℕ → (payload : String) → Result (Option SessionPayload)
unfolding read_fields
read_payload o now payload = elim (o.loads payload) [
  | none ↦ ok none
  | some parsed ↦ elim parsed [ none ↦ ok none | some f ↦ read_fields o now f ]
]

unfoldable pub decode_signed_token :
    Outside → Settings → ℕ → (token : String) → Result (Option SessionPayload)
unfolding unsign read_payload
decode_signed_token o settings now token = elim (unsign o.signing settings.secret_key token) [
  | raise e ↦ raise e
  | ok read ↦ elim read [ none ↦ ok none | some payload ↦ read_payload o now payload ]
]

-- `max(1, …)` of whole seconds
abbrev pub at_least_1 : ℕ → ℕ
at_least_1 n = if ltb n 1 then 1 else n

abbrev pub session_ttl_seconds : Settings → ℕ → Option ℕ → ℕ
session_ttl_seconds settings now (some expires_at) = at_least_1 ((expires_at - now) / second)
session_ttl_seconds settings now none = at_least_1 (settings.session_remember_days * 24 * 60 * 60)
