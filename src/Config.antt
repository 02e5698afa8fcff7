-- ===== src/Config.antt =====
-- src/imghost/runtime_config.py: the values that an administrator may set while the server runs. The
-- environment is a function of the names, `int` and `str.lower` are the interpreter's, and `loads`
-- and `dumps` those of the json package.
pub mod Table
pub mod Effect
pub mod Updates
pub mod Writes
pub mod InForce
use Prim.Native.String.{◌++◌ as append}
use imghost.Prelude.{
  ℕ, ◌*◌, String, Bool, true, false, not, Option, none, some, List, [], ◌∷◌, ◌++◌, ◌&&◌, ◌||◌, find,
  keep, str_eq, if◌then◌else◌,
}
use imghost.Prelude.Int.{ℤ, pos, negsuc, leb_ℤ, ltb_ℤ}
use imghost.Prelude.Dict.{update}
use imghost.Text.{strip}
use imghost.Http.{Exception, http, key_error, other, Result, ok, raise}

-- A value: `bool | int`.
pub data Value : Type 0 where
  flag : Bool → Value
  number : ℤ → Value

-- A value of a request or of a stored JSON text: one of these, or of another type.
pub data Raw : Type 0 where
  plain : Value → Raw
  other_value : Raw

pub data ConfigType : Type 0 where
  bool_type int_type : ConfigType

-- What the providers of the defaults are: a constant, or read from the environment.
pub data Default : Type 0 where
  constant : Value → Default
  from_env_bool : (name : String) (default : Bool) → Default
  from_env_int from_env_int_above_0 : (name : String) (default : ℕ) → Default

pub record RuntimeConfigSpec : Type 0 where
  pub key : String
  pub value_type : ConfigType
  pub default_provider : Default
  pub lock_env : String

abbrev pub spec : (key : String) → ConfigType → Default → (lock_env : String) → RuntimeConfigSpec
spec key value_type default_provider lock_env = record {
  key = key;
  value_type = value_type;
  default_provider = default_provider;
  lock_env = lock_env;
}

unfoldable pub runtime_config_specs : List RuntimeConfigSpec
runtime_config_specs =
    spec "allow_registration" bool_type (from_env_bool "ALLOW_REGISTRATION" true)
      "LOCK_ALLOW_REGISTRATION"
    ∷ spec "anon_upload_enabled" bool_type (constant (flag true)) "LOCK_ANON_UPLOAD"
    ∷ spec "anon_expiry_hours" int_type (from_env_int "ANON_EXPIRY_HOURS" 24) "LOCK_ANON_EXPIRY"
    ∷ spec "max_upload_bytes" int_type (from_env_int "MAX_UPLOAD_BYTES" (50 * 1024 * 1024))
        "LOCK_MAX_UPLOAD_BYTES"
    ∷ spec "video_thumb_frames" int_type (from_env_int_above_0 "VIDEO_THUMB_FRAMES" 15)
        "LOCK_VIDEO_THUMB_FRAMES"
    ∷ spec "default_user_quota_bytes" int_type
        (from_env_int "DEFAULT_USER_QUOTA_BYTES" (2 * 1024 * 1024 * 1024))
        "LOCK_DEFAULT_USER_QUOTA_BYTES"
    ∷ spec "server_quota_bytes" int_type (from_env_int "SERVER_QUOTA_BYTES" 0)
        "LOCK_SERVER_QUOTA_BYTES"
    ∷ spec "rate_limit_anon_rpm" int_type (constant (number (pos 5))) "LOCK_RATE_LIMITS"
    ∷ spec "rate_limit_anon_bph" int_type (constant (number (pos 104857600))) "LOCK_RATE_LIMITS"
    ∷ spec "rate_limit_global_anon_rpm" int_type (constant (number (pos 50))) "LOCK_RATE_LIMITS"
    ∷ spec "rate_limit_global_anon_bph" int_type (constant (number (pos 1073741824)))
        "LOCK_RATE_LIMITS"
    ∷ spec "rate_limit_user_rpm" int_type (constant (number (pos 30))) "LOCK_RATE_LIMITS"
    ∷ spec "rate_limit_user_bph" int_type (constant (number (pos 524288000))) "LOCK_RATE_LIMITS"
    ∷ spec "auth_rate_limit_login_ip_rpm" int_type (constant (number (pos 10))) "LOCK_RATE_LIMITS"
    ∷ spec "auth_rate_limit_login_account_failures" int_type (constant (number (pos 5)))
        "LOCK_RATE_LIMITS"
    ∷ spec "auth_rate_limit_login_account_window_seconds" int_type (constant (number (pos 900)))
        "LOCK_RATE_LIMITS"
    ∷ spec "auth_rate_limit_login_lock_seconds" int_type (constant (number (pos 300)))
        "LOCK_RATE_LIMITS"
    ∷ spec "auth_rate_limit_registration_ip_rpm" int_type (constant (number (pos 5)))
        "LOCK_RATE_LIMITS"
    ∷ spec "auth_rate_limit_api_key_ip_failures" int_type (constant (number (pos 20)))
        "LOCK_RATE_LIMITS"
    ∷ spec "auth_rate_limit_api_key_ip_window_seconds" int_type (constant (number (pos 600)))
        "LOCK_RATE_LIMITS"
    ∷ spec "auth_rate_limit_api_key_lock_seconds" int_type (constant (number (pos 300)))
        "LOCK_RATE_LIMITS"
    ∷ spec "auth_rate_limit_admin_ip_failures" int_type (constant (number (pos 10)))
        "LOCK_RATE_LIMITS"
    ∷ spec "auth_rate_limit_admin_ip_window_seconds" int_type (constant (number (pos 600)))
        "LOCK_RATE_LIMITS"
    ∷ spec "auth_rate_limit_admin_lock_seconds" int_type (constant (number (pos 300)))
        "LOCK_RATE_LIMITS"
    ∷ []

pub record RuntimeConfigValue : Type 0 where
  pub key : String
  pub value : Value
  pub default : Value
  pub locked : Bool
  pub source : String
  pub stored_value : Option Value
  pub updated_at : Option ℕ

pub record Surroundings : Type 0 where
  pub getenv : String → Option String
  pub lower : String → String
  pub int : String → Option ℤ
  pub loads : String → Option Raw
  pub dumps : Value → String

-- The table `config`: the text and the time of a key. A NULL text, which no operation writes, is left
-- out.
abbrev pub Rows : Type 0
Rows = String → Option (String × ℕ)

abbrev pub one_of : List String → String → Bool
one_of [] text = false
one_of (t ∷ ts) text = str_eq text t || one_of ts text

unfoldable pub env_bool_default : Surroundings → (name : String) (default : Bool) → Result Value
unfolding strip
env_bool_default env name default = elim (env.getenv name) [
  | none ↦ ok (flag default)
  | some raw ↦
      let value = env.lower (strip raw) in
      if one_of ("1" ∷ "true" ∷ "yes" ∷ "on" ∷ []) value
      then ok (flag true)
      else if one_of ("0" ∷ "false" ∷ "no" ∷ "off" ∷ []) value
      then ok (flag false)
      else raise (other (append name " must be a boolean-like value."))
]

-- `int(os.getenv(name, str(default)))`
unfoldable pub env_int : Surroundings → (name : String) (default : ℕ) → Result ℤ
env_int env name default = elim (env.getenv name) [
  | none ↦ ok (pos default)
  | some raw ↦ elim (env.int raw) [
    | none ↦ raise (other "invalid literal for int()")
    | some n ↦ ok n
  ]
]

-- `max(1, n)`
abbrev pub at_least_1 : ℤ → ℤ
at_least_1 n = if leb_ℤ n (pos 1) then pos 1 else n

unfoldable pub default_of : Surroundings → Default → Result Value
unfolding env_bool_default env_int
default_of env (constant v) = ok v
default_of env (from_env_bool name default) = env_bool_default env name default
default_of env (from_env_int name default) = elim (env_int env name default) [
  | ok n ↦ ok (number n)
  | raise e ↦ raise e
]
default_of env (from_env_int_above_0 name default) = elim (env_int env name default) [
  | ok n ↦ ok (number (at_least_1 n))
  | raise e ↦ raise e
]

unfoldable pub is_locked : Surroundings → RuntimeConfigSpec → Bool
unfolding strip
is_locked env s =
    str_eq (env.lower (strip (elim (env.getenv s.lock_env) [ none ↦ "false" | some text ↦ text ])))
      "true"

-- `_coerce_value`, by the type of the value
unfoldable pub coerce : (key : String) → ConfigType → Raw → Result Value
coerce key bool_type (plain (flag b)) = ok (flag b)
coerce key bool_type (plain (number n)) = raise (http 400 (append key " must be a boolean."))
coerce key bool_type other_value = raise (http 400 (append key " must be a boolean."))
coerce key int_type (plain (flag b)) = raise (http 400 (append key " must be an integer."))
coerce key int_type (plain (number (pos n))) = ok (number (pos n))
coerce key int_type (plain (number (negsuc n))) =
    raise (http 400 (append key " must be non-negative."))
coerce key int_type other_value = raise (http 400 (append key " must be an integer."))

abbrev pub coerce_value : RuntimeConfigSpec → Raw → Result Value
coerce_value s raw_value = coerce s.key s.value_type raw_value

unfoldable pub decode_stored_value :
    Surroundings → RuntimeConfigSpec → Option String → Result (Option Value)
unfolding coerce
decode_stored_value env s none = ok none
decode_stored_value env s (some raw_value) = elim (env.loads raw_value) [
  | none ↦ raise (http 500 (append "Invalid stored config value for " (append s.key ".")))
  | some parsed ↦ elim (coerce_value s parsed) [ ok v ↦ ok (some v) | raise e ↦ raise e ]
]

-- What is in force, from the default and the stored value.
abbrev pub in_force :
    Surroundings
    → RuntimeConfigSpec
    → (default : Value) → Option Value
    → Option ℕ
    → RuntimeConfigValue
in_force env s default decoded updated_at =
    if is_locked env s
    then record {
      key = s.key;
      value = default;
      default = default;
      locked = true;
      source = "locked";
      stored_value = decoded;
      updated_at = updated_at;
    }
    else (elim decoded [
      | none ↦ record {
        key = s.key;
        value = default;
        default = default;
        locked = false;
        source = "default";
        stored_value = none;
        updated_at = updated_at;
      }
      | some v ↦ record {
        key = s.key;
        value = v;
        default = default;
        locked = false;
        source = "runtime";
        stored_value = some v;
        updated_at = updated_at;
      }
    ])

abbrev pub text_of : Option (String × ℕ) → Option String
text_of none = none
text_of (some (text, at)) = some text

abbrev pub time_of : Option (String × ℕ) → Option ℕ
time_of none = none
time_of (some (text, at)) = some at

unfoldable pub resolve_value :
    Surroundings → RuntimeConfigSpec → Option (String × ℕ) → Result RuntimeConfigValue
unfolding default_of decode_stored_value is_locked
resolve_value env s row = elim (default_of env s.default_provider) [
  | raise e ↦ raise e
  | ok default ↦ elim (decode_stored_value env s (text_of row)) [
    | raise e ↦ raise e
    | ok decoded ↦ ok (in_force env s default decoded (time_of row))
  ]
]
