-- ===== src/Sharex/Tokens.antt =====
-- src/imghost/sharex_delete.py: the tokens of capabilities and of confirmations.
use Prim.Native.String.{◌++◌ as append}
use imghost.Prelude.{
  ℕ, ◌+◌, ◌*◌, String, Bool, not, Option, none, some, ◌||◌, str_eq, if◌then◌else◌,
}
use imghost.Text.{strip}
use imghost.Http.{Result, ok, raise}
use imghost.Models.{ShareXDeleteCapability}
use imghost.Tokens.{
  Signing, Json, second, stripped, is_recent, partition_dot, compare_digest, sign, unsign,
}

pub record ShareXDeleteConfirmationPayload : Type 0 where
  pub selector : String
  pub album_id : String
  pub user_id : String
  pub created_at : Option String

pub record Fields : Type 0 where
  pub selector : Json
  pub album_id : Json
  pub user_id : Json
  pub created_at : Json

-- The json and datetime packages, SHA-256 in hexadecimal and `str.lower`; `loads` gives `none` for
-- JSONDecodeError, and `some none` for JSON that is not an object.
pub record Outside : Type 0 where
  pub signing : Signing
  pub dumps : ShareXDeleteConfirmationPayload → String
  pub loads : String → Option (Option Fields)
  pub isoformat : ℕ → String
  pub fromisoformat : String → Option ℕ
  pub sha256 : String → String
  pub lower : String → String

abbrev pub sharex_delete_capability_days : ℕ
sharex_delete_capability_days = 90

abbrev pub sharex_delete_confirm_seconds : ℕ
sharex_delete_confirm_seconds = 300

-- The selector and the secret are random.
unfoldable pub issue_capability :
    Outside → ℕ → (selector secret album_id user_id : String) → ShareXDeleteCapability × String
issue_capability o now selector secret album_id user_id = (
  record {
    selector = selector;
    purpose = "sharex_delete_album";
    album_id = album_id;
    user_id = user_id;
    secret_hash = o.sha256 secret;
    created_at = now;
    expires_at = now + sharex_delete_capability_days * 24 * 60 * 60 * second;
    consumed_at = none;
    revoked_at = none;
    last_seen_at = none;
  },
  append selector (append "." secret),
)

-- `none` is a ValueError.
unfoldable pub split_capability_token : String → Option (String × String)
unfolding partition_dot strip
split_capability_token value =
    let (selector, dot, secret) = partition_dot value in
    if not dot || str_eq selector "" || str_eq secret ""
    then none
    else some (strip selector, strip secret)

unfoldable pub verify_capability_secret :
    Outside → ShareXDeleteCapability → (secret : String) → Result Bool
unfolding compare_digest
verify_capability_secret o capability secret =
    compare_digest (o.sha256 secret) capability.secret_hash

-- `values["created_at"] or utcnow().isoformat()`
abbrev pub or_now : Outside → ℕ → Option String → String
or_now o now none = o.isoformat now
or_now o now (some s) = if str_eq s "" then o.isoformat now else s

unfoldable pub dumps_confirmation :
    Outside → (secret_key : String) → ℕ → ShareXDeleteConfirmationPayload → String
unfolding sign
dumps_confirmation o secret_key now payload =
    sign o.signing secret_key
      (o.dumps (record payload { created_at = some (or_now o now payload.created_at) }))

unfoldable pub read_confirmation :
    Outside → ℕ → (max_age : ℕ) → Fields → Option ShareXDeleteConfirmationPayload
unfolding stripped
read_confirmation o now max_age f =
    let created_at = stripped f.created_at in
    let selector = stripped f.selector in
    let album_id = stripped f.album_id in
    let user_id = stripped f.user_id in
    if str_eq created_at "" || str_eq selector "" || str_eq album_id "" || str_eq user_id ""
    then none
    else if is_recent now max_age (o.fromisoformat created_at)
    then some (record {
      selector = selector;
      album_id = album_id;
      user_id = user_id;
      created_at = some created_at;
    })
    else none

abbrev pub parsed_confirmation :
    Outside → ℕ → (max_age : ℕ) → Option (Option Fields) → Option ShareXDeleteConfirmationPayload
parsed_confirmation o now max_age none = none
parsed_confirmation o now max_age (some none) = none
parsed_confirmation o now max_age (some (some f)) = read_confirmation o now max_age f

-- `ok none` is a ValueError.
unfoldable pub loads_confirmation :
    Outside
    → (secret_key : String) → ℕ
    → (value : String) (max_age : ℕ) → Result (Option ShareXDeleteConfirmationPayload)
unfolding unsign read_confirmation
loads_confirmation o secret_key now value max_age = elim (unsign o.signing secret_key value) [
  | raise e ↦ raise e
  | ok read ↦ elim read [
    | none ↦ ok none
    | some payload ↦ ok (parsed_confirmation o now max_age (o.loads payload))
  ]
]
