-- ===== src/Accounts/Reauth.antt =====
-- src/imghost/account_delete_reauth.py: the tokens that confirm the deletion of an account. Times are
-- microseconds.
use imghost.Prelude.{ℕ, String, Option, none, some, ◌||◌, str_eq, if◌then◌else◌}
use imghost.Http.{Result, ok, raise}
use imghost.Tokens.{Signing, Json, stripped, is_recent, sign, unsign}
use imghost.Accounts.OAuthLogin.{AccountDeleteReauthPayload}

pub record Fields : Type 0 where
  pub user_id : Json
  pub provider : Json
  pub provider_uid : Json
  pub created_at : Json

-- The json and datetime packages and `str.lower`; `dumps` is given the time as a text. `loads` gives
-- `none` for JSONDecodeError, and `some none` for JSON that is not an object.
pub record Codec : Type 0 where
  pub signing : Signing
  pub dumps : AccountDeleteReauthPayload → (created_at : String) → String
  pub loads : String → Option (Option Fields)
  pub isoformat : ℕ → String
  pub fromisoformat : String → Option ℕ
  pub lower : String → String

-- `dumps` of a payload without a time, as the code calls it
unfoldable pub dumps : Codec → (secret_key : String) → ℕ → AccountDeleteReauthPayload → String
unfolding sign
dumps o secret_key now payload = sign o.signing secret_key (o.dumps payload (o.isoformat now))

unfoldable pub read_reauth : Codec → ℕ → (max_age : ℕ) → Fields → Option AccountDeleteReauthPayload
unfolding stripped
read_reauth o now max_age f =
    let created_at = stripped f.created_at in
    let user_id = stripped f.user_id in
    let provider = o.lower (stripped f.provider) in
    let provider_uid = stripped f.provider_uid in
    if str_eq created_at "" || str_eq user_id "" || str_eq provider "" || str_eq provider_uid ""
    then none
    else if is_recent now max_age (o.fromisoformat created_at)
    then some (record { user_id = user_id; provider = provider; provider_uid = provider_uid })
    else none

abbrev parsed_reauth :
    Codec → ℕ → (max_age : ℕ) → Option (Option Fields) → Option AccountDeleteReauthPayload
parsed_reauth o now max_age none = none
parsed_reauth o now max_age (some none) = none
parsed_reauth o now max_age (some (some f)) = read_reauth o now max_age f

-- `ok none` is a ValueError; 600 seconds is the age that the code asks for.
unfoldable pub loads :
    Codec
    → (secret_key : String) → ℕ
    → (value : String) (max_age : ℕ) → Result (Option AccountDeleteReauthPayload)
unfolding unsign read_reauth
loads o secret_key now value max_age = elim (unsign o.signing secret_key value) [
  | raise e ↦ raise e
  | ok read ↦ elim read [
    | none ↦ ok none
    | some payload ↦ ok (parsed_reauth o now max_age (o.loads payload))
  ]
]
