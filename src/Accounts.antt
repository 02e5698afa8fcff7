-- ===== src/Accounts.antt =====
-- src/imghost/account_service.py: the accounts. `now` is what `utcnow()` gives during a call, and the
-- fresh ids and keys of a call are arguments.
pub mod Support
pub mod Changes
pub mod OAuthLogin
pub mod Reauth
pub mod Logins
pub mod Links
pub mod Removal
use Prim.Native.String.{◌++◌ as append}
use imghost.Prelude.{
  ℕ, String, Bool, true, false, not, Option, none, some, List, [], ◌∷◌, ◌++◌, ◌&&◌, ◌||◌, keep,
  length, str_eq, if◌then◌else◌,
}
use imghost.Text.{strip, opt_eq}
use imghost.Http.{
  Exception, http, Result, ok, raise, Exec, ◌>>=◌, ◌>>◌, pure, throw, lift, gets, raise_if,
  or_raise,
}
use imghost.Models.{User, Album, Media, ApiKey, UserSsoLink, ShareXDeleteCapability}
use imghost.Users
use imghost.Users.{
  Tables, get_user, get_user_by_email, get_user_by_username, get_api_key_for_user, upsert_api_key,
  get_user_sso_link, create_user_sso_link, list_user_sso_links, delete_user_sso_link,
  list_user_albums, list_user_media,
}
use imghost.Cleanup.{storage_keys_for_media}
use imghost.Accounts.Support.{
  Outside, require_password_value, hash_password, verify_password, provider_label, only_alnum,
  first_chars, before_at, decimal,
}

-- events.py, without the correlation id.
pub data Event : Type 0 where
  api_key_issued : (user_id actor_id : String) (replaced_existing : Bool) (source : String) → Event
  user_registered : (user_id : String) (actor_id : Option String) (method source : String) → Event
  user_admin_status_changed :
      (user_id : String) (actor_id : Option String) (old_is_admin new_is_admin : Bool)
      (source : String)
      → Event
  user_suspended : (user_id : String) (actor_id : Option String) (suspended : Bool) → Event
  -- The changes are pairs of the old and the new limit, under the name of the limit.
  user_limits_changed :
      (user_id : String) (actor_id : Option String) (changes : List (String × Option ℕ × Option ℕ))
      → Event
  user_password_reset : (user_id : String) (actor_id : Option String) → Event
  user_password_changed : (user_id actor_id source : String) → Event
  user_deleted :
      (user_id : String) (actor_id : Option String) (actor_kind deleted_by : String)
      (album_count media_count : ℕ)
      → Event

-- The tables, the keys that storage has deleted, and the events, each oldest first.
pub record Office : Type 0 where
  pub tables : Tables
  pub storage_deletes : List String
  pub events : List Event

abbrev pub emit : Event → Exec Office (Unit {0})
emit e w = (ok tt, record w { events = w.events ++ e ∷ [] })

-- Calls of the repository: one that may raise, and one that may not.
abbrev pub query : {A : Type 0} → (Tables → Result A × Tables) → Exec Office A
query f w = let (r, t) = f w.tables in (r, record w { tables = t })

abbrev pub run : (Tables → Tables) → Exec Office (Unit {0})
run f w = (ok tt, record w { tables = f w.tables })

abbrev pub user_not_found : Exception
user_not_found = http 404 "User not found."

abbrev pub not_allowed : Exception
not_allowed = http 403 "User is not allowed to authenticate."

abbrev pub invalid_credentials : Exception
invalid_credentials = http 401 "Invalid credentials."

abbrev pub is_there {ℓ} : {A : Type ℓ} → Option A → Bool
is_there none = false
is_there (some a) = true

pub record UserCreateInput : Type 0 where
  pub username : String
  pub email : String
  pub password : Option String
  pub is_admin : Bool
  pub quota_bytes : Option ℕ
  pub rate_limit_rpm : Option ℕ
  pub rate_limit_bph : Option ℕ

-- `self._require_password_value(payload.password, …)` if there is one
abbrev pub check_password : Option String → Result (Unit {0})
check_password none = ok tt
check_password (some password) = elim (require_password_value password "Password") [
  | ok _ ↦ ok tt
  | raise e ↦ raise e
]

-- `self._hash_password(payload.password) if payload.password else None`
abbrev pub hash_given : Outside → Option String → Result (Option String)
hash_given lib none = ok none
hash_given lib (some password) =
    if str_eq password ""
    then ok none
    else (elim (hash_password lib password) [ ok h ↦ ok (some h) | raise e ↦ raise e ])

abbrev pub new_user :
    ℕ → (id username email : String) (password_hash : Option String) → UserCreateInput → User
new_user now id username email password_hash payload = record {
  id = id;
  username = username;
  email = email;
  password_hash = password_hash;
  is_admin = payload.is_admin;
  suspended = false;
  quota_bytes = payload.quota_bytes;
  rate_limit_rpm = payload.rate_limit_rpm;
  rate_limit_bph = payload.rate_limit_bph;
  created_at = now;
  updated_at = now;
}

-- The actor that is told: the one that is given, or the user where it registers itself.
abbrev pub registrant : (method : String) (actor_id : Option String) (id : String) → Option String
registrant method (some a) id = some a
registrant method none id = if str_eq method "registration" then some id else none

-- `correlation_id` is given where `told` is true.
abbrev pub emit_if : (told : Bool) → Event → Exec Office (Unit {0})
emit_if true e = emit e
emit_if false e = pure tt

unfoldable pub create_user :
    Outside
    → ℕ
    → (id : String) → UserCreateInput
    → (method : String) (told : Bool) (actor_id : Option String) (source : String)
    → Exec Office User
unfolding strip require_password_value hash_password get_user_by_username get_user_by_email
    Users.create_user
create_user lib now id payload method told actor_id source = do
  let username = strip payload.username
  let email = lib.lower (strip payload.email)
  raise_if (str_eq username "") (http 400 "Username is required.")
  raise_if (str_eq email "") (http 400 "Email is required.")
  lift (check_password payload.password)
  same_name ← gets (λ w. get_user_by_username w.tables username)
  raise_if (is_there same_name) (http 409 "Username already exists.")
  same_email ← gets (λ w. get_user_by_email w.tables email)
  raise_if (is_there same_email) (http 409 "Email already exists.")
  password_hash ← lift (hash_given lib payload.password)
  let user = new_user now id username email password_hash payload
  query (λ t. Users.create_user t user)
  emit_if told (user_registered id (registrant method actor_id id) method source)
  pure user

pub record LocalLoginInput : Type 0 where
  pub login : String
  pub password : String

-- The user by email, else by name.
abbrev pub find_login : Outside → Tables → String → Option User
find_login lib t login = elim (get_user_by_email t (lib.lower login)) [
  | some u ↦ some u
  | none ↦ get_user_by_username t login
]

-- `if user is None or user.password_hash is None` and what follows
abbrev pub check_login : Outside → (password : String) → Option User → Result User
check_login lib password none = raise invalid_credentials
check_login lib password (some u) = elim u.password_hash [
  | none ↦ raise invalid_credentials
  | some password_hash ↦
      if u.suspended
      then raise not_allowed
      else if not (verify_password lib password password_hash)
      then raise invalid_credentials
      else ok u
]

unfoldable pub authenticate_local_user : Outside → LocalLoginInput → Tables → Result User
unfolding strip get_user_by_email get_user_by_username verify_password
authenticate_local_user lib payload t =
    let login = strip payload.login in
    if str_eq login "" || str_eq payload.password ""
    then raise (http 400 "Login and password are required.")
    else check_login lib payload.password (find_login lib t login)
