-- ===== src/Accounts/Changes.antt =====
-- account_service.py: the changes of an account, its API key, and its deletion.
use imghost.Prelude.{
  ℕ, String, Bool, true, false, not, Option, none, some, List, [], ◌∷◌, ◌++◌, ◌&&◌, map, length,
  str_eq, ◌==◌, if◌then◌else◌,
}
use imghost.Http.{
  Exception, http, Result, ok, raise, Exec, ◌>>=◌, ◌>>◌, pure, lift, gets, raise_if, or_raise,
}
use imghost.Models.{User, ApiKey, ShareXDeleteCapability}
use imghost.Users
use imghost.Users.{
  Tables, get_user, get_api_key_for_user, upsert_api_key, list_user_albums, list_user_media,
  list_user_sso_links,
}
use imghost.Cleanup.{storage_keys_for_media}
use imghost.Accounts.Support.{Outside, require_password_value, hash_password, verify_password}
use imghost.Accounts.{
  api_key_issued, user_admin_status_changed, user_suspended, user_limits_changed,
  user_password_reset, user_password_changed, user_deleted, Office, emit, emit_if, query, run,
  user_not_found, is_there,
}

-- A limit in a request: absent (`UNSET`), or a value, null where it is no number.
pub data Limit : Type 0 where
  unset : Limit
  value : Option ℕ → Limit

pub record UserUpdateInput : Type 0 where
  pub is_admin : Option Bool
  pub suspended : Option Bool
  pub quota_bytes : Limit
  pub rate_limit_rpm : Limit
  pub rate_limit_bph : Limit
  pub password : Option String

abbrev pub opt_nat_eq : Option ℕ → Option ℕ → Bool
opt_nat_eq none none = true
opt_nat_eq none (some b) = false
opt_nat_eq (some a) none = false
opt_nat_eq (some a) (some b) = a == b

abbrev pub bool_eq : Bool → Bool → Bool
bool_eq true b = b
bool_eq false b = not b

-- repository_media.py: of the capabilities that are neither consumed nor revoked
abbrev pub revoked_at_now : ℕ → String → ShareXDeleteCapability → ShareXDeleteCapability
revoked_at_now now user_id c =
    if str_eq c.user_id user_id && not (is_there c.consumed_at) && not (is_there c.revoked_at)
    then record c { revoked_at = some now; last_seen_at = some now }
    else c

unfoldable pub revoke_sharex_delete_capabilities_for_user : ℕ → String → Tables → Tables
revoke_sharex_delete_capabilities_for_user now user_id t = record t {
  sharex_delete_capabilities = map (revoked_at_now now user_id) t.sharex_delete_capabilities;
}

unfoldable pub change_admin : (actor_id : Option String) → Option Bool → User → Exec Office User
change_admin actor_id none user = pure user
change_admin actor_id (some next) user =
    if bool_eq next user.is_admin
    then pure user
    else emit (user_admin_status_changed user.id actor_id user.is_admin next "api")
      >> pure (record user { is_admin = next })

unfoldable pub change_suspended :
    ℕ → (actor_id : Option String) → Option Bool → User → Exec Office User
unfolding revoke_sharex_delete_capabilities_for_user
change_suspended now actor_id none user = pure user
change_suspended now actor_id (some next) user =
    if bool_eq next user.suspended
    then pure user
    else (if next then run (revoke_sharex_delete_capabilities_for_user now user.id) else pure tt)
      >> emit (user_suspended user.id actor_id next)
      >> pure (record user { suspended = next })

-- The limit after the request, and the change that is told, if it is one.
abbrev pub next_limit : Limit → Option ℕ → Option ℕ
next_limit unset old = old
next_limit (value next) old = next

abbrev pub told_change : (name : String) → Limit → Option ℕ → List (String × Option ℕ × Option ℕ)
told_change name unset old = []
told_change name (value next) old = if opt_nat_eq next old then [] else (name, old, next) ∷ []

abbrev pub limits_changes : UserUpdateInput → User → List (String × Option ℕ × Option ℕ)
limits_changes payload user =
    told_change "quota_bytes" payload.quota_bytes user.quota_bytes
    ++ (told_change "rate_limit_rpm" payload.rate_limit_rpm user.rate_limit_rpm
        ++ told_change "rate_limit_bph" payload.rate_limit_bph user.rate_limit_bph)

abbrev pub with_limits : UserUpdateInput → User → User
with_limits payload user = record user {
  quota_bytes = next_limit payload.quota_bytes user.quota_bytes;
  rate_limit_rpm = next_limit payload.rate_limit_rpm user.rate_limit_rpm;
  rate_limit_bph = next_limit payload.rate_limit_bph user.rate_limit_bph;
}

-- `self._hash_password(self._require_password_value(password, label=…))`
unfoldable pub checked_hash : Outside → (label password : String) → Result String
unfolding require_password_value hash_password
checked_hash lib label password = elim (require_password_value password label) [
  | raise e ↦ raise e
  | ok p ↦ hash_password lib p
]

unfoldable pub change_hash : Outside → Option String → User → Result User
unfolding checked_hash
change_hash lib none user = ok user
change_hash lib (some password) user = elim (checked_hash lib "Password" password) [
  | raise e ↦ raise e
  | ok h ↦ ok (record user { password_hash = some h })
]

abbrev pub tell_limits :
    (actor_id : Option String)
    → String
    → List (String × Option ℕ × Option ℕ)
    → Exec Office (Unit {0})
tell_limits actor_id user_id [] = pure tt
tell_limits actor_id user_id (c ∷ cs) = emit (user_limits_changed user_id actor_id (c ∷ cs))

unfoldable pub update_user :
    Outside
    → ℕ
    → (user_id : String) → UserUpdateInput
    → (actor_id : Option String) → Exec Office User
unfolding get_user change_admin change_suspended change_hash Users.update_user
update_user lib now user_id payload actor_id = do
  found ← gets (λ w. get_user w.tables user_id)
  user ← or_raise found user_not_found
  ranked ← change_admin actor_id payload.is_admin user
  held ← change_suspended now actor_id payload.suspended ranked
  keyed ← lift (change_hash lib payload.password (with_limits payload held))
  tell_limits actor_id user.id (limits_changes payload held)
  query (λ t. Users.update_user now t keyed)
  pure keyed

unfoldable pub set_user_admin_status :
    ℕ
    → (user_id : String) (is_admin : Bool) (actor_id : Option String) (source : String)
    → Exec Office User
unfolding get_user Users.update_user
set_user_admin_status now user_id is_admin actor_id source = do
  found ← gets (λ w. get_user w.tables user_id)
  user ← or_raise found user_not_found
  if bool_eq user.is_admin is_admin then pure user else do
    let changed = record user { is_admin = is_admin }
    query (λ t. Users.update_user now t changed)
    emit (user_admin_status_changed user.id actor_id user.is_admin is_admin source)
    pure changed

unfoldable pub reset_user_password :
    Outside → ℕ → (user_id new_password : String) (actor_id : Option String) → Exec Office User
unfolding get_user checked_hash Users.update_user
reset_user_password lib now user_id new_password actor_id = do
  found ← gets (λ w. get_user w.tables user_id)
  user ← or_raise found user_not_found
  h ← lift (checked_hash lib "New password" new_password)
  let changed = record user { password_hash = some h }
  query (λ t. Users.update_user now t changed)
  emit (user_password_reset user.id actor_id)
  pure changed

-- `user.password_hash is not None and not self._verify_password(…)`
abbrev pub is_wrong : Outside → (current_password : String) → User → Bool
is_wrong lib current_password user = elim user.password_hash [
  | none ↦ false
  | some h ↦ not (verify_password lib current_password h)
]

unfoldable pub change_password :
    Outside
    → ℕ
    → User
    → (current_password new_password : String) (told : Bool) (source : String) → Exec Office User
unfolding verify_password checked_hash Users.update_user
change_password lib now user current_password new_password told source = do
  raise_if (is_wrong lib current_password user) (http 403 "Current password is incorrect.")
  h ← lift (checked_hash lib "New password" new_password)
  let changed = record user { password_hash = some h }
  query (λ t. Users.update_user now t changed)
  emit_if told (user_password_changed user.id user.id source)
  pure changed

-- `key_id` and `raw_key` are the fresh id and the random key; what is returned holds both.
unfoldable pub issue_api_key :
    Outside
    → ℕ
    → (key_id raw_key : String) → User
    → (told : Bool) (actor_id : Option String) (source : String) → Exec Office (ApiKey × String)
unfolding get_api_key_for_user upsert_api_key
issue_api_key lib now key_id raw_key user told actor_id source = do
  existing ← gets (λ w. get_api_key_for_user w.tables user.id)
  let key : ApiKey = record {
    id = key_id;
    user_id = user.id;
    key_hash = lib.sha256 raw_key;
    created_at = now;
    last_used_at = none;
  }
  run (λ t. upsert_api_key t key)
  emit_if told (
      api_key_issued user.id (elim actor_id [ some a ↦ a | none ↦ user.id ]) (is_there existing)
        source)
  pure (key, raw_key)

-- The loop over the keys; `fails` says for which keys `storage.delete` raises.
unfoldable pub delete_keys :
    (fails : String → Option Exception) → List String → Exec Office (Unit {0})
delete_keys fails [] w = (ok tt, w)
delete_keys fails (key ∷ keys) w =
    let rest =
      delete_keys fails keys (record w { storage_deletes = w.storage_deletes ++ key ∷ [] }) in
    elim (fails key) [ some e ↦ (raise e, w) | none ↦ rest ]

abbrev pub kind_of_deleter : String → String
kind_of_deleter deleted_by =
    if str_eq deleted_by "admin"
    then "admin"
    else if str_eq deleted_by "self"
    then "user"
    else "system"

unfoldable pub delete_user_by_id :
    (fails : String → Option Exception)
    → ℕ
    → (user_id deleted_by : String) (actor_id : Option String) → Exec Office (ℕ × ℕ)
unfolding get_user revoke_sharex_delete_capabilities_for_user list_user_albums list_user_media
    storage_keys_for_media delete_keys Users.delete_user
delete_user_by_id fails now user_id deleted_by actor_id = do
  found ← gets (λ w. get_user w.tables user_id)
  user ← or_raise found user_not_found
  run (revoke_sharex_delete_capabilities_for_user now user.id)
  albums ← gets (λ w. list_user_albums w.tables user.id)
  media_items ← gets (λ w. list_user_media w.tables user.id)
  delete_keys fails (storage_keys_for_media media_items)
  (gone, deleted_albums, deleted_media) ←
      query (λ t. let (r, t') = Users.delete_user t user.id in (ok r, t'))
  deleted ← or_raise gone user_not_found
  emit (
      user_deleted deleted.id actor_id (kind_of_deleter deleted_by) deleted_by
        (length deleted_albums) (length deleted_media))
  pure (length albums, length media_items)
