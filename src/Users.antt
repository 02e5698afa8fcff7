-- ===== src/Users.antt =====
-- src/imghost/repository_users.py: the users and what belongs to them. A statement of SQL is a
-- function of the rows, with the keys, the UNIQUE constraints and the cascades of
-- db/init/001-init.sql. The table `user_rate_limits` holds a row for a user exactly where one of the
-- two limits is given, and is only read by the join of USER_SELECT: its columns are those of `users`
-- here. `now` is what `now()` gives.
pub mod Rows
use imghost.Prelude.{
  ℕ, String, Bool, true, false, not, Option, none, some, List, [], ◌∷◌, ◌++◌, ◌&&◌, ◌||◌, map, keep,
  find, leb, str_eq, if◌then◌else◌,
}
use imghost.Prelude.Int.{pos}
use imghost.Prelude.Sorting.{order_by}
use imghost.Text.{opt_eq}
use imghost.Http.{Result, ok, raise, other}
use imghost.Models.{
  User, Album, Media, ApiKey, UserSsoLink, OAuthStateNonce, ShareXDeleteCapability,
}
use imghost.Repository.{Db}

pub record Tables : Type 0 where
  pub library : Db
  pub users : List User
  pub api_keys : List ApiKey
  pub user_sso_links : List UserSsoLink
  pub oauth_state_nonces : List OAuthStateNonce
  pub sharex_delete_capabilities : List ShareXDeleteCapability

abbrev pub has_user_id : String → User → Bool
has_user_id user_id u = str_eq u.id user_id

abbrev pub has_email : String → User → Bool
has_email email u = str_eq u.email email

abbrev pub has_username : String → User → Bool
has_username username u = str_eq u.username username

-- `USER_SELECT WHERE …`; the three columns are unique.
unfoldable pub get_user : Tables → String → Option User
unfolding find
get_user t user_id = find (has_user_id user_id) t.users

unfoldable pub get_user_by_email : Tables → String → Option User
unfolding find
get_user_by_email t email = find (has_email email) t.users

unfoldable pub get_user_by_username : Tables → String → Option User
unfolding find
get_user_by_username t username = find (has_username username) t.users

-- A row that the primary key or a UNIQUE column of another row forbids.
abbrev pub conflicts : User → User → Bool
conflicts user u = has_user_id user.id u || has_username user.username u || has_email user.email u

unfoldable pub create_user : Tables → User → Result User × Tables
unfolding find
create_user t user = elim (find (conflicts user) t.users) [
  | some _ ↦ (raise (other "unique_violation"), t)
  | none ↦ (ok user, record t { users = t.users ++ user ∷ [] })
]

-- The SET list of UPDATE users, with the trigger that stamps `updated_at`, and the overrides.
abbrev pub with_columns : ℕ → User → User → User
with_columns now user row = record row {
  username = user.username;
  email = user.email;
  password_hash = user.password_hash;
  is_admin = user.is_admin;
  suspended = user.suspended;
  quota_bytes = user.quota_bytes;
  rate_limit_rpm = user.rate_limit_rpm;
  rate_limit_bph = user.rate_limit_bph;
  updated_at = now;
}

abbrev pub takes_name_of : User → User → Bool
takes_name_of user u =
    not (has_user_id user.id u) && (has_username user.username u || has_email user.email u)

-- Without a row, the overrides break their foreign key or `row_to_user` is given None.
unfoldable pub update_user : ℕ → Tables → User → Result User × Tables
unfolding get_user find
update_user now t user = elim (get_user t user.id) [
  | none ↦ (raise (other "user_not_found"), t)
  | some row ↦ elim (find (takes_name_of user) t.users) [
    | some _ ↦ (raise (other "unique_violation"), t)
    | none ↦ (
      ok (with_columns now user row),
      record t {
        users = map (λ u. if has_user_id user.id u then with_columns now user u else u) t.users;
      },
    )
  ]
]

abbrev pub is_key_of : String → ApiKey → Bool
is_key_of user_id k = str_eq k.user_id user_id

unfoldable pub get_api_key_for_user : Tables → String → Option ApiKey
unfolding find
get_api_key_for_user t user_id = find (is_key_of user_id) t.api_keys

unfoldable pub get_api_key_by_hash : Tables → String → Option ApiKey
unfolding find
get_api_key_by_hash t key_hash = find (λ k. str_eq k.key_hash key_hash) t.api_keys

-- INSERT … ON CONFLICT (user_id) DO UPDATE. Ids and hashes are fresh.
unfoldable pub upsert_api_key : Tables → ApiKey → Tables
unfolding get_api_key_for_user find
upsert_api_key t key = elim (get_api_key_for_user t key.user_id) [
  | none ↦ record t { api_keys = t.api_keys ++ key ∷ [] }
  | some _ ↦ record t {
    api_keys = map (λ k. if is_key_of key.user_id k then key else k) t.api_keys;
  }
]

abbrev pub has_key_id : String → ApiKey → Bool
has_key_id id k = str_eq k.id id

-- Without a row, `row_to_api_key` is given None. The key and its user stay the same.
unfoldable pub update_api_key : Tables → ApiKey → Result ApiKey × Tables
unfolding find
update_api_key t key = elim (find (has_key_id key.id) t.api_keys) [
  | none ↦ (raise (other "'NoneType' object is not subscriptable"), t)
  | some _ ↦
      (ok key, record t { api_keys = map (λ k. if has_key_id key.id k then key else k) t.api_keys })
]

abbrev pub is_link : (provider provider_uid : String) → UserSsoLink → Bool
is_link provider provider_uid l = str_eq l.provider provider && str_eq l.provider_uid provider_uid

-- UNIQUE (provider, provider_uid), and the foreign key.
unfoldable pub create_user_sso_link : Tables → UserSsoLink → Result UserSsoLink × Tables
unfolding find get_user
create_user_sso_link t link =
    elim (find (is_link link.provider link.provider_uid) t.user_sso_links) [
      | some _ ↦ (raise (other "unique_violation"), t)
      | none ↦ elim (get_user t link.user_id) [
        | none ↦ (raise (other "foreign_key_violation"), t)
        | some _ ↦ (ok link, record t { user_sso_links = t.user_sso_links ++ link ∷ [] })
      ]
    ]

unfoldable pub get_user_sso_link : Tables → (provider provider_uid : String) → Option UserSsoLink
unfolding find
get_user_sso_link t provider provider_uid = find (is_link provider provider_uid) t.user_sso_links

abbrev pub is_link_of : String → UserSsoLink → Bool
is_link_of user_id l = str_eq l.user_id user_id

-- The order of the links, by provider and time, is left out: they are kept as they were inserted.
unfoldable pub list_user_sso_links : Tables → String → List UserSsoLink
unfolding keep
list_user_sso_links t user_id = keep (is_link_of user_id) t.user_sso_links

-- DELETE FROM user_sso_links WHERE user_id = $1 AND provider = $2
unfoldable pub delete_user_sso_link : Tables → (user_id provider : String) → Tables
unfolding keep
delete_user_sso_link t user_id provider = record t {
  user_sso_links =
      keep (λ l. not (is_link_of user_id l && str_eq l.provider provider)) t.user_sso_links;
}

unfoldable pub create_oauth_state_nonce : Tables → OAuthStateNonce → Result OAuthStateNonce × Tables
unfolding find
create_oauth_state_nonce t nonce = elim (find (λ n. str_eq n.jti nonce.jti) t.oauth_state_nonces) [
  | some _ ↦ (raise (other "unique_violation"), t)
  | none ↦ (ok nonce, record t { oauth_state_nonces = t.oauth_state_nonces ++ nonce ∷ [] })
]

abbrev pub is_live_nonce : ℕ → String → OAuthStateNonce → Bool
is_live_nonce now jti n = str_eq n.jti jti && not (leb n.expires_at now)

-- DELETE … WHERE jti = $1 AND expires_at > now() RETURNING …
unfoldable pub consume_oauth_state_nonce : ℕ → Tables → String → Option OAuthStateNonce × Tables
unfolding find keep
consume_oauth_state_nonce now t jti = (
  find (is_live_nonce now jti) t.oauth_state_nonces,
  record t { oauth_state_nonces = keep (λ n. not (is_live_nonce now jti n)) t.oauth_state_nonces },
)

unfoldable pub delete_expired_oauth_state_nonces : ℕ → Tables → Tables
unfolding keep
delete_expired_oauth_state_nonces now t = record t {
  oauth_state_nonces = keep (λ n. not (leb n.expires_at now)) t.oauth_state_nonces;
}

-- SELECT * FROM media WHERE user_id = $1 ORDER BY created_at
unfoldable pub list_user_media : Tables → String → List Media
unfolding order_by keep
list_user_media t user_id =
    order_by (λ m. pos m.created_at) (keep (λ m. opt_eq m.user_id (some user_id)) t.library.media)

abbrev pub owned_by : String → Album → Bool
owned_by user_id a = opt_eq a.user_id (some user_id)

unfoldable pub list_user_albums : Tables → String → List Album
unfolding order_by keep
list_user_albums t user_id =
    order_by (λ a. pos a.created_at) (keep (owned_by user_id) t.library.albums)

unfoldable pub list_users : Tables → List User
unfolding order_by
list_users t = order_by (λ u. pos u.created_at) t.users

-- Whether an album is one of the user's.
unfoldable pub in_album_of : Tables → (user_id album_id : String) → Bool
unfolding find
in_album_of t user_id album_id =
    elim (find (λ a. str_eq a.id album_id && owned_by user_id a) t.library.albums) [
      | none ↦ false
      | some _ ↦ true
    ]

-- `media.user_id = $1 OR albums.user_id = $1`, over the LEFT JOIN
abbrev pub goes_with : Tables → String → Media → Bool
goes_with t user_id m = opt_eq m.user_id (some user_id) || in_album_of t user_id m.album_id

-- ON DELETE SET NULL of `media.user_id`
abbrev pub disowned : String → Media → Media
disowned user_id m = if opt_eq m.user_id (some user_id) then record m { user_id = none } else m

-- DELETE FROM users, and where the foreign keys cascade: the albums with their media and
-- capabilities, the keys, links, nonces and capabilities of the user.
unfoldable pub without_user : Tables → String → Tables
unfolding keep in_album_of
without_user t user_id = record t {
  library = record {
    albums = keep (λ a. not (owned_by user_id a)) t.library.albums;
    media =
        map (disowned user_id) (keep (λ m. not (in_album_of t user_id m.album_id)) t.library.media);
  };
  users = keep (λ u. not (has_user_id user_id u)) t.users;
  api_keys = keep (λ k. not (is_key_of user_id k)) t.api_keys;
  user_sso_links = keep (λ l. not (is_link_of user_id l)) t.user_sso_links;
  oauth_state_nonces = keep (λ n. not (opt_eq n.user_id (some user_id))) t.oauth_state_nonces;
  sharex_delete_capabilities =
      keep (λ c. not (str_eq c.user_id user_id || in_album_of t user_id c.album_id))
        t.sharex_delete_capabilities;
}

unfoldable pub delete_user : Tables → String → (Option User × List Album × List Media) × Tables
unfolding get_user order_by keep without_user list_user_albums
delete_user t user_id = elim (get_user t user_id) [
  | none ↦ ((none, [], []), t)
  | some user ↦ (
    (
      some user,
      list_user_albums t user_id,
      order_by (λ m. pos m.created_at) (keep (goes_with t user_id) t.library.media),
    ),
    without_user t user_id,
  )
]
