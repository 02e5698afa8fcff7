-- ===== src/Examples/Accounts.antt =====
-- Accounts at concrete calls.
use Prim.Native.String.{◌++◌ as append}
use imghost.Prelude.{
  ℕ, ◌≡◌, ◌⊎◌, ◌≤◌, refl, ap, String, true, false, not, Option, none, some, List, [], ◌∷◌, ◌++◌,
  ◌||◌, keep, length, arith, eq_iff, eq_refl, str_eq,
}
use imghost.Text.{strip, opt_eq}
use imghost.Http.{Exception, other, ok, raise, ◌>>=◌}
use imghost.Models.{User, UserSsoLink}
use imghost.Users
use imghost.Users.{
  Tables, get_user, get_user_by_email, get_user_by_username, get_api_key_for_user,
  list_user_sso_links, list_user_albums, list_user_media, delete_user_sso_link,
}
use imghost.Cleanup.{storage_keys_for_media}
use imghost.Accounts.{Office, UserCreateInput, create_user, authenticate_local_user, is_there}
use imghost.Accounts.Support.{Outside, max_password_bytes, verify_password}
use imghost.Accounts.Changes.{revoke_sharex_delete_capabilities_for_user, delete_user_by_id}
use imghost.Accounts.OAuthLogin.{
  OAuthIdentity, existing_link, is_nil, remaining_links, disconnect_oauth_provider,
  complete_oauth_login,
}
use imghost.Accounts.Logins.{create_user-signs_in, authenticate_local_user-checks}
use imghost.Accounts.Links.{Entered, LinksTo, disconnect-keeps_login, complete_oauth_login-links}
use imghost.Accounts.Removal.{OwnedTogether, delete_user_by_id-removes, delete_user_by_id-raises}
use imghost.Examples.Data.{owner, db}

-- A hash that tells passwords apart by their length.
abbrev strokes : List ℕ → String
strokes [] = ""
strokes (b ∷ bytes) = append "x" (strokes bytes)

abbrev lib : Outside
lib = record {
  lower = λ s. s;
  capitalize = λ s. s;
  hashpw = strokes;
  checkpw = λ bytes hash. some (str_eq (strokes bytes) hash);
  sha256 = λ s. s;
}

checks :
    (bytes : List ℕ)
    → length bytes ≤ max_password_bytes
    → lib.checkpw bytes (lib.hashpw bytes) ≡ some true
checks bytes short = ap some (eq_refl (strokes bytes))

abbrev link : String → UserSsoLink
link provider = record {
  id = provider;
  user_id = "u1";
  provider = provider;
  provider_uid = "7";
  linked_at = 0;
}

-- A user with two links and no password, an album and two items.
abbrev pub tables : Tables
tables = record {
  library = db;
  users = owner ∷ [];
  api_keys = [];
  user_sso_links = link "google" ∷ link "github" ∷ [];
  oauth_state_nonces = [];
  sharex_delete_capabilities = [];
}

abbrev office : Office
office = record { tables = tables; storage_deletes = []; events = [] }

abbrev payload : UserCreateInput
payload = record {
  username = " bob ";
  email = " bob@example.org";
  password = some "eightlong";
  is_admin = false;
  quota_bytes = none;
  rate_limit_rpm = none;
  rate_limit_bph = none;
}

abbrev bob : User
bob = record owner {
  id = "u2";
  username = "bob";
  email = "bob@example.org";
  password_hash = some "xxxxxxxxx";
  created_at = 5;
  updated_at = 5;
}

abbrev with_bob : Office
with_bob = record office { tables = record tables { users = owner ∷ bob ∷ [] } }

adds_bob : create_user lib 5 "u2" payload "admin" false none "api" office ≡ (ok bob, with_bob)
unfolding create_user ◌>>=◌
adds_bob = refl

create_user-signs_in_example :
    authenticate_local_user lib
      (record { login = " bob@example.org"; password = "eightlong" })
      with_bob.tables
    ≡ ok bob
create_user-signs_in_example =
    create_user-signs_in lib checks refl 5 "u2" payload "admin" false none "api" "eightlong" office
      refl adds_bob

by_name :
    authenticate_local_user lib (record { login = "bob "; password = "eightlong" }) with_bob.tables
    ≡ ok bob
unfolding authenticate_local_user
by_name = refl

authenticate_local_user-checks_example :
    (h : String) × (bob.password_hash ≡ some h)
    × (verify_password lib "eightlong" h ≡ true)
    × (bob.suspended ≡ false)
    × ((bob.email ≡ lib.lower (strip "bob ")) ⊎ (bob.username ≡ strip "bob "))
authenticate_local_user-checks_example =
    authenticate_local_user-checks lib with_bob.tables
      (record { login = "bob "; password = "eightlong" }) by_name

abbrev one_link : Office
one_link = record office { tables = record tables { user_sso_links = link "github" ∷ [] } }

disconnects : disconnect_oauth_provider lib owner "google" office ≡ (ok tt, one_link)
unfolding disconnect_oauth_provider ◌>>=◌
disconnects = refl

disconnect-keeps_login_example :
    (is_there owner.password_hash || not (is_nil (list_user_sso_links one_link.tables "u1")) ≡ true)
    × (list_user_sso_links one_link.tables "u1" ≡ remaining_links tables "u1" "google")
    × (list_user_sso_links one_link.tables "u2" ≡ list_user_sso_links tables "u2")
disconnect-keeps_login_example =
    disconnect-keeps_login lib owner "google" office "u2" disconnects
      (λ e. ground (arith, eq_iff "u2" "u1"))

abbrev identity : OAuthIdentity
identity = record {
  provider = "google";
  provider_uid = "7";
  email = "ann@example.org";
  email_verified = true;
  display_name = none;
}

enters :
    complete_oauth_login lib 5 "u2" "l3" identity none true false "web" office
    ≡ (ok (owner, existing_link), office)
unfolding complete_oauth_login ◌>>=◌
enters = refl

complete_oauth_login-links_example :
    (true ≡ true)
    × LinksTo lib 5 "u2" "l3" identity none true false "web" tables owner
    × Entered lib 5 "u2" "l3" identity none true false "web" tables (owner, existing_link) office
complete_oauth_login-links_example =
    complete_oauth_login-links lib 5 "u2" "l3" identity none true false "web" office enters

found : get_user tables "u1" ≡ some owner
unfolding get_user
found = refl

-- Storage that deletes everything, and storage that deletes nothing.
abbrev no_failure : String → Option Exception
no_failure key = none

abbrev failure : String → Option Exception
failure key = some (other "disk")

abbrev counts : ℕ × ℕ
counts = (1, 2)

abbrev emptied : Office
emptied = (delete_user_by_id no_failure 5 "u1" "admin" none office).1

deletes : delete_user_by_id no_failure 5 "u1" "admin" none office ≡ (ok counts, emptied)
unfolding delete_user_by_id ◌>>=◌ opt_eq
deletes = refl

together : OwnedTogether tables "u1"
unfolding opt_eq Users.in_album_of
together = (refl, (refl, tt))

delete_user_by_id-removes_example :
    (get_user emptied.tables "u1" ≡ none)
    × (get_api_key_for_user emptied.tables "u1" ≡ none)
    × (list_user_sso_links emptied.tables "u1" ≡ [])
    × (list_user_albums emptied.tables "u1" ≡ [])
    × (emptied.tables.library.media ≡ keep (λ m. not (opt_eq m.user_id (some "u1"))) db.media)
    × (emptied.storage_deletes ≡ [] ++ storage_keys_for_media (list_user_media tables "u1"))
    × (counts ≡ (length (list_user_albums tables "u1"), length (list_user_media tables "u1")))
delete_user_by_id-removes_example =
    delete_user_by_id-removes no_failure 5 "u1" "admin" none office found together deletes

disk_fails : delete_user_by_id failure 5 "u1" "admin" none office ≡ (raise (other "disk"), office)
unfolding delete_user_by_id ◌>>=◌ opt_eq
disk_fails = refl

delete_user_by_id-raises_example : tables ≡ revoke_sharex_delete_capabilities_for_user 5 "u1" tables
delete_user_by_id-raises_example =
    delete_user_by_id-raises failure 5 "u1" "admin" none office found disk_fails
