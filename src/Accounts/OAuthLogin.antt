-- ===== src/Accounts/OAuthLogin.antt =====
-- account_service.py: signing in with the account of another provider, and the confirmation that a
-- deletion asks for.
use Prim.Native.String.{◌++◌ as append}
use imghost.Prelude.{
  ℕ, zero, suc, String, Bool, true, false, not, Option, none, some, List, [], ◌∷◌, ◌&&◌, ◌||◌, keep,
  find, length, str_eq, ◌==◌, if◌then◌else◌,
}
use imghost.Text.{strip}
use imghost.Http.{
  Exception, http, Result, ok, raise, Exec, ◌>>=◌, ◌>>◌, pure, lift, gets, raise_if, or_raise,
}
use imghost.Models.{User, UserSsoLink}
use imghost.Users.{
  Tables, get_user, get_user_by_email, get_user_by_username, get_user_sso_link,
  create_user_sso_link, list_user_sso_links, delete_user_sso_link,
}
use imghost.Accounts.Support.{
  Outside, verify_password, provider_label, only_alnum, first_chars, before_at, decimal,
}
use imghost.Accounts.{Office, query, run, is_there, not_allowed, UserCreateInput, create_user}

-- oauth/base.py; the address of the picture is not read.
pub record OAuthIdentity : Type 0 where
  pub provider : String
  pub provider_uid : String
  pub email : String
  pub email_verified : Bool
  pub display_name : Option String

abbrev pub text : List String → String
text [] = ""
text (s ∷ ss) = append s (text ss)

-- The seed of a username: the name that is shown, else what stands before the `@`.
abbrev pub seed_of : Outside → OAuthIdentity → String
seed_of lib identity = elim identity.display_name [
  | none ↦ before_at identity.email
  | some name ↦
      if str_eq (only_alnum (lib.lower name)) ""
      then before_at identity.email
      else only_alnum (lib.lower name)
]

abbrev pub candidate_of : Outside → OAuthIdentity → String
candidate_of lib identity =
    let normalized = first_chars 20 (only_alnum (lib.lower (seed_of lib identity))) in
    if str_eq normalized "" then "user" else normalized

-- The loop over `range(2, 1000)`: the rounds that are left, and the index.
unfoldable pub try_numbers : Tables → (candidate : String) (rounds index : ℕ) → Option String
try_numbers t candidate zero index = none
try_numbers t candidate (suc rounds) index =
    let next_candidate = append (first_chars 16 candidate) (decimal index) in
    let rest = try_numbers t candidate rounds (suc index) in
    elim (get_user_by_username t next_candidate) [ none ↦ some next_candidate | some _ ↦ rest ]

unfoldable pub generate_unique_username : Outside → OAuthIdentity → Tables → Result String
unfolding get_user_by_username try_numbers only_alnum first_chars before_at decimal
generate_unique_username lib identity t =
    let candidate = candidate_of lib identity in
    elim (get_user_by_username t candidate) [
      | none ↦ ok candidate
      | some _ ↦ elim (try_numbers t candidate 998 2) [
        | some name ↦ ok name
        | none ↦ raise (http 409 "Unable to generate a unique username for this OAuth account.")
      ]
    ]

-- `_build_user_sso_link`
abbrev pub build_user_sso_link : ℕ → (id user_id provider provider_uid : String) → UserSsoLink
build_user_sso_link now id user_id provider provider_uid = record {
  id = id;
  user_id = user_id;
  provider = provider;
  provider_uid = provider_uid;
  linked_at = now;
}

pub data Way : Type 0 where
  existing_link linked created : Way

-- Another user is signed in than the one that the account is linked to.
abbrev pub is_other : Option User → User → Bool
is_other none linked_user = false
is_other (some u) linked_user = not (str_eq u.id linked_user.id)

-- The branch of an account that is linked.
unfoldable pub enter_linked :
    Outside → OAuthIdentity → (current_user : Option User) → UserSsoLink → Exec Office (User × Way)
unfolding get_user provider_label
enter_linked lib identity current_user link = do
  found ← gets (λ w. get_user w.tables link.user_id)
  linked_user ← or_raise found (http 403 "Linked account is no longer available.")
  raise_if linked_user.suspended not_allowed
  raise_if (is_other current_user linked_user) (
      http 409 (
        text (
          "This "
          ∷ provider_label lib identity.provider
          ∷ " account is already linked to a different user."
          ∷ [])))
  pure (linked_user, existing_link)

-- The branch that links the account to the user that is signed in.
unfoldable pub connect : ℕ → (link_id : String) → OAuthIdentity → User → Exec Office (User × Way)
unfolding create_user_sso_link
connect now link_id identity user = do
  query (λ t.
      create_user_sso_link t
        (build_user_sso_link now link_id user.id identity.provider identity.provider_uid))
  pure (user, linked)

abbrev pub oauth_input : (username : String) → OAuthIdentity → UserCreateInput
oauth_input username identity = record {
  username = username;
  email = identity.email;
  password = none;
  is_admin = false;
  quota_bytes = none;
  rate_limit_rpm = none;
  rate_limit_bph = none;
}

-- The branch that creates a user.
unfoldable pub register_identity :
    Outside
    → ℕ
    → (user_id link_id : String) → OAuthIdentity
    → (told : Bool) (source : String) → Exec Office (User × Way)
unfolding get_user_by_email provider_label generate_unique_username create_user create_user_sso_link
register_identity lib now user_id link_id identity told source = do
  same_email ← gets (λ w. get_user_by_email w.tables identity.email)
  raise_if (is_there same_email) (
      http 409 (
        text (
          "An account with this email already exists. Sign in locally first, then connect "
          ∷ provider_label lib identity.provider
          ∷ " from Settings."
          ∷ [])))
  name ← gets (λ w. generate_unique_username lib identity w.tables)
  username ← lift name
  new_user ← create_user lib now user_id (oauth_input username identity) "oauth" told none source
  query (λ t.
      create_user_sso_link t
        (build_user_sso_link now link_id new_user.id identity.provider identity.provider_uid))
  pure (new_user, created)

unfoldable pub complete_oauth_login :
    Outside
    → ℕ
    → (user_id link_id : String) → OAuthIdentity
    → (current_user : Option User) → (allow_registration told : Bool) (source : String)
    → Exec Office (User × Way)
unfolding strip provider_label get_user_sso_link enter_linked connect register_identity
complete_oauth_login lib now user_id link_id identity current_user allow_registration told source =
    do
      raise_if (str_eq (strip identity.provider_uid) "" || str_eq (strip identity.email) "") (
          http 403
            (append (provider_label lib identity.provider) " sign-in could not be verified."))
      raise_if (not identity.email_verified) (
          http 403 (
            text (
              "Your "
              ∷ provider_label lib identity.provider
              ∷ " account must have a verified email address."
              ∷ [])))
      link ← gets (λ w. get_user_sso_link w.tables identity.provider identity.provider_uid)
      elim link [
        | some l ↦ enter_linked lib identity current_user l
        | none ↦ elim current_user [
          | some u ↦ connect now link_id identity u
          | none ↦
              raise_if (not allow_registration) (http 403 "Registration is disabled.")
              >> register_identity lib now user_id link_id identity told source
        ]
      ]

-- The links of the user that are with other providers.
abbrev pub remaining_links : Tables → (user_id provider : String) → List UserSsoLink
remaining_links t user_id provider =
    keep (λ l. not (str_eq l.provider provider)) (list_user_sso_links t user_id)

abbrev pub is_nil {ℓ} : {A : Type ℓ} → List A → Bool
is_nil [] = true
is_nil (x ∷ xs) = false

unfoldable pub disconnect_oauth_provider :
    Outside → User → (provider : String) → Exec Office (Unit {0})
unfolding list_user_sso_links keep provider_label delete_user_sso_link
disconnect_oauth_provider lib user provider = do
  links ← gets (λ w. list_user_sso_links w.tables user.id)
  remaining ← gets (λ w. remaining_links w.tables user.id provider)
  raise_if (length remaining == length links) (http 404 "OAuth provider is not linked.")
  raise_if (not (is_there user.password_hash) && is_nil remaining) (
      http 400 (
        text (
          "You must keep at least one login method. Set a password before disconnecting "
          ∷ provider_label lib provider
          ∷ "."
          ∷ [])))
  run (λ t. delete_user_sso_link t user.id provider)

-- What `AccountDeleteReauthTokenManager.loads` gives.
pub record AccountDeleteReauthPayload : Type 0 where
  pub user_id : String
  pub provider : String
  pub provider_uid : String

pub record AccountDeletionConfirmationInput : Type 0 where
  pub method : String
  pub current_password : Option String
  pub reauth_token : Option String

abbrev pub or_empty : Option String → String
or_empty none = ""
or_empty (some s) = s

abbrev pub reauth_refused : Exception
reauth_refused = http 403 "OAuth re-authentication has expired or is invalid."

unfoldable pub confirm_by_password : Outside → User → Option String → Result (Unit {0})
unfolding strip verify_password
confirm_by_password lib user current_password = elim user.password_hash [
  | none ↦ raise (http 400 "This account does not have a local password.")
  | some h ↦
      let given = strip (or_empty current_password) in
      if str_eq given ""
      then raise (http 400 "Current password is required.")
      else if not (verify_password lib given h)
      then raise (http 403 "Current password is incorrect.")
      else ok tt
]

-- `loads` reads a token, or raises ValueError.
unfoldable pub confirm_by_oauth :
    (loads : String → Option AccountDeleteReauthPayload)
    → User
    → Option String
    → Tables
    → Result (Unit {0})
unfolding strip list_user_sso_links find
confirm_by_oauth loads user reauth_token t =
    let given = strip (or_empty reauth_token) in
    if str_eq given ""
    then raise (http 400 "OAuth re-authentication is required.")
    else (elim (loads given) [
      | none ↦ raise reauth_refused
      | some reauth ↦
          if not (str_eq reauth.user_id user.id)
          then raise reauth_refused
          else (elim (find
              (λ l. str_eq l.provider reauth.provider && str_eq l.provider_uid reauth.provider_uid)
              (list_user_sso_links t user.id)) [ none ↦ raise reauth_refused | some _ ↦ ok tt ])
    ])

unfoldable pub validate_account_deletion_confirmation :
    Outside
    → (loads : String → Option AccountDeleteReauthPayload) → User
    → AccountDeletionConfirmationInput
    → Tables
    → Result (Unit {0})
unfolding strip confirm_by_password confirm_by_oauth
validate_account_deletion_confirmation lib loads user payload t =
    let method = lib.lower (strip payload.method) in
    if str_eq method "password"
    then confirm_by_password lib user payload.current_password
    else if str_eq method "oauth_reauth"
    then confirm_by_oauth loads user payload.reauth_token t
    else raise (http 400 "Unsupported account deletion confirmation method.")
