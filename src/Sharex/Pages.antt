-- ===== src/Sharex/Pages.antt =====
-- src/imghost/web/pages.py: the three handlers of /sharex/delete. A cookie that is absent is an empty
-- text; what the templates make of a page is left out.
use imghost.Prelude.{
  ℕ, String, Bool, false, not, Option, none, some, List, keep, length, ◌&&◌, ◌||◌, leb, str_eq,
  if◌then◌else◌,
}
use imghost.Text.{opt_eq}
use imghost.Http.{
  Exception, Result, ok, raise, http, Exec, ◌>>=◌, ◌>>◌, pure, lift, gets, raise_if, or_raise,
}
use imghost.Models.{Album, ShareXDeleteCapability}
use imghost.Repository.{Db, get_album, list_album_media}
use imghost.Albums
use imghost.Albums.{World}
use imghost.Users.{Tables, get_user}
use imghost.Accounts.{is_there}
use imghost.Ids.{is_valid_id, album_id_length}
use imghost.Sharex.{
  get_sharex_delete_capability, touch_sharex_delete_capability, consume_sharex_delete_capability,
}
use imghost.Sharex.Tokens.{
  Outside, ShareXDeleteConfirmationPayload, split_capability_token, verify_capability_secret,
  dumps_confirmation, loads_confirmation, sharex_delete_confirm_seconds,
}

-- The tables, the keys that storage was asked to delete, and the events of albums.
pub record Site : Type 0 where
  pub tables : Tables
  pub storage_deletes : List String
  pub events : List Albums.Event

-- A redirection to the confirmation with its cookie, or a page.
pub data Reply : Type 0 where
  to_confirmation : (album_id cookie : String) → Reply
  confirm_page : (album_id : String) (title : Option String) (item_count : ℕ) → Reply
  deleted_page : (album_id : String) (title : Option String) (item_count : ℕ) → Reply

abbrev pub invalid_url : Exception
invalid_url = http 403 "Invalid ShareX deletion URL."

abbrev pub invalid_confirmation : Exception
invalid_confirmation = http 403 "ShareX deletion confirmation expired or is invalid."

abbrev pub not_found : Exception
not_found = http 404 "Not Found"

abbrev pub run : (Tables → Tables) → Exec Site (Unit {0})
run f s = (ok tt, record s { tables = f s.tables })

-- A call of the service of albums. ON DELETE CASCADE: the capabilities of an album that is gone go
-- with it.
abbrev pub without_orphans : Tables → Db → Tables
without_orphans t db = record t {
  library = db;
  sharex_delete_capabilities =
      keep (λ c. is_there (get_album db c.album_id)) t.sharex_delete_capabilities;
}

abbrev pub world_of : Site → World
world_of s = record {
  db = s.tables.library;
  storage_deletes = s.storage_deletes;
  events = s.events;
}

abbrev pub call : {A : Type 0} → Exec World A → Exec Site A
call m s =
    let (r, w) = m (world_of s) in
    (
      r,
      record {
        tables = without_orphans s.tables w.db;
        storage_deletes = w.storage_deletes;
        events = w.events;
      },
    )

abbrev pub is_owned_by : Option Album → String → Bool
is_owned_by none user_id = false
is_owned_by (some album) user_id = opt_eq album.user_id (some user_id)

abbrev pub split : Option String → Result (String × String)
split none = raise (http 403 "Missing ShareX deletion token.")
split (some token) =
    if str_eq token ""
    then raise (http 403 "Missing ShareX deletion token.")
    else (elim (split_capability_token token) [ none ↦ raise invalid_url | some parts ↦ ok parts ])

abbrev pub is_spent : ℕ → ShareXDeleteCapability → Bool
is_spent now c = is_there c.revoked_at || is_there c.consumed_at || leb c.expires_at now

unfoldable pub sharex_delete_entry :
    Outside
    → (secret_key : String) → ℕ
    → (album_id : String) (token : Option String) → Exec Site Reply
unfolding is_valid_id split_capability_token get_sharex_delete_capability verify_capability_secret
    get_album touch_sharex_delete_capability dumps_confirmation
sharex_delete_entry o secret_key now album_id token = do
  raise_if (not (is_valid_id o.lower album_id album_id_length)) not_found
  (selector, secret) ← lift (split token)
  found ← gets (λ s. get_sharex_delete_capability s.tables selector)
  capability ← or_raise found invalid_url
  raise_if (not (str_eq capability.purpose "sharex_delete_album")) invalid_url
  raise_if (not (str_eq capability.album_id album_id)) invalid_url
  raise_if (is_spent now capability) invalid_url
  verified ← lift (verify_capability_secret o capability secret)
  raise_if (not verified) invalid_url
  album ← gets (λ s. get_album s.tables.library album_id)
  raise_if (not (is_owned_by album capability.user_id)) invalid_url
  run (touch_sharex_delete_capability now selector)
  pure (
      to_confirmation album_id (
        dumps_confirmation o secret_key now (record {
          selector = selector;
          album_id = album_id;
          user_id = capability.user_id;
          created_at = none;
        })))

abbrev pub checked_album :
    (album_id : String)
    → Result (Option ShareXDeleteConfirmationPayload)
    → Result ShareXDeleteConfirmationPayload
checked_album album_id (raise e) = raise e
checked_album album_id (ok none) = raise invalid_confirmation
checked_album album_id (ok (some payload)) =
    if str_eq payload.album_id album_id then ok payload else raise invalid_confirmation

-- `_load_sharex_confirmation`
unfoldable pub load_sharex_confirmation :
    Outside
    → (secret_key : String) → ℕ
    → (cookie album_id : String) → Result ShareXDeleteConfirmationPayload
unfolding loads_confirmation
load_sharex_confirmation o secret_key now cookie album_id =
    if str_eq cookie ""
    then raise (http 403 "Missing ShareX deletion confirmation.")
    else checked_album album_id
        (loads_confirmation o secret_key now cookie sharex_delete_confirm_seconds)

-- `album is None and capability.consumed_at is not None`
abbrev pub is_already_gone : Option Album → ShareXDeleteCapability → Bool
is_already_gone album c = not (is_there album) && is_there c.consumed_at

abbrev pub title_of : Option Album → Option String
title_of none = none
title_of (some album) = album.title

unfoldable pub sharex_delete_confirm_page :
    Outside → (secret_key : String) → ℕ → (album_id cookie : String) → Exec Site Reply
unfolding is_valid_id load_sharex_confirmation get_sharex_delete_capability get_album
    list_album_media
sharex_delete_confirm_page o secret_key now album_id cookie = do
  raise_if (not (is_valid_id o.lower album_id album_id_length)) not_found
  confirmation ← lift (load_sharex_confirmation o secret_key now cookie album_id)
  found ← gets (λ s. get_sharex_delete_capability s.tables confirmation.selector)
  album ← gets (λ s. get_album s.tables.library album_id)
  capability ← or_raise found invalid_url
  raise_if (not (str_eq capability.purpose "sharex_delete_album")) invalid_url
  raise_if (is_there capability.revoked_at || leb capability.expires_at now) invalid_url
  if is_already_gone album capability then pure (deleted_page album_id none 0) else do
    raise_if (not (is_owned_by album confirmation.user_id)) invalid_url
    items ← gets (λ s. list_album_media s.tables.library album_id)
    pure (confirm_page album_id (title_of album) (length items))

-- The answer where no row was consumed.
abbrev pub is_deleted_already :
    ShareXDeleteConfirmationPayload → Option ShareXDeleteCapability → Option Album → Bool
is_deleted_already confirmation none album = false
is_deleted_already confirmation (some current) album =
    str_eq current.user_id confirmation.user_id
    && is_there current.consumed_at
    && not (is_there album)

unfoldable pub answer_unconsumed :
    (album_id : String) → ShareXDeleteConfirmationPayload → Exec Site Reply
unfolding get_sharex_delete_capability get_album
answer_unconsumed album_id confirmation = do
  current ← gets (λ s. get_sharex_delete_capability s.tables confirmation.selector)
  album ← gets (λ s. get_album s.tables.library album_id)
  if is_deleted_already confirmation current album
      then pure (deleted_page album_id none 0)
      else lift (raise invalid_confirmation)

unfoldable pub delete_for : ℕ → (album_id : String) → ShareXDeleteCapability → Exec Site Reply
unfolding get_user Albums.delete_album
delete_for now album_id capability = do
  found ← gets (λ s. get_user s.tables capability.user_id)
  actor_user ← or_raise found invalid_confirmation
  (deleted_album, items) ← call (Albums.delete_album now album_id none (some actor_user))
  pure (deleted_page deleted_album.id deleted_album.title (length items))

-- The update in a transaction of its own.
abbrev pub consume : ℕ → (selector album_id : String) → Exec Site (Option ShareXDeleteCapability)
consume now selector album_id s =
    let (c, t) = consume_sharex_delete_capability now selector album_id s.tables in
    (ok c, record s { tables = t })

unfoldable pub sharex_delete_confirm_submit :
    Outside → (secret_key : String) → ℕ → (album_id cookie : String) → Exec Site Reply
unfolding is_valid_id load_sharex_confirmation consume_sharex_delete_capability answer_unconsumed
    delete_for
sharex_delete_confirm_submit o secret_key now album_id cookie = do
  raise_if (not (is_valid_id o.lower album_id album_id_length)) not_found
  confirmation ← lift (load_sharex_confirmation o secret_key now cookie album_id)
  capability ← consume now confirmation.selector album_id
  elim capability [
    | none ↦ answer_unconsumed album_id confirmation
    | some c ↦ delete_for now album_id c
  ]
