-- ===== src/Albums.antt =====
-- src/imghost/service.py, the operations on albums: access, the title and the cover, the order of
-- the items, deletion. `now` is the value of `utcnow()` during the call.
pub mod Access
pub mod Reorder
pub mod Update
pub mod Deletion
pub mod ItemDeletion
pub mod Expiry
use imghost.Prelude.{
  ℕ, ◌+◌, String, Bool, true, false, not, Option, none, some, List, [], ◌∷◌, ◌++◌, ◌&&◌, ◌||◌, leb,
  length, sum_by, find, str_eq, if◌then◌else◌,
}
use Prim.Native.String.{◌++◌ as append}
use imghost.Prelude.Int.{ℤ}
use imghost.Text.{strip, truthy, opt_eq, or_none}
use imghost.Http.{
  Exception, http, lookup_error, Result, ok, raise, Exec, ◌>>=◌, ◌>>◌, pure, throw, lift, gets,
  raise_if, or_raise,
}
use imghost.Models.{User, Album, Media}
use imghost.Repository
use imghost.Repository.{
  Db, has_media_id, get_album, get_media, list_album_media, update_media_positions,
}
use imghost.Repository.Rebalance.{needs_rebalance, spread_positions}

-- events.py, without the correlation id: what the bus is told. Each has the actor's kind and
-- the source.
pub data Event : Type 0 where
  album_created : (album_id : String) (user_id : Option String) (actor_kind source : String) → Event
  media_uploaded :
      (media_id album_id : String) (user_id : Option String) (file_size : ℕ)
      (media_type format actor_kind source : String)
      → Event
  album_deleted :
      (album_id : String) (user_id actor_id : Option String) (item_count total_size : ℕ)
      (actor_kind source : String)
      → Event
  album_title_changed :
      (album_id : String) (user_id actor_id old_title new_title : Option String)
      (actor_kind source : String)
      → Event
  album_cover_set :
      (album_id : String) (user_id actor_id media_id : Option String) (actor_kind source : String)
      → Event
  album_reordered :
      (album_id : String) (user_id actor_id : Option String) (actor_kind source : String) → Event
  album_expiry_changed :
      (album_id : String) (user_id actor_id : Option String) (actor_kind : String)
      (old_expiry new_expiry : Option ℕ) (source : String)
      → Event
  media_deleted :
      (media_id album_id : String) (user_id actor_id : Option String) (file_size : ℕ)
      (actor_kind source : String)
      → Event

-- The database, the keys that storage was asked to delete (whether or not it could: the service
-- only logs a failure), and the events emitted, each oldest first.
pub record World : Type 0 where
  pub db : Db
  pub storage_deletes : List String
  pub events : List Event

abbrev pub emit : Event → Exec World (Unit {0})
emit e w = (ok tt, record w { events = w.events ++ e ∷ [] })

-- A call of the repository.
abbrev pub query : {A : Type 0} → (Db → Result A × Db) → Exec World A
query f w = let (r, db) = f w.db in (r, record w { db = db })

abbrev pub album_not_found : Exception
album_not_found = http 404 "Album not found."

-- web/display_helpers.py
unfoldable pub is_expired : ℕ → Option ℕ → Bool
is_expired now expires_at = elim expires_at [ none ↦ false | some t ↦ leb t now ]

unfoldable pub actor_kind : Option User → Option String → Bool → String
actor_kind actor_user delete_token system = if system then "system" else elim actor_user [
  | some u ↦ if u.is_admin then "admin" else "user"
  | none ↦ if truthy delete_token then "delete_token" else "anonymous"
]

unfoldable pub require_delete_token : Album → Option String → Result (Unit {0})
require_delete_token album delete_token =
    if truthy album.delete_token && not (opt_eq delete_token album.delete_token)
    then raise (http 403 "Invalid delete token.")
    else ok tt

may_manage : Album → Option User → Bool
may_manage album actor_user = elim actor_user [
  | none ↦ false
  | some u ↦ u.is_admin || opt_eq album.user_id (some u.id)
]

ask_token : Album → Option String → Result (Unit {0})
unfolding require_delete_token
ask_token album delete_token = elim album.delete_token [
  | none ↦ raise (http 403 "Album access denied.")
  | some _ ↦ require_delete_token album delete_token
]

unfoldable pub require_album_access :
    ℕ → Album → Option String → Option User → (allow_expired : Bool) → Result (Unit {0})
unfolding is_expired may_manage ask_token
require_album_access now album delete_token actor_user allow_expired =
    if not allow_expired && is_expired now album.expires_at
    then raise album_not_found
    else if may_manage album actor_user
    then ok tt
    else ask_token album delete_token

-- A field of a request: absent (`UNSET`), null, a text, or a value of another type.
pub data Field : Type 0 where
  unset null other_value : Field
  text : String → Field

unfoldable pub normalize_title : Field → Result (Option String)
unfolding strip
normalize_title null = ok none
normalize_title (text s) = ok (or_none (strip s))
normalize_title _ = raise (http 400 "Invalid title.")

unfoldable pub normalize_cover_media_id : Field → List Media → Result (Option String)
unfolding find
normalize_cover_media_id null items = ok none
normalize_cover_media_id (text s) items = elim (find (has_media_id s) items) [
  | none ↦ raise (http 404 "Cover media not found in album.")
  | some _ ↦ ok (some s)
]
normalize_cover_media_id _ items = raise (http 400 "Invalid cover_media_id.")

abbrev pub id_of : Option User → Option String
id_of none = none
id_of (some u) = some u.id

-- "api" if actor_user else "web"
abbrev pub source_of : Option User → String
source_of none = "web"
source_of (some u) = "api"

-- `await self.repository.update_album(album)`, with `except LookupError` as the callers have it.
abbrev pub lookup_as_404 : Result Album → Result (Unit {0})
lookup_as_404 (ok _) = ok tt
lookup_as_404 (raise (lookup_error _)) = raise album_not_found
lookup_as_404 (raise e) = raise e

unfoldable pub save : ℕ → Album → Exec World (Unit {0})
unfolding Repository.update_album
save now album =
    query λ db. let (r, db') = Repository.update_album now db album in (lookup_as_404 r, db')

-- The album that the caller may manage.
unfoldable pub open_album : ℕ → String → Option String → Option User → Bool → Exec World Album
unfolding require_album_access get_album
open_album now album_id delete_token actor_user allow_expired = do
  found ← gets (λ w. get_album w.db album_id)
  album ← or_raise found album_not_found
  lift (require_album_access now album delete_token actor_user allow_expired)
  pure album

-- `if title is not UNSET: …`: the album as changed, and whether it was.
unfoldable pub change_title :
    Option String → Option User → Field → Album → Exec World (Album × Bool)
unfolding normalize_title actor_kind
change_title delete_token actor_user unset album = pure (album, false)
change_title delete_token actor_user title album = do
  normalized ← lift (normalize_title title)
  if opt_eq album.title normalized then pure (album, false) else (do
    emit (
        album_title_changed album.id album.user_id (id_of actor_user) album.title normalized
          (actor_kind actor_user delete_token false) (source_of actor_user))
    pure (record album { title = normalized }, true))

-- `if cover_media_id is not UNSET: …`
unfoldable pub change_cover :
    Option String → Option User → Field → List Media → Album × Bool → Exec World (Album × Bool)
unfolding normalize_cover_media_id actor_kind
change_cover delete_token actor_user unset items (album, changed) = pure (album, changed)
change_cover delete_token actor_user cover items (album, changed) = do
  next_cover ← lift (normalize_cover_media_id cover items)
  if opt_eq album.cover_media_id next_cover then pure (album, changed) else (do
    emit (
        album_cover_set album.id album.user_id (id_of actor_user) next_cover
          (actor_kind actor_user delete_token false) (source_of actor_user))
    pure (record album { cover_media_id = next_cover }, true))

unfoldable pub save_if : Bool → ℕ → Album → Exec World (Unit {0})
unfolding save
save_if true now album = save now album
save_if false now album = pure tt

unfoldable pub update_album :
    ℕ
    → (album_id : String) (delete_token : Option String) (actor_user : Option User)
      (title cover_media_id : Field)
    → Exec World (Album × List Media)
unfolding open_album change_title change_cover save_if list_album_media
update_album now album_id delete_token actor_user title cover_media_id = do
  album ← open_album now album_id delete_token actor_user false
  items ← gets (λ w. list_album_media w.db album_id)
  titled ← change_title delete_token actor_user title album
  covered ← change_cover delete_token actor_user cover_media_id items titled
  save_if covered.1 now covered.0
  final ← gets (λ w. list_album_media w.db album_id)
  pure (covered.0, final)

-- The loop that reads the order payload into a dict.
unfoldable pub check_order :
    List Media → List (String × ℤ) → List (String × ℤ) → Result (List (String × ℤ))
unfolding find
check_order items positions [] = ok positions
check_order items positions ((media_id, position) ∷ rest) =
    let go_on = check_order items (positions ++ (media_id, position) ∷ []) rest in
    elim (find (has_media_id media_id) items) [
      | none ↦ raise (http 404 (append "Media " (append media_id " not found in album.")))
      | some _ ↦ elim (find (λ e. str_eq e.0 media_id) positions) [
        | some _ ↦
            raise (http 400 (append "Duplicate media " (append media_id " in order payload.")))
        | none ↦ go_on
      ]
    ]

abbrev move : String → List (String × ℤ) → Exec World (List Media)
move album_id positions =
    query λ db. let (items, db') = update_media_positions db album_id positions in (ok items, db')

-- `if self._needs_rebalance(reordered): …`
unfoldable pub rebalance : String → List Media → Exec World (List Media)
unfolding needs_rebalance spread_positions update_media_positions
rebalance album_id reordered =
    if needs_rebalance reordered
    then move album_id (spread_positions 1 reordered)
    else pure reordered

abbrev pub is_empty {ℓ} : {A : Type ℓ} → List A → Bool
is_empty [] = true
is_empty (x ∷ xs) = false

unfoldable pub reorder_album :
    ℕ
    → (album_id : String) (delete_token : Option String) (order : List (String × ℤ))
      (actor_user : Option User)
    → Exec World (Album × List Media)
unfolding open_album check_order rebalance save list_album_media actor_kind
reorder_album now album_id delete_token order actor_user = do
  album ← open_album now album_id delete_token actor_user false
  items ← gets (λ w. list_album_media w.db album_id)
  raise_if (is_empty order) (http 400 "At least one position update is required.")
  positions ← lift (check_order items [] order)
  reordered ← move album_id positions
  settled ← rebalance album_id reordered
  save now album
  emit (
      album_reordered album.id album.user_id (id_of actor_user)
        (actor_kind actor_user delete_token false) (source_of actor_user))
  pure (album, settled)

abbrev pub or_zero : Option ℕ → ℕ
or_zero none = 0
or_zero (some n) = n

abbrev request_delete : String → Exec World (Unit {0})
request_delete key w = (ok tt, record w { storage_deletes = w.storage_deletes ++ key ∷ [] })

-- The thumbnail's own key: `media.thumb_key and media.thumb_key != media.storage_key`
unfoldable pub has_own_thumb : Media → Bool
has_own_thumb m = truthy m.thumb_key && not (opt_eq m.thumb_key (some m.storage_key))

-- The keys that `_delete_media_storage_keys` asks storage to delete, in its order.
unfoldable pub storage_keys : List Media → List String
unfolding has_own_thumb
storage_keys [] = []
storage_keys (m ∷ ms) = m.storage_key ∷ (elim m.thumb_key [
  | none ↦ storage_keys ms
  | some key ↦ let rest = storage_keys ms in if has_own_thumb m then key ∷ rest else rest
])

abbrev pub delete_media_storage_keys : List Media → Exec World (Unit {0})
delete_media_storage_keys ms w =
    (ok tt, record w { storage_deletes = w.storage_deletes ++ storage_keys ms })

pub record MediaDeleteResult : Type 0 where
  pub deleted_media : Media
  pub album : Option Album
  pub remaining_items : List Media
  pub album_deleted : Bool

-- The branch of `delete_media` for an album that has become empty.
unfoldable pub drop_empty_album :
    Option String → Option User → Album → Media → Exec World MediaDeleteResult
unfolding Repository.delete_album actor_kind
drop_empty_album delete_token actor_user album deleted_media = do
  (dropped, _) ← query (λ db. let (r, db') = Repository.delete_album db album.id in (ok r, db'))
  elim dropped [
    | none ↦ pure tt
    | some a ↦ emit (
        album_deleted a.id a.user_id (id_of actor_user) 0 0
          (actor_kind actor_user delete_token false) (source_of actor_user))
  ]
  pure (record {
    deleted_media = deleted_media;
    album = none;
    remaining_items = [];
    album_deleted = true;
  })

-- The branch for an album that keeps other items: the cover is cleared if it was the deleted item.
unfoldable pub keep_album : ℕ → Album → Media → List Media → Exec World MediaDeleteResult
unfolding Repository.update_album
keep_album now album deleted_media remaining w =
    let album' =
      if opt_eq album.cover_media_id (some deleted_media.id)
      then record album { cover_media_id = none }
      else album in
    let (r, db') = Repository.update_album now w.db album' in
    elim r [
      | ok _ ↦ (
        ok (record {
          deleted_media = deleted_media;
          album = some album';
          remaining_items = remaining;
          album_deleted = false;
        }),
        record w { db = db' },
      )
      | raise (lookup_error _) ↦ (
        ok (record {
          deleted_media = deleted_media;
          album = none;
          remaining_items = [];
          album_deleted = true;
        }),
        record w { db = db' },
      )
      | raise e ↦ (raise e, record w { db = db' })
    ]

unfoldable pub delete_media :
    ℕ
    → (media_id : String) (delete_token : Option String) (actor_user : Option User)
    → Exec World MediaDeleteResult
unfolding get_media open_album Repository.delete_media storage_keys list_album_media
    drop_empty_album keep_album
delete_media now media_id delete_token actor_user = do
  found ← gets (λ w. get_media w.db media_id)
  media ← or_raise found (http 404 "Media not found.")
  album ← open_album now media.album_id delete_token actor_user false
  gone ← query (λ db. let (r, db') = Repository.delete_media db media_id in (ok r, db'))
  deleted_media ← or_raise gone (http 404 "Media not found.")
  delete_media_storage_keys (deleted_media ∷ [])
  emit (
      media_deleted deleted_media.id deleted_media.album_id deleted_media.user_id (id_of actor_user)
        (deleted_media.file_size + or_zero deleted_media.thumb_size)
        (actor_kind actor_user delete_token false) (source_of actor_user))
  remaining ← gets (λ w. list_album_media w.db album.id)
  if is_empty remaining
      then drop_empty_album delete_token actor_user album deleted_media
      else keep_album now album deleted_media remaining

abbrev pub is_admin_actor : Option User → Bool
is_admin_actor none = false
is_admin_actor (some u) = u.is_admin

unfoldable pub delete_album :
    ℕ
    → (album_id : String) (delete_token : Option String) (actor_user : Option User)
    → Exec World (Album × List Media)
unfolding open_album Repository.delete_album storage_keys actor_kind
delete_album now album_id delete_token actor_user = do
  album ← open_album now album_id delete_token actor_user (is_admin_actor actor_user)
  (dropped, media) ← query (λ db. let (r, db') = Repository.delete_album db album_id in (ok r, db'))
  deleted ← or_raise dropped album_not_found
  delete_media_storage_keys media
  emit (
      album_deleted deleted.id deleted.user_id (id_of actor_user) (length media)
        (sum_by (λ m. m.file_size + or_zero m.thumb_size) media)
        (actor_kind actor_user delete_token false) "web")
  pure (deleted, media)
