-- ===== src/Uploads.antt =====
-- src/imghost/service.py, `upload` with what it calls: the bounded read, the quotas, the album that the
-- item goes to, the new item, and the roll back.
pub mod Upload
pub mod Prepared
pub mod Filled
pub mod Reading
pub mod Quotas
pub mod Rollback
use imghost.Prelude.{
  ℕ, ◌+◌, String, Bool, true, false, not, Option, none, some, List, [], ◌∷◌, ◌++◌, ◌&&◌, ltb, leb,
  ◌==◌, length, sum_by, keep, str_eq, if◌then◌else◌,
}
use Prim.Native.String.{◌++◌ as append}
use imghost.Prelude.Int.{pos}
use imghost.Text.{truthy, opt_eq}
use imghost.Http.{
  Exception, http, Result, ok, raise, Exec, ◌>>=◌, ◌>>◌, pure, throw, lift, gets, raise_if,
  or_raise,
}
use imghost.Models.{User, Album, MediaInfo, Media, pending}
use imghost.Repository
use imghost.Repository.{
  Db, get_album, get_media, list_album_media, create_album, create_media_with_next_position,
}
use imghost.RateLimits.{UploadLimits, InMemoryRateLimiter, enforce_upload_limits, or_default}
use imghost.Albums.{
  World, Event, album_created, media_uploaded, is_expired, actor_kind, require_album_access,
  album_not_found, id_of, is_empty, or_zero, has_own_thumb, lookup_as_404,
}

-- What `runtime_config` gives, with the time that `anon_expiry_hours` stands for.
pub record UploadConfig : Type 0 where
  pub max_upload_bytes : ℕ
  pub server_quota_bytes : ℕ
  pub default_user_quota_bytes : ℕ
  pub anon_expiry : ℕ
  pub limits : UploadLimits

-- The request, with the sizes of the chunks that reading the file gives.
pub record UploadRequest : Type 0 where
  pub chunks : List ℕ
  pub album_id : Option String
  pub title : Option String
  pub user : Option User
  pub source : String
  pub delete_token : Option String
  pub rate_limit_key : Option String

-- What a processor has made of the file.
pub record Sanitized : Type 0 where
  pub size : ℕ
  pub format : String
  pub info : MediaInfo

-- What the calls come to that leave this program: the processor's verdict, with the error it is
-- turned into, the `put`, and the random ids.
pub record UploadCalls : Type 0 where
  pub sanitized : Result Sanitized
  pub put_fails : Option Exception
  pub new_album_id : String
  pub new_token : String
  pub new_media_id : String

pub record Server : Type 0 where
  pub world : World
  pub storage_puts : List String
  pub limiter : InMemoryRateLimiter

-- `_read_bounded_upload`: the size of what was read.
unfoldable pub read_bounded_upload : (max_upload_bytes total : ℕ) → List ℕ → Result ℕ
read_bounded_upload max_upload_bytes total [] = ok total
read_bounded_upload max_upload_bytes total (chunk ∷ chunks) =
    let rest = read_bounded_upload max_upload_bytes (total + chunk) chunks in
    if chunk == 0
    then ok total
    else if ltb max_upload_bytes (total + chunk)
    then raise (http 413 "Upload exceeds V1 size limit.")
    else rest

-- `_storage_bytes_for_media`
unfoldable pub storage_bytes_for_media : List Media → ℕ
unfolding has_own_thumb
storage_bytes_for_media =
    sum_by (λ m. m.file_size + (if has_own_thumb m then or_zero m.thumb_size else 0))

abbrev pub is_of_user : User → Media → Bool
is_of_user user m = opt_eq m.user_id (some user.id)

-- if limit > 0 and used + incoming > limit
abbrev pub exceeds : (limit used incoming : ℕ) → Bool
exceeds limit used incoming = ltb 0 limit && ltb limit (used + incoming)

unfoldable pub enforce_storage_quotas :
    UploadConfig → Option User → (incoming_bytes : ℕ) → List Media → Result (Unit {0})
unfolding storage_bytes_for_media keep
enforce_storage_quotas config user incoming_bytes all_media =
    if exceeds config.server_quota_bytes (storage_bytes_for_media all_media) incoming_bytes
    then raise (http 507 "Server storage quota reached.")
    else (elim user [
      | none ↦ ok tt
      | some u ↦
          if exceeds (or_default u.quota_bytes config.default_user_quota_bytes)
            (storage_bytes_for_media (keep (is_of_user u) all_media)) incoming_bytes
          then raise (http 413 "User storage quota reached.")
          else ok tt
    ])

abbrev pub emit : Event → Exec Server (Unit {0})
emit event s =
    (ok tt, record s { world = record s.world { events = s.world.events ++ event ∷ [] } })

abbrev pub query : {A : Type 0} → (Db → Result A × Db) → Exec Server A
query f s = let (r, db) = f s.world.db in (r, record s { world = record s.world { db = db } })

abbrev pub charge : UploadConfig → (now : ℕ) → UploadRequest → (size : ℕ) → Exec Server (Unit {0})
charge config now request size s = elim request.rate_limit_key [
  | none ↦ (ok tt, s)
  | some key ↦
      let (r, limiter) = enforce_upload_limits config.limits now key size request.user s.limiter in
      if truthy (some key) then (r, record s { limiter = limiter }) else (ok tt, s)
]

-- The part of `_get_or_create_album` for an album that is named.
unfoldable pub check_target : (now : ℕ) → UploadRequest → Option Album → Result Album
unfolding is_expired require_album_access
check_target now request found = elim found [
  | none ↦ raise album_not_found
  | some album ↦
      if is_expired now album.expires_at then raise album_not_found else (elim request.user [
        | some u ↦
            if opt_eq album.user_id (some u.id)
            then ok album
            else raise (http 403 "Album does not belong to authenticated user.")
        | none ↦ elim (require_album_access now album request.delete_token none false) [
          | ok _ ↦ ok album
          | raise e ↦ raise e
        ]
      ])
]

abbrev pub fresh_album : UploadConfig → UploadCalls → (now : ℕ) → UploadRequest → Album
fresh_album config calls now request = record {
  id = calls.new_album_id;
  title = request.title;
  user_id = id_of request.user;
  cover_media_id = none;
  delete_token = elim request.user [ none ↦ some calls.new_token | some _ ↦ none ];
  created_at = now;
  updated_at = now;
  expires_at = elim request.user [ none ↦ some (now + config.anon_expiry) | some _ ↦ none ];
}

unfoldable pub create_target :
    UploadConfig → UploadCalls → (now : ℕ) → UploadRequest → Exec Server Album
unfolding create_album actor_kind
create_target config calls now request = do
  album ← query (λ db. create_album db (fresh_album config calls now request))
  emit (
      album_created album.id (id_of request.user)
        (actor_kind request.user request.delete_token false) request.source)
  pure album

-- `_get_or_create_album`; an empty id is as good as none.
unfoldable pub get_or_create_album :
    UploadConfig → UploadCalls → (now : ℕ) → UploadRequest → Exec Server Album
unfolding check_target create_target get_album truthy
get_or_create_album config calls now request = elim request.album_id [
  | none ↦ create_target config calls now request
  | some album_id ↦
      if truthy (some album_id)
      then (λ s. (check_target now request (get_album s.world.db album_id), s))
      else create_target config calls now request
]

-- f"originals/{owner_segment}/{media_id}{suffix}"
unfoldable pub storage_key_of : UploadCalls → UploadRequest → Sanitized → String
storage_key_of calls request sanitized =
    let owner_segment : String = elim request.user [ none ↦ "anon" | some u ↦ u.id ] in
    let suffix = append "." (if str_eq sanitized.format "jpeg" then "jpg" else sanitized.format) in
    append "originals/" (append owner_segment (append "/" (append calls.new_media_id suffix)))

abbrev pub fresh_media :
    UploadCalls → (now : ℕ) → UploadRequest → (album_id : String) → Sanitized → Media
fresh_media calls now request album_id sanitized = record {
  id = calls.new_media_id;
  album_id = album_id;
  user_id = id_of request.user;
  info = sanitized.info;
  format = sanitized.format;
  storage_key = storage_key_of calls request sanitized;
  thumb_key = none;
  thumb_is_orig = false;
  thumb_status = pending;
  file_size = sanitized.size;
  thumb_size = none;
  position = pos 0;
  created_at = now;
}

abbrev pub put : UploadCalls → String → Exec Server (Unit {0})
put calls key s = elim calls.put_fails [
  | some e ↦ (raise e, s)
  | none ↦ (ok tt, record s { storage_puts = s.storage_puts ++ key ∷ [] })
]

-- The answer to the insert, and the `delete` of the object when it fails.
abbrev pub inserted : Media → Server → Result Media × Db → Result Media × Server
inserted media s (ok row, db) = (ok row, record s { world = record s.world { db = db } })
inserted media s (raise e, db) = (
  raise e,
  record s {
    world = record s.world {
      db = db;
      storage_deletes = s.world.storage_deletes ++ media.storage_key ∷ [];
    };
  },
)

abbrev pub insert : Media → Exec Server Media
insert media s = inserted media s (create_media_with_next_position s.world.db media)

-- `_create_media`
unfoldable pub create_media :
    UploadCalls → (now : ℕ) → UploadRequest → (album_id : String) → Exec Server Media
unfolding storage_key_of create_media_with_next_position get_media actor_kind
create_media calls now request album_id = do
  sanitized ← lift calls.sanitized
  put calls (storage_key_of calls request sanitized)
  media ← insert (fresh_media calls now request album_id sanitized)
  emit (
      media_uploaded media.id media.album_id (id_of request.user) media.file_size
        media.info.media_type media.format (actor_kind request.user none false) request.source)
  refreshed ← gets (λ s. get_media s.world.db media.id)
  pure (elim refreshed [ none ↦ media | some row ↦ row ])
