-- ===== src/Uploads/Quotas.antt =====
-- service.py, `_enforce_storage_quotas` within `upload`: what it keeps.
use imghost.Prelude.{
  ℕ, ◌+◌, ◌≤◌, ◌<◌, ◌≡◌, ◌≢◌, sym, ap, ◌∙◌, true, Option, none, some, List, [], ◌∷◌, ◌++◌, arith,
  keep, keep-append, sum_by-append,
}
use imghost.Text.{truthy, opt_eq_iff}
use imghost.Http.{ok}
use imghost.Models.{Album, Media, User}
use imghost.Repository.NewAlbum.{HasAlbums}
use imghost.RateLimits.{or_default}
use imghost.Albums.{has_own_thumb, id_of}
use imghost.Uploads.{
  UploadConfig, UploadRequest, UploadCalls, Sanitized, Server, read_bounded_upload,
  storage_bytes_for_media, is_of_user, enforce_storage_quotas,
}
use imghost.Uploads.Upload.{upload}
use imghost.Uploads.Rollback.{upload-adds}

-- An item without a thumbnail counts with its own size.
storage_bytes-append :
    (ms : List Media) (row : Media)
    → row.thumb_key ≡ none
    → storage_bytes_for_media (ms ++ row ∷ []) ≡ storage_bytes_for_media ms + row.file_size
unfolding storage_bytes_for_media has_own_thumb truthy
storage_bytes-append ms row bare = rw sum_by-append (rw bare (omega arith))

user_bytes-append :
    (u : User) (ms : List Media) (row : Media)
    → is_of_user u row ≡ true
    → row.thumb_key ≡ none
    → storage_bytes_for_media (keep (is_of_user u) (ms ++ row ∷ []))
      ≡ storage_bytes_for_media (keep (is_of_user u) ms) + row.file_size
unfolding keep
user_bytes-append u ms row mine bare =
    rw keep-append (rw mine (storage_bytes-append (keep (is_of_user u) ms) row bare))

server_quota-ok :
    (config : UploadConfig) (user : Option User) (size : ℕ) (ms : List Media)
    → 0 < config.server_quota_bytes
    → enforce_storage_quotas config user size ms ≡ ok tt
    → storage_bytes_for_media ms + size ≤ config.server_quota_bytes
unfolding enforce_storage_quotas
server_quota-ok config user size ms on h = ground arith

user_quota-ok :
    (config : UploadConfig) (u : User) (size : ℕ) (ms : List Media)
    → 0 < or_default u.quota_bytes config.default_user_quota_bytes
    → enforce_storage_quotas config (some u) size ms ≡ ok tt
    → storage_bytes_for_media (keep (is_of_user u) ms) + size
      ≤ or_default u.quota_bytes config.default_user_quota_bytes
unfolding enforce_storage_quotas
user_quota-ok config u size ms on h = ground arith

module _ (config : UploadConfig) (calls : UploadCalls) (now : ℕ) (request : UploadRequest) where
  -- Where the processor does not make the file larger than it was read, an upload that returns leaves
  -- the storage of the server within a server quota that is on, thumbnails counted.
  pub upload-within_server_quota :
      (s : Server) {answer : Album × Media} {s' : Server} (sanitized : Sanitized) (size : ℕ)
      → HasAlbums s.world.db
      → request.album_id ≢ some ""
      → upload config calls now request s ≡ (ok answer, s')
      → 0 < config.server_quota_bytes
      → calls.sanitized ≡ ok sanitized
      → read_bounded_upload config.max_upload_bytes 0 request.chunks ≡ ok size
      → sanitized.size ≤ size
      → storage_bytes_for_media s'.world.db.media ≤ config.server_quota_bytes
  upload-within_server_quota s sanitized size has named h on made read smaller =
      let (row, made_too, rows, same, sized, bare, owned, admitted) =
        upload-adds config calls now request s has named h in
      let bound = server_quota-ok config request.user admitted.0 s.world.db.media on admitted.2 in
      let grown =
        ap storage_bytes_for_media rows ∙ storage_bytes-append s.world.db.media row bare in
      ground (arith, bound, grown, sized, smaller, read, admitted.1, made, same)

  -- Likewise it leaves the uploads of its user within the user's quota, the user's own or the default,
  -- if that is on.
  pub upload-within_user_quota :
      (s : Server) {answer : Album × Media} {s' : Server} (u : User) (sanitized : Sanitized)
      (size : ℕ)
      → HasAlbums s.world.db
      → request.album_id ≢ some ""
      → upload config calls now request s ≡ (ok answer, s')
      → request.user ≡ some u
      → 0 < or_default u.quota_bytes config.default_user_quota_bytes
      → calls.sanitized ≡ ok sanitized
      → read_bounded_upload config.max_upload_bytes 0 request.chunks ≡ ok size
      → sanitized.size ≤ size
      → storage_bytes_for_media (keep (is_of_user u) s'.world.db.media)
        ≤ or_default u.quota_bytes config.default_user_quota_bytes
  upload-within_user_quota s u sanitized size has named h by on made read smaller =
      let (row, made_too, rows, same, sized, bare, owned, admitted) =
        upload-adds config calls now request s has named h in
      let bound = user_quota-ok config u admitted.0 s.world.db.media on (
        ap (λ o. enforce_storage_quotas config o admitted.0 s.world.db.media) (sym by)
        ∙ admitted.2) in
      let mine : is_of_user u row ≡ true =
        (opt_eq_iff row.user_id (some u.id)).1 (owned ∙ ap id_of by) in
      let grown = user_bytes-append u s.world.db.media row mine bare in
      ground (
        arith,
        bound,
        ap (λ ms. storage_bytes_for_media (keep (is_of_user u) ms)) rows,
        grown,
        sized,
        smaller,
        read,
        admitted.1,
        made,
        same,
      )
