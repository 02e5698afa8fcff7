-- ===== src/Uploads/Upload.antt =====
-- service.py, `upload` itself: what is tried, and what is undone when it raises.
use imghost.Prelude.{ℕ, not, none, some, ◌&&◌, leb, length, ◌==◌, if◌then◌else◌}
use imghost.Text.{truthy}
use imghost.Http.{http, Result, ok, raise, Exec, ◌>>=◌, ◌>>◌, pure, lift, gets, raise_if}
use imghost.Models.{Album, Media}
use imghost.Repository
use imghost.Repository.{Db, list_album_media}
use imghost.Albums.{is_empty, lookup_as_404}
use imghost.Uploads.{
  UploadConfig, UploadRequest, UploadCalls, Server, read_bounded_upload, enforce_storage_quotas,
  charge, query, get_or_create_album, create_media,
}

abbrev pub max_album_items : ℕ
max_album_items = 1000

module _ (config : UploadConfig) (calls : UploadCalls) (now : ℕ) (request : UploadRequest) where
  -- The `try`, up to the album.
  unfoldable pub prepare : Exec Server Album
  unfolding read_bounded_upload enforce_storage_quotas get_or_create_album
  prepare = do
    size ← lift (read_bounded_upload config.max_upload_bytes 0 request.chunks)
    raise_if (size == 0) (http 400 "Empty file upload.")
    charge config now request size
    all_media ← gets (λ s. s.world.db.media)
    lift (enforce_storage_quotas config request.user size all_media)
    get_or_create_album config calls now request

  -- The `try`, from there on.
  unfoldable pub fill : Album → Exec Server Media
  unfolding create_media list_album_media
  fill album = do
    items ← gets (λ s. list_album_media s.world.db album.id)
    raise_if (leb max_album_items (length items)) (http 413 "Album item limit reached.")
    create_media calls now request album.id

  -- `if created_album and album is not None and not …: delete_album`; `created_album` is
  -- `album_id is None`.
  unfoldable pub roll_back : Album → Server → Server
  unfolding Repository.delete_album list_album_media
  roll_back album s = elim request.album_id [
    | some _ ↦ s
    | none ↦
        if is_empty (list_album_media s.world.db album.id)
        then record s {
          world = record s.world { db = (Repository.delete_album s.world.db album.id).1 };
        }
        else s
  ]

  abbrev pub titled : Album → Album
  titled album =
      if not (truthy album.title) && truthy request.title
      then record album { title = request.title }
      else album

  -- What follows the `try`.
  unfoldable pub conclude : Album → Media → Exec Server (Album × Media)
  unfolding Repository.update_album
  conclude album media = do
    query
        λ db. let (r, db') = Repository.update_album now db (titled album) in (lookup_as_404 r, db')
    pure (titled album, media)

  -- The `except` of the part after the album, and what follows the `try`.
  unfoldable pub after_fill : Album → Result Media × Server → Result (Album × Media) × Server
  unfolding roll_back conclude
  after_fill album (raise e, s) = (raise e, roll_back album s)
  after_fill album (ok media, s) = conclude album media s

  -- The `except` while there is no album yet.
  unfoldable pub after_prepare : Result Album × Server → Result (Album × Media) × Server
  unfolding fill after_fill
  after_prepare (raise e, s) = (raise e, s)
  after_prepare (ok album, s) = after_fill album (fill album s)

  unfoldable pub upload : Exec Server (Album × Media)
  unfolding prepare after_prepare
  upload s = after_prepare (prepare s)
