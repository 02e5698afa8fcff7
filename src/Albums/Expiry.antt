-- ===== src/Albums/Expiry.antt =====
-- service.py, `admin_update_album`: an administrator sets when an album expires. The texts that
-- `isoformat` gives are taken as the times themselves.
use imghost.Prelude.{ℕ, ◌==◌, String, Bool, true, false, Option, none, some, if◌then◌else◌}
use imghost.Http.{Exec, ◌>>=◌, ◌>>◌, pure, gets, or_raise}
use imghost.Models.{Album}
use imghost.Repository
use imghost.Repository.{get_album}
use imghost.Albums.{World, album_expiry_changed, album_not_found, emit, query}

same_time : Option ℕ → Option ℕ → Bool
same_time none none = true
same_time (some t) (some u) = t == u
same_time _ _ = false

-- `AdminAlbumUpdateInput`: `none` where `expires_at` is UNSET
unfoldable pub admin_update_album :
    ℕ
    → (album_id : String) (expires_at : Option (Option ℕ)) (actor_id : Option String)
    → Exec World Album
unfolding same_time get_album Repository.update_album
admin_update_album now album_id expires_at actor_id = do
  found ← gets (λ w. get_album w.db album_id)
  album ← or_raise found album_not_found
  elim expires_at [
    | none ↦ pure album
    | some expiry ↦ if same_time album.expires_at expiry then pure album else (do
      let changed = record album { expires_at = expiry }
      query (λ db. Repository.update_album now db changed)
      emit (
          album_expiry_changed album.id album.user_id actor_id "admin" album.expires_at expiry
            "api")
      pure changed)
  ]
