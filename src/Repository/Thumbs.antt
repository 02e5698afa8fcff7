-- ===== src/Repository/Thumbs.antt =====
-- repository_media.py, `update_media_thumbnail_state`: what it leaves of a row that is there.
use imghost.Prelude.{
  ◌≡◌, refl, String, Bool, Option, some, List, [], ◌∷◌, map, find, ℕ, arith, if◌then◌else◌,
}
use imghost.Http.{ok}
use imghost.Models.{Media, ThumbStatus}
use imghost.Repository.{Db, has_media_id, get_media, update_media_thumbnail_state}

find_after_set :
    (media_id : String) (set : Media → Media) (ms : List Media) {m : Media}
    → ((m : Media) → (set m).id ≡ m.id)
    → find (has_media_id media_id) ms ≡ some m
    → find (has_media_id media_id) (map (λ m. if has_media_id media_id m then set m else m) ms)
      ≡ some (set m)
unfolding find
find_after_set media_id set [] same h = cc
find_after_set media_id set (n ∷ ms) {m} same h =
    ground (arith, same n, find_after_set media_id set ms {m = m} same)

module _ (db : Db) (media_id : String) (thumb_key : Option String) (thumb_is_orig : Bool)
    (thumb_status : ThumbStatus) (thumb_size : Option ℕ) where
  abbrev pub with_thumb : Media → Media
  with_thumb m = record m {
    thumb_key = thumb_key;
    thumb_is_orig = thumb_is_orig;
    thumb_status = thumb_status;
    thumb_size = thumb_size;
  }

  abbrev rewritten : Db
  rewritten = record db {
    media = map (λ m. if has_media_id media_id m then with_thumb m else m) db.media;
  }

  writes :
      {m : Media}
      → get_media db media_id ≡ some m
      → update_media_thumbnail_state db media_id thumb_key thumb_is_orig thumb_status thumb_size
        ≡ (ok (with_thumb m), rewritten)
  unfolding update_media_thumbnail_state
  writes h = rw (h, update_media_thumbnail_state) refl

  found_again :
      {m : Media}
      → get_media db media_id ≡ some m
      → get_media rewritten media_id ≡ some (with_thumb m)
  unfolding get_media
  found_again h = find_after_set media_id with_thumb db.media (λ m. refl) h

  -- The row is found with the new columns, and the write succeeds.
  pub update_media_thumbnail_state-found :
      {m : Media}
      → get_media db media_id ≡ some m
      → (db' : Db) × (update_media_thumbnail_state db media_id thumb_key thumb_is_orig thumb_status
            thumb_size
          ≡ (ok (with_thumb m), db'))
        × (get_media db' media_id ≡ some (with_thumb m))
  update_media_thumbnail_state-found h = (rewritten, writes h, found_again h)
