-- ===== src/Cleanup.antt =====
-- src/imghost/service.py, `prune_expired_albums`: the task that deletes the albums whose time is over.
-- The audit rows and the capabilities that it deletes besides are left out.
pub mod DryRun
use imghost.Prelude.{
  ℕ, ◌+◌, ◌-◌, String, Bool, true, false, not, Option, none, some, List, [], ◌∷◌, ◌++◌, ◌||◌,
  length, find, str_eq, if◌then◌else◌,
}
use imghost.Models.{Album, Media}
use imghost.Repository.{Db, list_album_media, list_expired_albums, delete_album}
use imghost.Albums.{World, Event, album_deleted, actor_kind}
use imghost.Uploads.{storage_bytes_for_media}

-- The keys of the candidates that are not empty and were not seen.
add_key : List String → String → List String
unfolding find
add_key keys key =
    if str_eq key ""
    then keys
    else (elim (find (str_eq key) keys) [ some _ ↦ keys | none ↦ keys ++ key ∷ [] ])

add_keys : List String → List Media → List String
unfolding add_key
add_keys keys [] = keys
add_keys keys (m ∷ ms) =
    let with_original = add_key keys m.storage_key in
    let all : List String = elim m.thumb_key [
      | none ↦ with_original
      | some key ↦ add_key with_original key
    ] in
    add_keys all ms

-- `_storage_keys_for_media`
unfoldable pub storage_keys_for_media : List Media → List String
unfolding add_keys
storage_keys_for_media = add_keys []

-- What is reported.
pub record Freed : Type 0 where
  pub album_ids : List String
  pub item_count : ℕ
  pub bytes_freed : ℕ

abbrev pub nothing : Freed
nothing = record { album_ids = []; item_count = 0; bytes_freed = 0 }

abbrev pub count_album : Album → List Media → Freed → Freed
count_album album media_items f = record {
  album_ids = f.album_ids ++ album.id ∷ [];
  item_count = f.item_count + length media_items;
  bytes_freed = f.bytes_freed + storage_bytes_for_media media_items;
}

-- The loop over the keys, up to the first that storage cannot delete: whether it got through, and
-- the keys that were asked for.
unfoldable pub delete_keys : (deletes : String → Bool) → List String → Bool × List String
delete_keys deletes [] = (true, [])
delete_keys deletes (key ∷ keys) =
    let (all, asked) = delete_keys deletes keys in
    if deletes key then (all, key ∷ asked) else (false, key ∷ [])

-- The row, and the event that tells of it.
unfoldable pub drop_album : Album → World → World
unfolding delete_album actor_kind storage_bytes_for_media
drop_album album w =
    let ((dropped, media), db) = delete_album w.db album.id in
    elim dropped [
      | none ↦ record w { db = db }
      | some row ↦ record w {
        db = db;
        events =
            w.events
            ++ album_deleted row.id row.user_id none (length media) (storage_bytes_for_media media)
                (actor_kind none none true) "system"
              ∷ [];
      }
    ]

-- The body of the loop.
unfoldable pub prune_album :
    (deletes : String → Bool) (dry_run : Bool) → Album → Freed × World → Freed × World
unfolding storage_keys_for_media delete_keys drop_album list_album_media
prune_album deletes dry_run album (f, w) =
    let media_items = list_album_media w.db album.id in
    let counted = count_album album media_items f in
    let (storage_ok, asked) = delete_keys deletes (storage_keys_for_media media_items) in
    let w' : World = record w { storage_deletes = w.storage_deletes ++ asked } in
    if dry_run
    then (counted, w)
    else if not storage_ok
    then (f, w')
    else (counted, drop_album album w')

unfoldable pub prune_albums :
    (deletes : String → Bool) (dry_run : Bool) → List Album → Freed × World → Freed × World
unfolding prune_album
prune_albums deletes dry_run [] s = s
prune_albums deletes dry_run (album ∷ albums) s =
    prune_albums deletes dry_run albums (prune_album deletes dry_run album s)

unfoldable pub prune_expired_albums :
    (deletes : String → Bool) (dry_run : Bool) (now : ℕ) → World → Freed × World
unfolding prune_albums list_expired_albums
prune_expired_albums deletes dry_run now w =
    prune_albums deletes dry_run (list_expired_albums w.db now) (nothing, w)
