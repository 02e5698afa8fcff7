-- ===== src/Repository.antt =====
-- src/imghost/repository_media.py: the albums and the media of the database. A statement of SQL is a
-- function of the rows; `REFERENCES albums(id) ON DELETE CASCADE` and the primary keys are those of
-- db/init/001-init.sql. Rows with equal positions, whose order SQL leaves open, come in the order in
-- which they were inserted.
pub mod Positions
pub mod Rebalance
pub mod Thumbs
pub mod NewAlbum
pub mod Deletion
pub mod ItemDeletion
use imghost.Prelude.{
  ℕ, String, Bool, not, Option, none, some, List, [], ◌∷◌, ◌++◌, ◌&&◌, map, keep, find, leb, false,
  str_eq, if◌then◌else◌,
}
use imghost.Prelude.Int.{ℤ, pos, ◌+ℤ◌, leb_ℤ}
use imghost.Prelude.Sorting.{order_by}
use imghost.Http.{Result, ok, raise, lookup_error, other}
use imghost.Models.{Album, Media, ThumbStatus}

pub record Db : Type 0 where
  pub albums : List Album
  pub media : List Media

abbrev pub has_album_id : String → Album → Bool
has_album_id album_id a = str_eq a.id album_id

abbrev pub has_media_id : String → Media → Bool
has_media_id media_id m = str_eq m.id media_id

abbrev pub in_album : String → Media → Bool
in_album album_id m = str_eq m.album_id album_id

unfoldable pub get_album : Db → String → Option Album
unfolding find
get_album db album_id = find (has_album_id album_id) db.albums

unfoldable pub get_media : Db → String → Option Media
unfolding find
get_media db media_id = find (has_media_id media_id) db.media

-- SELECT * FROM media WHERE album_id = $1 ORDER BY position
unfoldable pub list_album_media : Db → String → List Media
unfolding order_by keep
list_album_media db album_id = order_by (λ m. m.position) (keep (in_album album_id) db.media)

-- INSERT INTO albums; a row with that id is a conflict.
unfoldable pub create_album : Db → Album → Result Album × Db
unfolding get_album
create_album db album = elim (get_album db album.id) [
  | some _ ↦ (raise (other "unique_violation"), db)
  | none ↦ (ok album, record db { albums = db.albums ++ album ∷ [] })
]

-- The SET list of UPDATE albums, with the trigger that stamps `updated_at`.
abbrev pub written : ℕ → Album → Album → Album
written now album row = record row {
  user_id = album.user_id;
  title = album.title;
  cover_media_id = album.cover_media_id;
  delete_token = album.delete_token;
  expires_at = album.expires_at;
  updated_at = now;
}

unfoldable pub update_album : ℕ → Db → Album → Result Album × Db
unfolding get_album
update_album now db album = elim (get_album db album.id) [
  | none ↦ (raise (lookup_error "album_not_found"), db)
  | some row ↦ (
    ok (written now album row),
    record db {
      albums = map (λ a. if has_album_id album.id a then written now album a else a) db.albums;
    },
  )
]

pub max_position : List Media → Option ℤ
max_position [] = none
max_position (m ∷ ms) = elim (max_position ms) [
  | none ↦ some m.position
  | some p ↦ some (if leb_ℤ p m.position then m.position else p)
]

-- SELECT COALESCE(MAX(position) + 1000, 1000) FROM media WHERE album_id = $1
unfoldable pub next_position : Db → String → ℤ
unfolding max_position keep
next_position db album_id = elim (max_position (keep (in_album album_id) db.media)) [
  | none ↦ pos 1000
  | some p ↦ p +ℤ pos 1000
]

-- The transaction: lock the album's row, read the next position, insert. Without the album the
-- insert breaks the foreign key.
unfoldable pub create_media_with_next_position : Db → Media → Result Media × Db
unfolding next_position get_album get_media
create_media_with_next_position db media =
    let row = record media { position = next_position db media.album_id } in
    elim (get_album db media.album_id) [
      | none ↦ (raise (other "foreign_key_violation"), db)
      | some _ ↦ elim (get_media db media.id) [
        | some _ ↦ (raise (other "unique_violation"), db)
        | none ↦ (ok row, record db { media = db.media ++ row ∷ [] })
      ]
    ]

-- UPDATE media SET thumb_key, thumb_is_orig, thumb_status, thumb_size
unfoldable pub update_media_thumbnail_state :
    Db
    → (media_id : String) (thumb_key : Option String) (thumb_is_orig : Bool)
      (thumb_status : ThumbStatus) (thumb_size : Option ℕ)
    → Result Media × Db
unfolding get_media
update_media_thumbnail_state db media_id thumb_key thumb_is_orig thumb_status thumb_size =
    let set = λ (m : Media). record m {
      thumb_key = thumb_key;
      thumb_is_orig = thumb_is_orig;
      thumb_status = thumb_status;
      thumb_size = thumb_size;
    } in
    elim (get_media db media_id) [
      | none ↦ (raise (lookup_error "media_not_found"), db)
      | some row ↦ (
        ok (set row),
        record db { media = map (λ m. if has_media_id media_id m then set m else m) db.media },
      )
    ]

-- DELETE FROM media WHERE id = $1 RETURNING *
unfoldable pub delete_media : Db → String → Option Media × Db
unfolding get_media keep
delete_media db media_id = (
  get_media db media_id,
  record db { media = keep (λ m. not (has_media_id media_id m)) db.media },
)

-- DELETE FROM albums WHERE id = $1 RETURNING *, which takes the album's media along
unfoldable pub delete_album : Db → String → (Option Album × List Media) × Db
unfolding get_album list_album_media keep
delete_album db album_id = elim (get_album db album_id) [
  | none ↦ ((none, []), db)
  | some row ↦ (
    (some row, list_album_media db album_id),
    record db {
      albums = keep (λ a. not (has_album_id album_id a)) db.albums;
      media = keep (λ m. not (in_album album_id m)) db.media;
    },
  )
]

-- UPDATE media SET position = $3 WHERE id = $1 AND album_id = $2
unfoldable pub set_position : String → String → ℤ → Media → Media
set_position album_id media_id position m =
    if has_media_id media_id m && in_album album_id m then record m { position = position } else m

-- The loop over `positions.items()`.
unfoldable pub apply_positions : String → List (String × ℤ) → List Media → List Media
unfolding set_position
apply_positions album_id [] ms = ms
apply_positions album_id ((media_id, position) ∷ rest) ms =
    apply_positions album_id rest (map (set_position album_id media_id position) ms)

unfoldable pub update_media_positions : Db → String → List (String × ℤ) → List Media × Db
unfolding apply_positions list_album_media
update_media_positions db album_id positions =
    let db' = record db { media = apply_positions album_id positions db.media } in
    (list_album_media db' album_id, db')

-- SELECT * FROM albums WHERE expires_at IS NOT NULL AND expires_at <= $1 ORDER BY expires_at
abbrev pub expired_by : ℕ → Album → Bool
expired_by now a = elim a.expires_at [ none ↦ false | some t ↦ leb t now ]

abbrev expiry : Album → ℤ
expiry a = elim a.expires_at [ none ↦ pos 0 | some t ↦ pos t ]

unfoldable pub list_expired_albums : Db → ℕ → List Album
unfolding order_by keep
list_expired_albums db now = order_by expiry (keep (expired_by now) db.albums)
