-- ===== src/Repository/ItemDeletion.antt =====
-- repository_media.py, `delete_media`: the row that is gone, and the covers of albums.
use imghost.Prelude.{
  ℕ, ◌≡◌, ◌≢◌, refl, ap, String, Bool, true, false, not, ◌&&◌, Option, none, some, List, [], ◌∷◌,
  keep, find, map, arith, eq_iff, Option-cases, inl, inr, if◌then◌else◌,
}
use imghost.Prelude.Sorting.{order_by}
use imghost.Models.{Album, Media}
use imghost.Repository.{
  Db, has_album_id, has_media_id, in_album, list_album_media, get_album, get_media, written,
  update_album, delete_media, delete_album,
}

abbrev pub is_item : (album_id media_id : String) → Media → Bool
is_item album_id media_id m = in_album album_id m && has_media_id media_id m

abbrev pub is_there : {A : Type 0} → Option A → Bool
is_there none = false
is_there (some a) = true

-- The cover of the album, if the album is there and has one, is an item of it.
abbrev pub has_cover : Db → (album_id : String) → Bool
has_cover db album_id = elim (get_album db album_id) [
  | none ↦ true
  | some row ↦ elim row.cover_media_id [
    | none ↦ true
    | some cover ↦ is_there (find (is_item album_id cover) db.media)
  ]
]

module _ (db : Db) (a : String) (row : Album) (found : get_album db a ≡ some row) where
  pub cover_of :
      (cover : String)
      → has_cover db a ≡ true
      → row.cover_media_id ≡ some cover
      → is_there (find (is_item a cover) db.media) ≡ true
  cover_of cover had e = simp (found, e, has_cover) at had

  pub has_cover_if :
      ((cover : String)
        → row.cover_media_id ≡ some cover
        → is_there (find (is_item a cover) db.media) ≡ true)
      → has_cover db a ≡ true
  has_cover_if h = elim (Option-cases row.cover_media_id) [
    | inl e ↦ simp (found, e, has_cover) refl
    | inr (cover, e) ↦ simp (found, e, has_cover) (h cover e)
  ]

find_gone :
    (id : String) (ms : List Media)
    → find (has_media_id id) (keep (λ m. not (has_media_id id m)) ms) ≡ none
unfolding keep find
find_gone id [] = refl
find_gone id (m ∷ ms) = ground (arith, find_gone id ms)

find_absent :
    (test : Media → Bool) (id : String) (ms : List Media)
    → find (has_media_id id) ms ≡ none
    → find (has_media_id id) (keep test ms) ≡ none
unfolding keep find
find_absent test id [] h = refl
find_absent test id (m ∷ ms) h = ground (arith, find_absent test id ms)

find_still :
    (album_id cover id : String) (ms : List Media)
    → cover ≢ id
    → is_there (find (is_item album_id cover) ms) ≡ true
    → is_there (find (is_item album_id cover) (keep (λ m. not (has_media_id id m)) ms)) ≡ true
unfolding keep find
find_still album_id cover id [] apart h = h
find_still album_id cover id (m ∷ ms) apart h = ground (
  arith,
  eq_iff m.id cover,
  eq_iff m.id id,
  eq_iff m.album_id album_id,
  find_still album_id cover id ms apart,
)

find-written :
    (now : ℕ) (album : Album) (rows : List Album) {row : Album}
    → find (has_album_id album.id) rows ≡ some row
    → find
        (has_album_id album.id)
        (map (λ a. if has_album_id album.id a then written now album a else a) rows)
      ≡ some (written now album row)
unfolding find
find-written now album [] h = cc
find-written now album (r ∷ rows) {row = row} h =
    ground (arith, find-written now album rows {row = row})

module _ (db : Db) (id : String) where
  pub get-delete_media : get_media (delete_media db id).1 id ≡ none
  unfolding get_media delete_media
  get-delete_media = find_gone id db.media

  pub get_album-delete_media : (a : String) → get_album (delete_media db id).1 a ≡ get_album db a
  unfolding get_album delete_media
  get_album-delete_media a = refl

  pub cover-delete_media :
      (a cover : String)
      → cover ≢ id
      → is_there (find (is_item a cover) db.media) ≡ true
      → is_there (find (is_item a cover) (delete_media db id).1.media) ≡ true
  unfolding delete_media
  cover-delete_media a cover apart h = find_still a cover id db.media apart h

  pub get_media-delete_album :
      (a : String) → get_media db id ≡ none → get_media (delete_album db a).1 id ≡ none
  unfolding get_media delete_album
  get_media-delete_album a h = elim (Option-cases (get_album db a)) [
    | inl e ↦ rw (e, delete_album) h
    | inr (row, e) ↦ rw (e, delete_album) (find_absent _ id db.media h)
  ]

module _ (now : ℕ) (db : Db) (album : Album) {row : Album}
    (found : get_album db album.id ≡ some row) where
  pub get-update_album :
      get_album (update_album now db album).1 album.id ≡ some (written now album row)
  unfolding get_album update_album
  get-update_album = rw (found, update_album) (find-written now album db.albums found)

  pub media-update_album : (update_album now db album).1.media ≡ db.media
  unfolding update_album
  media-update_album = rw (found, update_album) refl

-- The listing and the search read nothing but the items.
pub list_of_media :
    (db db' : Db) (a : String)
    → db'.media ≡ db.media
    → list_album_media db' a ≡ list_album_media db a
unfolding list_album_media
list_of_media db db' a same = ap (λ ms. order_by (λ m. m.position) (keep (in_album a) ms)) same

pub get_of_media :
    (db db' : Db) (id : String) → db'.media ≡ db.media → get_media db' id ≡ get_media db id
unfolding get_media
get_of_media db db' id same = ap (find (has_media_id id)) same
