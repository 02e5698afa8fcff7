-- ===== src/Repository/NewAlbum.antt =====
-- repository_media.py: an album whose row was just appended.
use imghost.Prelude.{
  ◌≡◌, ◌≢◌, refl, ap, ◌∙◌, String, Bool, false, not, none, some, List, [], ◌∷◌, ◌++◌, arith, All,
  keep, find, eq_iff, eq_refl,
}
use imghost.Prelude.Sorting.{order_by}
use imghost.Models.{Album, Media}
use imghost.Repository.{Db, has_album_id, in_album, get_album, list_album_media, delete_album}

-- Each item is in an album that there is: the foreign key of `media`.
abbrev pub HasAlbums : Db → Type 0
HasAlbums db = All (λ m. get_album db m.album_id ≢ none) db.media

find_last :
    (a : Album) (albums : List Album)
    → find (has_album_id a.id) albums ≡ none
    → find (has_album_id a.id) (albums ++ a ∷ []) ≡ some a
unfolding find
find_last a [] h = ground (arith, eq_refl a.id)
find_last a (b ∷ albums) h = ground (arith, find_last a albums)

keep_last :
    (a : Album) (albums : List Album)
    → find (has_album_id a.id) albums ≡ none
    → keep (λ b. not (has_album_id a.id b)) (albums ++ a ∷ []) ≡ albums
unfolding find keep
keep_last a [] h = ground (arith, eq_refl a.id)
keep_last a (b ∷ albums) h = ground (arith, keep_last a albums)

none_in :
    (db : Db) (album_id : String) (ms : List Media)
    → get_album db album_id ≡ none
    → All (λ m. get_album db m.album_id ≢ none) ms
    → All (λ m. in_album album_id m ≡ false) ms
none_in db album_id [] h has = tt
none_in db album_id (m ∷ ms) h has = (
  ground (
    arith,
    eq_iff m.album_id album_id,
    (λ (e : m.album_id ≡ album_id). has.0 (ap (get_album db) e ∙ h)),
  ),
  none_in db album_id ms h has.1,
)

keep_none :
    (test : Media → Bool) (ms : List Media) → All (λ m. test m ≡ false) ms → keep test ms ≡ []
unfolding keep
keep_none test [] h = refl
keep_none test (m ∷ ms) h = ground (arith, keep_none test ms h.1)

keep_rest :
    (test : Media → Bool) (ms : List Media)
    → All (λ m. test m ≡ false) ms
    → keep (λ m. not (test m)) ms ≡ ms
unfolding keep
keep_rest test [] h = refl
keep_rest test (m ∷ ms) h = ground (arith, keep_rest test ms h.1)

abbrev pub with_album : Db → Album → Db
with_album db a = record db { albums = db.albums ++ a ∷ [] }

module _ (db : Db) (a : Album) (new : get_album db a.id ≡ none) (has : HasAlbums db) where
  pub list_album_media-new : list_album_media (with_album db a) a.id ≡ []
  unfolding list_album_media order_by
  list_album_media-new =
      rw (keep_none (in_album a.id) db.media (none_in db a.id db.media new has)) refl

  pub get_album-new : get_album (with_album db a) a.id ≡ some a
  unfolding get_album
  get_album-new = find_last a db.albums new

  without : keep (λ b. not (has_album_id a.id b)) (db.albums ++ a ∷ []) ≡ db.albums
  unfolding get_album
  without = keep_last a db.albums new

  -- Deleting the album of the last row, with an id that no other album has, where each other item is
  -- in an album that there is, gives back the album and no items, and the rows before it.
  pub delete_album-new : delete_album (with_album db a) a.id ≡ ((some a, []), db)
  unfolding delete_album
  delete_album-new =
      rw (get_album-new, delete_album)
        (rw list_album_media-new (
          rw without
            (rw (keep_rest (in_album a.id) db.media (none_in db a.id db.media new has)) refl)))
