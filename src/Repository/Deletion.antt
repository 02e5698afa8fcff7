-- ===== src/Repository/Deletion.antt =====
-- repository_media.py, `delete_album`: the rows that are gone, and those that stay.
use imghost.Prelude.{
  ◌≡◌, ◌≢◌, refl, ap, String, not, none, some, List, [], ◌∷◌, keep, find, arith, eq_iff,
  Option-cases, inl, inr,
}
use imghost.Prelude.Sorting.{order_by}
use imghost.Models.{Album, Media}
use imghost.Repository.{Db, has_album_id, in_album, get_album, list_album_media, delete_album}

keep_other :
    (a b : String) (ms : List Media)
    → a ≢ b
    → keep (in_album b) (keep (λ m. not (in_album a m)) ms) ≡ keep (in_album b) ms
unfolding keep
keep_other a b [] h = refl
keep_other a b (m ∷ ms) h =
    ground (arith, eq_iff m.album_id a, eq_iff m.album_id b, keep_other a b ms h)

-- The listing of another album stays.
pub list-delete_other :
    (db : Db) (a b : String)
    → a ≢ b
    → list_album_media (delete_album db a).1 b ≡ list_album_media db b
unfolding delete_album list_album_media
list-delete_other db a b h = elim (Option-cases (get_album db a)) [
  | inl e ↦ rw (e, delete_album) refl
  | inr (row, e) ↦
      rw (e, delete_album) (ap (order_by (λ m. m.position)) (keep_other a b db.media h))
]

keep_gone :
    (a : String) (ms : List Media) → keep (in_album a) (keep (λ m. not (in_album a m)) ms) ≡ []
unfolding keep
keep_gone a [] = refl
keep_gone a (m ∷ ms) = ground (arith, keep_gone a ms)

find_gone :
    (a : String) (albums : List Album)
    → find (has_album_id a) (keep (λ b. not (has_album_id a b)) albums) ≡ none
unfolding keep find
find_gone a [] = refl
find_gone a (b ∷ albums) = ground (arith, find_gone a albums)

module _ (db : Db) (a : String) {row : Album} (found : get_album db a ≡ some row) where
  pub delete_album-answer : (delete_album db a).0 ≡ (some row, list_album_media db a)
  unfolding delete_album
  delete_album-answer = rw (found, delete_album) refl

  pub get-delete : get_album (delete_album db a).1 a ≡ none
  unfolding delete_album get_album
  get-delete = rw (found, delete_album) (find_gone a db.albums)

  pub list-delete : list_album_media (delete_album db a).1 a ≡ []
  unfolding delete_album list_album_media order_by
  list-delete = rw (found, delete_album) (rw (keep_gone a db.media) refl)
