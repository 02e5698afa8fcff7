-- ===== src/Repository/Positions.antt =====
-- repository_media.py: what a statement does to the listing of an album.
use mathlib.Core.List.Permᴰ
use mathlib.Core.List.{Permᴰ}
use imghost.Prelude.{
  ◌≡◌, ◌≢◌, refl, sym, String, Bool, true, none, some, List, [], ◌∷◌, ◌++◌, keep, eq_refl,
  Bool-cases, Option-cases, inl, inr, arith, All, keep-append, keep-All, keep_passes,
}
use imghost.Prelude.Int.{ℤ, pos, ◌+ℤ◌, ltb_ℤ, ◌≤ℤ◌}
use imghost.Prelude.Sorting.{
  order_by-Permᴰ, AllPairs, AllPairs-Permᴰ, All-Permᴰ, order_by-append_last,
}
use imghost.Http.{ok}
use imghost.Models.{Media}
use imghost.Repository.{
  Db, in_album, list_album_media, next_position, max_position, create_media_with_next_position,
}

-- No two rows of the table have one primary key.
abbrev pub OtherId : Media → Media → Type 0
OtherId m n = m.id ≢ n.id

abbrev pub DistinctIds : List Media → Type 0
DistinctIds = AllPairs OtherId

OtherId-symm : (m n : Media) → OtherId m n → OtherId n m
OtherId-symm m n h = λ e. h (sym e)

keep-DistinctIds :
    (test : Media → Bool) (ms : List Media) → DistinctIds ms → DistinctIds (keep test ms)
unfolding keep
keep-DistinctIds test [] d = tt
keep-DistinctIds test (m ∷ ms) d = elim (Bool-cases (test m)) [
  | inl p ↦ rw p (keep-All (OtherId m) test ms d.0, keep-DistinctIds test ms d.1)
  | inr p ↦ rw p (keep-DistinctIds test ms d.1)
]

module _ (db : Db) (album_id : String) where
  abbrev rows : List Media
  rows = keep (in_album album_id) db.media

  pub list_album_media-Permᴰ : Permᴰ (list_album_media db album_id) rows
  unfolding list_album_media
  list_album_media-Permᴰ = order_by-Permᴰ (λ m. m.position) rows

  pub list_album_media-DistinctIds :
      DistinctIds db.media → DistinctIds (list_album_media db album_id)
  list_album_media-DistinctIds d =
      AllPairs-Permᴰ OtherId OtherId-symm (Permᴰ.symm list_album_media-Permᴰ)
        (keep-DistinctIds (in_album album_id) db.media d)

  pub list_album_media-in_album :
      All (λ m. in_album album_id m ≡ true) (list_album_media db album_id)
  list_album_media-in_album =
      All-Permᴰ (λ m. in_album album_id m ≡ true) (Permᴰ.symm list_album_media-Permᴰ)
        (keep_passes (in_album album_id) db.media)

max_position-none : (ms : List Media) → max_position ms ≡ none → ms ≡ []
unfolding max_position
max_position-none [] h = refl
max_position-none (m ∷ ms) h = ground arith

weaken :
    (p q : ℤ) (ms : List Media)
    → q ≤ℤ p
    → All (λ m. m.position ≤ℤ q) ms
    → All (λ m. m.position ≤ℤ p) ms
weaken p q [] le a = tt
weaken p q (m ∷ ms) le a = (omega arith, weaken p q ms le a.1)

max_position-ge :
    (ms : List Media) {p : ℤ} → max_position ms ≡ some p → All (λ m. m.position ≤ℤ p) ms
unfolding max_position
max_position-ge [] h = tt
max_position-ge (m ∷ ms) {p} h = elim (Option-cases (max_position ms)) [
  | inl none_left ↦ rw (max_position-none ms none_left) (ground (arith), tt)
  | inr (q, most) ↦ (ground arith, weaken p q ms (ground arith) (max_position-ge ms most))
]

above-All :
    (p : ℤ) (ms : List Media)
    → All (λ m. m.position ≤ℤ p) ms
    → All (λ m. ltb_ℤ m.position (p +ℤ pos 1000) ≡ true) ms
unfolding ◌+ℤ◌
above-All p [] a = tt
above-All p (m ∷ ms) a = (ground arith, above-All p ms a.1)

-- The next position lies above every position of the album.
below_next_position :
    (db : Db) (album_id : String)
    → All (λ m. ltb_ℤ m.position (next_position db album_id) ≡ true) (rows db album_id)
unfolding next_position
below_next_position db album_id = elim (Option-cases (max_position (rows db album_id))) [
  | inl empty ↦ rw (max_position-none (rows db album_id) empty) tt
  | inr (p, most) ↦
      rw (most, next_position)
        (above-All p (rows db album_id) (max_position-ge (rows db album_id) most))
]

abbrev placed : Db → Media → Media
placed db media = record media { position = next_position db media.album_id }

pub create_media-inserts :
    (db db' : Db) (media row : Media)
    → create_media_with_next_position db media ≡ (ok row, db')
    → (row ≡ placed db media) × (db' ≡ record db { media = db.media ++ row ∷ [] })
unfolding create_media_with_next_position
create_media-inserts db db' media row h = ground arith

listing_of_insert :
    (db : Db) (media : Media)
    → list_album_media (record db { media = db.media ++ placed db media ∷ [] }) media.album_id
      ≡ list_album_media db media.album_id ++ placed db media ∷ []
unfolding list_album_media keep
listing_of_insert db media = rw keep-append (
    rw (eq_refl media.album_id) (
      order_by-append_last (λ m. m.position) (rows db media.album_id) (placed db media)
        (below_next_position db media.album_id)))

-- What a successful insert returns is the given item at the next position, and it stands after all
-- other items of its album in the new listing.
pub create_media_appends :
    (db db' : Db) (media row : Media)
    → create_media_with_next_position db media ≡ (ok row, db')
    → (row ≡ record media { position = next_position db media.album_id })
      × (list_album_media db' media.album_id ≡ list_album_media db media.album_id ++ row ∷ [])
create_media_appends db db' media row h =
    let (same, inserted) = create_media-inserts db db' media row h in
    (same, rw (inserted, same) (listing_of_insert db media))
