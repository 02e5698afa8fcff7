-- ===== src/Cleanup/DryRun.antt =====
-- service.py, `prune_expired_albums`: a dry run beside the run itself.
use mathlib.Core.Path.{subst}
use imghost.Prelude.{
  ℕ, ◌≡◌, ◌≢◌, refl, sym, ap, ◌∙◌, String, Bool, true, false, List, [], ◌∷◌, ◌++◌, All,
  Option-cases, inl, inr,
}
use imghost.Prelude.Sorting.{AllPairs}
use imghost.Models.{Album}
use imghost.Repository.{Db, list_album_media, list_expired_albums, delete_album}
use imghost.Repository.Deletion.{list-delete_other}
use imghost.Albums.{World}
use imghost.Cleanup.{
  Freed, nothing, count_album, delete_keys, storage_keys_for_media, drop_album, prune_album,
  prune_albums, prune_expired_albums,
}

-- The report on the albums, all of them, as the database is.
unfoldable pub report : Db → List Album → Freed → Freed
unfolding list_album_media
report db [] f = f
report db (album ∷ albums) f = report db albums (count_album album (list_album_media db album.id) f)

dry-report :
    (deletes : String → Bool) (albums : List Album) (f : Freed) (w : World)
    → prune_albums deletes true albums (f, w) ≡ (report w.db albums f, w)
unfolding prune_albums prune_album report
dry-report deletes [] f w = refl
dry-report deletes (album ∷ albums) f w = dry-report deletes albums _ w

all_deleted :
    (deletes : String → Bool) (keys : List String)
    → ((k : String) → deletes k ≡ true)
    → (delete_keys deletes keys).0 ≡ true
unfolding delete_keys
all_deleted deletes [] works = refl
all_deleted deletes (key ∷ keys) works = rw works (all_deleted deletes keys works)

db-drop_album :
    (album : Album) (w : World) → (drop_album album w).db ≡ (delete_album w.db album.id).1
unfolding drop_album
db-drop_album album w = elim (Option-cases (delete_album w.db album.id).0.0) [
  | inl e ↦ simp (e, drop_album) refl
  | inr (row, e) ↦ simp (e, drop_album) refl
]

list-drop_other :
    (album : Album) (b : String) (w : World)
    → album.id ≢ b
    → list_album_media (drop_album album w).db b ≡ list_album_media w.db b
list-drop_other album b w h =
    ap (λ db. list_album_media db b) (db-drop_album album w) ∙ list-delete_other w.db album.id b h

-- The albums' items are listed as in `db`.
abbrev SameItems : Db → Db → List Album → Type 0
SameItems db now = All (λ a. list_album_media now a.id ≡ list_album_media db a.id)

SameItems-refl : (db : Db) (albums : List Album) → SameItems db db albums
SameItems-refl db [] = tt
SameItems-refl db (a ∷ albums) = (refl, SameItems-refl db albums)

SameItems-drop :
    (db : Db) (album : Album) (albums : List Album) (w : World)
    → All (λ b. album.id ≢ b.id) albums
    → SameItems db w.db albums
    → SameItems db (drop_album album w).db albums
SameItems-drop db album [] w apart same = tt
SameItems-drop db album (b ∷ albums) w apart same =
    (list-drop_other album b.id w apart.0 ∙ same.0, SameItems-drop db album albums w apart.1 same.1)

-- One album, where storage deletes.
prune-real :
    (deletes : String → Bool) (album : Album) (f : Freed) (w : World)
    → ((k : String) → deletes k ≡ true)
    → (w' : World) × (w'.db ≡ w.db)
      × (prune_album deletes false album (f, w)
          ≡ (count_album album (list_album_media w.db album.id) f, drop_album album w'))
unfolding prune_album
prune-real deletes album f w works =
    let keys = storage_keys_for_media (list_album_media w.db album.id) in
    (
      record w { storage_deletes = w.storage_deletes ++ (delete_keys deletes keys).1 },
      refl,
      simp (all_deleted deletes keys works) refl,
    )

real-report :
    (deletes : String → Bool) (db : Db) (albums : List Album) (f : Freed) (w : World)
    → ((k : String) → deletes k ≡ true)
    → AllPairs (λ a b. a.id ≢ b.id) albums
    → SameItems db w.db albums
    → (prune_albums deletes false albums (f, w)).0 ≡ report db albums f
unfolding prune_albums report
real-report deletes db [] f w works apart same = refl
real-report deletes db (album ∷ albums) f w works apart same =
    let (w', kept, step) = prune-real deletes album f w works in
    ap (λ s. (prune_albums deletes false albums s).0) step
    ∙ real-report deletes db albums _ (drop_album album w') works apart.1 (
        SameItems-drop db album albums w' apart.0
          (subst (λ d. SameItems db d albums) (sym kept) same.1))
    ∙ ap (λ ms. report db albums (count_album album ms f)) same.0

-- A dry run changes nothing; and where storage deletes whatever it is asked to, and the expired
-- albums have distinct ids, it reports the same albums, numbers of items and bytes as the run itself.
pub dry_run-foretells :
    (deletes : String → Bool) (now : ℕ) (w : World)
    → ((k : String) → deletes k ≡ true)
    → AllPairs (λ a b. a.id ≢ b.id) (list_expired_albums w.db now)
    → ((prune_expired_albums deletes true now w).1 ≡ w)
      × ((prune_expired_albums deletes true now w).0 ≡ (prune_expired_albums deletes false now w).0)
unfolding prune_expired_albums
dry_run-foretells deletes now w works apart =
    let albums = list_expired_albums w.db now in
    let dry = dry-report deletes albums nothing w in
    (
      ap (λ s. s.1) dry,
      ap (λ s. s.0) dry
          ∙ sym
              (real-report deletes w.db albums nothing w works apart (SameItems-refl w.db albums)),
    )
