-- ===== src/Uploads/Rollback.antt =====
-- service.py, `upload`: the rows after an upload that raises, and after one that returns.
use mathlib.Core.Path.{subst}
use imghost.Prelude.{
  ℕ, ◌≡◌, ◌≢◌, refl, sym, ap, ◌∙◌, String, false, not, ◌&&◌, Option, none, some, List, [], ◌∷◌,
  ◌++◌, arith, eq_iff, Bool-cases, inl, inr,
}
use imghost.Text.{truthy}
use imghost.Http.{Exception, Result, ok, raise, ◌>>=◌, pure}
use imghost.Http.Rules.{Ensures, of_Ensures-ok, of_Ensures-raise, Ensures-weaker}
use imghost.Models.{Album, Media}
use imghost.Repository.{Db, get_album}
use imghost.Repository.NewAlbum.{
  HasAlbums, with_album, list_album_media-new, get_album-new, delete_album-new,
}
use imghost.Albums.{id_of, lookup_as_404}
use imghost.Albums.Reorder.{update_album-found}
use imghost.Uploads.{UploadConfig, UploadRequest, UploadCalls, Server, Sanitized, fresh_media}
use imghost.Uploads.Upload.{fill, roll_back, conclude, after_fill, after_prepare, upload, titled}
use imghost.Uploads.Prepared.{Target, Admitted, prepare-post}
use imghost.Uploads.Filled.{placed, fill-post}

absent : (id : Option String) → id ≢ some "" → truthy id ≡ false → id ≡ none
unfolding truthy
absent none h k = refl
absent (some s) h k = absurd (h (ap some (ground (arith, eq_iff s ""))))

get_album_of_media :
    (db : Db) (ms : List Media) (album_id : String)
    → get_album (record db { media = ms }) album_id ≡ get_album db album_id
unfolding get_album
get_album_of_media db ms album_id = refl

module _ (config : UploadConfig) (calls : UploadCalls) (now : ℕ) (request : UploadRequest) where
  id-titled : (album : Album) → (titled config calls now request album).id ≡ album.id
  id-titled album = elim (Bool-cases (not (truthy album.title) && truthy request.title)) [
    | inl p ↦ rw p refl
    | inr p ↦ rw p refl
  ]

  -- The last update finds the album, so it does not raise.
  conclude-post :
      (E : Exception → Server → Type 0) (album row : Album) (media : Media) (s : Server)
      → get_album s.world.db album.id ≡ some row
      → Ensures {A = Album × Media}
          (λ _ s'. s'.world.db.media ≡ s.world.db.media)
          E
          (conclude config calls now request album media s)
  unfolding conclude ◌>>=◌
  conclude-post E album row media s here =
      subst
        (λ (p : Result Album × Db).
          Ensures {A = Album × Media} (λ _ s'. s'.world.db.media ≡ s.world.db.media) E
            (((λ (s : Server).
                  (lookup_as_404 p.0, record s { world = record s.world { db = p.1 } }))
                >>= λ _. pure (titled config calls now request album, media))
              s))
        (sym (
          update_album-found now s.world.db (titled config calls now request album) row
            (ap (get_album s.world.db) (id-titled album) ∙ here)))
        refl

  keeps_rows :
      (album : Album) (s : Server)
      → request.album_id ≢ none
      → roll_back config calls now request album s ≡ s
  unfolding roll_back
  keeps_rows album s named = go request.album_id refl
    where
      go :
          (id : Option String)
          → request.album_id ≡ id
          → roll_back config calls now request album s ≡ s
      go none e = absurd (named e)
      go (some id) e = simp (e, roll_back) refl

  drops_album :
      (db : Db) (album : Album) (s : Server)
      → HasAlbums db
      → request.album_id ≡ none
      → get_album db album.id ≡ none
      → s.world.db ≡ with_album db album
      → (roll_back config calls now request album s).world.db ≡ db
  unfolding roll_back
  drops_album db album s has unnamed new e =
      simp (unnamed, roll_back)
        (simp e (
          simp (list_album_media-new db album new has)
            (simp (delete_album-new db album new has) refl)))

  -- Rolling back undoes what `prepare` did to the rows.
  roll_back-restores :
      (db : Db) (album : Album) (s₁ s₂ : Server)
      → HasAlbums db
      → request.album_id ≢ some ""
      → Target config calls now request db album s₁.world.db
      → s₂.world.db ≡ s₁.world.db
      → (roll_back config calls now request album s₂).world.db ≡ db
  unfolding truthy
  roll_back-restores db album s₁ s₂ has named t same = elim t [
    | inl (e, _, given) ↦ ap (λ (s : Server). s.world.db) (keeps_rows album s₂ given) ∙ same ∙ e
    | inr (e, new, unnamed) ↦
        drops_album db album s₂ has (absent request.album_id named unnamed) new (same ∙ e)
  ]

  -- The album is found again once the item is in.
  still_there :
      (db : Db) (album : Album) (s₁ : Server)
      → HasAlbums db
      → Target config calls now request db album s₁.world.db
      → get_album s₁.world.db album.id ≡ some album
  still_there db album s₁ has t = elim t [
    | inl (e, found, _) ↦ ap (λ d. get_album d album.id) e ∙ found
    | inr (e, new, _) ↦ ap (λ d. get_album d album.id) e ∙ get_album-new db album new has
  ]

  -- One item was added, the processor's, with no thumbnail yet, and the quotas admitted what was read.
  abbrev pub Added : Db → Db → Type 0
  Added db db' =
      (row : Media) × (sanitized : Sanitized) × (db'.media ≡ db.media ++ row ∷ [])
      × (calls.sanitized ≡ ok sanitized)
      × (row.file_size ≡ sanitized.size)
      × (row.thumb_key ≡ none)
      × (row.user_id ≡ id_of request.user)
      × Admitted config calls now request db.media

  then_fill :
      (album : Album) (s s₁ : Server) (q : Result Media × Server)
      → HasAlbums s.world.db
      → request.album_id ≢ some ""
      → Target config calls now request s.world.db album s₁.world.db
      → Admitted config calls now request s.world.db.media
      → fill config calls now request album s₁ ≡ q
      → Ensures {S = Server} {A = Album × Media}
          (λ _ s'. Added s.world.db s'.world.db)
          (λ _ s'. s'.world.db ≡ s.world.db)
          (after_fill config calls now request album q)
  unfolding after_fill
  then_fill album s s₁ (raise e, s₂) has named t admitted h =
      roll_back-restores s.world.db album s₁ s₂ has named t
        (of_Ensures-raise _ _ _ (fill-post calls now request album config s₁) h)
  then_fill album s s₁ (ok media, s₂) has named t admitted h =
      let new = of_Ensures-ok _ _ _ (fill-post calls now request album config s₁) h in
      let rows = new.2 in
      let row = placed s₁.world.db (fresh_media calls now request album.id new.0) in
      let unaltered : s₁.world.db.media ≡ s.world.db.media = elim t [
        | inl p ↦ ap (λ (d : Db). d.media) p.0
        | inr p ↦ ap (λ (d : Db). d.media) p.0
      ] in
      let here =
        ap (λ d. get_album d album.id) rows
        ∙ get_album_of_media s₁.world.db (s₁.world.db.media ++ row ∷ []) album.id
        ∙ still_there s.world.db album s₁ has t in
      Ensures-weaker {S = Server} {A = Album × Media}
        (λ _ s'. s'.world.db.media ≡ s₂.world.db.media) (λ _ s'. Added s.world.db s'.world.db)
        (λ _ s'. s'.world.db ≡ s.world.db) (conclude config calls now request album media s₂)
        (conclude-post (λ _ s'. s'.world.db ≡ s.world.db) album album media s₂ here)
        (λ _ s₃ same. (
          row,
          new.0,
          same ∙ ap (λ (d : Db). d.media) rows ∙ ap (λ ms. ms ++ row ∷ []) unaltered,
          new.1,
          refl,
          refl,
          refl,
          admitted,
        ))

  prepared :
      (s : Server) (p : Result Album × Server)
      → HasAlbums s.world.db
      → request.album_id ≢ some ""
      → Ensures {S = Server} {A = Album}
          (λ album s'.
            Target config calls now request s.world.db album s'.world.db
            × Admitted config calls now request s.world.db.media)
          (λ _ s'. s'.world.db ≡ s.world.db)
          p
      → Ensures {S = Server} {A = Album × Media}
          (λ _ s'. Added s.world.db s'.world.db)
          (λ _ s'. s'.world.db ≡ s.world.db)
          (after_prepare config calls now request p)
  unfolding after_prepare
  prepared s (raise e, s₁) has named h = h
  prepared s (ok album, s₁) has named h = then_fill album s s₁ _ has named h.0 h.1 refl

  upload-post :
      (s : Server)
      → HasAlbums s.world.db
      → request.album_id ≢ some ""
      → Ensures {S = Server} {A = Album × Media}
          (λ _ s'. Added s.world.db s'.world.db)
          (λ _ s'. s'.world.db ≡ s.world.db)
          (upload config calls now request s)
  unfolding upload
  upload-post s has named = prepared s _ has named (prepare-post config calls now request s)

  -- An upload that raises, whatever the step at which it does, leaves albums and items as they were:
  -- an album that it created is gone again. Each item must be in an album that there is, and an album
  -- id that is given must not be empty.
  pub upload-raises :
      (s : Server) {e : Exception} {s' : Server}
      → HasAlbums s.world.db
      → request.album_id ≢ some ""
      → upload config calls now request s ≡ (raise e, s')
      → s'.world.db ≡ s.world.db
  upload-raises s has named h = of_Ensures-raise _ _ _ (upload-post s has named) h

  -- An upload that returns has added one item and no other, as large as the processor made it, with
  -- no thumbnail, and what was read was within the size and the quotas that are checked.
  pub upload-adds :
      (s : Server) {answer : Album × Media} {s' : Server}
      → HasAlbums s.world.db
      → request.album_id ≢ some ""
      → upload config calls now request s ≡ (ok answer, s')
      → Added s.world.db s'.world.db
  upload-adds s has named h = of_Ensures-ok _ _ _ (upload-post s has named) h
