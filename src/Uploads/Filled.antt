-- ===== src/Uploads/Filled.antt =====
-- service.py, `_create_media` within `upload`: the row that it inserts.
use mathlib.Core.Path.{subst}
use imghost.Prelude.{
  ℕ, ◌≡◌, refl, ap, ◌∙◌, String, false, none, some, [], ◌∷◌, ◌++◌, arith, Option-cases, inl, inr,
}
use imghost.Http.{Exception, Result, ok, raise, ◌>>=◌, ◌>>◌, pure, gets}
use imghost.Http.Rules.{Ensures, Ensures-bind, Ensures-gets, Ensures-lift, Ensures-raise_if}
use imghost.Models.{Album, Media}
use imghost.Repository.{Db, get_album, get_media, next_position, create_media_with_next_position}
use imghost.Repository.Positions.{create_media-inserts}
use imghost.Albums.{World, Event, media_uploaded, id_of, actor_kind}
use imghost.Uploads.{
  UploadConfig, UploadRequest, UploadCalls, Server, Sanitized, create_media, fresh_media, put,
  insert, inserted, emit,
}
use imghost.Uploads.Upload.{fill}

raise_keeps :
    (db db' : Db) (media : Media) {e : Exception}
    → create_media_with_next_position db media ≡ (raise e, db')
    → db' ≡ db
unfolding create_media_with_next_position
raise_keeps db db' media h =
    ground (arith, Option-cases (get_album db media.album_id), Option-cases (get_media db media.id))

-- The item as it is inserted.
abbrev pub placed : Db → Media → Media
placed db media = record media { position = next_position db media.album_id }

abbrev pub IsInserted : Db → Media → Db → Type 0
IsInserted db media db' = db' ≡ record db { media = db.media ++ placed db media ∷ [] }

inserted-post :
    (media : Media) (s : Server) (p : Result Media × Db)
    → create_media_with_next_position s.world.db media ≡ p
    → Ensures
        (λ _ s'. IsInserted s.world.db media s'.world.db)
        (λ _ s'. s'.world.db ≡ s.world.db)
        (inserted media s p)
inserted-post media s (ok row, db') e =
    let (same, here) = create_media-inserts s.world.db db' media row e in
    here ∙ ap (λ r. record s.world.db { media = s.world.db.media ++ r ∷ [] }) same
inserted-post media s (raise x, db') e = raise_keeps s.world.db db' media e

module _ (calls : UploadCalls) (now : ℕ) (request : UploadRequest) (album : Album) where
  -- A new item was put in, made of what the processor gave.
  abbrev pub HasNew : Db → Db → Type 0
  HasNew db db' =
      (sanitized : Sanitized) × (calls.sanitized ≡ ok sanitized)
      × IsInserted db (fresh_media calls now request album.id sanitized) db'

  put-post :
      (key : String) (s : Server)
      → Ensures (λ _ s'. s'.world ≡ s.world) (λ _ s'. s'.world.db ≡ s.world.db) (put calls key s)
  put-post key s = elim (Option-cases calls.put_fails) [
    | inl e ↦ simp (e, put) refl
    | inr (_, e) ↦ simp (e, put) refl
  ]

  told :
      (db : Db) (event : Event) (media : Media) (s : Server)
      → HasNew db s.world.db
      → Ensures {A = Media}
          (λ _ s'. HasNew db s'.world.db)
          (λ _ s'. s'.world.db ≡ db)
          ((emit event
              >> (gets (λ s. get_media s.world.db media.id) >>= λ refreshed.
                  pure (elim refreshed [ none ↦ media | some row ↦ row ])))
            s)
  unfolding ◌>>=◌
  told db event media s h = h

  -- From the insert on.
  insert_and_tell :
      (event : Media → Event) (sanitized : Sanitized) (s : Server)
      → calls.sanitized ≡ ok sanitized
      → Ensures {A = Media}
          (λ _ s'. HasNew s.world.db s'.world.db)
          (λ _ s'. s'.world.db ≡ s.world.db)
          ((insert (fresh_media calls now request album.id sanitized) >>= λ media.
              emit (event media)
              >> (gets (λ s. get_media s.world.db media.id) >>= λ refreshed.
                  pure (elim refreshed [ none ↦ media | some row ↦ row ])))
            s)
  insert_and_tell event sanitized s made =
      let new = fresh_media calls now request album.id sanitized in
      Ensures-bind (λ _ s'. IsInserted s.world.db new s'.world.db) _ _ _ _ s
        (inserted-post new s _ refl)
        (λ media s₁ here. told s.world.db (event media) media s₁ (sanitized, made, here))

  create_media-post :
      (s : Server)
      → Ensures
          (λ _ s'. HasNew s.world.db s'.world.db)
          (λ _ s'. s'.world.db ≡ s.world.db)
          (create_media calls now request album.id s)
  unfolding create_media
  create_media-post s =
      Ensures-lift _ _ _ _ s
        (λ sanitized made.
          Ensures-bind (λ _ s'. s'.world ≡ s.world) _ _ _ _ s (put-post _ s)
            (λ _ s₁ w.
              subst
                (λ (v : World).
                  Ensures {A = Media} (λ _ s'. HasNew v.db s'.world.db) (λ _ s'. s'.world.db ≡ v.db)
                    ((insert (fresh_media calls now request album.id sanitized) >>= λ media.
                        emit (
                          media_uploaded media.id media.album_id (id_of request.user)
                            media.file_size media.info.media_type media.format
                            (actor_kind request.user none false) request.source)
                        >> (gets (λ s. get_media s.world.db media.id) >>= λ refreshed.
                            pure (elim refreshed [ none ↦ media | some row ↦ row ])))
                      s₁))
                w (insert_and_tell _ sanitized s₁ made)))
        (λ _ _. refl)

  -- Filling the album inserts one item, the processor's, or changes no row.
  pub fill-post :
      (config : UploadConfig) (s : Server)
      → Ensures
          (λ _ s'. HasNew s.world.db s'.world.db)
          (λ _ s'. s'.world.db ≡ s.world.db)
          (fill config calls now request album s)
  unfolding fill
  fill-post config s =
      Ensures-gets _ _ _ _ s (Ensures-raise_if _ _ _ _ _ s (λ _. create_media-post s) (λ _. refl))
