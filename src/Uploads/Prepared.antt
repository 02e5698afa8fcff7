-- ===== src/Uploads/Prepared.antt =====
-- service.py, `upload`: what preparing an upload leaves, the album that it goes to included.
use mathlib.Core.Path.{subst}
use imghost.Prelude.{
  ℕ, ◌≡◌, ◌≢◌, refl, sym, ap, ◌∙◌, String, true, false, Option, none, some, List, [], ◌∷◌, ◌++◌,
  arith, Bool-cases, Option-cases, inl, inr, ◌⊎◌,
}
use imghost.Text.{truthy}
use imghost.Http.{other, Result, ok, raise, ◌>>=◌, ◌>>◌, pure, Result-cases}
use imghost.Http.Rules.{
  Ensures, Ensures-bind, Ensures-gets, Ensures-lift, Ensures-raise_if, Ensures-of_state,
  Ensures-imp, Ensures-with,
}
use imghost.Models.{Album, Media}
use imghost.Repository.{Db, get_album, create_album}
use imghost.Albums.{World, Event, require_album_access}
use imghost.Albums.Reorder.{get_album-id}
use imghost.Uploads.{
  UploadConfig, UploadRequest, UploadCalls, Server, read_bounded_upload, enforce_storage_quotas,
  charge, get_or_create_album, check_target, create_target, fresh_album, emit,
}
use imghost.Uploads.Upload.{prepare}

check_target-found :
    (now : ℕ) (request : UploadRequest) (found : Option Album) {album : Album}
    → check_target now request found ≡ ok album
    → found ≡ some album
unfolding check_target
check_target-found now request none h = cc
check_target-found now request (some a) h = ground (
  arith,
  Option-cases request.user,
  Result-cases (require_album_access now a request.delete_token none false),
)

create_album-absent :
    (db : Db) (album : Album)
    → get_album db album.id ≡ none
    → create_album db album ≡ (ok album, record db { albums = db.albums ++ album ∷ [] })
unfolding create_album
create_album-absent db album e = rw (e, create_album) refl

create_album-taken :
    (db : Db) (album : Album) {row : Album}
    → get_album db album.id ≡ some row
    → create_album db album ≡ (raise (other "unique_violation"), db)
unfolding create_album
create_album-taken db album e = rw (e, create_album) refl

module _ (config : UploadConfig) (calls : UploadCalls) (now : ℕ) (request : UploadRequest) where
  -- The album is there, and nothing was written, or it was created.
  abbrev pub Target : Db → Album → Db → Type 0
  Target db album db' =
      ((db' ≡ db) × (get_album db album.id ≡ some album) × (request.album_id ≢ none))
      ⊎ ((db' ≡ record db { albums = db.albums ++ album ∷ [] })
          × (get_album db album.id ≡ none)
          × (truthy request.album_id ≡ false))

  charge-db :
      (size : ℕ) (s : Server)
      → Ensures
          (λ _ s'. s'.world ≡ s.world)
          (λ _ s'. s'.world ≡ s.world)
          (charge config now request size s)
  charge-db size s =
      Ensures-of_state (λ s'. s'.world ≡ s.world) (charge config now request size s)
        (go request.rate_limit_key refl)
    where
      go :
          (key : Option String)
          → request.rate_limit_key ≡ key
          → (charge config now request size s).1.world ≡ s.world
      go none e = rw (e, charge) refl
      go (some key) e = elim (Bool-cases (truthy (some key))) [
        | inl p ↦ rw (e, charge) (rw p refl)
        | inr p ↦ rw (e, charge) (rw p refl)
      ]

  abbrev album₀ : Album
  album₀ = fresh_album config calls now request

  abbrev Created : Db → Album → Server → Type 0
  Created db album s =
      (album ≡ album₀)
      × (s.world.db ≡ record db { albums = db.albums ++ album₀ ∷ [] })
      × (get_album db album₀.id ≡ none)

  abbrev stepped : Server → Result Album × Db → Result Album × Server
  stepped s p = (p.0, record s { world = record s.world { db = p.1 } })

  create-post :
      (s : Server)
      → Ensures
          (Created s.world.db)
          (λ _ s'. s'.world.db ≡ s.world.db)
          (stepped s (create_album s.world.db album₀))
  create-post s = elim (Option-cases (get_album s.world.db album₀.id)) [
    | inl e ↦
        subst (λ p. Ensures (Created s.world.db) (λ _ s'. s'.world.db ≡ s.world.db) (stepped s p))
          (sym (create_album-absent s.world.db album₀ e)) (refl, refl, e)
    | inr (_, e) ↦
        subst (λ p. Ensures (Created s.world.db) (λ _ s'. s'.world.db ≡ s.world.db) (stepped s p))
          (sym (create_album-taken s.world.db album₀ e)) refl
  ]

  announced :
      (s : Server) (event : Event) (album : Album) (s' : Server)
      → Created s.world.db album s'
      → truthy request.album_id ≡ false
      → Ensures {A = Album}
          (λ album s'. Target s.world.db album s'.world.db)
          (λ _ s'. s'.world.db ≡ s.world.db)
          ((emit event >> pure album) s')
  unfolding ◌>>=◌
  announced s event album s' c unnamed = rw c.0 (inr (c.1, c.2, unnamed))

  create_target-post :
      (s : Server)
      → truthy request.album_id ≡ false
      → Ensures
          (λ album s'. Target s.world.db album s'.world.db)
          (λ _ s'. s'.world.db ≡ s.world.db)
          (create_target config calls now request s)
  unfolding create_target
  create_target-post s unnamed =
      Ensures-bind (Created s.world.db) _ _ _ _ s (create-post s)
        λ album s' c. announced s _ album s' c unnamed

  makes_new :
      (id : Option String)
      → request.album_id ≡ id
      → truthy id ≡ false
      → get_or_create_album config calls now request ≡ create_target config calls now request
  unfolding get_or_create_album
  makes_new none e new = simp (e, get_or_create_album) refl
  makes_new (some id) e new = simp (e, get_or_create_album) (simp new refl)

  takes_named :
      (id : String) (s : Server)
      → request.album_id ≡ some id
      → truthy (some id) ≡ true
      → get_or_create_album config calls now request s
        ≡ (check_target now request (get_album s.world.db id), s)
  unfolding get_or_create_album
  takes_named id s e named = simp (e, get_or_create_album) (simp named refl)

  named-post :
      (id : String) (s : Server) (r : Result Album)
      → request.album_id ≡ some id
      → check_target now request (get_album s.world.db id) ≡ r
      → Ensures
          (λ album s'. Target s.world.db album s'.world.db)
          (λ _ s'. s'.world.db ≡ s.world.db)
          (r, s)
  named-post id s (raise e) named h = refl
  named-post id s (ok album) named h =
      let found = check_target-found now request (get_album s.world.db id) h in
      inl (
        refl,
        ap (get_album s.world.db) (get_album-id s.world.db id found) ∙ found,
        λ none_given. cc,
      )

  get_or_create-post :
      (s : Server)
      → Ensures
          (λ album s'. Target s.world.db album s'.world.db)
          (λ _ s'. s'.world.db ≡ s.world.db)
          (get_or_create_album config calls now request s)
  unfolding truthy
  get_or_create-post s = go request.album_id refl
    where
      go :
          (id : Option String)
          → request.album_id ≡ id
          → Ensures
              (λ album s'. Target s.world.db album s'.world.db)
              (λ _ s'. s'.world.db ≡ s.world.db)
              (get_or_create_album config calls now request s)
      go none e = rw (makes_new none e refl) (create_target-post s (ap truthy e))
      go (some id) e = elim (Bool-cases (truthy (some id))) [
        | inr p ↦ rw (makes_new (some id) e p) (create_target-post s (ap truthy e ∙ p))
        | inl p ↦ rw (takes_named id s e p) (named-post id s _ e refl)
      ]

  -- What was read is within the bounds that are checked.
  abbrev pub Admitted : List Media → Type 0
  Admitted all_media =
      (size : ℕ) × (read_bounded_upload config.max_upload_bytes 0 request.chunks ≡ ok size)
      × (enforce_storage_quotas config request.user size all_media ≡ ok tt)

  -- Preparing an upload finds or creates its album, within the bounds, or changes no row.
  pub prepare-post :
      (s : Server)
      → Ensures
          (λ album s'. Target s.world.db album s'.world.db × Admitted s.world.db.media)
          (λ _ s'. s'.world.db ≡ s.world.db)
          (prepare config calls now request s)
  unfolding prepare
  prepare-post s =
      Ensures-lift _ _ _ _ s
        (λ size read.
          Ensures-raise_if _ _ _ _ _ s
            (λ _.
              Ensures-bind (λ _ s'. s'.world ≡ s.world) _ _ _ _ s
                (Ensures-imp (λ _ s'. s'.world ≡ s.world) (λ _ s'. s'.world ≡ s.world)
                  (λ _ s'. s'.world.db ≡ s.world.db) (charge config now request size s)
                  (charge-db size s) (λ _ _ w. ap (λ (v : World). v.db) w))
                (λ _ s₁ w. Ensures-gets _ _ _ _ s₁ (
                  Ensures-lift _ _ _ _ s₁
                    (λ _ admits.
                      Ensures-with (λ album s'. Target s.world.db album s'.world.db)
                        (λ _ s'. s'.world.db ≡ s.world.db)
                        (get_or_create_album config calls now request s₁)
                        (
                          size,
                          read,
                          subst
                              (λ (v : World).
                                enforce_storage_quotas config request.user size v.db.media ≡ ok tt)
                              w admits,
                        )
                        (subst
                          (λ (v : World).
                            Ensures (λ album s'. Target v.db album s'.world.db)
                              (λ _ s'. s'.world.db ≡ v.db)
                              (get_or_create_album config calls now request s₁))
                          w (get_or_create-post s₁)))
                    (λ _ _. ap (λ (v : World). v.db) w))))
            (λ _. refl))
        (λ _ _. refl)
