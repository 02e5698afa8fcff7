-- ===== src/Albums/Reorder.antt =====
-- service.py, `reorder_album`: what a reordering leaves, and what a refused one leaves.
use mathlib.Core.Path.{subst}
use mathlib.Core.List.{append-nil, append_assoc}
use imghost.Prelude.{
  ℕ, ◌≡◌, refl, sym, ap, ◌∙◌, String, Bool, false, Option, some, List, [], ◌∷◌, ◌++◌, map, arith,
  find, eq_iff, Bool-cases, inl, inr, if◌then◌else◌,
}
use imghost.Prelude.Int.{ℤ}
use imghost.Http.{Exception, ok, raise, ◌>>=◌, ◌>>◌, pure}
use imghost.Http.Rules.{
  Ensures, Ensures-bind, Ensures-ok, of_Ensures-ok, of_Ensures-raise, Ensures-gets,
  Ensures-or_raise, Ensures-lift, Ensures-raise_if,
}
use imghost.Models.{User, Album, Media}
use imghost.Repository
use imghost.Repository.{
  Db, written, get_album, has_album_id, has_media_id, list_album_media, update_media_positions,
  apply_positions, set_position,
}
use imghost.Repository.Positions.{DistinctIds}
use imghost.Repository.Rebalance.{
  needs_rebalance, renumber-needs_rebalance, spread-listing, map_id-renumber,
  update_media_positions-DistinctIds,
}
use imghost.Albums.{
  World, Event, emit, lookup_as_404, open_album, require_album_access, check_order, rebalance, save,
  reorder_album, move,
}

-- Opening an album changes nothing; an album that it returns is the row with that id, and access to
-- it was granted.
pub open_album-post :
    (now : ℕ) (album_id : String) (token : Option String) (actor : Option User) (allow : Bool)
    (w : World)
    → Ensures
        (λ album w'.
          (w' ≡ w)
          × (get_album w.db album_id ≡ some album)
          × (require_album_access now album token actor allow ≡ ok tt))
        (λ e w'. w' ≡ w)
        (open_album now album_id token actor allow w)
unfolding open_album
open_album-post now album_id token actor allow w = Ensures-gets _ _ _ _ w (
    Ensures-or_raise _ _ _ _ _ w
      (λ album found. Ensures-lift _ _ _ _ w (λ _ granted. (refl, found, granted)) (λ e _. refl))
      (λ _. refl))

-- What was read into the dict is the payload, in its order.
check_order-ok :
    (items : List Media) (ps order r : List (String × ℤ))
    → check_order items ps order ≡ ok r
    → r ≡ ps ++ order
unfolding check_order
check_order-ok items ps [] r h = ground (arith, append-nil ps)
check_order-ok items ps ((k, p) ∷ order) r h =
    ground
      (arith, check_order-ok items (ps ++ (k, p) ∷ []) order r, append_assoc ps ((k, p) ∷ []) order)

-- Nothing but the database differs.
abbrev SameButMedia : World → World → Type 0
SameButMedia w w' =
    (w'.db.albums ≡ w.db.albums) × (w'.events ≡ w.events) × (w'.storage_deletes ≡ w.storage_deletes)

abbrev ids : List Media → List String
ids = map (λ m. m.id)

-- A listing settles: its items keep their order, with room between any two of them.
rebalance-settles :
    (E : Exception → World → Type 0) (album_id : String) (w : World)
    → DistinctIds w.db.media
    → Ensures
        (λ items w'.
          (needs_rebalance items ≡ false)
          × (list_album_media w'.db album_id ≡ items)
          × (ids items ≡ ids (list_album_media w.db album_id))
          × SameButMedia w w')
        E
        (rebalance album_id (list_album_media w.db album_id) w)
unfolding rebalance
rebalance-settles E album_id w d =
    elim (Bool-cases (needs_rebalance (list_album_media w.db album_id))) [
      | inl p ↦ rw p (
          let s = spread-listing w.db album_id d in
          (
            ap needs_rebalance s ∙ renumber-needs_rebalance 1 _,
            refl,
            ap ids s ∙ map_id-renumber 1 _,
            (refl, refl, refl),
          ))
      | inr p ↦ rw p (p, refl, refl, (refl, refl, refl))
    ]

-- A row that is found by an id has that id.
pub get_album-id :
    (db : Db) (album_id : String) {a : Album} → get_album db album_id ≡ some a → a.id ≡ album_id
unfolding get_album find
get_album-id db album_id {a} = go db.albums
  where
    go : (rows : List Album) → find (has_album_id album_id) rows ≡ some a → a.id ≡ album_id
    go [] h = cc
    go (r ∷ rows) h = ground (arith, eq_iff r.id album_id, go rows)

pub update_album-found :
    (now : ℕ) (db : Db) (album row : Album)
    → get_album db album.id ≡ some row
    → Repository.update_album now db album ≡ (
      ok (written now album row),
      record db {
        albums = map (λ a. if has_album_id album.id a then written now album a else a) db.albums;
      },
    )
unfolding Repository.update_album
update_album-found now db album row found = rw (found, Repository.update_album) refl

save-found :
    (now : ℕ) (album row : Album) (w : World)
    → get_album w.db album.id ≡ some row
    → save now album w ≡ (
      ok tt,
      record w {
        db = record w.db {
          albums =
              map (λ a. if has_album_id album.id a then written now album a else a) w.db.albums;
        };
      },
    )
unfolding save
save-found now album row w found =
    ap (λ r. (lookup_as_404 r.0, record w { db = r.1 }))
      (update_album-found now w.db album row found)

-- Saving an album that is there cannot fail, and leaves media, events and storage alone.
pub save-post :
    (E : Exception → World → Type 0) (now : ℕ) (album row : Album) (w : World)
    → get_album w.db album.id ≡ some row
    → Ensures
        (λ _ w'.
          (w'.db.media ≡ w.db.media)
          × (w'.events ≡ w.events)
          × (w'.storage_deletes ≡ w.storage_deletes))
        E
        (save now album w)
save-post E now album row w found =
    subst
      (Ensures
        (λ _ w'.
          (w'.db.media ≡ w.db.media)
          × (w'.events ≡ w.events)
          × (w'.storage_deletes ≡ w.storage_deletes))
        E)
      (sym (save-found now album row w found)) (refl, refl, refl)

get_album_of_albums :
    (a b : Db) (album_id : String)
    → a.albums ≡ b.albums
    → get_album a album_id ≡ get_album b album_id
unfolding get_album
get_album_of_albums a b album_id e = rw e

listing_of_media :
    (a b : Db) (album_id : String)
    → a.media ≡ b.media
    → list_album_media a album_id ≡ list_album_media b album_id
unfolding list_album_media
listing_of_media a b album_id e = rw e

module _ (now : ℕ) (album_id : String) (token : Option String) (order : List (String × ℤ))
    (actor : Option User) (w : World) where
  -- What the new listing is, against the old database.
  abbrev pub Settled : World → List Media → Type 0
  Settled w' items =
      (needs_rebalance items ≡ false)
      × (list_album_media w'.db album_id ≡ items)
      × (ids items ≡ ids (update_media_positions w.db album_id order).0)

  abbrev moved : List (String × ℤ) → World
  moved positions = record w { db = (update_media_positions w.db album_id positions).1 }

  reorder-end :
      (E : Exception → World → Type 0) (event : Event) (album : Album) (settled : List Media)
      (w' : World)
      → Settled w' settled
      → Ensures {A = Album × List Media}
          (λ answer w'. Settled w' answer.1)
          E
          ((emit event >> pure (album, settled)) w')
  unfolding ◌>>=◌
  reorder-end E event album settled w' s = s

  -- From the write of the positions on, nothing fails.
  reorder-tail :
      (album : Album) (positions : List (String × ℤ)) (event : Event)
      → DistinctIds w.db.media
      → get_album w.db album_id ≡ some album
      → positions ≡ order
      → Ensures {A = Album × List Media}
          (λ answer w'. Settled w' answer.1)
          (λ e w'. w' ≡ w)
          ((move album_id positions >>= λ reordered. rebalance album_id reordered >>= λ settled.
              save now album >>= λ _. emit event >> pure (album, settled))
            w)
  unfolding update_media_positions
  reorder-tail album positions event d found same =
      let E : Exception → World → Type 0 = λ e w'. w' ≡ w in
      let Q : Album × List Media → World → Type 0 = λ answer w'. Settled w' answer.1 in
      let m = moved positions in
      Ensures-ok E Q _ _ w _ m refl (
        Ensures-bind
          (λ items w'.
            (needs_rebalance items ≡ false)
            × (list_album_media w'.db album_id ≡ items)
            × (ids items ≡ ids (list_album_media m.db album_id))
            × SameButMedia m w')
          E Q _ _ m
          (rebalance-settles E album_id m
            (update_media_positions-DistinctIds w.db album_id positions d))
          λ settled w₂ s.
            Ensures-bind
              (λ _ w'.
                (w'.db.media ≡ w₂.db.media)
                × (w'.events ≡ w₂.events)
                × (w'.storage_deletes ≡ w₂.storage_deletes))
              E Q _ _ w₂
              (save-post E now album album w₂ (
                get_album_of_albums w₂.db w.db album.id s.3.0
                ∙ ap (get_album w.db) (get_album-id w.db album_id found)
                ∙ found))
              λ _ w₃ t. reorder-end E event album settled w₃ (
                s.0,
                listing_of_media w₃.db w₂.db album_id t.0 ∙ s.1,
                s.2 ∙ ap (λ o. ids (update_media_positions w.db album_id o).0) same,
              ))

  reorder_album-post :
      DistinctIds w.db.media
      → Ensures {A = Album × List Media}
          (λ answer w'. Settled w' answer.1)
          (λ e w'. w' ≡ w)
          (reorder_album now album_id token order actor w)
  unfolding reorder_album
  reorder_album-post d =
      Ensures-bind
        (λ album w'.
          (w' ≡ w)
          × (get_album w.db album_id ≡ some album)
          × (require_album_access now album token actor false ≡ ok tt))
        _ _ _ _ w (open_album-post now album_id token actor false w)
        λ album w' opened. rw opened.0 (
          Ensures-gets _ _ _ _ w (
            Ensures-raise_if _ _ _ _ _ w
              (λ _.
                Ensures-lift _ _ _ _ w
                  (λ positions read.
                    reorder-tail album positions _ d opened.1
                      (check_order-ok _ [] order positions read))
                  (λ e _. refl))
              (λ _. refl)))

  -- Reordering an album whose media have distinct ids returns the listing that the database then
  -- holds: its items stand in the order that the requested positions give, and any two neighbours
  -- have room between them, so that `_needs_rebalance` is false of them.
  pub reorder_album-settles :
      DistinctIds w.db.media
      → {album : Album} {items : List Media} {w' : World}
      → reorder_album now album_id token order actor w ≡ (ok (album, items), w')
      → (needs_rebalance items ≡ false)
        × (list_album_media w'.db album_id ≡ items)
        × (ids items ≡ ids (update_media_positions w.db album_id order).0)
  reorder_album-settles d e = of_Ensures-ok _ _ _ (reorder_album-post d) e

  -- A reordering that raises leaves the database, the events and the storage as they were.
  pub reorder_album-raises :
      DistinctIds w.db.media
      → {e : Exception} {w' : World}
      → reorder_album now album_id token order actor w ≡ (raise e, w')
      → w' ≡ w
  reorder_album-raises d e = of_Ensures-raise _ _ _ (reorder_album-post d) e
