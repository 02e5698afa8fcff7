-- ===== src/Albums/Deletion.antt =====
-- service.py, `delete_album`: what a deletion removes.
use imghost.Prelude.{
  ℕ, ◌+◌, ◌≡◌, ◌≢◌, inl, inr, sym, Option-cases, refl, ap, ◌∙◌, String, Bool, false, Option, none,
  some, List, [], ◌∷◌, ◌++◌, length, sum_by,
}
use imghost.Http.{Exception, Result, ok, raise, Result-cases, Exec, ◌>>=◌, ◌>>◌, pure, or_raise}
use imghost.Http.Rules.{bind-ok, bind-raise}
use imghost.Models.{User, Album, Media}
use imghost.Repository
use imghost.Repository.{Db, get_album, list_album_media}
use imghost.Repository.Deletion.{delete_album-answer, get-delete, list-delete, list-delete_other}
use imghost.Albums.{
  World, emit, query, album_deleted, id_of, or_zero, actor_kind, require_album_access, open_album,
  is_admin_actor, storage_keys, delete_media_storage_keys, album_not_found, delete_album,
}

module _ (now : ℕ) (album_id : String) (token : Option String) (actor : Option User) (w : World)
    (album : Album) where
  pub opens_for :
      (allow : Bool)
      → get_album w.db album_id ≡ some album
      → require_album_access now album token actor allow ≡ ok tt
      → open_album now album_id token actor allow w ≡ (ok album, w)
  unfolding open_album ◌>>=◌
  opens_for allow found granted = simp (found, open_album) (simp granted refl)

  abbrev items : List Media
  items = list_album_media w.db album_id

  -- The world with the rows gone, the keys asked for, and the event out.
  abbrev pub without_album : World
  without_album = record {
    db = (Repository.delete_album w.db album_id).1;
    storage_deletes = w.storage_deletes ++ storage_keys items;
    events =
        w.events
        ++ album_deleted album.id album.user_id (id_of actor) (length items)
            (sum_by (λ m. m.file_size + or_zero m.thumb_size) items) (actor_kind actor token false)
            "web"
          ∷ [];
  }

  drops :
      get_album w.db album_id ≡ some album
      → query (λ db. let (r, db') = Repository.delete_album db album_id in (ok r, db')) w
        ≡ (ok (some album, items), record w { db = (Repository.delete_album w.db album_id).1 })
  drops found =
      ap
        (λ (r : Option Album × List Media).
          (ok r, record w { db = (Repository.delete_album w.db album_id).1 }))
        (delete_album-answer w.db album_id found)

  abbrev ending : Album → Exec World (Album × List Media)
  ending deleted =
      delete_media_storage_keys items
      >> (emit (
            album_deleted deleted.id deleted.user_id (id_of actor) (length items)
              (sum_by (λ m. m.file_size + or_zero m.thumb_size) items)
              (actor_kind actor token false) "web")
          >> pure (deleted, items))

  ends :
      (or_raise (some album) album_not_found >>= ending)
        (record w { db = (Repository.delete_album w.db album_id).1 })
      ≡ (ok (album, items), without_album)
  unfolding ◌>>=◌
  ends = refl

  deletes_all :
      get_album w.db album_id ≡ some album
      → require_album_access now album token actor (is_admin_actor actor) ≡ ok tt
      → delete_album now album_id token actor w ≡ (ok (album, items), without_album)
  unfolding delete_album
  deletes_all found granted =
      bind-ok (open_album now album_id token actor (is_admin_actor actor)) _ w
        (opens_for _ found granted)
      ∙ bind-ok (query (λ db. let (r, db') = Repository.delete_album db album_id in (ok r, db'))) _
          w (drops found)
      ∙ ends

  -- Deleting an album that is there, with access to it, returns the album and the items that it had;
  -- afterwards neither it nor an item of it is found, the listing of any other album is the same, and
  -- storage was asked to delete the keys of the items, and nothing else.
  pub delete_album-removes :
      (other : String)
      → get_album w.db album_id ≡ some album
      → require_album_access now album token actor (is_admin_actor actor) ≡ ok tt
      → album_id ≢ other
      → let (answer, w') = delete_album now album_id token actor w in
        (answer ≡ ok (album, list_album_media w.db album_id))
        × (get_album w'.db album_id ≡ none)
        × (list_album_media w'.db album_id ≡ [])
        × (list_album_media w'.db other ≡ list_album_media w.db other)
        × (w'.storage_deletes ≡ w.storage_deletes ++ storage_keys (list_album_media w.db album_id))
  delete_album-removes other found granted apart = rw (deletes_all found granted) (
    refl,
    get-delete w.db album_id found,
    list-delete w.db album_id found,
    list-delete_other w.db album_id other apart,
    refl,
  )

module _ (now : ℕ) (album_id : String) (token : Option String) (actor : Option User)
    (w : World) where
  abbrev opened : Exec World Album
  opened = open_album now album_id token actor (is_admin_actor actor)

  opened-missing : get_album w.db album_id ≡ none → opened w ≡ (raise album_not_found, w)
  unfolding open_album ◌>>=◌
  opened-missing missing = simp (missing, open_album) refl

  opened-refused :
      (album : Album) {x : Exception}
      → get_album w.db album_id ≡ some album
      → require_album_access now album token actor (is_admin_actor actor) ≡ raise x
      → opened w ≡ (raise x, w)
  unfolding open_album ◌>>=◌
  opened-refused album found refused = simp (found, open_album) (simp refused refl)

  -- A deletion that returns has found the album, and leaves none.
  pub delete_album-gone :
      {answer : Album × List Media} {w' : World}
      → delete_album now album_id token actor w ≡ (ok answer, w')
      → get_album w'.db album_id ≡ none
  unfolding delete_album
  delete_album-gone e = elim (Option-cases (get_album w.db album_id)) [
    | inl missing ↦
        let raised : delete_album now album_id token actor w ≡ (raise album_not_found, w) =
          bind-raise opened _ w (opened-missing missing) in
        absurd (cc (raised, e))
    | inr (album, found) ↦
        elim (Result-cases (require_album_access now album token actor (is_admin_actor actor))) [
          | inr (x, refused) ↦
              let raised : delete_album now album_id token actor w ≡ (raise x, w) =
                bind-raise opened _ w (opened-refused album found refused) in
              absurd (cc (raised, e))
          | inl (u, granted) ↦
              ap (λ (r : Result (Album × List Media) × World). get_album r.1.db album_id)
                (sym e ∙ deletes_all now album_id token actor w album found granted)
              ∙ get-delete w.db album_id found
        ]
  ]
