-- ===== src/Albums/ItemDeletion.antt =====
-- service.py, `delete_media`: what the deletion of one item leaves of its album.
use imghost.Prelude.{
  ℕ, ◌+◌, ◌≡◌, ◌≢◌, refl, sym, ap, ◌∙◌, String, Bool, true, false, not, Option, none, some, List,
  [], ◌∷◌, ◌++◌, find, arith, Bool-cases, inl, inr, ◌⊎◌, if◌then◌else◌,
}
use mathlib.Core.Path.{subst}
use imghost.Text.{opt_eq, opt_eq_iff}
use imghost.Http.{ok, Exec, ◌>>=◌, ◌>>◌, or_raise, http, gets, Result}
use imghost.Http.Rules.{bind-ok}
use imghost.Models.{User, Album, Media}
use imghost.Repository
use imghost.Repository.{Db, written, get_album, get_media, list_album_media}
use imghost.Repository.Deletion.{delete_album-answer, get-delete}
use imghost.Repository.ItemDeletion.{
  is_there, is_item, has_cover, cover_of, has_cover_if, get-delete_media, get_album-delete_media,
  cover-delete_media, get_media-delete_album, get-update_album, media-update_album, list_of_media,
  get_of_media,
}
use imghost.Albums.{
  World, emit, query, media_deleted, id_of, source_of, or_zero, actor_kind, require_album_access,
  open_album, is_empty, storage_keys, delete_media_storage_keys, MediaDeleteResult,
  drop_empty_album, keep_album, delete_media,
}
use imghost.Albums.Reorder.{get_album-id, update_album-found}
use imghost.Albums.Deletion.{opens_for}

-- The album, if it is there, has an item.
abbrev pub has_items : Db → (album_id : String) → Bool
has_items db album_id = elim (get_album db album_id) [
  | none ↦ true
  | some _ ↦ not (is_empty (list_album_media db album_id))
]

module _ (now : ℕ) (token : Option String) (actor : Option User) (w : World) (media : Media)
    (album : Album) where
  -- The world with the row of the item gone, its keys asked for, and the event out.
  abbrev without_item : World
  without_item = record {
    db = (Repository.delete_media w.db media.id).1;
    storage_deletes = w.storage_deletes ++ storage_keys (media ∷ []);
    events =
        w.events
        ++ media_deleted media.id media.album_id media.user_id (id_of actor)
            (media.file_size + or_zero media.thumb_size) (actor_kind actor token false)
            (source_of actor)
          ∷ [];
  }

  -- What is left of the work once the row is gone.
  abbrev conclude : Exec World MediaDeleteResult
  conclude = gets (λ w. list_album_media w.db album.id) >>= (λ remaining.
      if is_empty remaining
      then drop_empty_album token actor album media
      else keep_album now album media remaining)

  abbrev continue_with : Media → Exec World MediaDeleteResult
  continue_with deleted_media =
      delete_media_storage_keys (deleted_media ∷ [])
      >> (emit (
            media_deleted deleted_media.id deleted_media.album_id deleted_media.user_id
              (id_of actor) (deleted_media.file_size + or_zero deleted_media.thumb_size)
              (actor_kind actor token false) (source_of actor))
          >> (gets (λ w. list_album_media w.db album.id) >>= (λ remaining.
              if is_empty remaining
              then drop_empty_album token actor album deleted_media
              else keep_album now album deleted_media remaining)))

  drops_row :
      get_media w.db media.id ≡ some media
      → query (λ db. let (r, db') = Repository.delete_media db media.id in (ok r, db')) w
        ≡ (ok (some media), record w { db = (Repository.delete_media w.db media.id).1 })
  unfolding Repository.delete_media
  drops_row there =
      ap (λ (o : Option Media). (ok o, record w { db = (Repository.delete_media w.db media.id).1 }))
        there

  continues :
      (or_raise (some media) (http 404 "Media not found.") >>= continue_with)
        (record w { db = (Repository.delete_media w.db media.id).1 })
      ≡ conclude without_item
  unfolding ◌>>=◌
  continues = refl

  deletes_row :
      get_media w.db media.id ≡ some media
      → get_album w.db media.album_id ≡ some album
      → require_album_access now album token actor false ≡ ok tt
      → delete_media now media.id token actor w ≡ conclude without_item
  unfolding delete_media
  deletes_row there found granted =
      bind-ok (gets (λ w. get_media w.db media.id)) _ w (ap (λ (o : Option Media). (ok o, w)) there)
      ∙ bind-ok (or_raise (some media) (http 404 "Media not found.")) _ w refl
      ∙ bind-ok (open_album now media.album_id token actor false) _ w
          (opens_for now media.album_id token actor w album false found granted)
      ∙ bind-ok (query (λ db. let (r, db') = Repository.delete_media db media.id in (ok r, db'))) _
          w (drops_row there)
      ∙ continues

  -- The album without its cover, if that is the item.
  abbrev without_cover : Album
  without_cover =
      if opt_eq album.cover_media_id (some media.id)
      then record album { cover_media_id = none }
      else album

  abbrev gone : MediaDeleteResult
  gone = record { deleted_media = media; album = none; remaining_items = []; album_deleted = true }

  abbrev kept : List Media → MediaDeleteResult
  kept remaining = record {
    deleted_media = media;
    album = some without_cover;
    remaining_items = remaining;
    album_deleted = false;
  }

  -- The answer, from the items that remain.
  abbrev pub answer_for : List Media → MediaDeleteResult
  answer_for remaining = if is_empty remaining then gone else kept remaining

  without_cover-id : without_cover.id ≡ album.id
  without_cover-id = ground arith

  drops_album :
      get_album without_item.db album.id ≡ some album
      → is_empty (list_album_media without_item.db album.id) ≡ true
      → ((conclude without_item).1.db ≡ (Repository.delete_album without_item.db album.id).1)
        × ((conclude without_item).1.storage_deletes ≡ without_item.storage_deletes)
        × ((conclude without_item).0 ≡ ok gone)
  unfolding drop_empty_album ◌>>=◌
  drops_album found bare =
      rw bare (rw (delete_album-answer without_item.db album.id found) (refl, refl, refl))

  keeps :
      (remaining : List Media) (w' : World) {saved : Album} {db' : Db}
      → Repository.update_album now w'.db without_cover ≡ (ok saved, db')
      → ((keep_album now album media remaining w').1.db ≡ db')
        × ((keep_album now album media remaining w').1.storage_deletes ≡ w'.storage_deletes)
        × ((keep_album now album media remaining w').0 ≡ ok (kept remaining))
  unfolding keep_album
  keeps remaining w' e = rw (e, keep_album) (ap (λ (r : Result Album × Db). r.1) e, refl, refl)

  keeps_album :
      get_album without_item.db without_cover.id ≡ some album
      → is_empty (list_album_media without_item.db album.id) ≡ false
      → ((conclude without_item).1.db
          ≡ (Repository.update_album now without_item.db without_cover).1)
        × ((conclude without_item).1.storage_deletes ≡ without_item.storage_deletes)
        × ((conclude without_item).0 ≡ ok (kept (list_album_media without_item.db album.id)))
  unfolding ◌>>=◌
  keeps_album found full =
      let e = update_album-found now without_item.db without_cover album found in
      let k = keeps (list_album_media without_item.db album.id) without_item e in
      rw full (k.0 ∙ sym (ap (λ r. r.1) e), k.1, k.2)

  -- The cover of the album is an item of it, if that was so before and it has one.
  abbrev pub KeepsCover : Db → Type 0
  KeepsCover db = (has_cover w.db album.id ≡ false) ⊎ (has_cover db album.id ≡ true)

  -- What a database holds of the album once the item is gone.
  abbrev Left : Db → Type 0
  Left db = (get_media db media.id ≡ none) × KeepsCover db × (has_items db album.id ≡ true)

  Left-without :
      get_album without_item.db album.id ≡ some album
      → Left (Repository.delete_album without_item.db album.id).1
  Left-without found =
      let gone = get-delete without_item.db album.id found in
      (
        get_media-delete_album without_item.db media.id album.id (get-delete_media w.db media.id),
        inr (rw (gone, has_cover) refl),
        rw (gone, has_items) refl,
      )

  -- A cover that the album keeps is not the item that is gone.
  kept_cover :
      (cover : String)
      → without_cover.cover_media_id ≡ some cover
      → (album.cover_media_id ≡ some cover) × (cover ≢ media.id)
  kept_cover cover = elim (Bool-cases (opt_eq album.cover_media_id (some media.id))) [
    | inl e ↦ simp e (λ h. ground (arith, h))
    | inr e ↦ simp e (λ h. (
      h,
      λ same.
          absurd (cc (e, (opt_eq_iff album.cover_media_id (some media.id)).1 (h ∙ ap some same))),
    ))
  ]

  Left-with :
      get_album w.db album.id ≡ some album
      → is_empty (list_album_media without_item.db album.id) ≡ false
      → Left (Repository.update_album now without_item.db without_cover).1
  Left-with found full =
      let there : get_album without_item.db without_cover.id ≡ some album =
        rw without_cover-id (get_album-delete_media w.db media.id album.id ∙ found) in
      let row = get-update_album now without_item.db without_cover there in
      let same = media-update_album now without_item.db without_cover there in
      let again : get_album (Repository.update_album now without_item.db without_cover).1 album.id
          ≡ some (written now without_cover album) =
        subst
          (λ id.
            get_album (Repository.update_album now without_item.db without_cover).1 id
            ≡ some (written now without_cover album))
          without_cover-id row in
      (
        get_of_media _ _ media.id same ∙ get-delete_media w.db media.id,
        elim (Bool-cases (has_cover w.db album.id)) [
          | inr dangling ↦ inl dangling
          | inl had ↦ inr (
              has_cover_if _ album.id _ again (λ cover e.
                let stays = kept_cover cover e in
                ap (λ ms. is_there (find (is_item album.id cover) ms)) same
                ∙ cover-delete_media w.db media.id album.id cover stays.1
                    (cover_of w.db album.id album found cover had stays.0)))
        ],
        rw (again, has_items)
            (ap (λ ms. not (is_empty ms)) (list_of_media _ _ album.id same) ∙ ap not full),
      )

  -- Deleting an item, with access to its album, returns what it says of the items that remain, and
  -- asks storage to delete the keys of the item. The item is gone then; the album, if it is still
  -- there, has an item; and its cover, if the album is still there and has one, is an item of it,
  -- unless that was not so before.
  pub delete_media-leaves_sound_album :
      get_media w.db media.id ≡ some media
      → get_album w.db media.album_id ≡ some album
      → require_album_access now album token actor false ≡ ok tt
      → let (answer, w') = delete_media now media.id token actor w in
        (answer
          ≡ ok (answer_for (list_album_media (Repository.delete_media w.db media.id).1 album.id)))
        × (get_media w'.db media.id ≡ none)
        × KeepsCover w'.db
        × (has_items w'.db album.id ≡ true)
        × (w'.storage_deletes ≡ w.storage_deletes ++ storage_keys (media ∷ []))
  delete_media-leaves_sound_album there found granted =
      let here : get_album w.db album.id ≡ some album =
        ap (get_album w.db) (get_album-id w.db media.album_id found) ∙ found in
      let left : Left (conclude without_item).1.db
          × ((conclude without_item).1.storage_deletes ≡ without_item.storage_deletes)
          × ((conclude without_item).0
              ≡ ok (answer_for (list_album_media without_item.db album.id))) =
        elim (Bool-cases (is_empty (list_album_media without_item.db album.id))) [
          | inl e ↦
              let d = drops_album (get_album-delete_media w.db media.id album.id ∙ here) e in
              (
                subst Left (sym d.0)
                    (Left-without (get_album-delete_media w.db media.id album.id ∙ here)),
                d.1,
                rw e d.2,
              )
          | inr e ↦
              let k =
                keeps_album
                  (rw without_cover-id (get_album-delete_media w.db media.id album.id ∙ here)) e in
              (subst Left (sym k.0) (Left-with here e), k.1, rw e k.2)
        ] in
      rw (deletes_row there found granted) (left.2, left.0.0, left.0.1, left.0.2, left.1)
