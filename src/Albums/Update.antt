-- ===== src/Albums/Update.antt =====
-- service.py, `update_album`: what a refused update leaves behind.
use imghost.Prelude.{
  ℕ, ◌≡◌, refl, ap, ◌∙◌, String, Bool, true, false, Option, none, some, List, [], ◌∷◌, ◌++◌, find,
  if◌then◌else◌,
}
use imghost.Text.{opt_eq}
use imghost.Http.{http, ok, raise, Exec, ◌>>=◌, ◌>>◌, gets, lift, pure}
use imghost.Http.Rules.{bind-ok, bind-raise}
use imghost.Models.{User, Album, Media}
use imghost.Repository.{get_album, has_media_id, list_album_media}
use imghost.Albums.{
  World, Event, emit, album_title_changed, text, id_of, source_of, actor_kind, normalize_title,
  normalize_cover_media_id, require_album_access, open_album, change_title, change_cover,
  update_album,
}

module _ (now : ℕ) (album_id : String) (token : Option String) (actor : Option User) (w : World)
    (album : Album) where
  opens :
      get_album w.db album_id ≡ some album
      → require_album_access now album token actor false ≡ ok tt
      → open_album now album_id token actor false w ≡ (ok album, w)
  unfolding open_album ◌>>=◌
  opens found granted = simp (found, open_album) (simp granted refl)

  abbrev pub title_event : Option String → Event
  title_event title =
      album_title_changed album.id album.user_id (id_of actor) album.title title
        (actor_kind actor token false) (source_of actor)

  abbrev retitled : Option String → Exec World (Album × Bool)
  retitled title = emit (title_event title) >> pure (record album { title = title }, true)

  emits_title :
      (title : Option String)
      → retitled title w ≡ (
        ok (record album { title = title }, true),
        record w { events = w.events ++ title_event title ∷ [] },
      )
  unfolding ◌>>=◌
  emits_title title = refl

  retitles :
      (t : String) (title : Option String)
      → normalize_title (text t) ≡ ok title
      → opt_eq album.title title ≡ false
      → change_title token actor (text t) album w ≡ (
        ok (record album { title = title }, true),
        record w { events = w.events ++ title_event title ∷ [] },
      )
  unfolding change_title
  retitles t title normal differs =
      bind-ok (lift (normalize_title (text t))) _ w (ap (λ r. (r, w)) normal)
      ∙ ap (λ b. (if b then pure (album, false) else retitled title) w) differs
      ∙ emits_title title

  refuses_cover :
      (c : String) (items : List Media) (album' : Album) (w' : World)
      → find (has_media_id c) items ≡ none
      → change_cover token actor (text c) items (album', true) w'
        ≡ (raise (http 404 "Cover media not found in album."), w')
  unfolding change_cover normalize_cover_media_id ◌>>=◌
  refuses_cover c items album' w' absent = simp (absent, normalize_cover_media_id) refl

  -- An update that changes the title and asks for a cover that is not in the album is refused with 404
  -- and writes no row, but the event that tells of the new title is out.
  pub refused_update-emits :
      (t c : String) (title : Option String)
      → get_album w.db album_id ≡ some album
      → require_album_access now album token actor false ≡ ok tt
      → normalize_title (text t) ≡ ok title
      → opt_eq album.title title ≡ false
      → find (has_media_id c) (list_album_media w.db album_id) ≡ none
      → update_album now album_id token actor (text t) (text c) w ≡ (
        raise (http 404 "Cover media not found in album."),
        record w { events = w.events ++ title_event title ∷ [] },
      )
  unfolding update_album
  refused_update-emits t c title found granted normal differs absent =
      bind-ok (open_album now album_id token actor false) _ w (opens found granted)
      ∙ bind-ok (gets (λ w. list_album_media w.db album_id)) _ w refl
      ∙ bind-ok (change_title token actor (text t) album) _ w (retitles t title normal differs)
      ∙ bind-raise
          (change_cover token actor (text c) (list_album_media w.db album_id)
            (record album { title = title }, true))
          _ _ (refuses_cover c (list_album_media w.db album_id) _ _ absent)
