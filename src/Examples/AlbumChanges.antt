-- ===== src/Examples/AlbumChanges.antt =====
-- An update that is refused half way, and a deletion.
use imghost.Prelude.{◌≡◌, ◌⊎◌, ◌≢◌, refl, true, false, none, some, [], ◌∷◌, ◌++◌, ap, arith, find}
use imghost.Text.{opt_eq, initial}
use imghost.Http.{ok, raise, http}
use imghost.Repository.{get_album, get_media, has_media_id, list_album_media}
use imghost.Albums.{
  text, normalize_title, require_album_access, update_album, delete_album, delete_media,
  storage_keys,
}
use imghost.Albums.Update.{refused_update-emits, title_event}
use imghost.Albums.Deletion.{delete_album-removes}
use imghost.Examples.Data.{owner, album, item, db, world}
use imghost.Albums.ItemDeletion.{delete_media-leaves_sound_album, answer_for, has_items}
use imghost.Repository.ItemDeletion.{has_cover}
use imghost.Repository
use imghost.Prelude.Int.{pos}

album_is_there : get_album db "a1" ≡ some album
unfolding get_album
album_is_there = refl

owner_may : require_album_access 50 album none (some owner) false ≡ ok tt
unfolding require_album_access opt_eq
owner_may = refl

trimmed : normalize_title (text " Cats ") ≡ ok (some "Cats")
unfolding normalize_title
trimmed = refl

differs : opt_eq album.title (some "Cats") ≡ false
unfolding opt_eq
differs = refl

no_such_cover : find (has_media_id "m9") (list_album_media db "a1") ≡ none
unfolding find list_album_media
no_such_cover = refl

refused_update-emits_example :
    update_album 50 "a1" none (some owner) (text " Cats ") (text "m9") world ≡ (
      raise (http 404 "Cover media not found in album."),
      record world {
        events = title_event 50 "a1" none (some owner) world album (some "Cats") ∷ [];
      },
    )
refused_update-emits_example =
    refused_update-emits 50 "a1" none (some owner) world album " Cats " "m9" (some "Cats")
      album_is_there owner_may trimmed differs no_such_cover

a1_is_not_b1 : album.id ≢ "b1"
unfolding initial
a1_is_not_b1 e = absurd (omega (arith, ap initial e))

delete_album-removes_example :
    let (answer, w') = delete_album 50 "a1" none (some owner) world in
    (answer ≡ ok (album, list_album_media db "a1"))
    × (get_album w'.db "a1" ≡ none)
    × (list_album_media w'.db "a1" ≡ [])
    × (list_album_media w'.db "b1" ≡ list_album_media db "b1")
    × (w'.storage_deletes ≡ [] ++ storage_keys (list_album_media db "a1"))
delete_album-removes_example =
    delete_album-removes 50 "a1" none (some owner) world album "b1" album_is_there owner_may
      a1_is_not_b1

first_item_is_there : get_media db "m1" ≡ some (item "m1" (pos 1000))
unfolding get_media
first_item_is_there = refl

-- The cover itself is deleted.
delete_media-leaves_sound_album_example :
    let (answer, w') = delete_media 50 "m1" none (some owner) world in
    (answer
      ≡ ok (
          answer_for 50 none
            (some owner)
            world
            (item "m1" (pos 1000))
            album
            (list_album_media (Repository.delete_media db "m1").1 "a1")))
    × (get_media w'.db "m1" ≡ none)
    × ((has_cover db "a1" ≡ false) ⊎ (has_cover w'.db "a1" ≡ true))
    × (has_items w'.db "a1" ≡ true)
    × (w'.storage_deletes ≡ [] ++ storage_keys (item "m1" (pos 1000) ∷ []))
delete_media-leaves_sound_album_example =
    delete_media-leaves_sound_album 50 none (some owner) world (item "m1" (pos 1000)) album
      first_item_is_there album_is_there owner_may
