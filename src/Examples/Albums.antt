-- ===== src/Examples/Albums.antt =====
-- The operations on albums at concrete requests.
use imghost.Prelude.{◌≡◌, ◌↔◌, refl, false, none, some, [], ◌∷◌, ◌++◌, arith, map, eq_iff}
use imghost.Prelude.Int.{pos, ◌+ℤ◌}
use imghost.Text.{opt_eq, truthy}
use imghost.Http.{ok, raise, http, ◌>>=◌}
use imghost.Repository.{
  list_album_media, update_media_positions, create_media_with_next_position, next_position,
}
use imghost.Repository.Positions.{DistinctIds, create_media_appends}
use imghost.Repository.Rebalance.{needs_rebalance}
use imghost.Albums.{World, require_album_access, reorder_album}
use imghost.Albums.Access.{MayAccess, require_album_access_iff}
use imghost.Albums.Reorder.{reorder_album-settles, reorder_album-raises}
use imghost.Examples.Data.{owner, album, item, db, world}

distinct : DistinctIds db.media
distinct = (((λ e. ground (arith, eq_iff "m1" "m2")), tt), (tt, tt))

new_item_inserts :
    create_media_with_next_position db (item "m3" (pos 0))
    ≡ (ok (item "m3" (pos 3000)), record db { media = db.media ++ item "m3" (pos 3000) ∷ [] })
unfolding create_media_with_next_position ◌+ℤ◌
new_item_inserts = refl

create_media_appends_example :
    (item "m3" (pos 3000) ≡ record (item "m3" (pos 0)) { position = next_position db "a1" })
    × (list_album_media (record db { media = db.media ++ item "m3" (pos 3000) ∷ [] }) "a1"
        ≡ list_album_media db "a1" ++ item "m3" (pos 3000) ∷ [])
create_media_appends_example =
    create_media_appends db (record db { media = db.media ++ item "m3" (pos 3000) ∷ [] })
      (item "m3" (pos 0)) (item "m3" (pos 3000)) new_item_inserts

require_album_access_iff_example :
    (require_album_access 50 album (some "token") none false ≡ ok tt)
    ↔ MayAccess 50 album (some "token") none false
require_album_access_iff_example = require_album_access_iff 50 album (some "token") none false

abbrev moved : World
moved = record world { db = record db { media = item "m1" (pos 2000) ∷ item "m2" (pos 1000) ∷ [] } }

abbrev touched : World
touched = (reorder_album 50 "a1" none (("m1", pos 1999) ∷ []) (some owner) world).1

closer_than_two :
    reorder_album 50 "a1" none (("m1", pos 1999) ∷ []) (some owner) world
    ≡ (ok (album, item "m1" (pos 1000) ∷ item "m2" (pos 2000) ∷ []), touched)
unfolding reorder_album ◌>>=◌ opt_eq ◌+ℤ◌
closer_than_two = refl

reorder_album-settles_example :
    (needs_rebalance (item "m1" (pos 1000) ∷ item "m2" (pos 2000) ∷ []) ≡ false)
    × (list_album_media touched.db "a1" ≡ item "m1" (pos 1000) ∷ item "m2" (pos 2000) ∷ [])
    × (map (λ m. m.id) (item "m1" (pos 1000) ∷ item "m2" (pos 2000) ∷ [])
        ≡ map (λ m. m.id) (update_media_positions db "a1" (("m1", pos 1999) ∷ [])).0)
reorder_album-settles_example =
    reorder_album-settles 50 "a1" none (("m1", pos 1999) ∷ []) (some owner) world distinct
      closer_than_two

denied :
    reorder_album 50 "a1" none (("m1", pos 1) ∷ []) none world
    ≡ (raise (http 403 "Invalid delete token."), world)
unfolding reorder_album ◌>>=◌ opt_eq ◌+ℤ◌ truthy
denied = refl

reorder_album-raises_example : world ≡ world
reorder_album-raises_example =
    reorder_album-raises 50 "a1" none (("m1", pos 1) ∷ []) none world distinct denied
