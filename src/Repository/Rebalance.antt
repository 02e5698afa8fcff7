-- ===== src/Repository/Rebalance.antt =====
-- repository_media.py with `_needs_rebalance` and the renumbering of service.py: what new positions
-- do to a listing.
use mathlib.Core.List.Permᴰ
use mathlib.Core.Path.{subst}
use imghost.Prelude.{
  ℕ, suc, ◌+◌, ◌*◌, ◌≤◌, ◌<◌, ◌≡◌, ◌≢◌, refl, sym, ap, ap₂, ◌∙◌, String, Bool, true, false, List,
  [], ◌∷◌, ◌||◌, map, keep, eq_iff, eq_refl, inl, arith, All, All-imp, keep-map,
}
use imghost.Prelude.Int.{ℤ, pos, ◌+ℤ◌, ltb_ℤ, pos_part, neg_part}
use imghost.Prelude.Sorting.{order_by, order_by-Permᴰ_eq, order_by_of_SortedBy, SortedBy, AllApart}
use imghost.Models.{Media}
use imghost.Repository.{
  Db, in_album, list_album_media, set_position, apply_positions, update_media_positions,
}
use imghost.Repository.Positions.{
  DistinctIds, OtherId, list_album_media-Permᴰ, list_album_media-DistinctIds,
  list_album_media-in_album,
}

-- service.py, `_needs_rebalance`; `current - previous < 2`, without a subtraction.
unfoldable pub needs_rebalance : List Media → Bool
needs_rebalance [] = false
needs_rebalance (previous ∷ []) = false
needs_rebalance (previous ∷ current ∷ rest) =
    ltb_ℤ current.position (previous.position +ℤ pos 2) || needs_rebalance (current ∷ rest)

-- service.py, `{item.id: index * 1000 for index, item in enumerate(reordered, start=…)}`
unfoldable pub spread_positions : ℕ → List Media → List (String × ℤ)
spread_positions index [] = []
spread_positions index (item ∷ rest) =
    (item.id, pos (index * 1000)) ∷ spread_positions (suc index) rest

-- The items at their new positions.
pub renumber : ℕ → List Media → List Media
renumber index [] = []
renumber index (item ∷ rest) =
    record item { position = pos (index * 1000) } ∷ renumber (suc index) rest

-- The loop over the positions, on one row.
assigned : String → List (String × ℤ) → Media → Media
assigned album_id [] m = m
assigned album_id ((media_id, position) ∷ rest) m =
    assigned album_id rest (set_position album_id media_id position m)

map-map : (f g : Media → Media) (ms : List Media) → map f (map g ms) ≡ map (λ m. f (g m)) ms
map-map f g [] = refl
map-map f g (m ∷ ms) = ap (◌∷◌ (f (g m))) (map-map f g ms)

map_id : (ms : List Media) → map (λ m. m) ms ≡ ms
map_id [] = refl
map_id (m ∷ ms) = ap (◌∷◌ m) (map_id ms)

apply_positions-assigned :
    (album_id : String) (ps : List (String × ℤ)) (ms : List Media)
    → apply_positions album_id ps ms ≡ map (assigned album_id ps) ms
unfolding apply_positions assigned
apply_positions-assigned album_id [] ms = sym (map_id ms)
apply_positions-assigned album_id ((k, p) ∷ ps) ms =
    apply_positions-assigned album_id ps (map (set_position album_id k p) ms) ∙ map-map _ _ ms

in_album-assigned :
    (album_id : String) (ps : List (String × ℤ)) (m : Media)
    → in_album album_id (assigned album_id ps m) ≡ in_album album_id m
unfolding assigned set_position
in_album-assigned album_id [] m = refl
in_album-assigned album_id ((k, p) ∷ ps) m =
    in_album-assigned album_id ps (set_position album_id k p m) ∙ ground arith

set_position_other :
    (album_id media_id : String) (p : ℤ) (m : Media)
    → m.id ≢ media_id
    → set_position album_id media_id p m ≡ m
unfolding set_position
set_position_other album_id media_id p m h = ground (arith, eq_iff m.id media_id)

set_position_others :
    (album_id media_id : String) (p : ℤ) (ms : List Media)
    → All (λ m. media_id ≢ m.id) ms
    → map (set_position album_id media_id p) ms ≡ ms
set_position_others album_id media_id p [] a = refl
set_position_others album_id media_id p (m ∷ ms) a =
    ap₂ ◌∷◌ (set_position_other album_id media_id p m (λ e. a.0 (sym e)))
      (set_position_others album_id media_id p ms a.1)

set_position_self :
    (album_id : String) (p : ℤ) (m : Media)
    → in_album album_id m ≡ true
    → set_position album_id m.id p m ≡ record m { position = p }
unfolding set_position
set_position_self album_id p m h = rw (eq_refl m.id) (rw h)

-- Rows whose ids the dict does not hold stay as they are.
assigned_absent :
    (album_id : String) (index : ℕ) (ms : List Media) (m : Media)
    → All (OtherId m) ms
    → assigned album_id (spread_positions index ms) m ≡ m
unfolding assigned spread_positions set_position
assigned_absent album_id index [] m a = refl
assigned_absent album_id index (n ∷ ms) m a =
    ap (assigned album_id (spread_positions (suc index) ms))
      (set_position_other album_id n.id (pos (index * 1000)) m a.0)
    ∙ assigned_absent album_id (suc index) ms m a.1

assigned-renumber :
    (album_id : String) (index : ℕ) (ms : List Media)
    → DistinctIds ms
    → All (λ m. in_album album_id m ≡ true) ms
    → map (assigned album_id (spread_positions index ms)) ms ≡ renumber index ms
unfolding assigned spread_positions renumber
assigned-renumber album_id index [] d a = refl
assigned-renumber album_id index (m ∷ ms) d a =
    let p : ℤ = pos (index * 1000) in
    let rest = assigned album_id (spread_positions (suc index) ms) in
    ap₂ ◌∷◌
      (ap rest (set_position_self album_id p m a.0)
        ∙ assigned_absent album_id (suc index) ms (record m { position = p }) d.0)
      (sym (map-map rest (set_position album_id m.id p) ms)
        ∙ ap (map rest) (set_position_others album_id m.id p ms d.0)
        ∙ assigned-renumber album_id (suc index) ms d.1 a.1)

-- By 2 or more, that is: the position of the left item is `low * 1000`.
abbrev Above : ℕ → Media → Type 0
Above low m = low * 1000 + neg_part m.position + 2 ≤ pos_part m.position + 0

renumber-Above :
    (low index : ℕ) (ms : List Media) → low < index → All (Above low) (renumber index ms)
unfolding renumber
renumber-Above low index [] h = tt
renumber-Above low index (m ∷ ms) h = (omega arith, renumber-Above low (suc index) ms (omega arith))

renumber-SortedBy : (index : ℕ) (ms : List Media) → SortedBy (λ m. m.position) (renumber index ms)
unfolding renumber
renumber-SortedBy index [] = tt
renumber-SortedBy index (m ∷ ms) = (
  All-imp (Above index) _ (renumber (suc index) ms) (λ n h. omega arith)
      (renumber-Above index (suc index) ms (omega arith)),
  renumber-SortedBy (suc index) ms,
)

renumber-AllApart : (index : ℕ) (ms : List Media) → AllApart (λ m. m.position) (renumber index ms)
unfolding renumber
renumber-AllApart index [] = tt
renumber-AllApart index (m ∷ ms) = (
  All-imp (Above index) _ (renumber (suc index) ms) (λ n h. inl h)
      (renumber-Above index (suc index) ms (omega arith)),
  renumber-AllApart (suc index) ms,
)

-- Renumbered items have room between any two neighbours.
pub renumber-needs_rebalance :
    (index : ℕ) (ms : List Media) → needs_rebalance (renumber index ms) ≡ false
unfolding needs_rebalance renumber ◌+ℤ◌
renumber-needs_rebalance index [] = refl
renumber-needs_rebalance index (m ∷ []) = refl
renumber-needs_rebalance index (m ∷ n ∷ ms) =
    ground (arith, renumber-needs_rebalance (suc index) (n ∷ ms))

-- Writing the spread positions of a listing gives the same items in the same order, at 1000, 2000
-- and so on.
pub spread-listing :
    (db : Db) (album_id : String)
    → DistinctIds db.media
    → (update_media_positions db album_id (spread_positions 1 (list_album_media db album_id))).0
      ≡ renumber 1 (list_album_media db album_id)
unfolding update_media_positions list_album_media
spread-listing db album_id d =
    let key = λ (m : Media). m.position in
    let items = list_album_media db album_id in
    let f = assigned album_id (spread_positions 1 items) in
    let moved =
      assigned-renumber album_id 1 items (list_album_media-DistinctIds db album_id d)
        (list_album_media-in_album db album_id) in
    ap (order_by key) (
      ap (keep (in_album album_id))
        (apply_positions-assigned album_id (spread_positions 1 items) db.media)
      ∙ keep-map (in_album album_id) f db.media
          (in_album-assigned album_id (spread_positions 1 items)))
    ∙ sym (
        order_by-Permᴰ_eq key (Permᴰ.map f (list_album_media-Permᴰ db album_id))
          (subst (AllApart key) (sym moved) (renumber-AllApart 1 items)))
    ∙ ap (order_by key) moved
    ∙ order_by_of_SortedBy key (renumber 1 items) (renumber-SortedBy 1 items)

pub map_id-renumber :
    (index : ℕ) (ms : List Media) → map (λ m. m.id) (renumber index ms) ≡ map (λ m. m.id) ms
unfolding renumber
map_id-renumber index [] = refl
map_id-renumber index (m ∷ ms) = ap (◌∷◌ m.id) (map_id-renumber (suc index) ms)

id-assigned :
    (album_id : String) (ps : List (String × ℤ)) (m : Media) → (assigned album_id ps m).id ≡ m.id
unfolding assigned set_position
id-assigned album_id [] m = refl
id-assigned album_id ((k, p) ∷ ps) m =
    id-assigned album_id ps (set_position album_id k p m) ∙ ground arith

map-DistinctIds :
    (f : Media → Media) (ms : List Media)
    → ((m : Media) → (f m).id ≡ m.id)
    → DistinctIds ms
    → DistinctIds (map f ms)
map-DistinctIds f [] same d = tt
map-DistinctIds f (m ∷ ms) same d = (go ms d.0, map-DistinctIds f ms same d.1)
  where
    go : (ns : List Media) → All (OtherId m) ns → All (OtherId (f m)) (map f ns)
    go [] a = tt
    go (n ∷ ns) a = (λ e. a.0 (sym (same m) ∙ e ∙ same n), go ns a.1)

-- Writing positions keeps the primary keys apart.
pub update_media_positions-DistinctIds :
    (db : Db) (album_id : String) (ps : List (String × ℤ))
    → DistinctIds db.media
    → DistinctIds (update_media_positions db album_id ps).1.media
unfolding update_media_positions
update_media_positions-DistinctIds db album_id ps d =
    rw (apply_positions-assigned album_id ps db.media)
      (map-DistinctIds (assigned album_id ps) db.media (id-assigned album_id ps) d)
