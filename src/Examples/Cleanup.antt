-- ===== src/Examples/Cleanup.antt =====
-- A clean-up of one expired album.
use imghost.Prelude.{◌≡◌, refl, true, false, [], ◌∷◌}
use imghost.Text.{truthy}
use imghost.Repository.{list_expired_albums}
use imghost.Cleanup.{prune_expired_albums}
use imghost.Cleanup.DryRun.{dry_run-foretells}
use imghost.Examples.Data.{world}

one_album_of_two_items :
    (prune_expired_albums (λ _. true) false 100 world).0
    ≡ record { album_ids = "a1" ∷ []; item_count = 2; bytes_freed = 20 }
unfolding prune_expired_albums truthy
one_album_of_two_items = refl

dry_run-foretells_example :
    ((prune_expired_albums (λ _. true) true 100 world).1 ≡ world)
    × ((prune_expired_albums (λ _. true) true 100 world).0
        ≡ (prune_expired_albums (λ _. true) false 100 world).0)
unfolding list_expired_albums
dry_run-foretells_example = dry_run-foretells (λ _. true) 100 world (λ k. refl) (tt, tt)
