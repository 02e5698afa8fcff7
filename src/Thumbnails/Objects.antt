-- ===== src/Thumbnails/Objects.antt =====
-- service.py, `generate_thumbnail`: the objects that a run leaves in storage.
use imghost.Prelude.{◌≡◌, String, Bool, true, ◌⊎◌}
use imghost.Http.{Result}
use imghost.Http.Rules.{Ensures}
use imghost.Tasks.{TaskRunResult, succeeded}
use imghost.Thumbnails.{Shelf}

-- No key holds an object that held none in `base`, unless the run succeeded.
abbrev Kept : (String → Bool) → Result TaskRunResult × Shelf → Type 0
Kept base =
    Ensures
      (λ result s. (result.state ≡ succeeded) ⊎ ((k : String) → s.stored k ≡ true → base k ≡ true))
      (λ _ s. (k : String) → s.stored k ≡ true → base k ≡ true)
