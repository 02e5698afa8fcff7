-- ===== src/Examples/Config.antt =====
-- The runtime configuration at a concrete update.
use imghost.Prelude.{List, [], ◌∷◌, ◌≡◌, refl, String, true, false, none, some, All, arith, eq_iff}
use imghost.Prelude.Int.{pos}
use imghost.Prelude.Dict.{update}
use imghost.Http.{ok}
use imghost.Config.{flag, number, Raw, plain, Surroundings, Rows}
use imghost.Config.Table.{Change, get_value, update_values}
use imghost.Examples.Codec.{dumps, loads, codec}
use imghost.Config.InForce.{coerced_for, update_values-takes_effect}

abbrev env : Surroundings
env = record {
  getenv = λ name. none;
  lower = λ s. s;
  int = λ s. none;
  loads = loads;
  dumps = dumps;
}

abbrev rows : Rows
rows key = none

abbrev updates : List (String × Raw)
updates =
    ("allow_registration", plain (flag false)) ∷ ("anon_expiry_hours", plain (number (pos 3))) ∷ []

abbrev updated_rows : Rows
updated_rows =
    update (update rows "allow_registration" (some ("f", 9))) "anon_expiry_hours" (some ("pxxx", 9))

abbrev changes : List Change
changes =
    record { key = "allow_registration"; old_value = flag true; new_value = flag false }
    ∷ record { key = "anon_expiry_hours"; old_value = number (pos 24); new_value = number (pos 3) }
    ∷ []

updates_two : update_values env 9 updates rows ≡ (ok changes, updated_rows)
unfolding update_values
updates_two = refl

update_values-takes_effect_example :
    All (λ (u : String × Raw). get_value env updated_rows u.0 ≡ coerced_for u.0 u.1) updates
    × (get_value env updated_rows "max_upload_bytes" ≡ get_value env rows "max_upload_bytes")
update_values-takes_effect_example =
    update_values-takes_effect env codec 9 updates rows
      (((λ e. ground (arith, eq_iff "allow_registration" "anon_expiry_hours")), tt), (tt, tt))
      updates_two "max_upload_bytes"
      (
        (λ e. ground (arith, eq_iff "allow_registration" "max_upload_bytes")),
        ((λ e. ground (arith, eq_iff "anon_expiry_hours" "max_upload_bytes")), tt),
      )
