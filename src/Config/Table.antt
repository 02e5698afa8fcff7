-- ===== src/Config/Table.antt =====
-- runtime_config.py: reading the whole table, and writing to it in one transaction.
use Prim.Native.String.{◌++◌ as append}
use imghost.Prelude.{
  ℕ, String, Bool, true, false, Option, none, some, List, [], ◌∷◌, ◌&&◌, find, str_eq,
  if◌then◌else◌,
}
use imghost.Prelude.Int.{ℤ, pos, leb_ℤ}
use imghost.Prelude.Dict.{update}
use imghost.Http.{http, key_error, Result, ok, raise}
use imghost.Config.{
  Value, flag, number, Raw, RuntimeConfigSpec, RuntimeConfigValue, Surroundings, Rows,
  runtime_config_specs, is_locked, coerce_value, coerce, resolve_value,
}

abbrev pub has_key : String → RuntimeConfigSpec → Bool
has_key key s = str_eq s.key key

abbrev pub is_value_of : String → RuntimeConfigValue → Bool
is_value_of key v = str_eq v.key key

-- `RUNTIME_CONFIG_SPECS[key]`
unfoldable pub spec_of : String → Option RuntimeConfigSpec
unfolding runtime_config_specs find
spec_of key = find (has_key key) runtime_config_specs

-- The comprehension over the specs, which stops at the first that raises.
unfoldable pub resolve_all :
    Surroundings → Rows → List RuntimeConfigSpec → Result (List RuntimeConfigValue)
unfolding resolve_value
resolve_all env rows [] = ok []
resolve_all env rows (s ∷ specs) =
    let rest = resolve_all env rows specs in
    elim (resolve_value env s (rows s.key)) [
      | raise e ↦ raise e
      | ok v ↦ elim rest [ ok vs ↦ ok (v ∷ vs) | raise e ↦ raise e ]
    ]

unfoldable pub list_effective : Surroundings → Rows → Result (List RuntimeConfigValue)
unfolding resolve_all runtime_config_specs
list_effective env rows = resolve_all env rows runtime_config_specs

-- `….[key].value`
abbrev pub value_in : String → List RuntimeConfigValue → Result Value
value_in key vs = elim (find (is_value_of key) vs) [
  | none ↦ raise (key_error key)
  | some v ↦ ok v.value
]

unfoldable pub get_value : Surroundings → Rows → String → Result Value
unfolding spec_of list_effective find
get_value env rows key = elim (spec_of key) [
  | none ↦ raise (key_error key)
  | some _ ↦ elim (list_effective env rows) [ raise e ↦ raise e | ok vs ↦ value_in key vs ]
]

-- `==` of Python, by which True is 1 and False is 0.
abbrev pub as_int : Value → ℤ
as_int (flag true) = pos 1
as_int (flag false) = pos 0
as_int (number n) = n

abbrev pub value_eq : Value → Value → Bool
value_eq a b = leb_ℤ (as_int a) (as_int b) && leb_ℤ (as_int b) (as_int a)

pub record Change : Type 0 where
  pub key : String
  pub old_value : Value
  pub new_value : Value

-- `current.value == coerced and current.source == "runtime"`
abbrev pub is_current : RuntimeConfigValue → Value → Bool
is_current current coerced = value_eq current.value coerced && str_eq current.source "runtime"

-- The loop over the updates, with what was in force before.
unfoldable pub apply_updates :
    Surroundings
    → (now : ℕ) → List RuntimeConfigValue
    → List (String × Raw)
    → Rows
    → Result (List Change × Rows)
unfolding spec_of is_locked coerce find
apply_updates env now effective [] rows = ok ([], rows)
apply_updates env now effective ((key, raw_value) ∷ updates) rows = elim (spec_of key) [
  | none ↦ raise (key_error key)
  | some s ↦
      if is_locked env s
      then raise (http 403 (append key " is locked by environment configuration."))
      else (elim (coerce_value s raw_value) [
        | raise e ↦ raise e
        | ok coerced ↦ elim (find (is_value_of key) effective) [
          | none ↦ raise (key_error key)
          | some current ↦
              if is_current current coerced
              then apply_updates env now effective updates rows
              else (elim (apply_updates env now effective updates
                  (update rows key (some (env.dumps coerced, now)))) [
                    | raise e ↦ raise e
                    | ok (changes, rows') ↦ ok (
                      record { key = key; old_value = current.value; new_value = coerced }
                          ∷ changes,
                      rows',
                    )
                  ])
        ]
      ])
]

-- The keys that no spec has; their names, which the message lists, are left out of it here.
abbrev pub has_unknown : List (String × Raw) → Bool
has_unknown [] = false
has_unknown ((key, raw_value) ∷ updates) = elim (spec_of key) [
  | none ↦ true
  | some _ ↦ has_unknown updates
]

-- A transaction that raises leaves the rows as they were.
unfoldable pub update_values :
    Surroundings → (now : ℕ) → List (String × Raw) → Rows → Result (List Change) × Rows
unfolding spec_of list_effective apply_updates
update_values env now [] rows = (raise (http 400 "At least one config value is required."), rows)
update_values env now (u ∷ updates) rows =
    if has_unknown (u ∷ updates)
    then (raise (http 400 "Unknown config key(s)."), rows)
    else (elim (list_effective env rows) [
      | raise e ↦ (raise e, rows)
      | ok effective ↦ elim (apply_updates env now effective (u ∷ updates) rows) [
        | raise e ↦ (raise e, rows)
        | ok (changes, rows') ↦ (ok changes, rows')
      ]
    ])
