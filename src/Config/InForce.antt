-- ===== src/Config/InForce.antt =====
-- runtime_config.py, `update_values` and `get_value`: what is in force after an update.
use imghost.Prelude.{
  ℕ, ◌≡◌, ◌≢◌, inl, inr, refl, sym, ap, ◌∙◌, String, none, some, List, [], ◌∷◌, find, All, All-imp,
  Bool-cases, Option-cases,
}
use imghost.Prelude.Sorting.{AllPairs}
use imghost.Http.{Result, ok, raise, key_error, Result-cases}
use imghost.Config.{
  Value, Raw, plain, RuntimeConfigSpec, RuntimeConfigValue, Surroundings, Rows,
  runtime_config_specs, coerce_value, resolve_value,
}
use imghost.Config.Table.{
  is_value_of, spec_of, list_effective, value_in, get_value, Change, apply_updates, has_unknown,
  update_values,
}
use imghost.Config.Effect.{
  specs_are_keyed, ok_inj, some_inj, Resolves, resolve_value-written, resolve_value-current,
}
use imghost.Config.Updates.{resolve_all-parts, resolve_all-ok, find-resolved}
use imghost.Config.Writes.{
  Written, Resolvable, apply_updates_elsewhere, apply_updates-Resolvable, apply_updates-Written,
}

-- The value that a request gives a key: the value itself if it is of the key's type.
abbrev pub coerced_for : (key : String) → Raw → Result Value
coerced_for key raw_value = elim (spec_of key) [
  | none ↦ raise (key_error key)
  | some s ↦ coerce_value s raw_value
]

-- An update that is answered has read the table and gone through its loop.
update_values-parts :
    (env : Surroundings) (now : ℕ) (updates : List (String × Raw)) (rows : Rows)
    {changes : List Change} {rows' : Rows}
    → update_values env now updates rows ≡ (ok changes, rows')
    → (effective : List RuntimeConfigValue) × (list_effective env rows ≡ ok effective)
      × (apply_updates env now effective updates rows ≡ ok (changes, rows'))
unfolding update_values
update_values-parts env now [] rows e = cc e
update_values-parts env now (u ∷ updates) rows e = elim (Bool-cases (has_unknown (u ∷ updates))) [
  | inl h ↦ absurd (cc (simp (h, update_values) at e))
  | inr h ↦ elim (Result-cases (list_effective env rows)) [
    | inr (x, l) ↦ absurd (cc (simp (h, l, update_values) at e))
    | inl (effective, l) ↦
        elim (Result-cases (apply_updates env now effective (u ∷ updates) rows)) [
          | inr (x, a) ↦ absurd (cc (simp (h, l, a, update_values) at e))
          | inl (r, a) ↦
              let same = simp (h, l, a, update_values) at e in (effective, l, a ∙ ap ok (cc same))
        ]
  ]
]

-- A value is read from the row of its key.
get_value-row :
    (env : Surroundings) (rows : Rows) (key : String) {s : RuntimeConfigSpec}
    {vs : List RuntimeConfigValue}
    → spec_of key ≡ some s
    → list_effective env rows ≡ ok vs
    → (view : RuntimeConfigValue) × (resolve_value env s (rows key) ≡ ok view)
      × (find (is_value_of key) vs ≡ some view)
      × (get_value env rows key ≡ ok view.value)
unfolding get_value list_effective spec_of
get_value-row env rows key p l =
    let (view, r, f) = find-resolved env rows key runtime_config_specs l p in
    (view, r, f, rw (p, get_value) (rw l (rw (f, value_in) refl)))

module _ (env : Surroundings) (codec : (v : Value) → env.loads (env.dumps v) ≡ some (plain v))
    (now : ℕ) (updates : List (String × Raw)) (rows : Rows) {changes : List Change} {rows' : Rows}
    (apart : AllPairs (λ (a b : String × Raw). a.0 ≢ b.0) updates)
    (updated : update_values env now updates rows ≡ (ok changes, rows')) where
  All-Resolvable :
      {vs : List RuntimeConfigValue}
      → list_effective env rows ≡ ok vs
      → All (Resolvable env now rows) runtime_config_specs
  unfolding list_effective
  All-Resolvable l =
      together runtime_config_specs specs_are_keyed
        (resolve_all-parts env rows runtime_config_specs l)
    where
      together :
          (specs : List RuntimeConfigSpec)
          → All (λ s. spec_of s.key ≡ some s) specs
          → All (λ s. Resolves env s (rows s.key)) specs
          → All (Resolvable env now rows) specs
      together [] a b = tt
      together (s ∷ specs) a b = ((a.0, b.0), together specs a.1 b.1)

  resolves_after : (vs : List RuntimeConfigValue) × (list_effective env rows' ≡ ok vs)
  unfolding list_effective
  resolves_after =
      let (effective, l, a) = update_values-parts env now updates rows updated in
      resolve_all-ok env rows' runtime_config_specs (
        All-imp (Resolvable env now rows') (λ s. Resolves env s (rows' s.key)) runtime_config_specs
          (λ s h. h.1)
          (apply_updates-Resolvable env now codec effective runtime_config_specs updates rows a
            (All-Resolvable l)))

  given_in_force :
      {effective : List RuntimeConfigValue} (u : String × Raw)
      → list_effective env rows ≡ ok effective
      → Written env now effective rows rows' u
      → get_value env rows' u.0 ≡ coerced_for u.0 u.1
  given_in_force u l (s, v, (p, unlocked, coerced), row) =
      let (view, r, f, g) = get_value-row env rows u.0 p l in
      let (view', r', f', g') = get_value-row env rows' u.0 p resolves_after.1 in
      let wanted : coerced_for u.0 u.1 ≡ ok v = rw (p, coerced_for) coerced in
      let given : view'.value ≡ v = elim row [
        | inl written ↦
            let (w, e, x) =
              resolve_value-written env codec s (rows u.0) now u.1 (view, r) coerced unlocked in
            ap (λ (z : RuntimeConfigValue). z.value)
              (ok_inj (sym r' ∙ ap (resolve_value env s) written ∙ e))
            ∙ x
        | inr (kept, (current, found, same)) ↦
            ap (λ (z : RuntimeConfigValue). z.value)
              (ok_inj (sym r' ∙ ap (resolve_value env s) kept ∙ r))
            ∙ ap (λ (z : RuntimeConfigValue). z.value) (some_inj (sym f ∙ found))
            ∙ resolve_value-current env s (rows u.0) u.1 (r ∙ ap ok (some_inj (sym f ∙ found)))
                coerced unlocked same
      ] in
      g' ∙ ap ok given ∙ sym wanted

  others_in_force :
      (other : String)
      → {effective : List RuntimeConfigValue} → list_effective env rows ≡ ok effective
      → rows' other ≡ rows other
      → get_value env rows' other ≡ get_value env rows other
  unfolding get_value
  others_in_force other l kept = elim (Option-cases (spec_of other)) [
    | inl n ↦ rw (n, get_value) refl
    | inr (s, p) ↦
        let (view, r, f, g) = get_value-row env rows other p l in
        let (view', r', f', g') = get_value-row env rows' other p resolves_after.1 in
        g'
        ∙ ap (λ (z : RuntimeConfigValue). ok z.value)
            (ok_inj (sym r' ∙ ap (resolve_value env s) kept ∙ r))
        ∙ sym g
  ]

  -- An update of the runtime configuration that is answered is in force: if it gives no key twice,
  -- and JSON texts are read as what was written, each key that it gives then has the value given, and
  -- every other key the value that it had.
  pub update_values-takes_effect :
      (other : String)
      → All (λ (u : String × Raw). u.0 ≢ other) updates
      → All (λ (u : String × Raw). get_value env rows' u.0 ≡ coerced_for u.0 u.1) updates
        × (get_value env rows' other ≡ get_value env rows other)
  update_values-takes_effect other absent =
      let (effective, l, a) = update_values-parts env now updates rows updated in
      (
        All-imp (Written env now effective rows rows')
            (λ (u : String × Raw). get_value env rows' u.0 ≡ coerced_for u.0 u.1) updates
            (λ u. given_in_force u l)
            (apply_updates-Written env now effective updates rows apart a),
        others_in_force other l
            (apply_updates_elsewhere env now effective updates rows other a absent),
      )
