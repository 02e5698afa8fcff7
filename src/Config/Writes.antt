-- ===== src/Config/Writes.antt =====
-- runtime_config.py, `update_values`: what the loop over the updates leaves in the table.
use imghost.Prelude.{
  ℕ, ◌≡◌, ◌≢◌, ◌⊎◌, inl, inr, sym, ap, ◌∙◌, String, true, false, Option, some, List, [], ◌∷◌, find,
  All, All-imp, eq_iff, Bool-cases, Option-cases, str_eq,
}
use mathlib.Core.Path.{subst}
use imghost.Prelude.Sorting.{AllPairs}
use imghost.Prelude.Dict.{update, update_same, update_other}
use imghost.Http.{ok, Result-cases}
use imghost.Config.{
  Value, Raw, plain, RuntimeConfigSpec, RuntimeConfigValue, Surroundings, Rows, is_locked,
  coerce_value,
}
use imghost.Config.Table.{is_value_of, spec_of, is_current, Change, apply_updates}
use imghost.Config.Effect.{ok_inj, some_inj, Resolves, resolve_value-written}

module _ (env : Surroundings) (now : ℕ) where
  -- An update that is taken: of a spec that is not locked, with a value of its type.
  abbrev pub Taken : String × Raw → RuntimeConfigSpec → Value → Type 0
  Taken u s v = (spec_of u.0 ≡ some s) × (is_locked env s ≡ false) × (coerce_value s u.1 ≡ ok v)

  -- The value that was in force is the given one already.
  abbrev pub Current : List RuntimeConfigValue → String → Value → Type 0
  Current effective key v =
      (current : RuntimeConfigValue) × (find (is_value_of key) effective ≡ some current)
      × (is_current current v ≡ true)

  abbrev Rest : List RuntimeConfigValue → String × Raw → List (String × Raw) → Rows → Rows → Type 0
  Rest effective u us rows rows' =
      (s : RuntimeConfigSpec) × (v : Value) × Taken u s v
      × ((Current effective u.0 v
            × (changes : List Change) × (apply_updates env now effective us rows
                ≡ ok (changes, rows')))
          ⊎ ((changes : List Change) × (apply_updates env now effective us
                  (update rows u.0 (some (env.dumps v, now)))
                ≡ ok (changes, rows'))))

  -- One turn of the loop.
  apply_updates-turn :
      (effective : List RuntimeConfigValue) (key : String) (raw : Raw) (us : List (String × Raw))
      (rows : Rows) {changes : List Change} {rows' : Rows}
      → apply_updates env now effective ((key, raw) ∷ us) rows ≡ ok (changes, rows')
      → Rest effective (key, raw) us rows rows'
  unfolding apply_updates
  apply_updates-turn effective key raw us rows {changes = changes} {rows' = rows'} e =
      elim (Option-cases (spec_of key)) [
        | inl p ↦ absurd (cc (simp (p, apply_updates) at e))
        | inr (s, p) ↦ elim (Bool-cases (is_locked env s)) [
          | inl l ↦ absurd (cc (simp (p, l, apply_updates) at e))
          | inr l ↦ elim (Result-cases (coerce_value s raw)) [
            | inr (x, c) ↦ absurd (cc (simp (p, l, c, apply_updates) at e))
            | inl (v, c) ↦ elim (Option-cases (find (is_value_of key) effective)) [
              | inl f ↦ absurd (cc (simp (p, l, c, f, apply_updates) at e))
              | inr (current, f) ↦ elim (Bool-cases (is_current current v)) [
                | inl same ↦ (
                  s,
                  v,
                  (p, l, c),
                  inl ((current, f, same), changes, simp (p, l, c, f, same, apply_updates) at e),
                )
                | inr differs ↦
                    elim (Result-cases (
                      apply_updates env now effective us
                        (update rows key (some (env.dumps v, now))))) [
                          | inr (x, q) ↦
                              absurd (cc (simp (p, l, c, f, differs, q, apply_updates) at e))
                          | inl (r, q) ↦ (
                            s,
                            v,
                            (p, l, c),
                            inr (
                              r.0,
                              q
                                  ∙ ap (λ t. ok (r.0, t))
                                      (ap (λ (t : List Change × Rows). t.1)
                                        (ok_inj
                                          (simp (p, l, c, f, differs, q, apply_updates) at e))),
                            ),
                          )
                        ]
              ]
            ]
          ]
        ]
      ]

  -- A key that no update names keeps its row.
  pub apply_updates_elsewhere :
      (effective : List RuntimeConfigValue) (us : List (String × Raw)) (rows : Rows)
      (other : String) {changes : List Change} {rows' : Rows}
      → apply_updates env now effective us rows ≡ ok (changes, rows')
      → All (λ u. u.0 ≢ other) us
      → rows' other ≡ rows other
  unfolding apply_updates
  apply_updates_elsewhere effective [] rows other e h =
      ap (λ (t : List Change × Rows). t.1 other) (sym (ok_inj e))
  apply_updates_elsewhere effective ((key, raw) ∷ us) rows other e h =
      let (s, v, taken, rest) = apply_updates-turn effective key raw us rows e in
      elim rest [
        | inl (same, changes, q) ↦ apply_updates_elsewhere effective us rows other q h.1
        | inr (changes, q) ↦
            apply_updates_elsewhere effective us (update rows key (some (env.dumps v, now))) other q
              h.1
            ∙ update_other rows key (some (env.dumps v, now)) other h.0
      ]

  -- A spec of the table, and its row resolves.
  abbrev pub Resolvable : Rows → RuntimeConfigSpec → Type 0
  Resolvable rows s = (spec_of s.key ≡ some s) × Resolves env s (rows s.key)

  module _ (codec : (v : Value) → env.loads (env.dumps v) ≡ some (plain v)) where
    update-Resolvable :
        (u : String × Raw) (s : RuntimeConfigSpec) (v : Value) (rows : Rows) (r : RuntimeConfigSpec)
        → Taken u s v
        → Resolvable rows r
        → Resolvable (update rows u.0 (some (env.dumps v, now))) r
    update-Resolvable u s v rows r (p, l, c) (q, resolves) = elim (Bool-cases (str_eq u.0 r.key)) [
      | inr differs ↦ (q, rw differs resolves)
      | inl same ↦
          let is_s : s ≡ r = some_inj (sym p ∙ ap spec_of ((eq_iff u.0 r.key).0 same) ∙ q) in
          let (view, e, _) =
            resolve_value-written env codec r (rows r.key) now u.1 resolves
              (subst (λ t. coerce_value t u.1 ≡ ok v) is_s c)
              (subst (λ t. is_locked env t ≡ false) is_s l) in
          (q, rw same (view, e))
    ]

    -- What resolved before the updates does so after them.
    pub apply_updates-Resolvable :
        (effective : List RuntimeConfigValue) (specs : List RuntimeConfigSpec)
        (us : List (String × Raw)) (rows : Rows) {changes : List Change} {rows' : Rows}
        → apply_updates env now effective us rows ≡ ok (changes, rows')
        → All (Resolvable rows) specs
        → All (Resolvable rows') specs
    unfolding apply_updates
    apply_updates-Resolvable effective specs [] rows e h =
        subst (λ (r : Rows). All (Resolvable r) specs)
          (ap (λ (t : List Change × Rows). t.1) (ok_inj e)) h
    apply_updates-Resolvable effective specs ((key, raw) ∷ us) rows e h =
        let (s, v, taken, rest) = apply_updates-turn effective key raw us rows e in
        elim rest [
          | inl (same, changes, q) ↦ apply_updates-Resolvable effective specs us rows q h
          | inr (changes, q) ↦
              apply_updates-Resolvable effective specs us
                (update rows key (some (env.dumps v, now))) q
                (All-imp (Resolvable rows) (Resolvable (update rows key (some (env.dumps v, now))))
                  specs (λ r. update-Resolvable (key, raw) s v rows r taken) h)
        ]

  -- The row of an update is the given value, or as it was where that value was in force.
  abbrev pub Written : List RuntimeConfigValue → Rows → Rows → String × Raw → Type 0
  Written effective rows rows' u =
      (s : RuntimeConfigSpec) × (v : Value) × Taken u s v
      × ((rows' u.0 ≡ some (env.dumps v, now)) ⊎ ((rows' u.0 ≡ rows u.0) × Current effective u.0 v))

  Written-update :
      (effective : List RuntimeConfigValue) (rows rows' : Rows) (key : String)
      (row : Option (String × ℕ)) (w : String × Raw)
      → key ≢ w.0
      → Written effective (update rows key row) rows' w
      → Written effective rows rows' w
  Written-update effective rows rows' key row w apart (s, v, taken, inl written) =
      (s, v, taken, inl written)
  Written-update effective rows rows' key row w apart (s, v, taken, inr (kept, current)) =
      (s, v, taken, inr (kept ∙ update_other rows key row w.0 apart, current))

  pub apply_updates-Written :
      (effective : List RuntimeConfigValue) (us : List (String × Raw)) (rows : Rows)
      {changes : List Change} {rows' : Rows}
      → AllPairs (λ (a b : String × Raw). a.0 ≢ b.0) us
      → apply_updates env now effective us rows ≡ ok (changes, rows')
      → All (Written effective rows rows') us
  unfolding apply_updates
  apply_updates-Written effective [] rows apart e = tt
  apply_updates-Written effective ((key, raw) ∷ us) rows {rows' = rows'} apart e =
      let (s, v, taken, rest) = apply_updates-turn effective key raw us rows e in
      let elsewhere : All (λ (u : String × Raw). u.0 ≢ key) us =
        All-imp (λ (u : String × Raw). key ≢ u.0) (λ (u : String × Raw). u.0 ≢ key) us
          (λ u n k. n (sym k)) apart.0 in
      elim rest [
        | inl (current, changes, q) ↦ (
          (s, v, taken, inr (apply_updates_elsewhere effective us rows key q elsewhere, current)),
          apply_updates-Written effective us rows apart.1 q,
        )
        | inr (changes, q) ↦
            let row = some (env.dumps v, now) in
            (
              (
                s,
                v,
                taken,
                inl (
                    apply_updates_elsewhere effective us (update rows key row) key q elsewhere
                    ∙ update_same rows key row),
              ),
              later effective rows rows' key row us apart.0
                  (apply_updates-Written effective us (update rows key row) apart.1 q),
            )
      ]
    where
      later :
          (effective : List RuntimeConfigValue) (rows rows' : Rows) (key : String)
          (row : Option (String × ℕ)) (us : List (String × Raw))
          → All (λ (u : String × Raw). key ≢ u.0) us
          → All (Written effective (update rows key row) rows') us
          → All (Written effective rows rows') us
      later effective rows rows' key row [] a h = tt
      later effective rows rows' key row (w ∷ us) a h = (
        Written-update effective rows rows' key row w a.0 h.0,
        later effective rows rows' key row us a.1 h.1,
      )
