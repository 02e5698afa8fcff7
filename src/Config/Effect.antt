-- ===== src/Config/Effect.antt =====
-- runtime_config.py: one value after an update.
use imghost.Prelude.{
  ℕ, ◌≡◌, inl, inr, refl, sym, ap, ◌∙◌, String, Bool, true, false, Option, none, some, ◌&&◌, find,
  All, arith, Option-cases,
}
use imghost.Prelude.Int.{pos, negsuc}
use imghost.Http.{ok, Result-cases}
use imghost.Config.{
  Value, flag, number, Raw, plain, other_value, ConfigType, bool_type, int_type, RuntimeConfigSpec,
  RuntimeConfigValue, Surroundings, runtime_config_specs, is_locked, coerce, coerce_value,
  default_of, decode_stored_value, in_force, text_of, time_of, resolve_value,
}
use imghost.Config.Table.{spec_of, value_eq, is_current}

-- What has been coerced is coerced to itself.
coerce_idem :
    (key : String) (type : ConfigType) (raw : Raw) {v : Value}
    → coerce key type raw ≡ ok v
    → coerce key type (plain v) ≡ ok v
unfolding coerce
coerce_idem key bool_type (plain (flag b)) h = ground (arith, h)
coerce_idem key bool_type (plain (number n)) h = cc h
coerce_idem key bool_type other_value h = cc h
coerce_idem key int_type (plain (flag b)) h = cc h
coerce_idem key int_type (plain (number (pos n))) h = ground (arith, h)
coerce_idem key int_type (plain (number (negsuc n))) h = cc h
coerce_idem key int_type other_value h = cc h

-- Values of one type that Python holds equal are equal.
value_eq-typed :
    (key : String) (type : ConfigType) (raw raw' : Raw) {a b : Value}
    → coerce key type raw ≡ ok a
    → coerce key type raw' ≡ ok b
    → value_eq a b ≡ true
    → a ≡ b
unfolding coerce
value_eq-typed key bool_type (plain (flag x)) (plain (flag y)) h k e = ground (arith, h, k, e)
value_eq-typed key bool_type (plain (flag x)) (plain (number n)) h k e = cc k
value_eq-typed key bool_type (plain (flag x)) other_value h k e = cc k
value_eq-typed key bool_type (plain (number n)) raw' h k e = cc h
value_eq-typed key bool_type other_value raw' h k e = cc h
value_eq-typed key int_type (plain (flag x)) raw' h k e = cc h
value_eq-typed key int_type (plain (number (pos m))) (plain (flag y)) h k e = cc k
value_eq-typed key int_type (plain (number (pos m))) (plain (number (pos n))) h k e =
    ground (arith, h, k, e)
value_eq-typed key int_type (plain (number (pos m))) (plain (number (negsuc n))) h k e = cc k
value_eq-typed key int_type (plain (number (pos m))) other_value h k e = cc k
value_eq-typed key int_type (plain (number (negsuc m))) raw' h k e = cc h
value_eq-typed key int_type other_value raw' h k e = cc h

-- Each spec is the one of its key.
pub specs_are_keyed : All (λ s. spec_of s.key ≡ some s) runtime_config_specs
unfolding spec_of runtime_config_specs find
specs_are_keyed = (
  refl,
  (
    refl,
    (
      refl,
      (
        refl,
        (
          refl,
          (
            refl,
            (
              refl,
              (
                refl,
                (
                  refl,
                  (
                    refl,
                    (
                      refl,
                      (
                        refl,
                        (
                          refl,
                          (
                            refl,
                            (
                              refl,
                              (
                                refl,
                                (refl, (refl, (refl, (refl, (refl, (refl, (refl, (refl, tt)))))))),
                              ),
                            ),
                          ),
                        ),
                      ),
                    ),
                  ),
                ),
              ),
            ),
          ),
        ),
      ),
    ),
  ),
)

pub some_inj {ℓ} : {A : Type ℓ} {a b : A} → some a ≡ some b → a ≡ b
some_inj e = cc e

pub ok_inj {ℓ} : {A : Type ℓ} {a b : A} → ok a ≡ ok b → a ≡ b
ok_inj e = cc e

module _ (env : Surroundings) where
  abbrev pub Resolves : RuntimeConfigSpec → Option (String × ℕ) → Type 0
  Resolves s row = (view : RuntimeConfigValue) × (resolve_value env s row ≡ ok view)

  resolve_value-parts :
      (s : RuntimeConfigSpec) (row : Option (String × ℕ)) {view : RuntimeConfigValue}
      → resolve_value env s row ≡ ok view
      → (default : Value) × (default_of env s.default_provider ≡ ok default)
        × (decoded : Option Value) × (decode_stored_value env s (text_of row) ≡ ok decoded)
        × (view ≡ in_force env s default decoded (time_of row))
  unfolding resolve_value
  resolve_value-parts s row e = elim (Result-cases (default_of env s.default_provider)) [
    | inr (x, d) ↦ absurd (cc (simp (d, resolve_value) at e))
    | inl (default, d) ↦ elim (Result-cases (decode_stored_value env s (text_of row))) [
      | inr (x, c) ↦ absurd (cc (simp (d, c, resolve_value) at e))
      | inl (decoded, c) ↦ (default, d, decoded, c, sym (ok_inj (simp (d, c, resolve_value) at e)))
    ]
  ]

  pub resolve_value-key :
      (s : RuntimeConfigSpec) (row : Option (String × ℕ)) {view : RuntimeConfigValue}
      → resolve_value env s row ≡ ok view
      → view.key ≡ s.key
  resolve_value-key s row e =
      let (default, d, decoded, c, is_view) = resolve_value-parts s row e in
      ap (λ (v : RuntimeConfigValue). v.key) is_view ∙ keyed s default decoded (time_of row)
    where
      keyed :
          (s : RuntimeConfigSpec) (default : Value) (decoded : Option Value) (at : Option ℕ)
          → (in_force env s default decoded at).key ≡ s.key
      keyed s default none at = ground arith
      keyed s default (some v) at = ground arith

  -- A spec whose row resolves does so with a value that is written to it, which is then in force.
  pub resolve_value-written :
      ((v : Value) → env.loads (env.dumps v) ≡ some (plain v))
      → (s : RuntimeConfigSpec) (row : Option (String × ℕ)) (now : ℕ) (raw : Raw) {v : Value}
      → Resolves s row
      → coerce_value s raw ≡ ok v
      → is_locked env s ≡ false
      → (view : RuntimeConfigValue) × (resolve_value env s (some (env.dumps v, now)) ≡ ok view)
        × (view.value ≡ v)
  unfolding resolve_value decode_stored_value
  resolve_value-written codec s row now raw {v = v} resolves coerced unlocked =
      let (default, d, decoded, c, is_view) = resolve_value-parts s row resolves.1 in
      (
        in_force env s default (some v) (some now),
        rw (d, resolve_value) (rw (codec v) (rw (coerce_idem s.key s.value_type raw coerced) refl)),
        simp (unlocked, in_force) refl,
      )

  stored-coerced :
      (s : RuntimeConfigSpec) (text : Option String) {u : Value}
      → decode_stored_value env s text ≡ ok (some u)
      → (raw : Raw) × (coerce_value s raw ≡ ok u)
  unfolding decode_stored_value
  stored-coerced s none e = cc e
  stored-coerced s (some text) e = elim (Option-cases (env.loads text)) [
    | inl l ↦ absurd (cc (simp (l, decode_stored_value) at e))
    | inr (raw, l) ↦ elim (Result-cases (coerce_value s raw)) [
      | inl (v, c) ↦ (raw, c ∙ ap ok (some_inj (ok_inj (simp (l, c, decode_stored_value) at e))))
      | inr (x, c) ↦ absurd (cc (simp (l, c, decode_stored_value) at e))
    ]
  ]

  from_table :
      (s : RuntimeConfigSpec) (raw : Raw) (default : Value) (decoded : Option Value)
      (text : Option String) (at : Option ℕ) {v : Value}
      → decode_stored_value env s text ≡ ok decoded
      → coerce_value s raw ≡ ok v
      → is_locked env s ≡ false
      → is_current (in_force env s default decoded at) v ≡ true
      → (in_force env s default decoded at).value ≡ v
  from_table s raw default none text at {v = v} d coerced unlocked current =
      absurd (never (value_eq default v) (simp (unlocked, in_force) at current))
    where
      never : (b : Bool) → b && false ≡ true → ⊥
      never b h = ground (arith, h)
  from_table s raw default (some u) text at {v = v} d coerced unlocked current =
      let (raw', c) = stored-coerced s text d in
      simp (unlocked, in_force)
        (value_eq-typed s.key s.value_type raw' raw c coerced
          (both (value_eq u v) (simp (unlocked, in_force) at current)))
    where
      both : (b : Bool) → b && true ≡ true → b ≡ true
      both b h = ground (arith, h)

  -- In force from the table, with a value that is the given one, is a row that gives that value.
  pub resolve_value-current :
      (s : RuntimeConfigSpec) (row : Option (String × ℕ)) (raw : Raw) {v : Value}
      {view : RuntimeConfigValue}
      → resolve_value env s row ≡ ok view
      → coerce_value s raw ≡ ok v
      → is_locked env s ≡ false
      → is_current view v ≡ true
      → view.value ≡ v
  resolve_value-current s row raw {v = v} resolved coerced unlocked current =
      let (default, d, decoded, c, is_view) = resolve_value-parts s row resolved in
      ap (λ (x : RuntimeConfigValue). x.value) is_view
      ∙ from_table s raw default decoded (text_of row) (time_of row) c coerced unlocked
          (ap (λ (x : RuntimeConfigValue). is_current x v) (sym is_view) ∙ current)
