-- ===== src/Config/Updates.antt =====
-- runtime_config.py, `update_values`: what is in force after an update.
use imghost.Prelude.{
  ◌≡◌, inl, inr, refl, String, some, List, [], ◌∷◌, find, find-passes, All, eq_iff, Bool-cases,
  str_eq,
}
use mathlib.Core.Path.{subst}
use imghost.Http.{ok, Result-cases}
use imghost.Config.{
  RuntimeConfigSpec, RuntimeConfigValue, Surroundings, Rows, runtime_config_specs, resolve_value,
}
use imghost.Config.Table.{has_key, is_value_of, spec_of, resolve_all}
use imghost.Config.Effect.{ok_inj, some_inj, Resolves, resolve_value-key}

pub spec_of-key : (key : String) {s : RuntimeConfigSpec} → spec_of key ≡ some s → s.key ≡ key
unfolding spec_of
spec_of-key key {s = s} e = (eq_iff s.key key).0 (find-passes (has_key key) runtime_config_specs e)

module _ (env : Surroundings) (rows : Rows) where
  pub resolve_all-parts :
      (specs : List RuntimeConfigSpec) {vs : List RuntimeConfigValue}
      → resolve_all env rows specs ≡ ok vs
      → All (λ s. Resolves env s (rows s.key)) specs
  unfolding resolve_all
  resolve_all-parts [] e = tt
  resolve_all-parts (s ∷ specs) e = elim (Result-cases (resolve_value env s (rows s.key))) [
    | inr (x, r) ↦ absurd (cc (simp (r, resolve_all) at e))
    | inl (v, r) ↦ elim (Result-cases (resolve_all env rows specs)) [
      | inr (x, p) ↦ absurd (cc (simp (r, p, resolve_all) at e))
      | inl (ws, p) ↦ ((v, r), resolve_all-parts specs p)
    ]
  ]

  pub resolve_all-ok :
      (specs : List RuntimeConfigSpec)
      → All (λ s. Resolves env s (rows s.key)) specs
      → (vs : List RuntimeConfigValue) × (resolve_all env rows specs ≡ ok vs)
  unfolding resolve_all
  resolve_all-ok [] h = ([], refl)
  resolve_all-ok (s ∷ specs) h =
      let (vs, e) = resolve_all-ok specs h.1 in (h.0.0 ∷ vs, rw (h.0.1, resolve_all) (rw e refl))

  pub find-resolved :
      (key : String) (specs : List RuntimeConfigSpec) {vs : List RuntimeConfigValue}
      {s : RuntimeConfigSpec}
      → resolve_all env rows specs ≡ ok vs
      → find (has_key key) specs ≡ some s
      → (view : RuntimeConfigValue) × (resolve_value env s (rows key) ≡ ok view)
        × (find (is_value_of key) vs ≡ some view)
  unfolding resolve_all find
  find-resolved key [] e h = cc h
  find-resolved key (r ∷ specs) {vs = vs} {s = s} e h =
      elim (Result-cases (resolve_value env r (rows r.key))) [
        | inr (x, p) ↦ absurd (cc (simp (p, resolve_all) at e))
        | inl (v, p) ↦ elim (Result-cases (resolve_all env rows specs)) [
          | inr (x, q) ↦ absurd (cc (simp (p, q, resolve_all) at e))
          | inl (ws, q) ↦
              let made : v ∷ ws ≡ vs = ok_inj (simp (p, q, resolve_all) at e) in
              let keyed = resolve_value-key env r (rows r.key) p in
              elim (Bool-cases (str_eq r.key key)) [
                | inl same ↦
                    let at_key : resolve_value env r (rows key) ≡ ok v =
                      subst (λ k. resolve_value env r (rows k) ≡ ok v) ((eq_iff r.key key).0 same)
                        p in
                    let found : r ≡ s = some_inj (simp same at h) in
                    (
                      v,
                      subst (λ t. resolve_value env t (rows key) ≡ ok v) found at_key,
                      subst (λ us. find (is_value_of key) us ≡ some v) made
                          (simp (keyed, same) refl),
                    )
                | inr differs ↦
                    let (view, a, b) = find-resolved key specs q (simp differs at h) in
                    (
                      view,
                      a,
                      subst (λ us. find (is_value_of key) us ≡ some view) made
                          (rw (keyed) (rw differs b)),
                    )
              ]
        ]
      ]
