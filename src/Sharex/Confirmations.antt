-- ===== src/Sharex/Confirmations.antt =====
-- src/imghost/sharex_delete.py, `loads_confirmation`: the selector that a cookie names.
use imghost.Prelude.{
  ℕ, ◌≡◌, inl, inr, refl, sym, ap, ◌∙◌, String, Bool, true, false, Option, none, some, Bool-cases,
  Option-cases, str_eq, if◌then◌else◌,
}
use imghost.Http.{Result, ok, raise, Result-cases}
use imghost.Tokens.{stripped, unsign}
use imghost.Sharex.Tokens.{
  Outside, Fields, ShareXDeleteConfirmationPayload, read_confirmation, parsed_confirmation,
  loads_confirmation, sharex_delete_confirm_seconds,
}
use imghost.Sharex.Pages.{checked_album, load_sharex_confirmation}

module _ (o : Outside) (secret_key : String) where
  read_confirmation-selector :
      (now max_age : ℕ) (f : Fields) {p : ShareXDeleteConfirmationPayload}
      → read_confirmation o now max_age f ≡ some p
      → p.selector ≡ stripped f.selector
  unfolding read_confirmation
  read_confirmation-selector now max_age f {p = p} h =
      chosen _ _
        (record {
          selector = stripped f.selector;
          album_id = stripped f.album_id;
          user_id = stripped f.user_id;
          created_at = some (stripped f.created_at);
        })
        h
    where
      chosen :
          (a b : Bool) (q : ShareXDeleteConfirmationPayload)
          → (if a then none else if b then some q else none) ≡ some p
          → p.selector ≡ q.selector
      chosen true b q e = cc e
      chosen false true q e = cc e
      chosen false false q e = cc e

  -- What a cookie that is read says, whenever it is read.
  abbrev pub Says : (cookie selector : String) → Type 0
  Says cookie selector =
      (payload : String) × (unsign o.signing secret_key cookie ≡ ok (some payload))
      × (f : Fields) × (o.loads payload ≡ some (some f))
      × (selector ≡ stripped f.selector)

  loads_confirmation-Says :
      (now max_age : ℕ) (cookie : String) {p : ShareXDeleteConfirmationPayload}
      → loads_confirmation o secret_key now cookie max_age ≡ ok (some p)
      → Says cookie p.selector
  unfolding loads_confirmation
  loads_confirmation-Says now max_age cookie {p = p} h =
      elim (Result-cases (unsign o.signing secret_key cookie)) [
        | inr (e, u) ↦ absurd (cc (simp (u, loads_confirmation) at h))
        | inl (r, u) ↦ elim (Option-cases r) [
          | inl n ↦ absurd (cc (simp (u ∙ ap ok n, loads_confirmation) at h))
          | inr (payload, n) ↦ elim (Option-cases (o.loads payload)) [
            | inl l ↦ absurd (cc (simp (l) at simp (u ∙ ap ok n, loads_confirmation) at h))
            | inr (g, l) ↦ elim (Option-cases g) [
              | inl m ↦
                  absurd (cc (simp (l ∙ ap some m) at simp (u ∙ ap ok n, loads_confirmation) at h))
              | inr (f, m) ↦
                  let got : ok (parsed_confirmation o now max_age (some (some f))) ≡ ok (some p) =
                    simp (l ∙ ap some m) at simp (u ∙ ap ok n, loads_confirmation) at h in
                  let read : read_confirmation o now max_age f ≡ some p = cc got in
                  (
                    payload,
                    u ∙ ap ok n,
                    f,
                    l ∙ ap some m,
                    read_confirmation-selector now max_age f read,
                  )
            ]
          ]
        ]
      ]

  pub load_sharex_confirmation-Says :
      (now : ℕ) (cookie album_id : String) {p : ShareXDeleteConfirmationPayload}
      → load_sharex_confirmation o secret_key now cookie album_id ≡ ok p
      → Says cookie p.selector
  unfolding load_sharex_confirmation
  load_sharex_confirmation-Says now cookie album_id {p = p} h =
      elim (Bool-cases (str_eq cookie "")) [
        | inl b ↦ absurd (cc (simp (b, load_sharex_confirmation) at h))
        | inr b ↦
            from (loads_confirmation o secret_key now cookie sharex_delete_confirm_seconds) refl
              (simp (b, load_sharex_confirmation) at h)
      ]
    where
      from :
          (r : Result (Option ShareXDeleteConfirmationPayload))
          → loads_confirmation o secret_key now cookie sharex_delete_confirm_seconds ≡ r
          → checked_album album_id r ≡ ok p
          → Says cookie p.selector
      from (raise e) l c = cc c
      from (ok none) l c = cc c
      from (ok (some q)) l c = elim (Bool-cases (str_eq q.album_id album_id)) [
        | inr d ↦ absurd (cc (simp d at c))
        | inl d ↦
            let is_p : q ≡ p = cc (simp d at c) in
            loads_confirmation-Says now sharex_delete_confirm_seconds cookie {p = p}
              (l ∙ ap (λ x. ok (some x)) is_p)
      ]

  -- A cookie names the same selector at any time.
  pub load_sharex_confirmation-same :
      (now later : ℕ) (cookie album_id : String) {p q : ShareXDeleteConfirmationPayload}
      → load_sharex_confirmation o secret_key now cookie album_id ≡ ok p
      → load_sharex_confirmation o secret_key later cookie album_id ≡ ok q
      → p.selector ≡ q.selector
  load_sharex_confirmation-same now later cookie album_id a b =
      let (payload, u, f, l, s) = load_sharex_confirmation-Says now cookie album_id a in
      let (payload', u', f', l', s') = load_sharex_confirmation-Says later cookie album_id b in
      let same : payload ≡ payload' = cc (u, u') in
      let agree : f ≡ f' = cc (l, l', same) in
      s ∙ ap (λ (g : Fields). stripped g.selector) agree ∙ sym s'
