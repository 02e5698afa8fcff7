-- ===== src/Sharex/Once.antt =====
-- src/imghost/sharex_delete.py and the capabilities of src/imghost/repository_media.py: the rows of a
-- selector, and the selector of a cookie.
use imghost.Prelude.{
  ℕ, ◌≡◌, inl, inr, refl, sym, ap, ◌∙◌, String, Bool, true, false, none, some, List, [], ◌∷◌, map,
  keep, find, All, All-imp, Bool-cases, str_eq, eq_iff,
}
use imghost.Prelude.Sorting.{AllPairs}
use imghost.Models.{ShareXDeleteCapability}
use imghost.Repository.{Db, get_album}
use imghost.Users.{Tables}
use imghost.Accounts.{is_there}
use imghost.Sharex.{has_selector, is_consumable, consume_row}

-- The selector is the primary key.
abbrev pub DistinctSelectors : Tables → Type 0
DistinctSelectors t =
    AllPairs (λ (a b : ShareXDeleteCapability). str_eq a.selector b.selector ≡ false)
      t.sharex_delete_capabilities

pub absent :
    (test : ShareXDeleteCapability → Bool) (cs : List ShareXDeleteCapability)
    → All (λ c. test c ≡ false) cs
    → find test cs ≡ none
unfolding find
absent test [] h = refl
absent test (c ∷ cs) h = rw h.0 (absent test cs h.1)

apart :
    (selector a b : String)
    → str_eq a selector ≡ true
    → str_eq a b ≡ false
    → str_eq b selector ≡ false
apart selector a b h k = elim (Bool-cases (str_eq b selector)) [
  | inr e ↦ e
  | inl e ↦
      absurd (cc (k, (eq_iff a b).1 ((eq_iff a selector).0 h ∙ sym ((eq_iff b selector).0 e))))
]

module _ (now : ℕ) (selector album_id : String) where
  -- No other row has the selector of a row.
  others :
      (x : ShareXDeleteCapability) (cs : List ShareXDeleteCapability)
      → has_selector selector x ≡ true
      → All (λ (b : ShareXDeleteCapability). str_eq x.selector b.selector ≡ false) cs
      → All (λ b. has_selector selector b ≡ false) cs
  others x cs p h =
      All-imp (λ (b : ShareXDeleteCapability). str_eq x.selector b.selector ≡ false)
        (λ b. has_selector selector b ≡ false) cs (λ b k. apart selector x.selector b.selector p k)
        h

  unselected :
      (c : ShareXDeleteCapability)
      → has_selector selector c ≡ false
      → is_consumable now selector album_id c ≡ false
  unselected c h = rw h refl

  -- The row that is consumed is the row of the selector.
  pub find-consumable :
      (cs : List ShareXDeleteCapability) {c : ShareXDeleteCapability}
      → AllPairs (λ (a b : ShareXDeleteCapability). str_eq a.selector b.selector ≡ false) cs
      → find (is_consumable now selector album_id) cs ≡ some c
      → find (has_selector selector) cs ≡ some c
  unfolding find
  find-consumable [] d h = cc h
  find-consumable (x ∷ cs) d h = elim (Bool-cases (has_selector selector x)) [
    | inr p ↦ rw p (find-consumable cs d.1 (simp (unselected x p) at h))
    | inl p ↦ elim (Bool-cases (is_consumable now selector album_id x)) [
      | inl q ↦ rw p (simp q at h)
      | inr q ↦ absurd (
          cc (
            simp q at h,
            absent (is_consumable now selector album_id) cs (
                All-imp (λ b. has_selector selector b ≡ false)
                  (λ b. is_consumable now selector album_id b ≡ false) cs unselected
                  (others x cs p d.0)),
          ))
    ]
  ]

  consume_row-selector :
      (c : ShareXDeleteCapability)
      → has_selector selector (consume_row now selector album_id c) ≡ has_selector selector c
  consume_row-selector c = elim (Bool-cases (is_consumable now selector album_id c)) [
    | inl q ↦ rw q refl
    | inr q ↦ rw q refl
  ]

  consume_row-album :
      (c : ShareXDeleteCapability) → (consume_row now selector album_id c).album_id ≡ c.album_id
  consume_row-album c = elim (Bool-cases (is_consumable now selector album_id c)) [
    | inl q ↦ rw q refl
    | inr q ↦ rw q refl
  ]

  module _ (db : Db) where
    abbrev left : List ShareXDeleteCapability → List ShareXDeleteCapability
    left cs =
        keep (λ c. is_there (get_album db c.album_id)) (map (consume_row now selector album_id) cs)

    skip_row :
        (x : ShareXDeleteCapability) (cs : List ShareXDeleteCapability)
        → has_selector selector x ≡ false
        → find (has_selector selector) (left (x ∷ cs)) ≡ find (has_selector selector) (left cs)
    unfolding find keep
    skip_row x cs p =
        elim (Bool-cases (is_there (get_album db (consume_row now selector album_id x).album_id))) [
          | inl q ↦ rw q (rw (consume_row-selector x) (rw p refl))
          | inr q ↦ rw q refl
        ]

    none-left :
        (cs : List ShareXDeleteCapability)
        → All (λ b. has_selector selector b ≡ false) cs
        → find (has_selector selector) (left cs) ≡ none
    unfolding find keep
    none-left [] h = refl
    none-left (x ∷ cs) h = skip_row x cs h.0 ∙ none-left cs h.1

    -- Where the album of the row is gone, no row of the selector is left.
    pub find-left :
        (cs : List ShareXDeleteCapability) {c : ShareXDeleteCapability}
        → AllPairs (λ (a b : ShareXDeleteCapability). str_eq a.selector b.selector ≡ false) cs
        → find (has_selector selector) cs ≡ some c
        → get_album db c.album_id ≡ none
        → find (has_selector selector) (left cs) ≡ none
    unfolding find keep
    find-left [] d h k = cc h
    find-left (x ∷ cs) d h k = elim (Bool-cases (has_selector selector x)) [
      | inr p ↦ skip_row x cs p ∙ find-left cs d.1 (simp p at h) k
      | inl p ↦
          let same = simp p at h in
          rw (consume_row-album x) (
            rw (ap (λ (y : ShareXDeleteCapability). get_album db y.album_id) (some_inj same) ∙ k)
              (none-left cs (others x cs p d.0)))
    ]
      where
        some_inj : {a b : ShareXDeleteCapability} → some a ≡ some b → a ≡ b
        some_inj e = cc e

  -- Without a row of the selector, none is consumed.
  pub nothing_consumed :
      (cs : List ShareXDeleteCapability)
      → find (has_selector selector) cs ≡ none
      → (find (is_consumable now selector album_id) cs ≡ none)
        × (map (consume_row now selector album_id) cs ≡ cs)
  unfolding find
  nothing_consumed [] h = (refl, refl)
  nothing_consumed (x ∷ cs) h = elim (Bool-cases (has_selector selector x)) [
    | inl p ↦ absurd (cc (simp p at h))
    | inr p ↦
        let (a, b) = nothing_consumed cs (simp p at h) in
        (rw (unselected x p) a, rw (unselected x p) (ap (λ ys. x ∷ ys) b))
  ]
