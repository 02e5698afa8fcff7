-- ===== src/Accounts/Removal.antt =====
-- account_service.py, `delete_user_by_id`: what is gone with an account.
use imghost.Prelude.{
  ℕ, ◌≡◌, refl, sym, ap, ap₂, ◌∙◌, String, Bool, false, not, Option, none, some, List, [], ◌∷◌,
  ◌++◌, find, keep, map, length, All, Bool-cases, Option-cases, inl, inr,
}
use mathlib.Core.Path.{subst}
use mathlib.Core.List.{append-nil, append_assoc}
use imghost.Prelude.Int.{pos}
use imghost.Prelude.Sorting.{order_by}
use imghost.Text.{opt_eq}
use imghost.Http.{ok, raise, Exec, ◌>>=◌, ◌>>◌, pure, gets, or_raise, Exception}
use imghost.Http.Rules.{
  Ensures, Ensures-bind, Ensures-gets, Ensures-ok, Ensures-or_raise, Ensures-weaker, of_Ensures-ok,
  of_Ensures-raise,
}
use imghost.Models.{User, Album, Media}
use imghost.Users
use imghost.Users.{
  Tables, has_user_id, get_user, list_user_albums, list_user_media, list_user_sso_links,
  get_api_key_for_user, is_link_of, is_key_of, owned_by, in_album_of, without_user, goes_with,
  disowned,
}
use imghost.Users.Rows.{get_user-id}
use imghost.Cleanup.{storage_keys_for_media}
use imghost.Accounts.{Office, query, run, user_not_found, user_deleted, emit}
use imghost.Accounts.Changes.{
  revoke_sharex_delete_capabilities_for_user, delete_keys, delete_user_by_id, kind_of_deleter,
}

keep-none {ℓ} :
    {A : Type ℓ} (test : A → Bool) (xs : List A) → keep test (keep (λ x. not (test x)) xs) ≡ []
unfolding keep
keep-none test [] = refl
keep-none test (x ∷ xs) = elim (Bool-cases (test x)) [
  | inl p ↦ rw p (keep-none test xs)
  | inr p ↦ rw (p, p) (keep-none test xs)
]

find-none {ℓ} :
    {A : Type ℓ} (test : A → Bool) (xs : List A) → find test (keep (λ x. not (test x)) xs) ≡ none
unfolding keep find
find-none test [] = refl
find-none test (x ∷ xs) = elim (Bool-cases (test x)) [
  | inl p ↦ rw p (find-none test xs)
  | inr p ↦ rw (p, p) (find-none test xs)
]

-- Where each item is its album's owner's, the items that go with the albums are those of the user.
abbrev pub OwnedTogether : Tables → String → Type 0
OwnedTogether t user_id =
    All (λ m. opt_eq m.user_id (some user_id) ≡ in_album_of t user_id m.album_id) t.library.media

stays :
    (user_id : String) (m : Media)
    → opt_eq m.user_id (some user_id) ≡ false
    → disowned user_id m ≡ m
stays user_id m p = rw p refl

keep_rest :
    (user_id : String) (goes : Media → Bool) (ms : List Media)
    → All (λ m. opt_eq m.user_id (some user_id) ≡ goes m) ms
    → map (disowned user_id) (keep (λ m. not (goes m)) ms)
      ≡ keep (λ m. not (opt_eq m.user_id (some user_id))) ms
unfolding keep
keep_rest user_id goes [] h = refl
keep_rest user_id goes (m ∷ ms) h = elim (Bool-cases (opt_eq m.user_id (some user_id))) [
  | inl p ↦ rw (sym h.0) (rw p (keep_rest user_id goes ms h.1))
  | inr p ↦
      rw (sym h.0) (rw p (ap₂ (λ x xs. x ∷ xs) (stays user_id m p) (keep_rest user_id goes ms h.1)))
]

abbrev past : String → Office → Office
past key w = record w { storage_deletes = w.storage_deletes ++ key ∷ [] }

abbrev Deleted : Office → List String → Unit {0} → Office → Type 0
Deleted w keys _ w' = (w'.tables ≡ w.tables) × (w'.storage_deletes ≡ w.storage_deletes ++ keys)

module _ (fails : String → Option Exception) where
  -- What the loop leaves: every key is deleted, or it raises at the first that cannot be.
  delete_keys-post :
      (keys : List String) (w : Office)
      → Ensures (Deleted w keys) (λ _ w'. w'.tables ≡ w.tables) (delete_keys fails keys w)
  unfolding delete_keys
  delete_keys-post [] w = (refl, sym (append-nil w.storage_deletes))
  delete_keys-post (key ∷ keys) w = elim (Option-cases (fails key)) [
    | inr (x, e) ↦ rw (e, delete_keys) refl
    | inl e ↦
        rw (e, delete_keys)
          (Ensures-weaker (Deleted (past key w) keys) (Deleted w (key ∷ keys))
            (λ _ w'. w'.tables ≡ w.tables) (delete_keys fails keys (past key w))
            (delete_keys-post keys (past key w))
            (λ _ w' d. (d.0, d.1 ∙ append_assoc w.storage_deletes (key ∷ []) keys)))
  ]

module _ (fails : String → Option Exception) (now : ℕ) (user_id deleted_by : String)
    (actor_id : Option String) where
  abbrev revoked : Tables → Tables
  revoked = revoke_sharex_delete_capabilities_for_user now user_id

  -- What a removal leaves: the rows without the user, and the keys of the user's items deleted.
  abbrev Removed : Office → ℕ × ℕ → Office → Type 0
  Removed w counts w' =
      (w'.tables ≡ without_user (revoked w.tables) user_id)
      × (w'.storage_deletes
          ≡ w.storage_deletes ++ storage_keys_for_media (list_user_media w.tables user_id))
      × (counts
          ≡ (length (list_user_albums w.tables user_id), length (list_user_media w.tables user_id)))

  -- The work from the revocation on, for the id of the row that was found.
  abbrev removes : String → Exec Office (ℕ × ℕ)
  removes id = do
    run (revoke_sharex_delete_capabilities_for_user now id)
    albums ← gets (λ w. list_user_albums w.tables id)
    media_items ← gets (λ w. list_user_media w.tables id)
    delete_keys fails (storage_keys_for_media media_items)
    (gone, deleted_albums, deleted_media) ←
        query (λ t. let (r, t') = Users.delete_user t id in (ok r, t'))
    deleted ← or_raise gone user_not_found
    emit (
        user_deleted deleted.id actor_id (kind_of_deleter deleted_by) deleted_by
          (length deleted_albums) (length deleted_media))
    pure (length albums, length media_items)

  abbrev dropping : Exec Office (Option User × List Album × List Media)
  dropping = query (λ t. let (r, t') = Users.delete_user t user_id in (ok r, t'))

  drops :
      (w : Office) {row : User}
      → get_user w.tables user_id ≡ some row
      → (albums : List Album) × (media : List Media) × (dropping w
          ≡ (ok (some row, albums, media), record w { tables = without_user w.tables user_id }))
  unfolding Users.delete_user
  drops w found = (
    list_user_albums w.tables user_id,
    order_by (λ m. pos m.created_at) (keep (goes_with w.tables user_id) w.tables.library.media),
    rw (found, Users.delete_user) refl,
  )

  same_user : (t : Tables) → get_user (revoked t) user_id ≡ get_user t user_id
  unfolding revoke_sharex_delete_capabilities_for_user get_user
  same_user t = refl

  same_albums : (t : Tables) → list_user_albums (revoked t) user_id ≡ list_user_albums t user_id
  unfolding revoke_sharex_delete_capabilities_for_user list_user_albums
  same_albums t = refl

  same_media : (t : Tables) → list_user_media (revoked t) user_id ≡ list_user_media t user_id
  unfolding revoke_sharex_delete_capabilities_for_user list_user_media
  same_media t = refl

  finishes :
      (w w₂ : Office) (row : User) (albums : List Album) (media : List Media)
      → Deleted
          (record w { tables = revoked w.tables })
          (storage_keys_for_media (list_user_media (revoked w.tables) user_id))
          tt
          w₂
      → Ensures
          (Removed w)
          (λ _ w'. w'.tables ≡ revoked w.tables)
          ((or_raise (some row) user_not_found >>= (λ deleted.
              emit (
                user_deleted deleted.id actor_id
                  (kind_of_deleter deleted_by)
                  deleted_by
                  (length albums)
                  (length media))
              >> pure (
                length (list_user_albums (revoked w.tables) user_id),
                length (list_user_media (revoked w.tables) user_id),
              )))
            (record w₂ { tables = without_user w₂.tables user_id }))
  unfolding ◌>>=◌
  finishes w w₂ row albums media d = (
    ap (λ (t : Tables). without_user t user_id) d.0,
    d.1 ∙ ap (λ ms. w.storage_deletes ++ storage_keys_for_media ms) (same_media w.tables),
    ap₂ (λ (xs : List Album) (ms : List Media). (length xs, length ms)) (same_albums w.tables)
        (same_media w.tables),
  )

  removes-post :
      (w : Office) {row : User}
      → get_user w.tables user_id ≡ some row
      → Ensures (Removed w) (λ _ w'. w'.tables ≡ revoked w.tables) (removes user_id w)
  removes-post w {row = row} found =
      let w₁ : Office = record w { tables = revoked w.tables } in
      Ensures-ok _ _ _ _ w tt w₁ (refl) (
        Ensures-gets _ _ _ _ w₁ (
          Ensures-gets _ _ _ _ w₁ (
            Ensures-bind (Deleted w₁ (storage_keys_for_media (list_user_media w₁.tables user_id))) _
              _ _ _ w₁
              (delete_keys-post fails (storage_keys_for_media (list_user_media w₁.tables user_id))
                w₁)
              (λ _ w₂ d.
                let (albums, media, e) =
                  drops w₂
                    (ap (λ (t : Tables). get_user t user_id) d.0 ∙ same_user w.tables ∙ found) in
                Ensures-ok _ _ _ _ w₂ _ _ e (finishes w w₂ row albums media d)))))

  removal-post :
      (w : Office) {row : User}
      → get_user w.tables user_id ≡ some row
      → Ensures
          (Removed w)
          (λ _ w'. w'.tables ≡ revoked w.tables)
          (delete_user_by_id fails now user_id deleted_by actor_id w)
  unfolding delete_user_by_id
  removal-post w {row = row} found = Ensures-gets _ _ _ _ w (
      Ensures-or_raise _ _ _ _ _ w
        (λ user e.
          subst (λ id. Ensures (Removed w) (λ _ w'. w'.tables ≡ revoked w.tables) (removes id w))
            (sym (get_user-id w.tables user_id e)) (removes-post w e))
        (λ e. absurd (cc (e, found))))

  gone_media :
      (t : Tables)
      → OwnedTogether t user_id
      → (without_user (revoked t) user_id).library.media
        ≡ keep (λ m. not (opt_eq m.user_id (some user_id))) t.library.media
  unfolding without_user revoke_sharex_delete_capabilities_for_user in_album_of
  gone_media t together =
      keep_rest user_id (λ m. in_album_of t user_id m.album_id) t.library.media together

  gone_rows :
      (t : Tables)
      → (get_user (without_user t user_id) user_id ≡ none)
        × (get_api_key_for_user (without_user t user_id) user_id ≡ none)
        × (list_user_sso_links (without_user t user_id) user_id ≡ [])
        × (list_user_albums (without_user t user_id) user_id ≡ [])
  unfolding without_user get_user get_api_key_for_user list_user_sso_links list_user_albums order_by
  gone_rows t = (
    find-none (has_user_id user_id) t.users,
    find-none (is_key_of user_id) t.api_keys,
    keep-none (is_link_of user_id) t.user_sso_links,
    ap (order_by (λ a. pos a.created_at)) (keep-none (owned_by user_id) t.library.albums),
  )

  -- Deleting an account that is there, where each item of the user is in an album of the user and
  -- each item in such an album is the user's: when it returns, the user, the API key, the links and
  -- the albums are gone, of the items exactly the user's, and storage has deleted the keys of these
  -- and no others. The numbers that are returned are those of the albums and of the items.
  pub delete_user_by_id-removes :
      (w : Office) {row : User} {counts : ℕ × ℕ} {w' : Office}
      → get_user w.tables user_id ≡ some row
      → OwnedTogether w.tables user_id
      → delete_user_by_id fails now user_id deleted_by actor_id w ≡ (ok counts, w')
      → (get_user w'.tables user_id ≡ none)
        × (get_api_key_for_user w'.tables user_id ≡ none)
        × (list_user_sso_links w'.tables user_id ≡ [])
        × (list_user_albums w'.tables user_id ≡ [])
        × (w'.tables.library.media
            ≡ keep (λ m. not (opt_eq m.user_id (some user_id))) w.tables.library.media)
        × (w'.storage_deletes
            ≡ w.storage_deletes ++ storage_keys_for_media (list_user_media w.tables user_id))
        × (counts ≡ (
          length (list_user_albums w.tables user_id),
          length (list_user_media w.tables user_id),
        ))
  delete_user_by_id-removes w found together e =
      let p = of_Ensures-ok _ _ _ (removal-post w found) e in
      let g = gone_rows (revoked w.tables) in
      rw p.0 (g.0, g.1, g.2, g.3, gone_media w.tables together, p.1, p.2)

  -- A deletion of an account that is there, where storage cannot delete a key, leaves every row but
  -- the capabilities of the user, which are revoked.
  pub delete_user_by_id-raises :
      (w : Office) {row : User} {e : Exception} {w' : Office}
      → get_user w.tables user_id ≡ some row
      → delete_user_by_id fails now user_id deleted_by actor_id w ≡ (raise e, w')
      → w'.tables ≡ revoke_sharex_delete_capabilities_for_user now user_id w.tables
  delete_user_by_id-raises w found e = of_Ensures-raise _ _ _ (removal-post w found) e
