-- ===== src/Sharex/Submit.antt =====
-- src/imghost/web/pages.py, `sharex_delete_confirm_submit`: what a confirmation that is answered
-- leaves.
use imghost.Prelude.{
  ℕ, ◌≡◌, inl, inr, refl, sym, ap, ◌∙◌, String, Bool, true, false, not, Option, none, some, List,
  ◌&&◌, find, find-passes, leb, arith, Bool-cases, str_eq, eq_iff,
}
use mathlib.Core.Path.{subst}
use imghost.Http.{Exception, Result, ok, raise, Result-cases, ◌>>=◌, lift, raise_if, Exec}
use imghost.Http.Rules.{
  Ensures, Ensures-bind, Ensures-gets, Ensures-or_raise, Ensures-raise_if, Ensures-lift, Ensures-ok,
  Ensures-weaker, of_Ensures-ok, bind-ok, bind-raise,
}
use imghost.Models.{User, Album, Media, ShareXDeleteCapability}
use imghost.Repository.{get_album}
use imghost.Albums
use imghost.Albums.{World}
use imghost.Albums.Deletion.{delete_album-gone}
use imghost.Users.{Tables}
use imghost.Accounts.{is_there}
use imghost.Ids.{is_valid_id, album_id_length}
use imghost.Sharex.{
  has_selector, get_sharex_delete_capability, is_consumable, consume_row, consumed, option_map,
  set_capabilities, consume_sharex_delete_capability,
}
use imghost.Sharex.Tokens.{Outside, ShareXDeleteConfirmationPayload}
use imghost.Sharex.Pages.{
  Site, Reply, call, world_of, without_orphans, consume, delete_for, answer_unconsumed,
  load_sharex_confirmation, invalid_confirmation, not_found, sharex_delete_confirm_submit,
  is_deleted_already,
}
use imghost.Sharex.Once.{DistinctSelectors, find-consumable, find-left, nothing_consumed}
use imghost.Sharex.Confirmations.{load_sharex_confirmation-same}

-- What a deletion leaves of the tables: no album, and no capability of an album that is gone.
abbrev Dropped : String → Tables → Site → Type 0
Dropped album_id t s' =
    (s'.tables ≡ without_orphans t s'.tables.library)
    × (get_album s'.tables.library album_id ≡ none)

call-post :
    (now : ℕ) (album_id : String) (actor : Option User) (s : Site)
    → Ensures
        (λ _ s'. Dropped album_id s.tables s')
        (λ _ _. Unit)
        (call (Albums.delete_album now album_id none actor) s)
call-post now album_id actor s =
    made (Albums.delete_album now album_id none actor (world_of s)) refl
  where
    made :
        (r : Result (Album × List Media) × World)
        → Albums.delete_album now album_id none actor (world_of s) ≡ r
        → Ensures {S = Site} {A = Album × List Media}
            (λ _ s'. Dropped album_id s.tables s')
            (λ _ _. Unit)
            (
              r.0,
              record {
                tables = without_orphans s.tables r.1.db;
                storage_deletes = r.1.storage_deletes;
                events = r.1.events;
              },
            )
    made (ok a, w) e = (refl, delete_album-gone now album_id none actor (world_of s) e)
    made (raise x, w) e = tt

delete_for-post :
    (now : ℕ) (album_id : String) (c : ShareXDeleteCapability) (s : Site)
    → Ensures (λ _ s'. Dropped album_id s.tables s') (λ _ _. Unit) (delete_for now album_id c s)
unfolding delete_for
delete_for-post now album_id c s = Ensures-gets _ _ _ _ s (
    Ensures-or_raise _ _ _ _ _ s
      (λ user e.
        Ensures-bind (λ _ s'. Dropped album_id s.tables s') (λ _ _. Unit) _ _ _ s
          (call-post now album_id (some user) s) (λ a s' d. d))
      (λ _. tt))

module _ (o : Outside) (secret_key : String) (album_id cookie : String) where
  -- What a submission has found and left, where the album was there before.
  abbrev Deleted : ℕ → Site → Site → Type 0
  Deleted now s s' =
      (confirmation : ShareXDeleteConfirmationPayload) × (load_sharex_confirmation o secret_key now
          cookie album_id
        ≡ ok confirmation)
      × (c : ShareXDeleteCapability) × (find (is_consumable now confirmation.selector album_id)
            s.tables.sharex_delete_capabilities
          ≡ some c)
      × Dropped album_id
          (set_capabilities (consume_row now confirmation.selector album_id) s.tables) s'

  abbrev after : ℕ → (selector : String) → Site → Site
  after now selector s = record s {
    tables = set_capabilities (consume_row now selector album_id) s.tables;
  }

  abbrev answer_to :
      ℕ → ShareXDeleteConfirmationPayload → Option ShareXDeleteCapability → Exec Site Reply
  answer_to now confirmation capability = elim capability [
    | none ↦ answer_unconsumed album_id confirmation
    | some c ↦ delete_for now album_id c
  ]

  not_yet :
      (confirmation : ShareXDeleteConfirmationPayload) (current : Option ShareXDeleteCapability)
      (album : Album)
      → is_deleted_already confirmation current (some album) ≡ false
  not_yet confirmation none album = refl
  not_yet confirmation (some c) album =
      never (str_eq c.user_id confirmation.user_id) (is_there c.consumed_at)
    where
      never : (a b : Bool) → a && b && false ≡ false
      never a b = ground arith

  refuses :
      (confirmation : ShareXDeleteConfirmationPayload) (s : Site)
      → is_deleted_already confirmation
          (get_sharex_delete_capability s.tables confirmation.selector)
          (get_album s.tables.library album_id)
        ≡ false
      → answer_unconsumed album_id confirmation s ≡ (raise invalid_confirmation, s)
  unfolding answer_unconsumed ◌>>=◌
  refuses confirmation s h = rw h refl

  submit-post :
      (now : ℕ) (s : Site) {album : Album}
      → get_album s.tables.library album_id ≡ some album
      → Ensures
          (λ _ s'. Deleted now s s')
          (λ _ _. Unit)
          (sharex_delete_confirm_submit o secret_key now album_id cookie s)
  unfolding sharex_delete_confirm_submit consume_sharex_delete_capability
  submit-post now s {album = album} there =
      Ensures-raise_if _ _ _ _ _ s
        (λ valid.
          Ensures-lift _ _ _ _ s
            (λ confirmation loaded.
              Ensures-ok _ _ (consume now confirmation.selector album_id)
                (answer_to now confirmation) s
                (option_map (consumed now) (
                  find (is_consumable now confirmation.selector album_id)
                    s.tables.sharex_delete_capabilities))
                (after now confirmation.selector s) refl
                (found confirmation loaded
                  (find (is_consumable now confirmation.selector album_id)
                    s.tables.sharex_delete_capabilities)
                  refl))
            (λ _ _. tt))
        (λ _. tt)
    where
      found :
          (confirmation : ShareXDeleteConfirmationPayload)
          → load_sharex_confirmation o secret_key now cookie album_id ≡ ok confirmation
          → (c : Option ShareXDeleteCapability)
          → find
              (is_consumable now confirmation.selector album_id)
              s.tables.sharex_delete_capabilities
            ≡ c
          → Ensures
              (λ _ s'. Deleted now s s')
              (λ _ _. Unit)
              (answer_to now confirmation
                (option_map (consumed now) c)
                (after now confirmation.selector s))
      found confirmation loaded none e =
          subst (Ensures (λ _ s'. Deleted now s s') (λ _ _. Unit))
            (sym (
              refuses confirmation (after now confirmation.selector s) (
                subst
                  (λ a.
                    is_deleted_already confirmation
                      (get_sharex_delete_capability (after now confirmation.selector s).tables
                        confirmation.selector)
                      a
                    ≡ false)
                  (sym there)
                  (not_yet confirmation
                    (get_sharex_delete_capability (after now confirmation.selector s).tables
                      confirmation.selector)
                    album))))
            tt
      found confirmation loaded (some c) e =
          Ensures-weaker (λ _ s'. Dropped album_id (after now confirmation.selector s).tables s')
            (λ _ s'. Deleted now s s') (λ _ _. Unit) _
            (delete_for-post now album_id (consumed now c) (after now confirmation.selector s))
            (λ a s' d. (confirmation, loaded, c, e, d))

  -- Without the album and without a row of the selector, a submission is refused and changes nothing.
  refused :
      (later : ℕ) (s : Site) (selector : String)
      → ((confirmation : ShareXDeleteConfirmationPayload)
          → load_sharex_confirmation o secret_key later cookie album_id ≡ ok confirmation
          → selector ≡ confirmation.selector)
      → find (has_selector selector) s.tables.sharex_delete_capabilities ≡ none
      → (e : Exception) × (sharex_delete_confirm_submit o secret_key later album_id cookie s
          ≡ (raise e, s))
  unfolding sharex_delete_confirm_submit consume_sharex_delete_capability
      get_sharex_delete_capability
  refused later s selector names missing =
      elim (Bool-cases (is_valid_id o.lower album_id album_id_length)) [
        | inr invalid ↦ (
          not_found,
          bind-raise (raise_if (not (is_valid_id o.lower album_id album_id_length)) not_found) rest
              s (rw invalid refl),
        )
        | inl valid ↦
            elim (Result-cases (load_sharex_confirmation o secret_key later cookie album_id)) [
              | inr (e, l) ↦ (
                e,
                started valid
                    ∙ bind-raise
                        (lift (load_sharex_confirmation o secret_key later cookie album_id))
                        submitted s (ap (λ r. (r, s)) l),
              )
              | inl (confirmation, l) ↦
                  let absent_row =
                    subst
                      (λ sel. find (has_selector sel) s.tables.sharex_delete_capabilities ≡ none)
                      (names confirmation l) missing in
                  let (none_found, kept) =
                    nothing_consumed later confirmation.selector album_id
                      s.tables.sharex_delete_capabilities absent_row in
                  (
                    invalid_confirmation,
                    started valid
                        ∙ bind-ok
                            (lift (load_sharex_confirmation o secret_key later cookie album_id))
                            submitted s (ap (λ r. (r, s)) l)
                        ∙ bind-ok (consume later confirmation.selector album_id)
                            (answer_to later confirmation) s
                            (ap
                                (λ (c : Option ShareXDeleteCapability). (
                                  ok (option_map (consumed later) c),
                                  after later confirmation.selector s,
                                ))
                                none_found
                              ∙ ap
                                  (λ (cs : List ShareXDeleteCapability). (
                                    ok none,
                                    record s {
                                      tables = record s.tables { sharex_delete_capabilities = cs };
                                    },
                                  ))
                                  kept)
                        ∙ refuses confirmation s (
                            ap
                              (λ c.
                                is_deleted_already confirmation c
                                  (get_album s.tables.library album_id))
                              absent_row),
                  )
            ]
      ]
    where
      submitted : ShareXDeleteConfirmationPayload → Exec Site Reply
      submitted confirmation =
          consume later confirmation.selector album_id >>= answer_to later confirmation

      rest : Unit {0} → Exec Site Reply
      rest _ = lift (load_sharex_confirmation o secret_key later cookie album_id) >>= submitted

      started :
          is_valid_id o.lower album_id album_id_length ≡ true
          → (raise_if (not (is_valid_id o.lower album_id album_id_length)) not_found >>= rest) s
            ≡ rest tt s
      started valid =
          bind-ok (raise_if (not (is_valid_id o.lower album_id album_id_length)) not_found) rest s
            (rw valid refl)

  names_album :
      (now : ℕ) (selector : String) (c : ShareXDeleteCapability)
      → is_consumable now selector album_id c ≡ true
      → c.album_id ≡ album_id
  names_album now selector c h = (eq_iff c.album_id album_id).0 (
      second (has_selector selector c) (str_eq c.album_id album_id) (not (is_there c.revoked_at))
        (not (is_there c.consumed_at)) (not (leb c.expires_at now)) h)
    where
      second : (a b d e f : Bool) → a && b && d && e && f ≡ true → b ≡ true
      second a b d e f h = ground (arith, h)

  -- A confirmation of a deletion that is answered, while the album is there and selectors are
  -- distinct, has consumed the capability that its cookie names, which was for this album and neither
  -- consumed nor revoked nor expired; the album is gone then, and the cookie is refused at any later
  -- time, without a change.
  pub sharex_delete_confirm_submit-once :
      (now : ℕ) (s : Site) {album : Album} {reply : Reply} {s' : Site}
      → DistinctSelectors s.tables
      → get_album s.tables.library album_id ≡ some album
      → sharex_delete_confirm_submit o secret_key now album_id cookie s ≡ (ok reply, s')
      → (confirmation : ShareXDeleteConfirmationPayload) × (load_sharex_confirmation o secret_key
            now cookie album_id
          ≡ ok confirmation)
        × (c : ShareXDeleteCapability) × (get_sharex_delete_capability s.tables
              confirmation.selector
            ≡ some c)
        × (is_consumable now confirmation.selector album_id c ≡ true)
        × (get_album s'.tables.library album_id ≡ none)
        × ((later : ℕ)
            → (e : Exception) × (sharex_delete_confirm_submit o secret_key later album_id cookie s'
                ≡ (raise e, s')))
  unfolding get_sharex_delete_capability
  sharex_delete_confirm_submit-once now s {s' = s'} distinct there submitted =
      let (confirmation, loaded, c, found, (tables, gone)) =
        of_Ensures-ok _ _ _ (submit-post now s there) submitted in
      let selector = confirmation.selector in
      let by_selector =
        find-consumable now selector album_id s.tables.sharex_delete_capabilities distinct found in
      let live =
        find-passes (is_consumable now selector album_id) s.tables.sharex_delete_capabilities
          found in
      let album_gone = ap (get_album s'.tables.library) (names_album now selector c live) ∙ gone in
      let none_left =
        ap (λ (t : Tables). find (has_selector selector) t.sharex_delete_capabilities) tables
        ∙ find-left now selector album_id s'.tables.library s.tables.sharex_delete_capabilities
            distinct by_selector album_gone in
      (
        confirmation,
        loaded,
        c,
        by_selector,
        live,
        gone,
        λ later.
            refused later s' selector
              (λ again l.
                load_sharex_confirmation-same o secret_key now later cookie album_id loaded l)
              none_left,
      )
