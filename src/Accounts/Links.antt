-- ===== src/Accounts/Links.antt =====
-- account_service.py: whom a provider's account signs in, and what is left when it is disconnected.
use imghost.Prelude.{
  ℕ, ◌≡◌, ◌≢◌, refl, sym, ap, ◌∙◌, String, Bool, true, false, not, ◌&&◌, ◌||◌, Option, none, some,
  List, [], ◌∷◌, find-append_none, keep, arith, eq_iff, inl, inr, str_eq,
}
use mathlib.Core.Path.{subst}
use imghost.Http.{ok, raise, Exec, ◌>>◌, pure, raise_if, http}
use imghost.Http.Rules.{
  Ensures, Ensures-bind, Ensures-gets, Ensures-ok, Ensures-raise, Ensures-lift, Ensures-raise_if,
  Ensures-or_raise, Ensures-imp, Ensures-with, of_Ensures-ok,
}
use imghost.Models.{User, UserSsoLink}
use imghost.Users.{
  Tables, get_user_by_email, get_user_sso_link, create_user_sso_link, is_link, is_link_of,
  list_user_sso_links, delete_user_sso_link,
}
use imghost.Users.Rows.{create_user_sso_link-cases, with_link, get_user-id}
use imghost.Accounts.Support.{Outside}
use imghost.Accounts.{Office, query, is_there, create_user}
use imghost.Accounts.Logins.{Made, create-post}
use imghost.Accounts.OAuthLogin.{
  OAuthIdentity, Way, existing_link, linked, created, is_other, enter_linked, connect,
  register_identity, oauth_input, build_user_sso_link, complete_oauth_login, remaining_links,
  is_nil, disconnect_oauth_provider,
}

-- Deleting the links of a user with a provider leaves the user's links with other providers.
keep_remaining :
    (user_id provider : String) (ls : List UserSsoLink)
    → keep
        (is_link_of user_id)
        (keep (λ l. not (is_link_of user_id l && str_eq l.provider provider)) ls)
      ≡ keep (λ l. not (str_eq l.provider provider)) (keep (is_link_of user_id) ls)
unfolding keep
keep_remaining user_id provider [] = refl
keep_remaining user_id provider (l ∷ ls) = ground (arith, keep_remaining user_id provider ls)

keep_others :
    (user_id provider other : String) (ls : List UserSsoLink)
    → other ≢ user_id
    → keep
        (is_link_of other)
        (keep (λ l. not (is_link_of user_id l && str_eq l.provider provider)) ls)
      ≡ keep (is_link_of other) ls
unfolding keep
keep_others user_id provider other [] apart = refl
keep_others user_id provider other (l ∷ ls) apart = ground (
  arith,
  eq_iff l.user_id other,
  eq_iff l.user_id user_id,
  keep_others user_id provider other ls apart,
)

not-false : (b : Bool) → not b ≡ false → b ≡ true
not-false true h = refl
not-false false h = cc h

keeps_way : (a b : Bool) → not a && b ≡ false → a || not b ≡ true
keeps_way true b h = refl
keeps_way false true h = cc h
keeps_way false false h = refl

module _ (lib : Outside) (user : User) (provider : String) where
  disconnect-post :
      (w : Office)
      → Ensures
          (λ _ w'.
            (w'.tables ≡ delete_user_sso_link w.tables user.id provider)
            × (not (is_there user.password_hash)
                  && is_nil (remaining_links w.tables user.id provider)
                ≡ false))
          (λ _ w'. w' ≡ w)
          (disconnect_oauth_provider lib user provider w)
  unfolding disconnect_oauth_provider
  disconnect-post w = Ensures-gets _ _ _ _ w (
      Ensures-gets _ _ _ _ w (
        Ensures-raise_if _ _ _ _ _ w
          (λ _. Ensures-raise_if _ _ _ _ _ w (λ enough. (refl, enough)) (λ _. refl)) (λ _. refl)))

  -- A user that disconnects a provider keeps a way to sign in, a password or a link, has no link with
  -- that provider any more, and the links of any other user stay.
  pub disconnect-keeps_login :
      (w : Office) {w' : Office} (other : String)
      → disconnect_oauth_provider lib user provider w ≡ (ok tt, w')
      → other ≢ user.id
      → (is_there user.password_hash || not (is_nil (list_user_sso_links w'.tables user.id)) ≡ true)
        × (list_user_sso_links w'.tables user.id ≡ remaining_links w.tables user.id provider)
        × (list_user_sso_links w'.tables other ≡ list_user_sso_links w.tables other)
  unfolding list_user_sso_links delete_user_sso_link
  disconnect-keeps_login w {w' = w'} other e apart =
      let p = of_Ensures-ok _ _ _ (disconnect-post w) e in
      let mine =
        ap (λ (t : Tables). list_user_sso_links t user.id) p.0
        ∙ keep_remaining user.id provider w.tables.user_sso_links in
      (
        subst (λ ls. is_there user.password_hash || not (is_nil ls) ≡ true) (sym mine)
            (keeps_way (is_there user.password_hash)
              (is_nil (remaining_links w.tables user.id provider)) p.1),
        mine,
        ap (λ (t : Tables). list_user_sso_links t other) p.0
            ∙ keep_others user.id provider other w.tables.user_sso_links apart,
      )

module _ (lib : Outside) (now : ℕ) (user_id link_id : String) (identity : OAuthIdentity)
    (current_user : Option User) (allow_registration told : Bool) (source : String) where
  -- For each way in: what was so before, and what has changed.
  abbrev pub Entered : Tables → User × Way → Office → Type 0
  Entered t (u, existing_link) w' =
      (w'.tables ≡ t) × (u.suspended ≡ false) × (is_other current_user u ≡ false)
  Entered t (u, linked) w' =
      (current_user ≡ some u) × ((l : UserSsoLink) × (w'.tables ≡ with_link t l))
  Entered t (u, created) w' =
      (current_user ≡ none)
      × (allow_registration ≡ true)
      × (get_user_by_email t identity.email ≡ none)
      × (get_user_by_email t u.email ≡ none)
      × (u.is_admin ≡ false)

  -- The account is linked to the user.
  abbrev pub LinksTo : Tables → User → Type 0
  LinksTo t u =
      (l : UserSsoLink) × (get_user_sso_link t identity.provider identity.provider_uid ≡ some l)
      × (l.user_id ≡ u.id)

  abbrev Signed : Tables → User × Way → Office → Type 0
  Signed t (u, way) w' = Entered t (u, way) w' × LinksTo w'.tables u

  linked-post :
      (w : Office) (l : UserSsoLink)
      → get_user_sso_link w.tables identity.provider identity.provider_uid ≡ some l
      → Ensures (Signed w.tables) (λ _ _. Unit {0}) (enter_linked lib identity current_user l w)
  unfolding enter_linked
  linked-post w l e = Ensures-gets _ _ _ _ w (
      Ensures-or_raise _ _ _ _ _ w
        (λ u found.
          Ensures-raise_if _ _ _ _ _ w
            (λ active.
              Ensures-raise_if _ _ _ _ _ w
                (λ same. ((refl, active, same), (l, e, sym (get_user-id w.tables l.user_id found))))
                (λ _. tt))
            (λ _. tt))
        (λ _. tt))

  found_link :
      (t : Tables) (id link_user : String)
      → get_user_sso_link t identity.provider identity.provider_uid ≡ none
      → get_user_sso_link
          (with_link t
            (build_user_sso_link now id link_user identity.provider identity.provider_uid))
          identity.provider
          identity.provider_uid
        ≡ some (build_user_sso_link now id link_user identity.provider identity.provider_uid)
  unfolding get_user_sso_link
  found_link t id link_user h =
      find-append_none (is_link identity.provider identity.provider_uid) t.user_sso_links
        (build_user_sso_link now id link_user identity.provider identity.provider_uid) h
        (ground (
          arith,
          eq_iff identity.provider identity.provider,
          eq_iff identity.provider_uid identity.provider_uid,
        ))

  abbrev link_for : User → UserSsoLink
  link_for u = build_user_sso_link now link_id u.id identity.provider identity.provider_uid

  abbrev links : User → Exec Office UserSsoLink
  links u = query (λ t. create_user_sso_link t (link_for u))

  -- The last step of both ways that make a link.
  links-post :
      (t : Tables) (w : Office) (u : User) (way : Way)
      → get_user_sso_link w.tables identity.provider identity.provider_uid ≡ none
      → ((w' : Office) → w'.tables ≡ with_link w.tables (link_for u) → Entered t (u, way) w')
      → Ensures (Signed t) (λ _ _. Unit {0}) ((links u >> pure (u, way)) w)
  links-post t w u way new entered = elim (create_user_sso_link-cases w.tables (link_for u)) [
    | inl e ↦
        let made : links u w
            ≡ (ok (link_for u), record w { tables = with_link w.tables (link_for u) }) =
          ap (λ r. (r.0, record w { tables = r.1 })) e in
        let done : Signed t (u, way) (record w { tables = with_link w.tables (link_for u) }) =
          (entered _ refl, (link_for u, found_link w.tables link_id u.id new, refl)) in
        Ensures-ok (λ _ _. Unit {0}) (Signed t) (links u) (λ _. pure (u, way)) w _ _ made done
    | inr (x, e) ↦
        let refused : links u w ≡ (raise x, record w { tables = w.tables }) =
          ap (λ r. (r.0, record w { tables = r.1 })) e in
        Ensures-raise (λ _ _. Unit {0}) (Signed t) (links u) (λ _. pure (u, way)) w _ _ refused tt
  ]

  connect-post :
      (w : Office) (u : User)
      → current_user ≡ some u
      → get_user_sso_link w.tables identity.provider identity.provider_uid ≡ none
      → Ensures (Signed w.tables) (λ _ _. Unit {0}) (connect now link_id identity u w)
  unfolding connect
  connect-post w u here new = links-post w.tables w u linked new (λ w' e. (here, (link_for u, e)))

  same_links :
      (t : Tables) (us : List User)
      → get_user_sso_link (record t { users = us }) identity.provider identity.provider_uid
        ≡ get_user_sso_link t identity.provider identity.provider_uid
  unfolding get_user_sso_link
  same_links t us = refl

  absent : {A : Type 0} (o : Option A) → is_there o ≡ false → o ≡ none
  absent none h = refl
  absent (some a) h = cc h

  abbrev registers : String → Exec Office User
  registers username =
      create_user lib now user_id (oauth_input username identity) "oauth" told none source

  registers-post :
      (w : Office) (username : String)
      → Ensures
          (Made lib now user_id (oauth_input username identity) "oauth" told none source w.tables)
          (λ _ _. Unit {0})
          (registers username w)
  registers-post w username =
      Ensures-imp
        (Made lib now user_id (oauth_input username identity) "oauth" told none source w.tables)
        (λ _ w'. w'.tables ≡ w.tables) (λ _ _. Unit {0}) (registers username w)
        (create-post lib now user_id (oauth_input username identity) "oauth" told none source w)
        (λ _ _ _. tt)

  new_account :
      (w w' : Office) (username : String) (u : User)
      → current_user ≡ none
      → allow_registration ≡ true
      → get_user_sso_link w.tables identity.provider identity.provider_uid ≡ none
      → get_user_by_email w.tables identity.email ≡ none
      → Made lib now user_id (oauth_input username identity) "oauth" told none source w.tables u w'
      → Ensures (Signed w.tables) (λ _ _. Unit {0}) ((links u >> pure (u, created)) w')
  new_account w w' username u nobody allowed new no_email m =
      links-post w.tables w' u created
        (ap (λ (t : Tables). get_user_sso_link t identity.provider identity.provider_uid) m.added
          ∙ same_links w.tables _
          ∙ new)
        (λ w'' _. (
          nobody,
          allowed,
          no_email,
          ap (λ (v : User). get_user_by_email w.tables v.email) m.is_made ∙ m.new_email,
          ap (λ (v : User). v.is_admin) m.is_made,
        ))

  register-post :
      (w : Office)
      → current_user ≡ none
      → allow_registration ≡ true
      → get_user_sso_link w.tables identity.provider identity.provider_uid ≡ none
      → Ensures
          (Signed w.tables)
          (λ _ _. Unit {0})
          (register_identity lib now user_id link_id identity told source w)
  unfolding register_identity
  register-post w nobody allowed new = Ensures-gets _ _ _ _ w (
      Ensures-raise_if _ _ _ _ _ w
        (λ no_email. Ensures-gets _ _ _ _ w (
          Ensures-lift _ _ _ _ w
            (λ username _.
              Ensures-bind _ _ _ _ _ w (registers-post w username)
                (λ u w' m. new_account w w' username u nobody allowed new (absent _ no_email) m))
            (λ _ _. tt)))
        (λ _. tt))

  abbrev routed : Option UserSsoLink → Option User → Exec Office (User × Way)
  routed link user = elim link [
    | some l ↦ enter_linked lib identity current_user l
    | none ↦ elim user [
      | some u ↦ connect now link_id identity u
      | none ↦
          raise_if (not allow_registration) (http 403 "Registration is disabled.")
          >> register_identity lib now user_id link_id identity told source
    ]
  ]

  route :
      (w : Office) (link : Option UserSsoLink) (user : Option User)
      → get_user_sso_link w.tables identity.provider identity.provider_uid ≡ link
      → current_user ≡ user
      → Ensures (Signed w.tables) (λ _ _. Unit {0}) (routed link user w)
  route w (some l) user e h = linked-post w l e
  route w none (some u) e h = connect-post w u h e
  route w none none e h =
      Ensures-raise_if _ _ _ _ _ w
        (λ allowed. register-post w h (not-false allow_registration allowed) e) (λ _. tt)

  login-post :
      (w : Office)
      → Ensures
          (λ r w'. Signed w.tables r w' × (identity.email_verified ≡ true))
          (λ _ _. Unit {0})
          (complete_oauth_login lib now user_id link_id identity current_user allow_registration
            told source w)
  unfolding complete_oauth_login
  login-post w =
      Ensures-raise_if _ _ _ _ _ w
        (λ _.
          Ensures-raise_if _ _ _ _ _ w
            (λ verified. Ensures-gets _ _ _ _ w (
              Ensures-with (Signed w.tables) (λ _ _. Unit {0})
                (routed (get_user_sso_link w.tables identity.provider identity.provider_uid)
                  current_user w)
                (not-false identity.email_verified verified)
                (route w (get_user_sso_link w.tables identity.provider identity.provider_uid)
                  current_user refl refl)))
            (λ _. tt))
        (λ _. tt)

  -- Whoever is signed in by another provider's account, which has a verified address, is the user
  -- that the account is linked to afterwards. Either it was linked before, nothing has changed, and
  -- the user is neither suspended nor another than who was signed in; or it is now linked to who was
  -- signed in; or nobody was signed in, registration is allowed, no user had the address, as it was
  -- sent or as it is kept, and the user is new and no administrator.
  pub complete_oauth_login-links :
      (w : Office) {u : User} {way : Way} {w' : Office}
      → complete_oauth_login lib now user_id link_id identity current_user allow_registration told
          source w
        ≡ (ok (u, way), w')
      → (identity.email_verified ≡ true) × LinksTo w'.tables u × Entered w.tables (u, way) w'
  complete_oauth_login-links w e =
      let p = of_Ensures-ok _ _ _ (login-post w) e in (p.1, p.0.1, p.0.0)
