-- ===== src/Accounts/Logins.antt =====
-- account_service.py: creating a user, and signing in with a password.
use mathlib.Core.Path.{subst}
use imghost.Prelude.{
  ℕ, zero, suc, ◌≤◌, ◌≡◌, refl, sym, ap, ◌∙◌, String, Bool, true, false, Option, none, some, List,
  [], ◌∷◌, ◌++◌, ◌||◌, find-append_none, find-passes, length, arith, eq_iff, Bool-cases,
  Option-cases, inl, inr, ◌⊎◌, str_eq, ltb,
}
use imghost.Text.{strip}
use imghost.Http.{ok, Exec, ◌>>=◌, ◌>>◌, pure, Result-cases}
use imghost.Http.Rules.{
  Ensures, Ensures-gets, Ensures-ok, Ensures-raise, Ensures-weaker, Ensures-lift, Ensures-raise_if,
  of_Ensures-ok,
}
use imghost.Models.{User}
use imghost.Users
use imghost.Users.{
  Tables, has_email, has_username, has_user_id, get_user_by_email, get_user_by_username, conflicts,
}
use imghost.Accounts.Support.{
  Outside, encode, take_bytes, hash_password, verify_password, require_password_value,
  max_password_bytes,
}
use imghost.Users.Rows.{create_user-cases}
use imghost.Accounts.{
  Event, Office, UserCreateInput, LocalLoginInput, create_user, authenticate_local_user, find_login,
  check_login, check_password, hash_given, new_user, is_there, query, emit_if, user_registered,
  registrant,
}

take_bytes-all : (n : ℕ) (bytes : List ℕ) → length bytes ≤ n → take_bytes n bytes ≡ bytes
take_bytes-all zero [] h = refl
take_bytes-all zero (b ∷ bytes) h = absurd (omega (arith, h))
take_bytes-all (suc n) [] h = refl
take_bytes-all (suc n) (b ∷ bytes) h = ap (◌∷◌ b) (take_bytes-all n bytes (omega (arith, h)))

module _ (lib : Outside)
    (checks : (bytes : List ℕ)
      → length bytes ≤ max_password_bytes
      → lib.checkpw bytes (lib.hashpw bytes) ≡ some true) where
  -- What `hash_password` gives is what `verify_password` accepts.
  verify-hash :
      (password : String) {h : String}
      → hash_password lib password ≡ ok h
      → verify_password lib password h ≡ true
  unfolding hash_password verify_password
  verify-hash password {h = h} e =
      elim (Bool-cases (ltb max_password_bytes (length (encode password)))) [
        | inl long ↦ absurd (cc (simp long at e))
        | inr fits ↦
            let le : length (encode password) ≤ max_password_bytes = ground (arith, fits) in
            let same : lib.hashpw (encode password) ≡ h = cc (simp fits at e) in
            rw (take_bytes-all max_password_bytes (encode password) le, verify_password)
              (rw (sym same) (rw (checks (encode password) le) refl))
      ]

module _ (lib : Outside) (now : ℕ) (id : String) (payload : UserCreateInput) (method : String)
    (told : Bool) (actor_id : Option String) (source : String) where
  abbrev username : String
  username = strip payload.username

  abbrev email : String
  email = lib.lower (strip payload.email)

  abbrev made : Option String → User
  made hash = new_user now id username email hash payload

  -- What a user that was created is, and what its creation left.
  pub record Made (t : Tables) (u : User) (w : Office) : Type 0 where
    pub hash : Option String
    pub hashed : hash_given lib payload.password ≡ ok hash
    pub checked : check_password payload.password ≡ ok tt
    pub is_made : u ≡ made hash
    pub added : w.tables ≡ record t { users = t.users ++ u ∷ [] }
    pub new_email : get_user_by_email t email ≡ none
    pub new_name : get_user_by_username t username ≡ none
    pub has_email : str_eq email "" ≡ false
    pub has_name : str_eq username "" ≡ false

  abbrev Added : Office → Option String → User → Office → Type 0
  Added w hash u w' =
      (u ≡ made hash) × (w'.tables ≡ record w.tables { users = w.tables.users ++ u ∷ [] })

  tells :
      (told : Bool) (event : Event) (w w' : Office) (hash : Option String)
      → Added w hash (made hash) w'
      → Ensures
          (Added w hash)
          (λ _ w'. w'.tables ≡ w.tables)
          ((emit_if told event >> pure (made hash)) w')
  unfolding ◌>>=◌
  tells true event w w' hash h = h
  tells false event w w' hash h = h

  abbrev ending : Option String → Exec Office User
  ending hash =
      query (λ t. Users.create_user t (made hash))
      >> (emit_if told (user_registered id (registrant method actor_id id) method source)
          >> pure (made hash))

  inserts :
      (w : Office) (hash : Option String)
      → Ensures (Added w hash) (λ _ w'. w'.tables ≡ w.tables) (ending hash w)
  inserts w hash = elim (create_user-cases w.tables (made hash)) [
    | inl (_, e) ↦
        Ensures-ok _ _ _ _ w _ _ (ap (λ r. (r.0, record w { tables = r.1 })) e)
          (tells told _ w _ hash (refl, refl))
    | inr e ↦ Ensures-raise _ _ _ _ w _ _ (ap (λ r. (r.0, record w { tables = r.1 })) e) refl
  ]

  absent : {A : Type 0} (o : Option A) → is_there o ≡ false → o ≡ none
  absent none h = refl
  absent (some a) h = cc h

  pub create-post :
      (w : Office)
      → Ensures
          (Made w.tables)
          (λ _ w'. w'.tables ≡ w.tables)
          (create_user lib now id payload method told actor_id source w)
  unfolding create_user
  create-post w =
      Ensures-raise_if _ _ _ _ _ w
        (λ has_name.
          Ensures-raise_if _ _ _ _ _ w
            (λ has_email.
              Ensures-lift _ _ _ _ w
                (λ _ checked. Ensures-gets _ _ _ _ w (
                  Ensures-raise_if _ _ _ _ _ w
                    (λ new_name. Ensures-gets _ _ _ _ w (
                      Ensures-raise_if _ _ _ _ _ w
                        (λ new_email.
                          Ensures-lift _ _ _ _ w
                            (λ hash hashed.
                              Ensures-weaker (Added w hash) (Made w.tables)
                                (λ _ w'. w'.tables ≡ w.tables) (ending hash w) (inserts w hash)
                                (λ u w' a. record {
                                  hash = hash;
                                  hashed = hashed;
                                  checked = checked;
                                  is_made = a.0;
                                  added = a.1;
                                  new_email = absent _ new_email;
                                  new_name = absent _ new_name;
                                  has_email = has_email;
                                  has_name = has_name;
                                }))
                            (λ _ _. refl))
                        (λ _. refl)))
                    (λ _. refl)))
                (λ _ _. refl))
            (λ _. refl))
        (λ _. refl)

module _ (lib : Outside)
    (checks : (bytes : List ℕ)
      → length bytes ≤ max_password_bytes
      → lib.checkpw bytes (lib.hashpw bytes) ≡ some true)
    (lower_nothing : lib.lower "" ≡ "") where
  not_empty :
      (password : String) → check_password (some password) ≡ ok tt → str_eq password "" ≡ false
  unfolding require_password_value strip
  not_empty password h = elim (Bool-cases (str_eq password "")) [
    | inl e ↦
        absurd (cc (subst (λ p. check_password (some p) ≡ ok tt) ((eq_iff password "").0 e) h))
    | inr e ↦ e
  ]

  given_hash :
      (password : String) (hash : Option String)
      → str_eq password "" ≡ false
      → hash_given lib (some password) ≡ ok hash
      → (h : String) × (hash_password lib password ≡ ok h) × (hash ≡ some h)
  given_hash password hash full e = elim (Result-cases (hash_password lib password)) [
    | inl (h, p) ↦ (h, p, cc (simp (full, p) at e))
    | inr (x, p) ↦ absurd (cc (simp (full, p) at e))
  ]

  written_address :
      (email : String)
      → str_eq (lib.lower (strip email)) "" ≡ false
      → str_eq (strip email) "" ≡ false
  written_address email h = elim (Bool-cases (str_eq (strip email) "")) [
    | inl e ↦ absurd (
        cc (
          h,
          (eq_iff (lib.lower (strip email)) "").1
              (ap lib.lower ((eq_iff (strip email) "").0 e) ∙ lower_nothing),
        ))
    | inr e ↦ e
  ]

  found_by_email :
      (t : Tables) (u : User)
      → get_user_by_email t u.email ≡ none
      → get_user_by_email (record t { users = t.users ++ u ∷ [] }) u.email ≡ some u
  unfolding get_user_by_email
  found_by_email t u h =
      find-append_none (has_email u.email) t.users u h ((eq_iff u.email u.email).1 refl)

  accepts :
      (password h : String) (u : User)
      → u.password_hash ≡ some h
      → u.suspended ≡ false
      → verify_password lib password h ≡ true
      → check_login lib password (some u) ≡ ok u
  accepts password h u a b c = simp (a, b, c, check_login) refl

  finds :
      (t : Tables) (login : String) (u : User)
      → get_user_by_email t (lib.lower login) ≡ some u
      → find_login lib t login ≡ some u
  finds t login u h = rw (h, find_login) refl

  -- A user that is created with a password can sign in with it, by the address as it was written
  -- then, blanks and capitals included.
  pub create_user-signs_in :
      (now : ℕ) (id : String) (payload : UserCreateInput) (method : String) (told : Bool)
      (actor_id : Option String) (source password : String) (w : Office) {u : User} {w' : Office}
      → payload.password ≡ some password
      → create_user lib now id payload method told actor_id source w ≡ (ok u, w')
      → authenticate_local_user lib
          (record { login = payload.email; password = password })
          w'.tables
        ≡ ok u
  unfolding authenticate_local_user
  create_user-signs_in now id payload method told actor_id source password w {u = u} {w' = w'} given
        e =
      let m =
        of_Ensures-ok _ _ _ (create-post lib now id payload method told actor_id source w) e in
      let full = not_empty password (ap check_password (sym given) ∙ m.checked) in
      let (h, hashed, is_hash) =
        given_hash password m.hash full (ap (hash_given lib) (sym given) ∙ m.hashed) in
      let there : get_user_by_email w'.tables (lib.lower (strip payload.email)) ≡ some u =
        rw (m.added, m.is_made)
          (found_by_email w.tables
            (new_user now id (strip payload.username) (lib.lower (strip payload.email)) m.hash
              payload)
            m.new_email) in
      rw (written_address payload.email m.has_email, full)
        (ap (check_login lib password) (finds w'.tables (strip payload.email) u there)
          ∙ accepts password h u (ap (λ (v : User). v.password_hash) m.is_made ∙ is_hash)
              (ap (λ (v : User). v.suspended) m.is_made) (verify-hash lib checks password hashed))

module _ (lib : Outside) (t : Tables) where
  is_login :
      (login : String) {u : User}
      → find_login lib t login ≡ some u
      → (u.email ≡ lib.lower login) ⊎ (u.username ≡ login)
  unfolding get_user_by_email get_user_by_username
  is_login login {u = u} h = elim (Option-cases (get_user_by_email t (lib.lower login))) [
    | inr (v, e) ↦ inl (
        (eq_iff u.email (lib.lower login)).0
          (find-passes (has_email (lib.lower login)) t.users (e ∙ sym e ∙ rw_found v e)))
    | inl e ↦ inr (
        (eq_iff u.username login).0
          (find-passes (has_username login) t.users (simp (e, find_login) at h)))
  ]
    where
      rw_found :
          (v : User)
          → get_user_by_email t (lib.lower login) ≡ some v
          → get_user_by_email t (lib.lower login) ≡ some u
      rw_found v e = e ∙ simp (e, find_login) at h

  passes :
      (password : String) (o : Option User) {u : User}
      → check_login lib password o ≡ ok u
      → (o ≡ some u)
        × ((h : String) × (u.password_hash ≡ some h)
            × (verify_password lib password h ≡ true)
            × (u.suspended ≡ false))
  passes password none e = cc e
  passes password (some v) {u = u} e = elim (Option-cases v.password_hash) [
    | inl n ↦ absurd (cc (simp (n, check_login) at e))
    | inr (h, n) ↦ elim (Bool-cases v.suspended) [
      | inl s ↦ absurd (cc (simp (n, s, check_login) at e))
      | inr s ↦ elim (Bool-cases (verify_password lib password h)) [
        | inr p ↦ absurd (cc (simp (n, s, p, check_login) at e))
        | inl p ↦
            let same : v ≡ u = cc (simp (n, s, p, check_login) at e) in
            (
              ap some same,
              (
                h,
                ap (λ (x : User). x.password_hash) (sym same) ∙ n,
                p,
                ap (λ (x : User). x.suspended) (sym same) ∙ s,
              ),
            )
      ]
    ]
  ]

  -- Who signs in is not suspended, has the address or the name that was given, and a password that
  -- the given one matches.
  pub authenticate_local_user-checks :
      (payload : LocalLoginInput) {u : User}
      → authenticate_local_user lib payload t ≡ ok u
      → (h : String) × (u.password_hash ≡ some h)
        × (verify_password lib payload.password h ≡ true)
        × (u.suspended ≡ false)
        × ((u.email ≡ lib.lower (strip payload.login)) ⊎ (u.username ≡ strip payload.login))
  unfolding authenticate_local_user
  authenticate_local_user-checks payload {u = u} e =
      elim (Bool-cases (str_eq (strip payload.login) "" || str_eq payload.password "")) [
        | inl n ↦ absurd (cc (simp n at e))
        | inr n ↦
            let p =
              passes payload.password (find_login lib t (strip payload.login)) (simp n at e) in
            (p.1.0, p.1.1, p.1.2, p.1.3, is_login (strip payload.login) p.0)
      ]
