-- ===== src/Auth/Admission.antt =====
-- src/imghost/web/auth_context.py: who is let in.
use imghost.Prelude.{
  ◌≡◌, ◌⊎◌, inl, inr, refl, sym, ap, ◌∙◌, String, Bool, true, false, not, ◌&&◌, Option, none, some,
  Bool-cases, str_eq,
}
use mathlib.Core.Path.{subst}
use imghost.Http.{Exception, Result, ok, raise, Result-cases, Exec, ◌>>=◌, ◌>>◌, pure, throw, gets}
use imghost.Http.Rules.{
  Ensures, Ensures-bind, Ensures-gets, Ensures-if, Ensures-of_state, of_Ensures-ok, bind-ok,
  bind-raise,
}
use imghost.Models.{User, ApiKey}
use imghost.Users.{Tables, get_user, get_api_key_by_hash, update_api_key}
use imghost.Users.Rows.{get_user-id}
use imghost.AuthRateLimits.{
  InMemoryAuthRateLimiter, record_api_key_success, enforce_api_key_attempt, enforce_admin_attempt,
}
use imghost.Auth.{
  Request, ResolvedPrincipal, Gate, Setting, partition_space, admin_required, limit, query,
  admit_key, admit_found, ask_session, by_api_key, forget_cookie, nobody, no_session, admit_session,
  admit_answer, by_session, authenticated_principal, user_of, authenticated_user, counting_denials,
  deny, check_admin, require_admin_user, is_unavailable, is_denial,
}

module _ {Store : Type 0} (env : Setting Store) (request : Request) (g : Gate Store) where
  -- The user is there, and not suspended, and the request holds the user's API key, or the token of a
  -- session of the user.
  abbrev pub Proved : User → Type 0
  Proved u =
      (get_user g.tables u.id ≡ some u)
      × (u.suspended ≡ false)
      × (((key : ApiKey) × (get_api_key_by_hash g.tables
                (env.sha256 (partition_space request.authorization).1)
              ≡ some key)
            × (key.user_id ≡ u.id))
          ⊎ ((token : String) × (request.session_cookie ≡ some token)
              × ((env.resolve_user token g.sessions).0 ≡ ok (some u.id))))

  abbrev MaybeProved : Option ResolvedPrincipal → Type 0
  MaybeProved none = Unit
  MaybeProved (some p) = Proved p.user

  -- Nothing is said where an exception is raised.
  abbrev Any : Exception → Gate Store → Type 0
  Any e g' = Unit

  found_user :
      (t : Tables) (user_id : String) (u : User)
      → t ≡ g.tables
      → get_user t user_id ≡ some u
      → (get_user g.tables u.id ≡ some u) × (user_id ≡ u.id)
  found_user t user_id u same h =
      let is_id = sym (get_user-id t user_id h) in
      (
        subst (λ id. get_user g.tables id ≡ some u) is_id
            (subst (λ s. get_user s user_id ≡ some u) same h),
        is_id,
      )

  limit-post :
      (f : Exec InMemoryAuthRateLimiter (Unit {0})) (g' : Gate Store)
      → g'.tables ≡ g.tables
      → Ensures (λ _ g''. g''.tables ≡ g.tables) Any (limit env f g')
  limit-post f g' same = made (f g'.limiter)
    where
      made :
          (r : Result (Unit {0}) × InMemoryAuthRateLimiter)
          → Ensures {A = Unit {0}}
              (λ _ (g'' : Gate Store). g''.tables ≡ g.tables)
              Any
              (r.0, record g' { limiter = r.1 })
      made (ok a, l) = same
      made (raise e, l) = tt

  admit_key-post :
      (key : ApiKey) (o : Option User) (g' : Gate Store)
      → g'.tables ≡ g.tables
      → get_api_key_by_hash g.tables (env.sha256 (partition_space request.authorization).1)
        ≡ some key
      → get_user g'.tables key.user_id ≡ o
      → Ensures
          (λ p _. Proved p.user)
          Any
          (admit_key env (partition_space request.authorization).1 key o g')
  unfolding ◌>>=◌
  admit_key-post key none g' same held found = tt
  admit_key-post key (some u) g' same held found =
      let (there, is_id) = found_user g'.tables key.user_id u same found in
      Ensures-if (λ p _. Proved p.user) Any u.suspended _ _ g' (λ s. tt)
        (λ s.
          Ensures-bind (λ _ _. Unit) Any (λ p _. Proved p.user)
            (query env (λ t. update_api_key t (record key { last_used_at = some env.now })))
            (λ _.
              pure
                (record { user = u; raw_api_key = some (partition_space request.authorization).1 }))
            (record g' { limiter = record_api_key_success env.ip_key g'.limiter })
            (Ensures-of_state (λ _. Unit) _ tt) (λ a t d. (there, s, inl (key, held, is_id))))

  keyed :
      (g' : Gate Store)
      → g'.tables ≡ g.tables
      → (o : Option ApiKey)
      → get_api_key_by_hash g'.tables (env.sha256 (partition_space request.authorization).1) ≡ o
      → Ensures {A = ResolvedPrincipal}
          (λ p (_ : Gate Store). Proved p.user)
          Any
          (admit_found env (partition_space request.authorization).1 o g')
  unfolding ◌>>=◌
  keyed g' same none held = tt
  keyed g' same (some key) held =
      Ensures-gets Any (λ p _. Proved p.user) (λ x. get_user x.tables key.user_id)
        (admit_key env (partition_space request.authorization).1 key) g'
        (admit_key-post key (get_user g'.tables key.user_id) g' same
          (subst
            (λ t.
              get_api_key_by_hash t (env.sha256 (partition_space request.authorization).1)
              ≡ some key)
            same held)
          refl)

  by_api_key-post :
      Ensures
        (λ p _. Proved p.user)
        Any
        (by_api_key env (partition_space request.authorization).1 g)
  unfolding by_api_key
  by_api_key-post =
      Ensures-bind (λ _ g'. g'.tables ≡ g.tables) Any (λ p _. Proved p.user) _ _ g
        (limit-post (enforce_api_key_attempt env.clock env.ip_key) g refl)
        (λ _ g' same. Ensures-gets _ _ _ _ g' (
          keyed g' same
            (get_api_key_by_hash g'.tables (env.sha256 (partition_space request.authorization).1))
            refl))

  nobody-post :
      (required : Bool) (g' : Gate Store)
      → Ensures (λ o _. MaybeProved o) Any (nobody env required g')
  unfolding ◌>>=◌
  nobody-post true g' = tt
  nobody-post false g' = tt

  no_session-post :
      (required : Bool) (g' : Gate Store)
      → Ensures (λ o _. MaybeProved o) Any (no_session env required g')
  unfolding ◌>>=◌
  no_session-post true g' = tt
  no_session-post false g' = tt

  forgetting-post :
      (m : Exec (Gate Store) (Option ResolvedPrincipal)) (g' : Gate Store)
      → ((g'' : Gate Store) → Ensures (λ o _. MaybeProved o) Any (m g''))
      → Ensures (λ o _. MaybeProved o) Any ((forget_cookie env >> m) g')
  unfolding ◌>>=◌
  forgetting-post m g' h = h (record g' { clear_session_cookie = true })

  module _ (token : String) (sent : request.session_cookie ≡ some token) where
    admit_session-post :
        (required : Bool) (user_id : String) (o : Option User) (g' : Gate Store)
        → g'.tables ≡ g.tables
        → (env.resolve_user token g.sessions).0 ≡ ok (some user_id)
        → get_user g'.tables user_id ≡ o
        → Ensures (λ o _. MaybeProved o) Any (admit_session env required o g')
    admit_session-post required user_id none g' same answered found =
        forgetting-post (no_session env required) g' (no_session-post required)
    admit_session-post required user_id (some u) g' same answered found =
        let (there, is_id) = found_user g'.tables user_id u same found in
        Ensures-if (λ o _. MaybeProved o) Any u.suspended _ _ g' (λ s. tt)
          (λ s. (
            there,
            s,
            inr (
              token,
              sent,
              subst (λ id. (env.resolve_user token g.sessions).0 ≡ ok (some id)) is_id answered,
            ),
          ))

    admit_answer-post :
        (required : Bool) (r : Result (Option String)) (g' : Gate Store)
        → g'.tables ≡ g.tables
        → (env.resolve_user token g.sessions).0 ≡ r
        → Ensures (λ o _. MaybeProved o) Any (admit_answer env required r g')
    unfolding ◌>>=◌
    admit_answer-post required (raise e) g' same answered =
        Ensures-if (λ o _. MaybeProved o) Any (is_unavailable e) (no_session env required) (throw e)
          g' (λ _. no_session-post required g') (λ _. tt)
    admit_answer-post required (ok none) g' same answered =
        forgetting-post (nobody env required) g' (nobody-post required)
    admit_answer-post required (ok (some user_id)) g' same answered =
        Ensures-if (λ o _. MaybeProved o) Any (str_eq user_id "")
          (forget_cookie env >> nobody env required)
          (gets (λ g. get_user g.tables user_id) >>= admit_session env required) g'
          (λ _. forgetting-post (nobody env required) g' (nobody-post required))
          (λ _.
            admit_session-post required user_id (get_user g'.tables user_id) g' same answered refl)

  by_session-post :
      (required : Bool) (cookie : Option String)
      → request.session_cookie ≡ cookie
      → Ensures (λ o _. MaybeProved o) Any (by_session env required cookie g)
  unfolding by_session
  by_session-post required none sent = nobody-post required g
  by_session-post required (some token) sent =
      Ensures-if (λ o _. MaybeProved o) Any (str_eq token "") (nobody env required)
        (ask_session env required token) g (λ _. nobody-post required g)
        (λ _.
          admit_answer-post token sent required (env.resolve_user token g.sessions).0
            (record g { sessions = (env.resolve_user token g.sessions).1 }) refl refl)

  authenticated_principal-post :
      (required : Bool)
      → Ensures (λ o _. MaybeProved o) Any (authenticated_principal env required request g)
  unfolding authenticated_principal
  authenticated_principal-post required =
      Ensures-if (λ o _. MaybeProved o) Any
        (str_eq (env.lower (partition_space request.authorization).0) "bearer"
          && not (str_eq (partition_space request.authorization).1 ""))
        (by_api_key env (partition_space request.authorization).1
          >>= (λ principal. pure (some principal)))
        (by_session env required request.session_cookie) g
        (λ _.
          Ensures-bind (λ p _. Proved p.user) Any (λ o _. MaybeProved o) _ _ g by_api_key-post
            (λ p g' h. h))
        (λ _. by_session-post required request.session_cookie refl)

  MaybeUser : Option User → Type 0
  MaybeUser none = Unit
  MaybeUser (some u) = Proved u

  authenticated_user-post :
      (required : Bool)
      → Ensures (λ o _. MaybeUser o) Any (authenticated_user env required request g)
  unfolding authenticated_user MaybeUser
  authenticated_user-post required =
      Ensures-bind (λ o _. MaybeProved o) Any (λ o _. MaybeUser o)
        (authenticated_principal env required request) (λ principal. pure (user_of env principal)) g
        (authenticated_principal-post required) told
    where
      told :
          (o : Option ResolvedPrincipal) (g' : Gate Store)
          → MaybeProved o
          → MaybeUser (user_of env o)
      told none g' h = tt
      told (some p) g' h = h

  counted :
      (r : Result (Option User) × Gate Store)
      → Ensures (λ o _. MaybeUser o) Any r
      → Ensures (λ o _. MaybeUser o) Any (counting_denials env r)
  counted (ok a, g') h = h
  counted (raise e, g') h = elim (Bool-cases (is_denial e)) [ inl d ↦ rw d tt | inr d ↦ rw d tt ]

  check_admin-post :
      (o : Option User) (g' : Gate Store)
      → MaybeUser o
      → Ensures (λ u _. Proved u × (u.is_admin ≡ true)) Any (check_admin env o g')
  unfolding ◌>>=◌ MaybeUser
  check_admin-post none g' h = tt
  check_admin-post (some u) g' h =
      Ensures-if (λ u _. Proved u × (u.is_admin ≡ true)) Any u.is_admin (pure u)
        (deny env admin_required) g' (λ a. (h, a)) (λ _. tt)

-- Whoever is let in as an administrator is one, is not suspended, and the request holds the API key of
-- this user, or the token of a session of this user.
pub require_admin_user-Proved :
    (Store : Type 0) (env : Setting Store) (request : Request) (g : Gate Store) {u : User}
    {g' : Gate Store}
    → require_admin_user env request g ≡ (ok u, g')
    → (u.is_admin ≡ true) × Proved env request g u
unfolding require_admin_user
require_admin_user-Proved Store env request g {u = u} {g' = g'} e =
    elim (Result-cases (limit env attempt g).0) [
      | inr (x, r) ↦
          let raised : require_admin_user env request g ≡ (raise x, passed) =
            bind-raise (limit env attempt) asked g (ap (λ a. (a, passed)) r) in
          absurd (cc (raised, e))
      | inl (t, r) ↦
          let entered : asked t passed ≡ (ok u, g') =
            sym (bind-ok (limit env attempt) asked g (ap (λ a. (a, passed)) r)) ∙ e in
          let admitted =
            of_Ensures-ok (λ v _. Proved env request passed v × (v.is_admin ≡ true)) (λ _ _. Unit)
              (asked t passed)
              (Ensures-bind (λ o _. MaybeUser env request passed o) (λ _ _. Unit)
                (λ v _. Proved env request passed v × (v.is_admin ≡ true))
                (λ g. counting_denials env (authenticated_user env true request g))
                (check_admin env) passed
                (counted env request passed (authenticated_user env true request passed)
                  (authenticated_user-post env request passed true))
                (λ o h m. check_admin-post env request passed o h m))
              entered in
          (admitted.1, admitted.0)
    ]
  where
    attempt : Exec InMemoryAuthRateLimiter (Unit {0})
    attempt = enforce_admin_attempt env.clock env.ip_key

    passed : Gate Store
    passed = (limit env attempt g).1

    asked : Unit {0} → Exec (Gate Store) User
    asked _ =
        (λ g. counting_denials env (authenticated_user env true request g)) >>= check_admin env
