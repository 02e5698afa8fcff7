-- ===== src/Sessions/Ends.antt =====
-- src/imghost/sessions.py, `RedisBackedSessionBackend`: sessions from their creation to their end.
use Prim.Native.Nat.{◌≤◌}
use imghost.Prelude.{
  ℕ, ◌≡◌, ◌⊎◌, inl, inr, refl, sym, ap, ◌∙◌, String, Bool, true, false, Option, none, some, str_eq,
  arith, Bool-cases, Option-cases,
}
use mathlib.Core.Path.{subst}
use imghost.Http.{Result, ok, raise}
use imghost.Models.{User}
use imghost.Sessions.{
  Settings, Outside, SessionPayload, Redis, sign_payload, session_backend_unavailable,
  session_ttl_seconds, expires_after, new_payload, create_signed_token,
}
use imghost.Sessions.RedisBacked.{
  session_key, create_session, resolve_user, clear_session, resolve_payload, clear_payload,
  give_token, write, answer_user,
}
use imghost.Tokens.Signed.{sign_full}
use imghost.Sessions.Live.{Faithful, latest, InRange, is_over, decode-signed}

is_over_before :
    (now later : ℕ) (e : Option ℕ) → now ≤ later → is_over later e ≡ false → is_over now e ≡ false
is_over_before now later none h k = refl
is_over_before now later (some t) h k = ground (arith, h, k)

-- What a lookup of a live session of that user gives.
abbrev pub Resolves : Settings → User → Result (Option String) → Type 0
Resolves settings user r =
    (r ≡ ok (some user.id))
    ⊎ ((settings.session_redis_fail_closed ≡ true) × (r ≡ raise session_backend_unavailable))

module _ {Store : Type 0} (o : Outside) (redis : Redis Store) (prefix : String)
    (settings : Settings) (faithful : Faithful o settings) (session_id : String) (user : User)
    (has_id : str_eq session_id "" ≡ false) (has_user : str_eq user.id "" ≡ false) (now : ℕ)
    (remember_me : Bool) (dated : now ≤ latest)
    (ranged : InRange (expires_after settings remember_me now)) where
  abbrev payload : String → SessionPayload
  payload store = new_payload o settings now session_id user.id remember_me store

  abbrev token_for : String → String
  token_for store = sign_payload o settings (payload "cookie") store

  abbrev reply : Store → Option (Unit {0}) × Store
  reply s =
      redis.set (session_key prefix session_id) (o.dumps_user user.id)
        (session_ttl_seconds settings now (expires_after settings remember_me now)) now s

  -- A session is made by writing to Redis, and by what Redis answers.
  create-write :
      (s : Store)
      → is_over now (expires_after settings remember_me now) ≡ false
      → create_session o redis prefix settings now session_id user remember_me s ≡ (
        give_token o redis prefix settings now
            (payload "cookie")
            (token_for "cookie", expires_after settings remember_me now)
            (reply s).0,
        (reply s).1,
      )
  unfolding create_session create_signed_token
  create-write s alive =
      ap
        (λ r.
          write o redis prefix settings now user.id
            (token_for "cookie", expires_after settings remember_me now) r s)
        (decode-signed o settings faithful now now session_id user.id "cookie" "cookie" remember_me
          has_id has_user refl dated ranged alive)

  resolve-token :
      (later : ℕ) (store : String) (s : Store)
      → str_eq store "" ≡ false
      → is_over later (expires_after settings remember_me now) ≡ false
      → resolve_user o redis prefix settings later (token_for store) s
        ≡ resolve_payload o redis prefix settings later (ok (some (payload store))) s
  unfolding resolve_user
  resolve-token later store s full alive =
      ap (λ r. resolve_payload o redis prefix settings later r s)
        (decode-signed o settings faithful now later session_id user.id store "cookie" remember_me
          has_id has_user full dated ranged alive)

  -- The two tokens that may be given out, and when.
  Given : String → Store → Type 0
  Given token s =
      ((token ≡ token_for "redis") × ((reply s).0 ≡ some tt))
      ⊎ ((token ≡ token_for "cookie") × ((reply s).0 ≡ none))

  Given-token :
      (s : Store) {token : String} {expires_at : Option ℕ} {s' : Store}
      → is_over now (expires_after settings remember_me now) ≡ false
      → create_session o redis prefix settings now session_id user remember_me s
        ≡ (ok (token, expires_at), s')
      → Given token s
  unfolding Given
  Given-token s {token = token} {expires_at = expires_at} {s' = s'} alive e =
      elim (Option-cases (reply s).0) [
        | inr (u, r) ↦ inl (cc (simp (r, give_token) at concluded), r)
        | inl r ↦ elim (Bool-cases settings.session_redis_fail_closed) [
          | inl closed ↦ absurd (cc (simp (r, closed, give_token) at concluded))
          | inr fails ↦ inr (cc (simp (r, fails, give_token) at concluded), r)
        ]
      ]
    where
      concluded :
          ◌≡◌ {A = Result (String × Option ℕ) × Store}
            (
              give_token o redis prefix settings now
                  (payload "cookie")
                  (token_for "cookie", expires_after settings remember_me now)
                  (reply s).0,
              (reply s).1,
            )
            (ok (token, expires_at), s')
      concluded = sym (create-write s alive) ∙ e

  -- Let what json wrote be read back, the times that `datetime` can hold too, and let base64 and
  -- the digest be as documented on what json wrote of a payload. Then a session that was written to
  -- Redis, with ids that are not empty, at a time and with an end that `datetime` can hold, is over
  -- once it is cleared: where Redis has deleted the key, the token, which would not have expired
  -- yet, stands for nobody from then on.
  pub clear_session-ends :
      (cleared later : ℕ) (s t : Store) {token : String} {expires_at : Option ℕ} {s' : Store}
      → now ≤ cleared
      → cleared ≤ later
      → is_over later (expires_after settings remember_me now) ≡ false
      → create_session o redis prefix settings now session_id user remember_me s
        ≡ (ok (token, expires_at), s')
      → (reply s).0 ≡ some tt
      → (redis.get
          (session_key prefix session_id)
          later
          (redis.delete (session_key prefix session_id) cleared t).1).0
        ≡ some none
      → (resolve_user o redis prefix settings later token
          (clear_session o redis prefix settings cleared (some token) t).1).0
        ≡ ok none
  unfolding Given clear_session
  clear_session-ends cleared later s t before after alive made written gone =
      elim (Given-token s
        (is_over_before now later (expires_after settings remember_me now)
          (omega (arith, before, after)) alive)
        made) [
          | inr (is_token, unwritten) ↦ absurd (cc (written, unwritten))
          | inl (is_token, _) ↦
              subst
                (λ k.
                  (resolve_user o redis prefix settings later k
                    (clear_session o redis prefix settings cleared (some k) t).1).0
                  ≡ ok none)
                (sym is_token)
                (ap (λ (r : Result (Option String) × Store). r.0)
                    (resolve-token later "redis"
                      (clear_session o redis prefix settings cleared (some (token_for "redis")) t).1
                      refl alive)
                  ∙ subst
                      (λ u.
                        (resolve_payload o redis prefix settings later (ok (some (payload "redis")))
                          u).0
                        ≡ ok none)
                      (sym (
                        clears (
                          is_over_before cleared later (expires_after settings remember_me now)
                            after alive)))
                      (ap (answer_user o redis prefix settings later user.id) gone))
        ]
    where
      clears :
          is_over cleared (expires_after settings remember_me now) ≡ false
          → (clear_session o redis prefix settings cleared (some (token_for "redis")) t).1
            ≡ (redis.delete (session_key prefix session_id) cleared t).1
      clears live = rw (sign_full o.signing settings.secret_key (o.dumps (payload "redis"))) (
          ap (λ r. (clear_payload o redis prefix settings cleared r t).1)
            (decode-signed o settings faithful now cleared session_id user.id "redis" "cookie"
              remember_me has_id has_user refl dated ranged live))
