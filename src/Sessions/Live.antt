-- ===== src/Sessions/Live.antt =====
-- src/imghost/sessions.py: the tokens of sessions that are not over, and what the packages that
-- they rest on are documented to give.
use imghost.Prelude.{
  ℕ, ◌≡◌, ◌≤◌, arith, refl, ap, ◌*◌, ◌/◌, String, Bool, true, false, Option, none, some, leb,
  str_eq,
}
use imghost.Tokens.{Json, null, text, second}
use imghost.Http.{ok}
use imghost.Tokens.Signed.{Sound, unsign-sign}
use imghost.Sessions.{
  Settings, Outside, SessionPayload, Fields, sign_payload, expires_after, new_payload, iso,
  is_unexpired, full_text, or_cookie, text_of, checked_payload, read_fields, read_payload,
  decode_signed_token,
}

abbrev pub json_of : Option String → Json
json_of none = null
json_of (some s) = text s

abbrev pub fields_of : SessionPayload → Fields
fields_of p = record {
  session_id = text p.session_id;
  user_id = text p.user_id;
  created_at = text p.created_at;
  expires_at = json_of p.expires_at;
  store = text p.store;
}

-- `datetime.max`, in microseconds from 1970.
abbrev pub latest : ℕ
latest = 253402300799999999

-- A time that a token may have is one that `datetime` can hold.
abbrev pub InRange : Option ℕ → Type 0
InRange none = Unit {0}
InRange (some t) = t ≤ latest

-- What the json and datetime modules, and the signing of what json wrote, are documented to give:
-- what was written is read back.
pub record Faithful (o : Outside) (settings : Settings) : Type 0 where
  pub signs : (p : SessionPayload) → Sound o.signing settings.secret_key (o.dumps p)
  pub reads : (p : SessionPayload) → o.loads (o.dumps p) ≡ some (some (fields_of p))
  pub reads_user :
      (user_id : String) → o.loads_user (o.dumps_user user_id) ≡ some (some (text user_id))
  pub reads_time : (t : ℕ) → t ≤ latest → o.fromisoformat (o.isoformat t) ≡ some t
  pub writes_time : (t : ℕ) → t ≤ latest → str_eq (o.isoformat t) "" ≡ false

-- Whether a token that expires then is over.
abbrev pub is_over : ℕ → Option ℕ → Bool
is_over now none = false
is_over now (some expires_at) = leb expires_at now

module _ (o : Outside) (settings : Settings) (faithful : Faithful o settings) where
  current_time :
      (later : ℕ) (e : Option ℕ)
      → InRange e
      → is_over later e ≡ false
      → is_unexpired o later (json_of (iso o e)) ≡ ok true
  unfolding is_unexpired
  current_time later none ranged h = refl
  current_time later (some t) ranged h =
      rw (faithful.writes_time t ranged) (rw (faithful.reads_time t ranged) (rw h refl))

  text_of-json_of : (s : Option String) → text_of (json_of s) ≡ s
  text_of-json_of none = refl
  text_of-json_of (some s) = refl

  checked-fields :
      (p : SessionPayload)
      → str_eq p.session_id "" ≡ false
      → str_eq p.user_id "" ≡ false
      → str_eq p.created_at "" ≡ false
      → str_eq p.store "" ≡ false
      → checked_payload (fields_of p) ≡ some p
  checked-fields p a b c d =
      rw (a, checked_payload)
        (rw b (
          rw c (
            rw (stored p.store d) (
              ap (λ (e : Option String). some (record p { expires_at = e }))
                (text_of-json_of p.expires_at)))))
    where
      stored : (s : String) → str_eq s "" ≡ false → full_text (or_cookie (text s)) ≡ some s
      stored s h = rw h (rw h refl)

  -- A fresh token is read back until it expires.
  pub decode-signed :
      (now later : ℕ) (session_id user_id store store' : String) (remember_me : Bool)
      → str_eq session_id "" ≡ false
      → str_eq user_id "" ≡ false
      → str_eq store "" ≡ false
      → now ≤ latest
      → InRange (expires_after settings remember_me now)
      → is_over later (expires_after settings remember_me now) ≡ false
      → decode_signed_token o settings later (
          sign_payload o settings
            (new_payload o settings now session_id user_id remember_me store')
            store)
        ≡ ok (some (new_payload o settings now session_id user_id remember_me store))
  unfolding decode_signed_token read_payload read_fields
  decode-signed now later session_id user_id store store' remember_me a b c dated ranged alive =
      let p = new_payload o settings now session_id user_id remember_me store in
      simp
        (
          unsign-sign o.signing settings.secret_key (o.dumps p) (faithful.signs p),
          decode_signed_token,
        )
        (simp (faithful.reads p, read_payload)
          (simp
            (current_time later (expires_after settings remember_me now) ranged alive, read_fields)
            (ap ok (
              checked-fields p a b
                (faithful.writes_time (now / second * second) (omega (arith, dated))) c))))
