-- ===== src/Examples/Sessions.antt =====
-- Sessions over a store of one key.
use Prim.Native.String.{[], ◌∷◌}
use imghost.Prelude.{◌≡◌, refl, ap, ◌∙◌, suc, String, false, Option, none, some, arith}
use imghost.Tokens.{text}
use imghost.Http.{ok}
use imghost.Sessions.{
  Settings, Outside, SessionPayload, Fields, Redis, expires_after, sign_payload, new_payload,
}
use imghost.Sessions.RedisBacked.{create_session, resolve_user, clear_session}
use imghost.Sessions.Live.{Faithful, fields_of, json_of}
use imghost.Sessions.Ends.{clear_session-ends}
use imghost.Examples.Codec.{strokes, further_strokes, strokes_in-strokes}
use imghost.Examples.Letters.{
  signing, signing-Sound, put, take, take-put, put_option, take_option, take_option-put_option,
}
use imghost.Tokens.Signed.{cons_full}
use imghost.Examples.Data.{owner}

abbrev texts : SessionPayload → String
texts p =
    put p.session_id (put p.user_id (put p.created_at (put_option p.expires_at (put p.store ""))))

abbrev with_store :
    (session_id user_id created_at : String) (expires_at : Option String)
    → String × String
    → Option (Option Fields)
with_store session_id user_id created_at expires_at (store, _) = some (
    some (record {
      session_id = text session_id;
      user_id = text user_id;
      created_at = text created_at;
      expires_at = json_of expires_at;
      store = text store;
    }))

abbrev with_expiry :
    (session_id user_id created_at : String) → Option String × String → Option (Option Fields)
with_expiry session_id user_id created_at (expires_at, s) =
    with_store session_id user_id created_at expires_at (take s)

abbrev with_time : (session_id user_id : String) → String × String → Option (Option Fields)
with_time session_id user_id (created_at, s) =
    with_expiry session_id user_id created_at (take_option s)

abbrev with_user : (session_id : String) → String × String → Option (Option Fields)
with_user session_id (user_id, s) = with_time session_id user_id (take s)

abbrev with_id : String × String → Option (Option Fields)
with_id (session_id, s) = with_user session_id (take s)

abbrev loads : String → Option (Option Fields)
loads [] = none
loads (c ∷ s) = with_id (take s)

abbrev outside : Outside
outside = record {
  signing = signing;
  dumps = λ p. "{" ∷ texts p;
  loads = loads;
  dumps_user = λ user_id. user_id;
  loads_user = λ s. some (some (text s));
  isoformat = λ t. strokes (suc t);
  fromisoformat = λ s. some (further_strokes s);
}

abbrev settings : Settings
settings = record { secret_key = "k"; session_remember_days = 1; session_redis_fail_closed = false }

reads : (p : SessionPayload) → with_id (take (texts p)) ≡ some (some (fields_of p))
reads p =
    ap with_id (
      take-put p.session_id
        (put p.user_id (put p.created_at (put_option p.expires_at (put p.store "")))))
    ∙ ap (with_user p.session_id)
        (take-put p.user_id (put p.created_at (put_option p.expires_at (put p.store ""))))
    ∙ ap (with_time p.session_id p.user_id)
        (take-put p.created_at (put_option p.expires_at (put p.store "")))
    ∙ ap (with_expiry p.session_id p.user_id p.created_at)
        (take_option-put_option p.expires_at (put p.store ""))
    ∙ ap (with_store p.session_id p.user_id p.created_at p.expires_at) (take-put p.store "")

faithful : Faithful outside settings
faithful = record {
  signs = λ p. signing-Sound "k" "{" (texts p);
  reads = reads;
  reads_user = λ user_id. refl;
  reads_time = λ t h. ap (λ n. some n) (strokes_in-strokes t);
  writes_time = λ t h. cons_full "x" (strokes t);
}

-- One key with its value, or none.
abbrev redis : Redis (Option String)
redis = record {
  set = λ key value ex now s. (some tt, some value);
  get = λ key now s. (some s, s);
  delete = λ key now s. (some tt, none);
}

abbrev token : String
token =
    sign_payload outside settings (new_payload outside settings 7 "s1" "u1" false "cookie") "redis"

makes :
    create_session outside redis "imghost" settings 7 "s1" owner false none
    ≡ (ok (token, expires_after settings false 7), some "u1")
unfolding create_session
makes = refl

clear_session-ends_example :
    (resolve_user outside redis "imghost" settings 9 token
      (clear_session outside redis "imghost" settings 8 (some token) (some "u1")).1).0
    ≡ ok none
clear_session-ends_example =
    clear_session-ends outside redis "imghost" settings faithful "s1" owner refl refl 7 false
      (omega arith) tt 8 9 none (some "u1") (omega arith) (omega arith) refl makes refl refl
