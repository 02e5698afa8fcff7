-- ===== src/Sessions/Cookie.antt =====
-- src/imghost/sessions.py, `CookieSessionBackend`: a session is its token. `clear_session` does nothing.
use imghost.Prelude.{ℕ, String, Bool, Option, none, some}
use imghost.Http.{Result, ok, raise}
use imghost.Models.{User}
use imghost.Sessions.{Settings, Outside, SessionPayload, create_signed_token, decode_signed_token}

unfoldable pub create_session :
    Outside → Settings → ℕ → (session_id : String) → User → (remember_me : Bool) → String × Option ℕ
unfolding create_signed_token
create_session o settings now session_id user remember_me =
    create_signed_token o settings now session_id user remember_me "cookie"

-- `payload.user_id if payload else None`
abbrev pub id_of_payload : Result (Option SessionPayload) → Result (Option String)
id_of_payload (raise e) = raise e
id_of_payload (ok none) = ok none
id_of_payload (ok (some payload)) = ok (some payload.user_id)

unfoldable pub resolve_user : Outside → Settings → ℕ → (token : String) → Result (Option String)
unfolding decode_signed_token
resolve_user o settings now token = id_of_payload (decode_signed_token o settings now token)
