-- ===== src/Examples/Auth.antt =====
-- An administrator with an API key.
use imghost.Prelude.{◌≡◌, refl, String, true, false, none, [], ◌∷◌}
use imghost.Http.{ok, ◌>>=◌}
use imghost.Models.{User, ApiKey}
use imghost.AuthRateLimits.{new_limiter}
use imghost.Auth.{Request, Gate, Setting, require_admin_user}
use imghost.Auth.Admission.{Proved, require_admin_user-Proved}
use imghost.Examples.Data.{owner}
use imghost.Examples.Accounts.{tables}
use imghost.Examples.AuthRateLimits.{limits}

abbrev admin : User
admin = record owner { is_admin = true }

abbrev key : ApiKey
key = record { id = "k1"; user_id = "u1"; key_hash = "secret"; created_at = 0; last_used_at = none }

abbrev env : Setting String
env = record {
  lower = λ s. s;
  sha256 = λ s. s;
  resolve_user = λ token s. (ok none, s);
  limits = limits;
  clock = 1;
  now = 5;
  ip_key = "ip";
}

abbrev gate : Gate String
gate = record {
  tables = record tables { users = admin ∷ []; api_keys = key ∷ [] };
  limiter = new_limiter;
  sessions = "";
  clear_session_cookie = false;
}

abbrev request : Request
request = record { authorization = "bearer secret"; session_cookie = none }

abbrev left : Gate String
left = (require_admin_user env request gate).1

admits : require_admin_user env request gate ≡ (ok admin, left)
unfolding require_admin_user ◌>>=◌
admits = refl

require_admin_user-Proved_example : (admin.is_admin ≡ true) × Proved env request gate admin
require_admin_user-Proved_example = require_admin_user-Proved String env request gate admits
