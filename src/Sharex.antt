-- ===== src/Sharex.antt =====
-- src/imghost/sharex_delete.py, the capabilities of src/imghost/repository_media.py, and the handlers
-- of src/imghost/web/pages.py that delete an album by the URL that ShareX was given. Times are
-- microseconds.
pub mod Tokens
pub mod Pages
pub mod Once
pub mod Confirmations
pub mod Submit
use imghost.Prelude.{
  ℕ, ◌+◌, ◌*◌, String, Bool, true, false, not, Option, none, some, List, [], ◌∷◌, ◌++◌, ◌&&◌, ◌||◌,
  map, keep, find, leb, length, str_eq, if◌then◌else◌,
}
use imghost.Http.{Result, ok, raise, other}
use imghost.Models.{ShareXDeleteCapability}
use imghost.Repository.{get_album}
use imghost.Users.{Tables, get_user}
use imghost.Accounts.{is_there}

abbrev pub has_selector : String → ShareXDeleteCapability → Bool
has_selector selector c = str_eq c.selector selector

unfoldable pub get_sharex_delete_capability : Tables → String → Option ShareXDeleteCapability
unfolding find
get_sharex_delete_capability t selector = find (has_selector selector) t.sharex_delete_capabilities

-- The primary key and the two foreign keys.
unfoldable pub create_sharex_delete_capability :
    Tables → ShareXDeleteCapability → Result ShareXDeleteCapability × Tables
unfolding get_sharex_delete_capability get_user
create_sharex_delete_capability t capability =
    if is_there (get_sharex_delete_capability t capability.selector)
    then (raise (other "unique_violation"), t)
    else if not (
        is_there (get_album t.library capability.album_id)
        && is_there (get_user t capability.user_id))
    then (raise (other "foreign_key_violation"), t)
    else (
      ok capability,
      record t { sharex_delete_capabilities = t.sharex_delete_capabilities ++ capability ∷ [] },
    )

abbrev pub set_capabilities : (ShareXDeleteCapability → ShareXDeleteCapability) → Tables → Tables
set_capabilities f t = record t { sharex_delete_capabilities = map f t.sharex_delete_capabilities }

abbrev pub seen : ℕ → String → ShareXDeleteCapability → ShareXDeleteCapability
seen now selector c = if has_selector selector c then record c { last_seen_at = some now } else c

unfoldable pub touch_sharex_delete_capability : ℕ → String → Tables → Tables
touch_sharex_delete_capability now selector t = set_capabilities (seen now selector) t

-- The WHERE of the update that consumes.
abbrev pub is_consumable : ℕ → (selector album_id : String) → ShareXDeleteCapability → Bool
is_consumable now selector album_id c =
    has_selector selector c
    && str_eq c.album_id album_id
    && not (is_there c.revoked_at)
    && not (is_there c.consumed_at)
    && not (leb c.expires_at now)

abbrev pub consumed : ℕ → ShareXDeleteCapability → ShareXDeleteCapability
consumed now c = record c { consumed_at = some now; last_seen_at = some now }

abbrev pub consume_row :
    ℕ → (selector album_id : String) → ShareXDeleteCapability → ShareXDeleteCapability
consume_row now selector album_id c =
    if is_consumable now selector album_id c then consumed now c else c

abbrev pub option_map :
    (ShareXDeleteCapability → ShareXDeleteCapability)
    → Option ShareXDeleteCapability
    → Option ShareXDeleteCapability
option_map f none = none
option_map f (some c) = some (f c)

unfoldable pub consume_sharex_delete_capability :
    ℕ → (selector album_id : String) → Tables → Option ShareXDeleteCapability × Tables
unfolding find
consume_sharex_delete_capability now selector album_id t = (
  option_map (consumed now)
      (find (is_consumable now selector album_id) t.sharex_delete_capabilities),
  set_capabilities (consume_row now selector album_id) t,
)

-- COALESCE(revoked_at, now()) of a row without `revoked_at`
unfoldable pub revoke_sharex_delete_capabilities_for_album : ℕ → String → Tables → Tables
revoke_sharex_delete_capabilities_for_album now album_id t =
    set_capabilities
      (λ c.
        if str_eq c.album_id album_id && not (is_there c.consumed_at) && not (is_there c.revoked_at)
        then record c { revoked_at = some now; last_seen_at = some now }
        else c)
      t

unfoldable pub delete_expired_sharex_delete_capabilities : ℕ → Tables → ℕ × Tables
unfolding keep
delete_expired_sharex_delete_capabilities now t = (
  length (keep (λ c. leb c.expires_at now) t.sharex_delete_capabilities),
  record t {
    sharex_delete_capabilities =
        keep (λ c. not (leb c.expires_at now)) t.sharex_delete_capabilities;
  },
)

-- `at IS NOT NULL AND at <= cutoff`
abbrev pub is_by : ℕ → Option ℕ → Bool
is_by cutoff none = false
is_by cutoff (some at) = leb at cutoff

unfoldable pub delete_consumed_sharex_delete_capabilities_older_than : ℕ → Tables → ℕ × Tables
unfolding keep
delete_consumed_sharex_delete_capabilities_older_than cutoff t = (
  length (keep (λ c. is_by cutoff c.consumed_at) t.sharex_delete_capabilities),
  record t {
    sharex_delete_capabilities =
        keep (λ c. not (is_by cutoff c.consumed_at)) t.sharex_delete_capabilities;
  },
)

unfoldable pub delete_revoked_sharex_delete_capabilities_older_than : ℕ → Tables → ℕ × Tables
unfolding keep
delete_revoked_sharex_delete_capabilities_older_than cutoff t = (
  length (keep (λ c. is_by cutoff c.revoked_at) t.sharex_delete_capabilities),
  record t {
    sharex_delete_capabilities =
        keep (λ c. not (is_by cutoff c.revoked_at)) t.sharex_delete_capabilities;
  },
)
