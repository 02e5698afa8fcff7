-- ===== src/AuthRateLimits/Locks.antt =====
-- auth_rate_limits.py: the keys of the one dict of locks, and what a success leaves of a lock.
use text.Mathlib.TextLemmas.{append_cancel_left, cons-append}
use imghost.Prelude.{
  ℕ, ◌≡◌, ◌≢◌, refl, sym, ap, ◌∙◌, String, Bool, true, false, Option, none, some, [], arith,
}
use imghost.Prelude.Dict.{update_same, update_other}
use imghost.Text.{initial, second}
use imghost.AuthRateLimits.{
  AuthLimits, lock_if, InMemoryAuthRateLimiter, record_login_failure, record_login_success,
  record_api_key_failure, record_admin_denial, login_lock, api_key_lock, admin_lock,
}

-- Whom a lock is for.
pub data Subject : Type 0 where
  account api_key_address admin_address : String → Subject

unfoldable pub lock_key : Subject → String
lock_key (account login_key) = login_lock login_key
lock_key (api_key_address ip_key) = api_key_lock ip_key
lock_key (admin_address ip_key) = admin_lock ip_key

login_initial : (k : String) → initial (login_lock k) ≡ 108
unfolding initial
login_initial k = ap initial (cons-append "l" "ogin:account:" k)

api_key_initial : (k : String) → initial (api_key_lock k) ≡ 97
unfolding initial
api_key_initial k = ap initial (cons-append "a" "pi_key:ip:" k)

admin_initial : (k : String) → initial (admin_lock k) ≡ 97
unfolding initial
admin_initial k = ap initial (cons-append "a" "dmin:ip:" k)

api_key_second : (k : String) → second (api_key_lock k) ≡ 112
unfolding second initial
api_key_second k =
    ap second (cons-append "a" "pi_key:ip:" k) ∙ ap initial (cons-append "p" "i_key:ip:" k)

admin_second : (k : String) → second (admin_lock k) ≡ 100
unfolding second initial
admin_second k = ap second (cons-append "a" "dmin:ip:" k) ∙ ap initial (cons-append "d" "min:ip:" k)

apart_by : (f : String → ℕ) (s t : String) → f s ≢ f t → s ≢ t
apart_by f s t h e = h (ap f e)

-- The three kinds of locks share one dict, and no two subjects share a key of it.
pub lock_key-injective : (t u : Subject) → lock_key t ≡ lock_key u → t ≡ u
unfolding lock_key
lock_key-injective (account a) (account b) e = ap account (append_cancel_left _ a b e)
lock_key-injective (api_key_address a) (api_key_address b) e =
    ap api_key_address (append_cancel_left _ a b e)
lock_key-injective (admin_address a) (admin_address b) e =
    ap admin_address (append_cancel_left _ a b e)
lock_key-injective (account a) (api_key_address b) e =
    absurd (omega (arith, login_initial a, api_key_initial b, ap initial e))
lock_key-injective (account a) (admin_address b) e =
    absurd (omega (arith, login_initial a, admin_initial b, ap initial e))
lock_key-injective (api_key_address a) (account b) e =
    absurd (omega (arith, api_key_initial a, login_initial b, ap initial e))
lock_key-injective (api_key_address a) (admin_address b) e =
    absurd (omega (arith, api_key_second a, admin_second b, ap second e))
lock_key-injective (admin_address a) (account b) e =
    absurd (omega (arith, admin_initial a, login_initial b, ap initial e))
lock_key-injective (admin_address a) (api_key_address b) e =
    absurd (omega (arith, admin_second a, api_key_second b, ap second e))

unfoldable pub record_failure :
    AuthLimits → ℕ → Subject → InMemoryAuthRateLimiter → InMemoryAuthRateLimiter
unfolding record_login_failure record_api_key_failure record_admin_denial
record_failure limits now (account login_key) s = record_login_failure limits now login_key s
record_failure limits now (api_key_address ip_key) s = record_api_key_failure limits now ip_key s
record_failure limits now (admin_address ip_key) s = record_admin_denial limits now ip_key s

lock_if_other :
    (reached : Bool) (k j : String) (until : ℕ) (locks : String → Option ℕ)
    → k ≢ j
    → lock_if reached k until locks j ≡ locks j
lock_if_other true k j until locks h = update_other locks k (some until) j h
lock_if_other false k j until locks h = refl

-- A failed login, a failed API key or a denied administrator locks nobody but the account or the
-- address that it is recorded for.
pub record_failure-locks_only :
    (limits : AuthLimits) (now : ℕ) (t u : Subject) (s : InMemoryAuthRateLimiter)
    → t ≢ u
    → (record_failure limits now t s).locks (lock_key u) ≡ s.locks (lock_key u)
unfolding record_failure record_login_failure record_api_key_failure record_admin_denial lock_key
record_failure-locks_only limits now (account k) u s h =
    lock_if_other _ (login_lock k) (lock_key u) _ s.locks
      (λ e. h (lock_key-injective (account k) u e))
record_failure-locks_only limits now (api_key_address k) u s h =
    lock_if_other _ (api_key_lock k) (lock_key u) _ s.locks
      (λ e. h (lock_key-injective (api_key_address k) u e))
record_failure-locks_only limits now (admin_address k) u s h =
    lock_if_other _ (admin_lock k) (lock_key u) _ s.locks
      (λ e. h (lock_key-injective (admin_address k) u e))

-- What `record_login_success` leaves: the account is not locked, its failures are forgotten, and
-- every other lock stays.
pub success-unlocks :
    (login_key : String) (u : Subject) (s : InMemoryAuthRateLimiter)
    → u ≢ account login_key
    → ((record_login_success login_key s).locks (lock_key (account login_key)) ≡ none)
      × ((record_login_success login_key s).login_failures login_key ≡ [])
      × ((record_login_success login_key s).locks (lock_key u) ≡ s.locks (lock_key u))
unfolding record_login_success lock_key
success-unlocks login_key u s h = (
  update_same s.locks (login_lock login_key) none,
  update_same s.login_failures login_key [],
  update_other s.locks (login_lock login_key) none (lock_key u)
      (λ e. h (sym (lock_key-injective (account login_key) u e))),
)
