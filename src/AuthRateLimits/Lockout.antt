-- ===== src/AuthRateLimits/Lockout.antt =====
-- auth_rate_limits.py: when an account is locked, and for how long.
use mathlib.Core.List.{append_assoc, append-nil}
use imghost.Prelude.{
  ℕ, suc, ◌+◌, ◌≤◌, ◌<◌, ◌≡◌, refl, sym, ap, ◌∙◌, String, some, List, [], ◌∷◌, ◌++◌, arith, length,
  length-append, All, All-append, leb, Bool-cases, inl, inr,
}
use imghost.Prelude.Dict.{update_same}
use imghost.Http.{raise}
use imghost.AuthRateLimits.{
  AuthLimits, InMemoryAuthRateLimiter, prune, count_failure, check_lock, enforce_login_attempt,
  record_login_failure, too_many_attempts, login_lock,
}

-- An attempt at `t` is still in the window at `now`, and is not later.
abbrev pub IsRecent : (now window_seconds t : ℕ) → Type 0
IsRecent now window_seconds t = (t ≤ now) × (now < t + window_seconds)

prune_recent :
    (now at window_seconds : ℕ) (b : List ℕ)
    → at ≤ now
    → All (IsRecent now window_seconds) b
    → prune at window_seconds b ≡ b
unfolding prune
prune_recent now at w [] le h = refl
prune_recent now at w (t ∷ b) le h = ground arith

-- Pruning leaves what is recent, and some of what stands before it.
prune-recent_tail :
    (now at window_seconds : ℕ) (a b : List ℕ)
    → at ≤ now
    → All (IsRecent now window_seconds) b
    → (a' : List ℕ) × (prune at window_seconds (a ++ b) ≡ a' ++ b)
unfolding prune
prune-recent_tail now at w [] b le h = ([], prune_recent now at w b le h)
prune-recent_tail now at w (t ∷ a) b le h = elim (Bool-cases (leb (t + w) at)) [
  | inl p ↦ rw p (prune-recent_tail now at w a b le h)
  | inr p ↦ rw p (t ∷ a, refl)
]

module _ (limits : AuthLimits) (login_key : String) where
  abbrev window : ℕ
  window = limits.login_account_window_seconds

  -- Failures of the account, one after the other.
  unfoldable pub record_failures : List ℕ → InMemoryAuthRateLimiter → InMemoryAuthRateLimiter
  unfolding record_login_failure
  record_failures [] s = s
  record_failures (t ∷ times) s = record_failures times (record_login_failure limits t login_key s)

  failure-recent :
      (now at : ℕ) (a b : List ℕ) (s : InMemoryAuthRateLimiter)
      → at ≤ now
      → IsRecent now window at
      → All (IsRecent now window) b
      → 0 < limits.login_account_failures
      → s.login_failures login_key ≡ a ++ b
      → (a' : List ℕ) × ((record_login_failure limits at login_key s).login_failures login_key
          ≡ a' ++ (b ++ at ∷ []))
  unfolding record_login_failure count_failure
  failure-recent now at a b s le here recent on same =
      let (a', e) =
        prune-recent_tail now at window a (b ++ at ∷ []) le
          (All-append _ b (at ∷ []) recent (here, tt)) in
      (
        a',
        update_same s.login_failures login_key _
            ∙ ground (arith, same, append_assoc a b (at ∷ []), e),
      )

  failures-recent :
      (now : ℕ) (times a b : List ℕ) (s : InMemoryAuthRateLimiter)
      → All (IsRecent now window) times
      → All (IsRecent now window) b
      → 0 < limits.login_account_failures
      → s.login_failures login_key ≡ a ++ b
      → (a' : List ℕ) × ((record_failures times s).login_failures login_key ≡ a' ++ (b ++ times))
  unfolding record_failures
  failures-recent now [] a b s here recent on same = (a, same ∙ ap (◌++◌ a) (sym (append-nil b)))
  failures-recent now (t ∷ times) a b s here recent on same =
      let (a', e) = failure-recent now t a b s here.0.0 here.0 recent on same in
      let (a'', e') =
        failures-recent now times a' (b ++ t ∷ []) (record_login_failure limits t login_key s)
          here.1 (All-append _ b (t ∷ []) recent (here.0, tt)) on e in
      (a'', e' ∙ ap (◌++◌ a'') (append_assoc b (t ∷ []) times))

  -- The failure that makes up the number locks the account.
  failure-locks :
      (now : ℕ) (a b : List ℕ) (s : InMemoryAuthRateLimiter)
      → IsRecent now window now
      → All (IsRecent now window) b
      → 0 < limits.login_account_failures
      → limits.login_account_failures ≤ suc (length b)
      → s.login_failures login_key ≡ a ++ b
      → (record_login_failure limits now login_key s).locks (login_lock login_key)
        ≡ some (now + limits.login_lock_seconds)
  unfolding record_login_failure count_failure
  failure-locks now a b s here recent on enough same =
      let (a', e) =
        prune-recent_tail now now window a (b ++ now ∷ []) (omega arith)
          (All-append _ b (now ∷ []) recent (here, tt)) in
      let counted : limits.login_account_failures ≤ length (a' ++ (b ++ now ∷ [])) =
        rw length-append (rw length-append (omega arith)) in
      ground (
        arith,
        same,
        append_assoc a b (now ∷ []),
        e,
        counted,
        update_same s.locks (login_lock login_key) (some (now + limits.login_lock_seconds)),
      )

  record_failures-append :
      (times : List ℕ) (now : ℕ) (s : InMemoryAuthRateLimiter)
      → record_failures (times ++ now ∷ []) s
        ≡ record_login_failure limits now login_key (record_failures times s)
  unfolding record_failures
  record_failures-append [] now s = refl
  record_failures-append (t ∷ times) now s =
      record_failures-append times now (record_login_failure limits t login_key s)

  locked-refuses :
      (at until : ℕ) (ip_key : String) (s : InMemoryAuthRateLimiter)
      → s.locks (login_lock login_key) ≡ some until
      → at < until
      → enforce_login_attempt limits at ip_key login_key s ≡ (raise too_many_attempts, s)
  unfolding enforce_login_attempt check_lock
  locked-refuses at until ip_key s locked before = ground (arith, locked)

  -- Where an account fails as often as the configuration allows, or more often, within the window
  -- that ends at the last failure, every login for it is refused from then on until
  -- `login_lock_seconds` have passed, whichever address it comes from, and a refused login changes
  -- nothing.
  pub failures-lock_account :
      (times : List ℕ) (now at : ℕ) (ip_key : String) (s : InMemoryAuthRateLimiter)
      → All (IsRecent now window) times
      → 0 < window
      → 0 < limits.login_account_failures
      → limits.login_account_failures ≤ suc (length times)
      → at < now + limits.login_lock_seconds
      → enforce_login_attempt limits at ip_key login_key (record_failures (times ++ now ∷ []) s)
        ≡ (raise too_many_attempts, record_failures (times ++ now ∷ []) s)
  failures-lock_account times now at ip_key s recent wide on enough before =
      let (a, e) =
        failures-recent now times (s.login_failures login_key) [] s recent tt on
          (sym (append-nil _)) in
      locked-refuses at (now + limits.login_lock_seconds) ip_key
        (record_failures (times ++ now ∷ []) s)
        (ap (λ r. r.locks (login_lock login_key)) (record_failures-append times now s)
          ∙ failure-locks now a times (record_failures times s) (omega arith, omega arith) recent on
              enough e)
        before
