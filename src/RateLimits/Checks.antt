-- ===== src/RateLimits/Checks.antt =====
-- rate_limits.py: what the checks of one call depend on, and what a refused call leaves.
use imghost.Prelude.{
  ℕ, ◌+◌, ◌≤◌, ◌<◌, ◌≡◌, refl, String, none, List, [], ◌∷◌, arith, keep, All, eq_iff,
}
use imghost.Http.{Exception, Result, ok, raise}
use imghost.RateLimits.{
  Event, WindowCounter, enforce_counter, UploadLimits, InMemoryRateLimiter, enforce_upload_limits,
  minute_seconds,
}
use imghost.RateLimits.Window.{live, keep-keep, Ordered, verdict, enforce_counter-verdict}

none_live :
    (now window : ℕ) (es : List Event)
    → All (λ e. e.0 + window ≤ now) es
    → keep (live now window) es ≡ []
unfolding keep
none_live now window [] h = refl
none_live now window (e ∷ es) h = ground (arith, none_live now window es h.1)

-- The hourly bandwidth limit does not see what is older than a minute: with every earlier upload a
-- minute old or more, an upload of no more than the limit is accepted, whatever was sent within
-- the hour.
pub hourly_bytes_forgotten :
    (c : WindowCounter) (now rpm_limit bph_limit byte_count : ℕ)
    → Ordered c.events
    → All (λ e. e.0 + minute_seconds ≤ now) c.events
    → 0 < rpm_limit
    → byte_count ≤ bph_limit
    → enforce_counter c now rpm_limit bph_limit byte_count ≡ (ok tt, record { events = [] })
unfolding verdict
hourly_bytes_forgotten c now rpm bph n o old pos fits =
    rw (enforce_counter-verdict, o) (rw (none_live, old) (ground arith))

-- A refused call of an anonymous actor charges nobody: each window that it leaves holds no event
-- that was not there before.
module _ (limits : UploadLimits) (now : ℕ) (k : String) (n : ℕ) (s : InMemoryRateLimiter) where
  abbrev after : Result (Unit {0}) × InMemoryRateLimiter
  after = enforce_upload_limits limits now k n none s

  pub refused_charges_nobody :
      {e : Exception} (j : String) (t : ℕ)
      → ((i : String) → Ordered (s.anon_windows i).events)
      → Ordered s.global_anon.events
      → after.0 ≡ raise e
      → now ≤ t
      → (keep (live t minute_seconds) (after.1.anon_windows j).events
          ≡ keep (live t minute_seconds) (s.anon_windows j).events)
        × (keep (live t minute_seconds) after.1.global_anon.events
            ≡ keep (live t minute_seconds) s.global_anon.events)
  unfolding enforce_upload_limits
  refused_charges_nobody j t o g h le = ground (
    arith,
    enforce_counter-verdict (s.anon_windows k) now limits.rate_limit_anon_rpm
        limits.rate_limit_anon_bph n (o k),
    enforce_counter-verdict s.global_anon now limits.rate_limit_global_anon_rpm
        limits.rate_limit_global_anon_bph n g,
    keep-keep now t minute_seconds minute_seconds (s.anon_windows k).events,
    keep-keep now t minute_seconds minute_seconds s.global_anon.events,
    eq_iff k j,
  )
