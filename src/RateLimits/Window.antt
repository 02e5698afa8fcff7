-- ===== src/RateLimits/Window.antt =====
-- rate_limits.py: what pruning a window keeps, when its events are in the order of their times.
use imghost.Prelude.{
  ℕ, ◌+◌, ◌≤◌, ◌<◌, ◌≡◌, refl, Bool, List, [], ◌∷◌, ◌++◌, ◌&&◌, arith, ltb, leb, length, keep, All,
  Bool-cases, inl, inr, if◌then◌else◌, All-append, sum_by,
}
use imghost.Http.{Result, ok, raise}
use imghost.RateLimits.{
  Event, WindowCounter, prune_events, enforce_counter, request_limit_exceeded,
  bandwidth_limit_exceeded, minute_seconds,
}

-- An event that a prune at `now` keeps.
abbrev pub live : ℕ → ℕ → Event → Bool
live now window e = ltb now (e.0 + window)

abbrev pub AllAfter : ℕ → List Event → Type 0
AllAfter t = All (λ e. t ≤ e.0)

abbrev pub AllBefore : ℕ → List Event → Type 0
AllBefore t = All (λ e. e.0 ≤ t)

-- Events in the order of their times, as a monotonic clock makes them.
abbrev pub Ordered : List Event → Type 0
Ordered [] = Unit
Ordered (e ∷ es) = AllAfter e.0 es × Ordered es

keep_all_live :
    (now window t : ℕ) (es : List Event)
    → now < t + window
    → AllAfter t es
    → keep (live now window) es ≡ es
unfolding keep
keep_all_live now window t [] h a = refl
keep_all_live now window t (e ∷ es) h a = ground (arith, keep_all_live now window t es h a.1)

-- On ordered events the loop that pops from the left is a filter.
pub prune_events-keep :
    (now window : ℕ) (es : List Event)
    → Ordered es
    → prune_events now window es ≡ keep (live now window) es
unfolding prune_events keep
prune_events-keep now window [] o = refl
prune_events-keep now window (e ∷ es) o =
    ground (arith, prune_events-keep now window es o.1, keep_all_live now window e.0 es)

keep-AllAfter :
    (test : Event → Bool) (t : ℕ) (es : List Event) → AllAfter t es → AllAfter t (keep test es)
unfolding keep
keep-AllAfter test t [] a = tt
keep-AllAfter test t (e ∷ es) a = elim (Bool-cases (test e)) [
  | inl p ↦ rw p (a.0, keep-AllAfter test t es a.1)
  | inr p ↦ rw p (keep-AllAfter test t es a.1)
]

pub keep-Ordered : (test : Event → Bool) (es : List Event) → Ordered es → Ordered (keep test es)
unfolding keep
keep-Ordered test [] o = tt
keep-Ordered test (e ∷ es) o = elim (Bool-cases (test e)) [
  | inl p ↦ rw p (keep-AllAfter test e.0 es o.0, keep-Ordered test es o.1)
  | inr p ↦ rw p (keep-Ordered test es o.1)
]

pub keep-AllBefore :
    (test : Event → Bool) (t : ℕ) (es : List Event) → AllBefore t es → AllBefore t (keep test es)
unfolding keep
keep-AllBefore test t [] a = tt
keep-AllBefore test t (e ∷ es) a = elim (Bool-cases (test e)) [
  | inl p ↦ rw p (a.0, keep-AllBefore test t es a.1)
  | inr p ↦ rw p (keep-AllBefore test t es a.1)
]

pub Ordered-append :
    (es : List Event) (e : Event) → Ordered es → AllBefore e.0 es → Ordered (es ++ e ∷ [])
Ordered-append [] e o b = (tt, tt)
Ordered-append (f ∷ es) e o b =
    (All-append (λ g. f.0 ≤ g.0) es (e ∷ []) o.0 (b.0, tt), Ordered-append es e o.1 b.1)

-- Pruning again, later or to a longer window, sees what the first prune left.
pub keep-keep :
    (t u v w : ℕ) (es : List Event)
    → t + w ≤ u + v
    → keep (live u w) (keep (live t v) es) ≡ keep (live u w) es
unfolding keep
keep-keep t u v w [] h = refl
keep-keep t u v w (e ∷ es) h = ground (arith, keep-keep t u v w es)

keep-live-wider :
    (now v w : ℕ) (es : List Event)
    → v ≤ w
    → keep (live now w) (keep (live now v) es) ≡ keep (live now v) es
unfolding keep
keep-live-wider now v w [] h = refl
keep-live-wider now v w (e ∷ es) h = ground (arith, keep-live-wider now v w es h)

-- What `_enforce_counter` answers and leaves, when the events are in order: the events of the last
-- minute stay, the request test counts those, and so does the sum behind the bandwidth test.
unfoldable pub verdict : (rpm_limit bph_limit byte_count : ℕ) → List Event → Result (Unit {0})
verdict rpm_limit bph_limit byte_count recent =
    if ltb 0 rpm_limit && leb rpm_limit (length recent)
    then raise request_limit_exceeded
    else if ltb 0 bph_limit && ltb bph_limit (sum_by (λ e. e.1) recent + byte_count)
    then raise bandwidth_limit_exceeded
    else ok tt

pub enforce_counter-verdict :
    (c : WindowCounter) (now rpm bph n : ℕ)
    → Ordered c.events
    → enforce_counter c now rpm bph n ≡ (
        let recent = keep (live now minute_seconds) c.events in
        (verdict rpm bph n recent, record { events = recent }))
unfolding enforce_counter verdict
enforce_counter-verdict c now rpm bph n o = rw (prune_events-keep now minute_seconds c.events o) (
    rw
      (prune_events-keep now 3600 (keep (live now 60) c.events)
        (keep-Ordered (live now 60) c.events o))
      (rw (keep-live-wider now 60 3600 c.events (omega arith)) (ground arith)))

-- A call that passes found room below the request limit.
pub verdict-ok :
    (rpm bph n : ℕ) (es : List Event) → verdict rpm bph n es ≡ ok tt → 0 < rpm → length es < rpm
unfolding verdict
verdict-ok rpm bph n es h p = ground arith
