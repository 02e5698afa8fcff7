-- ===== src/RateLimits/WindowBound.antt =====
-- rate_limits.py: how many accepted uploads a sliding minute of a run holds.
use imghost.Prelude.{
  ℕ, ◌≤◌, ◌<◌, ◌≡◌, refl, ◌∙◌, String, Bool, false, Option, none, some, List, [], ◌∷◌, ◌++◌, arith,
  length, keep, Bool-cases, inl, inr, ◌⊎◌, if◌then◌else◌, str_eq, eq_iff, length-append,
  keep-append, All-append,
}
use native.Mathlib.Nat.{le_refl}
use mathlib.Core.Path.{subst}
use mathlib.Core.List.{append-nil}
use imghost.Prelude.Dict.{update}
use imghost.Http.{Result-cases, Result, ok, raise}
use imghost.Models.{User}
use imghost.RateLimits.Runs.{
  Upload, Run, submit, submit_all, is_anonymous, from_actor, events_of, events_of-append, in_minute,
  Bounded, InOrder,
}
use imghost.RateLimits.{Event, WindowCounter, add, UploadLimits, minute_seconds, new_limiter}
use imghost.RateLimits.Window.{
  live, AllBefore, Ordered, keep-Ordered, keep-AllBefore, keep-keep, Ordered-append, verdict,
  verdict-ok, enforce_counter-verdict,
}

in_minute-le-live :
    (now t : ℕ) (es : List Event)
    → now ≤ t
    → length (keep (in_minute t) es) ≤ length (keep (live now minute_seconds) es)
unfolding keep
in_minute-le-live now t [] h = omega arith
in_minute-le-live now t (e ∷ es) h = ground (arith, in_minute-le-live now t es h)

-- One more event keeps the bound where the live events are fewer than the limit.
Bounded-append :
    (limit now n : ℕ) (es : List Event)
    → Bounded limit es
    → length (keep (live now minute_seconds) es) < limit
    → Bounded limit (es ++ (now, n) ∷ [])
unfolding keep
Bounded-append limit now n es b room t =
    rw keep-append (rw length-append (ground (arith, b t, in_minute-le-live now t es)))

-- How a counter stands to the events that it was given: in order, none later than `now`, and with
-- the same live events from `now` on.
record Follows (now : ℕ) (c : WindowCounter) (es : List Event) : Type 0 where
  ordered : Ordered c.events
  before : AllBefore now c.events
  same : (t : ℕ) → now ≤ t → keep (live t minute_seconds) c.events ≡ keep (live t minute_seconds) es

Follows-later :
    {now later : ℕ} {c : WindowCounter} {es : List Event}
    → now ≤ later
    → Follows now c es
    → Follows later c es
Follows-later {now} {later} {c} le f = record {
  ordered = f.ordered;
  before = go c.events f.before;
  same = λ t h. f.same t (omega arith);
}
  where
    go : (xs : List Event) → AllBefore now xs → AllBefore later xs
    go [] b = tt
    go (x ∷ xs) b = (omega arith, go xs b.1)

abbrev recent : ℕ → WindowCounter → WindowCounter
recent now c = record { events = keep (live now minute_seconds) c.events }

Follows-recent :
    {now : ℕ} {c : WindowCounter} {es : List Event}
    → Follows now c es
    → Follows now (recent now c) es
Follows-recent {now} {c} f = record {
  ordered = keep-Ordered _ c.events f.ordered;
  before = keep-AllBefore _ now c.events f.before;
  same = λ t h. keep-keep now t minute_seconds minute_seconds c.events (omega arith) ∙ f.same t h;
}

Follows-add :
    {now : ℕ} {c : WindowCounter} {es : List Event} (n : ℕ)
    → Follows now c es
    → Follows now (add c now n) (es ++ (now, n) ∷ [])
unfolding add
Follows-add {now} {c} {es} n f = record {
  ordered = Ordered-append c.events (now, n) f.ordered f.before;
  before = All-append (λ e. e.0 ≤ now) c.events ((now, n) ∷ []) f.before (le_refl now, tt);
  same = λ t h. rw keep-append (rw (keep-append (live t minute_seconds) es) (rw (f.same t h)));
}

module _ (d : String → WindowCounter) (now : ℕ) (k : String) where
  Follows-update :
      (E : String → List Event) (c : WindowCounter)
      → ((j : String) → Follows now (d j) (E j))
      → Follows now c (E k)
      → (j : String) → Follows now (update d k c j) (E j)
  Follows-update E c f g j = elim (Bool-cases (str_eq k j)) [
    | inl p ↦ rw p (subst (λ i. Follows now c (E i)) ((eq_iff k j).0 p) g)
    | inr p ↦ rw p (f j)
  ]

-- What holds of a run at time `now`: each window follows the calls accepted from its actors, and no
-- minute holds more of them than the limits allow.
record IsBounded (limits : UploadLimits) (now : ℕ) (r : Run) : Type 0 where
  anon : (k : String) → Follows now (r.limiter.anon_windows k) (events_of (from_actor k) r.accepted)
  global : Follows now r.limiter.global_anon (events_of is_anonymous r.accepted)
  anon_bound :
      0 < limits.rate_limit_anon_rpm
      → (k : String) → Bounded limits.rate_limit_anon_rpm (events_of (from_actor k) r.accepted)
  global_bound :
      0 < limits.rate_limit_global_anon_rpm
      → Bounded limits.rate_limit_global_anon_rpm (events_of is_anonymous r.accepted)

module _ (limits : UploadLimits) (r : Run) (now : ℕ) (k : String) (n : ℕ) where
  abbrev call : Upload
  call = record { now = now; actor_key = k; byte_count = n; user = none }

  abbrev actor_recent : WindowCounter
  actor_recent = recent now (r.limiter.anon_windows k)

  abbrev global_recent : WindowCounter
  global_recent = recent now r.limiter.global_anon

  abbrev actor_refused : Run
  actor_refused = record r {
    limiter = record r.limiter { anon_windows = update r.limiter.anon_windows k actor_recent };
  }

  abbrev global_refused : Run
  global_refused = record r {
    limiter = record r.limiter {
      anon_windows = update r.limiter.anon_windows k actor_recent;
      global_anon = global_recent;
    };
  }

  abbrev admitted : Run
  unfolding add
  admitted = record {
    limiter = record r.limiter {
      anon_windows = update r.limiter.anon_windows k (add actor_recent now n);
      global_anon = add global_recent now n;
    };
    accepted = r.accepted ++ call ∷ [];
  }

  -- The answers of the two counters, put together as the method does.
  outcome : Result (Unit {0}) × WindowCounter → Result (Unit {0}) × WindowCounter → Run
  outcome (raise e, c) g = record r {
    limiter = record r.limiter { anon_windows = update r.limiter.anon_windows k c };
  }
  outcome (ok _, c) (raise e, g) = record r {
    limiter = record r.limiter {
      anon_windows = update r.limiter.anon_windows k c;
      global_anon = g;
    };
  }
  outcome (ok _, c) (ok _, g) = record {
    limiter = record r.limiter {
      anon_windows = update r.limiter.anon_windows k (add c now n);
      global_anon = add g now n;
    };
    accepted = r.accepted ++ call ∷ [];
  }

  submit-outcome :
      IsBounded limits now r
      → submit limits r call
        ≡ outcome
            (
              verdict limits.rate_limit_anon_rpm limits.rate_limit_anon_bph n actor_recent.events,
              actor_recent,
            )
            (
              verdict limits.rate_limit_global_anon_rpm limits.rate_limit_global_anon_bph n
                  global_recent.events,
              global_recent,
            )
  unfolding submit outcome
  submit-outcome b =
      rw
        (← enforce_counter-verdict (r.limiter.anon_windows k) now limits.rate_limit_anon_rpm
          limits.rate_limit_anon_bph n (b.anon k).ordered)
        (rw
          (← enforce_counter-verdict r.limiter.global_anon now limits.rate_limit_global_anon_rpm
            limits.rate_limit_global_anon_bph n b.global.ordered)
          (ground arith))

  submit-cases :
      IsBounded limits now r
      → (submit limits r call ≡ actor_refused)
        ⊎ ((submit limits r call ≡ global_refused)
            ⊎ ((submit limits r call ≡ admitted)
                × (0 < limits.rate_limit_anon_rpm
                    → length actor_recent.events < limits.rate_limit_anon_rpm)
                × (0 < limits.rate_limit_global_anon_rpm
                    → length global_recent.events < limits.rate_limit_global_anon_rpm)))
  unfolding outcome admitted
  submit-cases b =
      rw submit-outcome
        (elim (Result-cases
          (verdict limits.rate_limit_anon_rpm limits.rate_limit_anon_bph n actor_recent.events)) [
            | inr (e, p) ↦ rw p (inl refl)
            | inl (tt, p) ↦
                elim (Result-cases (
                  verdict limits.rate_limit_global_anon_rpm limits.rate_limit_global_anon_bph n
                    global_recent.events)) [
                      | inr (e, q) ↦ rw (p, q) (inr (inl refl))
                      | inl (tt, q) ↦
                          rw (p, q) (inr (inr (refl, verdict-ok _ _ _ _ p, verdict-ok _ _ _ _ q)))
                    ]
          ])

module _ (limits : UploadLimits) (r : Run) (now : ℕ) (k : String) (n : ℕ) where
  anon_events :
      (j : String)
      → events_of (from_actor j) (r.accepted ++ call limits r now k n ∷ [])
        ≡ events_of (from_actor j) r.accepted ++ (if str_eq k j then (now, n) ∷ [] else [])
  anon_events j = events_of-append (from_actor j) r.accepted (call limits r now k n)

  global_events :
      events_of is_anonymous (r.accepted ++ call limits r now k n ∷ [])
      ≡ events_of is_anonymous r.accepted ++ (now, n) ∷ []
  global_events = events_of-append is_anonymous r.accepted (call limits r now k n)

  later : {before : ℕ} → before ≤ now → IsBounded limits before r → IsBounded limits now r
  later le b = record {
    anon = λ j. Follows-later le (b.anon j);
    global = Follows-later le b.global;
    anon_bound = b.anon_bound;
    global_bound = b.global_bound;
  }

  admitted-IsBounded :
      IsBounded limits now r
      → (0 < limits.rate_limit_anon_rpm
          → length (actor_recent limits r now k n).events < limits.rate_limit_anon_rpm)
      → (0 < limits.rate_limit_global_anon_rpm
          → length (global_recent limits r now k n).events < limits.rate_limit_global_anon_rpm)
      → IsBounded limits now (admitted limits r now k n)
  unfolding admitted
  admitted-IsBounded b room global_room = record {
    anon = λ j. rw (anon_events j) (elim (Bool-cases (str_eq k j)) [
      | inl p ↦ rw p (
          subst
            (λ i.
              Follows now (add (actor_recent limits r now k n) now n)
                (events_of (from_actor i) r.accepted ++ (now, n) ∷ []))
            ((eq_iff k j).0 p) (Follows-add n (Follows-recent (b.anon k))))
      | inr p ↦ rw p (rw append-nil (b.anon j))
    ]);
    global = rw global_events (Follows-add n (Follows-recent b.global));
    anon_bound = λ pos j. rw (anon_events j) (elim (Bool-cases (str_eq k j)) [
      | inl p ↦ rw p (
          subst
            (λ i.
              Bounded limits.rate_limit_anon_rpm
                (events_of (from_actor i) r.accepted ++ (now, n) ∷ []))
            ((eq_iff k j).0 p)
            (Bounded-append limits.rate_limit_anon_rpm now n _ (b.anon_bound pos k)
              (rw (← (b.anon k).same now (le_refl now)) (room pos))))
      | inr p ↦ rw p (rw append-nil (b.anon_bound pos j))
    ]);
    global_bound = λ pos. rw global_events (
        Bounded-append limits.rate_limit_global_anon_rpm now n _ (b.global_bound pos)
          (rw (← b.global.same now (le_refl now)) (global_room pos)));
  }

  anonymous-IsBounded :
      {before : ℕ}
      → before ≤ now
      → IsBounded limits before r
      → IsBounded limits now (submit limits r (call limits r now k n))
  anonymous-IsBounded le b₀ =
      let b = later le b₀ in
      elim (submit-cases limits r now k n b) [
        | inl p ↦ rw p (record {
          anon = Follows-update r.limiter.anon_windows now k _ _ b.anon (Follows-recent (b.anon k));
          global = b.global;
          anon_bound = b.anon_bound;
          global_bound = b.global_bound;
        })
        | inr (inl p) ↦ rw p (record {
          anon = Follows-update r.limiter.anon_windows now k _ _ b.anon (Follows-recent (b.anon k));
          global = Follows-recent b.global;
          anon_bound = b.anon_bound;
          global_bound = b.global_bound;
        })
        | inr (inr (p, room, global_room)) ↦ rw p (admitted-IsBounded b room global_room)
      ]

-- A call of a logged-in user touches neither the anonymous windows nor what they follow.
module _ (limits : UploadLimits) (r : Run) (now : ℕ) (k : String) (n : ℕ) (user : User) where
  abbrev user_call : Upload
  user_call = record { now = now; actor_key = k; byte_count = n; user = some user }

  user_windows_apart :
      ((submit limits r user_call).limiter.anon_windows ≡ r.limiter.anon_windows)
      × ((submit limits r user_call).limiter.global_anon ≡ r.limiter.global_anon)
  unfolding submit
  user_windows_apart = ground arith

  user_events_apart :
      (who : Upload → Bool)
      → who user_call ≡ false
      → events_of who (submit limits r user_call).accepted ≡ events_of who r.accepted
  unfolding submit
  user_events_apart who no_event =
      ground
        (arith, events_of-append who r.accepted user_call, append-nil (events_of who r.accepted))

  user-IsBounded :
      {before : ℕ}
      → before ≤ now
      → IsBounded limits before r
      → IsBounded limits now (submit limits r user_call)
  user-IsBounded le b₀ =
      let b = later limits r now k n le b₀ in
      record {
        anon = λ j. rw (user_windows_apart.0, user_events_apart (from_actor j) refl) (b.anon j);
        global = rw (user_windows_apart.1, user_events_apart is_anonymous refl) b.global;
        anon_bound = λ pos j. rw (user_events_apart (from_actor j) refl) (b.anon_bound pos j);
        global_bound = λ pos. rw (user_events_apart is_anonymous refl) (b.global_bound pos);
      }

submit-IsBounded :
    (limits : UploadLimits) (r : Run) (u : Upload) {before : ℕ}
    → before ≤ u.now
    → IsBounded limits before r
    → IsBounded limits u.now (submit limits r u)
submit-IsBounded limits r u le b = go u.user refl
  where
    go : (o : Option User) → u.user ≡ o → IsBounded limits u.now (submit limits r u)
    go none e = rw e (anonymous-IsBounded limits r u.now u.actor_key u.byte_count le b)
    go (some v) e = rw e (user-IsBounded limits r u.now u.actor_key u.byte_count v le b)

submit_all-IsBounded :
    (limits : UploadLimits) (us : List Upload) (r : Run) {now : ℕ}
    → InOrder now us
    → IsBounded limits now r
    → (later : ℕ) × IsBounded limits later (submit_all limits r us)
unfolding submit_all
submit_all-IsBounded limits [] r {now} o b = (now, b)
submit_all-IsBounded limits (u ∷ us) r o b =
    submit_all-IsBounded limits us (submit limits r u) o.1 (submit-IsBounded limits r u o.0 b)

abbrev pub start : Run
start = record { limiter = new_limiter; accepted = [] }

start-IsBounded : (limits : UploadLimits) → IsBounded limits 0 start
unfolding events_of keep
start-IsBounded limits = record {
  anon = λ k. record { ordered = tt; before = tt; same = λ t h. refl };
  global = record { ordered = tt; before = tt; same = λ t h. refl };
  anon_bound = λ pos k t. omega arith;
  global_bound = λ pos t. omega arith;
}

-- Over any calls in the order of the clock, from a new limiter and with a limit that is on, no
-- minute, wherever it ends, holds more accepted uploads of one anonymous actor than
-- rate_limit_anon_rpm.
pub actor_minute_bound :
    (limits : UploadLimits) (us : List Upload) (k : String) (t : ℕ)
    → InOrder 0 us
    → 0 < limits.rate_limit_anon_rpm
    → length (keep (in_minute t) (events_of (from_actor k) (submit_all limits start us).accepted))
      ≤ limits.rate_limit_anon_rpm
actor_minute_bound limits us k t o pos =
    let (_, b) = submit_all-IsBounded limits us start o (start-IsBounded limits) in
    b.anon_bound pos k t

-- Likewise no minute holds more accepted uploads of all anonymous actors together than
-- rate_limit_global_anon_rpm.
pub global_minute_bound :
    (limits : UploadLimits) (us : List Upload) (t : ℕ)
    → InOrder 0 us
    → 0 < limits.rate_limit_global_anon_rpm
    → length (keep (in_minute t) (events_of is_anonymous (submit_all limits start us).accepted))
      ≤ limits.rate_limit_global_anon_rpm
global_minute_bound limits us t o pos =
    let (_, b) = submit_all-IsBounded limits us start o (start-IsBounded limits) in
    b.global_bound pos t
