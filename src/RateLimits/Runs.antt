-- ===== src/RateLimits/Runs.antt =====
-- rate_limits.py: runs of the upload limiter, with the calls that it accepted.
use mathlib.Core.List.{map-append}
use imghost.Prelude.{
  ℕ, ◌+◌, ◌≤◌, ◌≡◌, String, Bool, true, false, Option, none, some, List, [], ◌∷◌, ◌++◌, ◌&&◌, ltb,
  leb, length, keep, Bool-cases, inl, inr, if◌then◌else◌, str_eq, keep-append, map,
}
use imghost.Http.{ok, raise}
use imghost.Models.{User}
use imghost.RateLimits.{
  Event, UploadLimits, InMemoryRateLimiter, enforce_upload_limits, minute_seconds,
}

-- A call of `enforce_upload_limits`, with the clock's value when it is made.
pub record Upload : Type 0 where
  pub now : ℕ
  pub actor_key : String
  pub byte_count : ℕ
  pub user : Option User

-- The accepted calls, oldest first, with the limiter that they leave.
pub record Run : Type 0 where
  pub limiter : InMemoryRateLimiter
  pub accepted : List Upload

unfoldable pub submit : UploadLimits → Run → Upload → Run
unfolding enforce_upload_limits
submit limits r u =
    let (answer, s) =
      enforce_upload_limits limits u.now u.actor_key u.byte_count u.user r.limiter in
    elim answer [
      | ok _ ↦ record { limiter = s; accepted = r.accepted ++ u ∷ [] }
      | raise _ ↦ record { limiter = s; accepted = r.accepted }
    ]

unfoldable pub submit_all : UploadLimits → Run → List Upload → Run
unfolding submit
submit_all limits r [] = r
submit_all limits r (u ∷ us) = submit_all limits (submit limits r u) us

abbrev pub is_anonymous : Upload → Bool
is_anonymous u = elim u.user [ none ↦ true | some _ ↦ false ]

abbrev pub from_actor : String → Upload → Bool
from_actor k u = is_anonymous u && str_eq u.actor_key k

abbrev pub event : Upload → Event
event u = (u.now, u.byte_count)

-- The events that the anonymous actor `k`, and all anonymous actors, have had accepted.
unfoldable pub events_of : (Upload → Bool) → List Upload → List Event
events_of who us = map event (keep who us)

-- In the minute that ends at `t`.
abbrev pub in_minute : ℕ → Event → Bool
in_minute t e = leb e.0 t && ltb t (e.0 + minute_seconds)

abbrev pub Bounded : ℕ → List Event → Type 0
Bounded limit es = (t : ℕ) → length (keep (in_minute t) es) ≤ limit

-- Appending a call appends its event where the call is from the actors that are watched.
pub events_of-append :
    (who : Upload → Bool) (us : List Upload) (u : Upload)
    → events_of who (us ++ u ∷ []) ≡ events_of who us ++ (if who u then event u ∷ [] else [])
unfolding events_of keep
events_of-append who us u = elim (Bool-cases (who u)) [
  | inl p ↦ rw p (rw keep-append (rw p (map-append event (keep who us) (u ∷ []))))
  | inr p ↦ rw p (rw keep-append (rw p (map-append event (keep who us) [])))
]

-- The clock does not go back.
abbrev pub InOrder : ℕ → List Upload → Type 0
InOrder now [] = Unit
InOrder now (u ∷ us) = (now ≤ u.now) × InOrder u.now us
