-- ===== src/Scheduler/Intervals.antt =====
-- scheduler.py: how far apart two clean-ups are enqueued.
use mathlib.Core.Path.{subst}
use imghost.Prelude.{
  ℕ, ◌+◌, ◌<◌, ◌≡◌, refl, sym, ap, Bool, true, false, some, List, [], ◌∷◌, All, arith, Option-cases,
}
use imghost.Scheduler.{Settings, Answers, SchedulerService, is_due, cleanup_tick, tick}

-- A tick, with the clocks and the answers during it.
pub record Tick : Type 0 where
  pub answers : Answers
  pub now : ℕ
  pub time : ℕ

-- What each tick of a run returns.
unfoldable pub run : Settings → List Tick → SchedulerService → List Bool
unfolding tick
run settings [] s = []
run settings (t ∷ ts) s =
    let (enqueued, s') = tick settings t.answers t.now t.time s in enqueued ∷ run settings ts s'

enqueued-next :
    (settings : Settings) (answers : Answers) (now time : ℕ) (s : SchedulerService)
    → (tick settings answers now time s).0 ≡ true
    → (tick settings answers now time s).1.next_cleanup_at
      ≡ some (now + settings.cleanup_interval_seconds)
unfolding tick cleanup_tick
enqueued-next settings answers now time s h = ground (arith, Option-cases answers.enqueue_fails)

waits :
    (settings : Settings) (answers : Answers) (now time : ℕ) (s : SchedulerService)
    → is_due now s.next_cleanup_at ≡ false
    → tick settings answers now time s ≡ (false, record s { last_tick_at = some time })
unfolding tick
waits settings answers now time s h = simp (h, tick) refl

quiet_until :
    (settings : Settings) (next : ℕ) (ts : List Tick) (s : SchedulerService)
    → s.next_cleanup_at ≡ some next
    → All (λ t. t.now < next) ts
    → All (λ b. b ≡ false) (run settings ts s)
unfolding run is_due
quiet_until settings next [] s h early = tt
quiet_until settings next (t ∷ ts) s h early =
    let waited = waits settings t.answers t.now t.time s (ground (arith, h, early.0)) in
    (
      ap (λ r. r.0) waited,
      subst (λ s'. All (λ b. b ≡ false) (run settings ts s')) (sym (ap (λ r. r.1) waited))
          (quiet_until settings next ts _ h early.1),
    )

-- After a tick that enqueued the clean-up, no tick enqueues it again until the interval has passed,
-- whatever Redis and the queue answer in the meantime.
pub cleanup_interval-respected :
    (settings : Settings) (answers : Answers) (now time : ℕ) (s : SchedulerService) (ts : List Tick)
    → (tick settings answers now time s).0 ≡ true
    → All (λ t. t.now < now + settings.cleanup_interval_seconds) ts
    → All (λ b. b ≡ false) (run settings ts (tick settings answers now time s).1)
cleanup_interval-respected settings answers now time s ts h early =
    quiet_until settings (now + settings.cleanup_interval_seconds) ts
      (tick settings answers now time s).1 (enqueued-next settings answers now time s h) early
