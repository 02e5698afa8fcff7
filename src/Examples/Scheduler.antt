-- ===== src/Examples/Scheduler.antt =====
-- A tick that enqueues, and two that come too early.
use imghost.Prelude.{ℕ, ◌≡◌, refl, true, false, none, [], ◌∷◌, All, arith}
use imghost.Scheduler.{Settings, Answers, SchedulerService, answered, tick}
use imghost.Scheduler.Intervals.{Tick, run, cleanup_interval-respected}

abbrev settings : Settings
settings = record { poll_seconds = 30; cleanup_interval_seconds = 900; lease_seconds = 900 }

abbrev answers : Answers
answers = record { lease = answered true; enqueue_fails = none; release_fails = none }

abbrev fresh : SchedulerService
fresh = record {
  next_cleanup_at = none;
  last_tick_at = none;
  last_enqueue_at = none;
  last_enqueue_error = none;
  last_lease_acquired_at = none;
  last_lease_error = none;
}

abbrev at : ℕ → Tick
at now = record { answers = answers; now = now; time = now }

first_enqueues : (tick settings answers 10 10 fresh).0 ≡ true
unfolding tick
first_enqueues = refl

due_again : run settings (at 10 ∷ at 40 ∷ at 910 ∷ []) fresh ≡ true ∷ false ∷ true ∷ []
unfolding run
due_again = refl

cleanup_interval-respected_example :
    All (λ b. b ≡ false) (run settings (at 40 ∷ at 909 ∷ []) (tick settings answers 10 10 fresh).1)
cleanup_interval-respected_example =
    cleanup_interval-respected settings answers 10 10 fresh (at 40 ∷ at 909 ∷ []) first_enqueues
      (omega arith, (omega arith, tt))
