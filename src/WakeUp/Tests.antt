-- ===== src/WakeUp/Tests.antt =====
-- Runs of the scheduler at fixed inputs.
use quepasa.Prelude.{
  ℕ, ◌+◌, ◌*◌, ◌≤◌, ◌<◌, ◌≡◌, refl, ◌⊎◌, true, none, some, List, [], ◌∷◌, arith, length, pos,
}
use quepasa.WakeUp.{
  minute, day, WakeUpScheduler, run, check_and_execute_wake_up, in_window, parse_wake_up_hour,
}
use quepasa.WakeUp.Daily.{run_missed, run_daily, last_tick}

-- The wake-up is 12 minutes after 0.
abbrev at_twelve : WakeUpScheduler
at_twelve = record { wake_up_time = 12 * minute; duration = 10000000000; enabled = true }

abbrev ticks : List ℕ
ticks = 5 * minute ∷ 10 * minute ∷ 15 * minute ∷ 20 * minute ∷ []

wake_up_tests :
    (run ticks at_twelve
      ≡ (record at_twelve { wake_up_time = 12 * minute + day }, 15 * minute ∷ []))
    × (run (22 * minute ∷ (12 * minute + day) ∷ []) at_twelve ≡ (at_twelve, []))
    × (parse_wake_up_hour (λ h. h * 60 * minute) (8 * 60 * minute) (pos 7)
        ≡ some (7 * 60 * minute + day))
    × (parse_wake_up_hour (λ h. h * 60 * minute) (8 * 60 * minute) (pos 24) ≡ none)
unfolding run check_and_execute_wake_up in_window parse_wake_up_hour
wake_up_tests = (refl, refl, refl, refl)

run_missed_example : run (22 * minute ∷ (12 * minute + day) ∷ []) at_twelve ≡ (at_twelve, [])
run_missed_example =
    run_missed (22 * minute ∷ (12 * minute + day) ∷ []) at_twelve (omega arith, (omega arith, tt))

run_daily_example :
    ((run ticks at_twelve).0.wake_up_time ≡ 12 * minute + length (run ticks at_twelve).1 * day)
    × (last_tick 0 ticks < (run ticks at_twelve).0.wake_up_time)
    × ((length (run ticks at_twelve).1 ≡ 0)
        ⊎ ((run ticks at_twelve).0.wake_up_time ≤ last_tick 0 ticks + day))
run_daily_example = run_daily ticks 0 at_twelve (omega arith) (
  omega arith,
  omega arith,
  (omega arith, omega arith, (omega arith, omega arith, (omega arith, omega arith, tt))),
)
