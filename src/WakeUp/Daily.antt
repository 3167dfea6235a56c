-- ===== src/WakeUp/Daily.antt =====
-- whatsmeow/whatsmeow_wakeup_scheduler.go: when the ticks of the scheduler execute a wake-up.
use quepasa.Prelude.{
  ℕ, ◌+◌, ◌*◌, ◌≤◌, ◌<◌, ◌≡◌, refl, ◌⊎◌, inl, inr, false, List, [], ◌∷◌, arith, Bool-cases, length,
  All,
}
use quepasa.WakeUp.{minute, day, WakeUpScheduler, in_window, check_and_execute_wake_up, run}

-- The ticks come in order, the first and each next one at most 10 minutes after what is before it.
abbrev pub Spaced : ℕ → List ℕ → Type 0
Spaced before [] = Unit
Spaced before (now ∷ ticks) = (before ≤ now) × (now ≤ before + 10 * minute) × Spaced now ticks

abbrev pub last_tick : ℕ → List ℕ → ℕ
last_tick before [] = before
last_tick before (now ∷ ticks) = last_tick now ticks

-- A run whose window is missed never executes a wake-up again, nor moves it to another day.
pub run_missed :
    (ticks : List ℕ) (ws : WakeUpScheduler)
    → All (λ now. ws.wake_up_time + 10 * minute ≤ now) ticks
    → run ticks ws ≡ (ws, [])
unfolding run check_and_execute_wake_up in_window
run_missed [] ws h = refl
run_missed (now ∷ ticks) ws h =
    let late : in_window now ws.wake_up_time ≡ false = ground (arith, h.0) in
    rw (late, run_missed ticks ws h.1) refl

le_last_tick : (before : ℕ) (ticks : List ℕ) → Spaced before ticks → before ≤ last_tick before ticks
le_last_tick before [] s = omega arith
le_last_tick before (now ∷ ticks) s = omega (arith, le_last_tick now ticks s.2, s.0)

-- With ticks at most 10 minutes apart, the first of which comes before the wake-up, each day's
-- wake-up is executed exactly once: the next one is as many days later as there were wake-ups, it
-- lies behind the last tick, and, if there was any, at most a day behind it.
pub run_daily :
    (ticks : List ℕ) (before : ℕ) (ws : WakeUpScheduler)
    → before < ws.wake_up_time
    → Spaced before ticks
    → ((run ticks ws).0.wake_up_time ≡ ws.wake_up_time + length (run ticks ws).1 * day)
      × (last_tick before ticks < (run ticks ws).0.wake_up_time)
      × ((length (run ticks ws).1 ≡ 0)
          ⊎ ((run ticks ws).0.wake_up_time ≤ last_tick before ticks + day))
unfolding run check_and_execute_wake_up in_window
run_daily [] before ws h s = (omega arith, h, inl refl)
run_daily (now ∷ ticks) before ws h s = elim (Bool-cases (in_window now ws.wake_up_time)) [
  | inl e ↦
      let next : WakeUpScheduler = record ws { wake_up_time = ws.wake_up_time + day } in
      let (total, behind, near) = run_daily ticks now next (ground (arith, e)) s.2 in
      let later = le_last_tick now ticks s.2 in
      rw e (
        omega (arith, total),
        behind,
        inr (elim near [
          | inl zero_more ↦ ground (arith, total, zero_more, later, e)
          | inr le ↦ le
        ]),
      )
  | inr e ↦ rw e (run_daily ticks now ws (ground (arith, e, h, s.1)) s.2)
]
