-- ===== src/WakeUp.antt =====
-- whatsmeow/whatsmeow_wakeup_scheduler.go: the scheduler that goes online once a day. A time is a
-- number of nanoseconds. The hour of WAKEUP_HOUR, as Sscanf reads it, and the time of an hour of
-- today, by the calendar, are parameters; a tick of the scheduler's clock is the time it comes at.
-- Sending the presence is the client's, and a wake-up is the time at which it is executed.
mod Daily
mod Tests
use quepasa.Prelude.{
  ℕ, zero, suc, ◌+◌, ◌-◌, ◌*◌, ◌/◌, ◌%◌, ◌^◌, ◌≤◌, ◌<◌, String, ◌≡◌, refl, sym, ap, ◌∙◌, ◌≢◌, ◌↔◌,
  ◌⊎◌, inl, inr, Bool, true, false, ◌&&◌, ◌||◌, not, Option, none, some, List, [], ◌∷◌, ◌++◌, map,
  arith, ltb, leb, ◌==◌, if◌then◌else◌, ltb→lt, lt→ltb, leb→le, le→leb, ==_iff, tests, Bool-cases,
  Option-cases, sum-cases, is_some, length, get_elem?, take, drop, length-append, drop-append,
  length-take-le, All, ℤ, pos, negsuc, int_eq, int_eq_iff, ne_of_int_eq, All-append, ◌>>=◌,
}

abbrev pub minute : ℕ
minute = 60000000000

abbrev pub day : ℕ
day = 86400000000000

pub record WakeUpScheduler : Type 0 where
  pub wake_up_time : ℕ
  pub duration : ℕ
  pub enabled : Bool

-- parseWakeUpHour, for an hour that is there: `none` is the error. A negative hour is out of range.
unfoldable pub parse_wake_up_hour : (ℕ → ℕ) → ℕ → ℤ → Option ℕ
parse_wake_up_hour at_hour now (negsuc n) = none
parse_wake_up_hour at_hour now (pos hour) =
    let today_time = at_hour hour in
    if ltb 23 hour
    then none
    else if ltb (today_time + 10 * minute) now
    then some (today_time + day)
    else some today_time

-- NewWakeUpScheduler, from the time that was parsed, if any; `duration` is in seconds.
unfoldable pub new_wake_up_scheduler : Option ℕ → ℤ → WakeUpScheduler
new_wake_up_scheduler parsed duration =
    let seconds : ℕ = elim duration [ pos zero ↦ 10 | pos (suc n) ↦ suc n | negsuc n ↦ 10 ] in
    elim parsed [
      | none ↦ record { wake_up_time = 0; duration = seconds * 1000000000; enabled = false }
      | some time ↦ record {
        wake_up_time = time;
        duration = seconds * 1000000000;
        enabled = ltb 0 time;
      }
    ]

-- The window of 10 minutes in which a tick executes the wake-up.
unfoldable pub in_window : ℕ → ℕ → Bool
in_window now wake_up_time = leb wake_up_time now && ltb now (wake_up_time + 10 * minute)

unfoldable pub check_and_execute_wake_up : ℕ → WakeUpScheduler → WakeUpScheduler × List ℕ
unfolding in_window
check_and_execute_wake_up now ws =
    if in_window now ws.wake_up_time
    then (record ws { wake_up_time = ws.wake_up_time + day }, now ∷ [])
    else (ws, [])

-- The loop of `run`, over the ticks that come before it is stopped.
unfoldable pub run : List ℕ → WakeUpScheduler → WakeUpScheduler × List ℕ
unfolding check_and_execute_wake_up
run [] ws = (ws, [])
run (now ∷ ticks) ws =
    let (next, executed) = check_and_execute_wake_up now ws in
    let (last, later) = run ticks next in (last, executed ++ later)
