-- ===== src/Sip/Tests.antt =====
-- sipproxy/sipproxy_transaction_monitor.go, sipproxy_response_handler.go: the monitor and the reading
-- of responses at fixed inputs.
use quepasa.Prelude.{
  ℕ, ◌≡◌, refl, ◌≢◌, true, false, none, some, List, [], ◌∷◌, ◌++◌, arith, if◌then◌else◌, length,
}
use quepasa.Strings.{Text, codes}
use quepasa.Maps.{lookup}
use quepasa.Sip.{
  Watcher, SipTransactionMonitor, accepted, rejected, monitor_transaction, handle_response, tick,
  monitoring, responding, Reach, here, next, watch,
}
use quepasa.Sip.Responses.{Line, process_continuous_response, process_immediate_response}
use quepasa.Sip.Responses.Rejections.{IsHandled, process_continuous_response-StopsAtRejection}
use quepasa.Sip.Watching.{IsWatched, Reach-IsWatched, has_late, watch_lem}

abbrev quiet : SipTransactionMonitor
quiet = record { active_sessions = []; watchers = []; accepts = true; rejects = true }

abbrev call : Text
call = codes "c"

abbrev opened : ℕ → SipTransactionMonitor → SipTransactionMonitor
opened now stm = monitor_transaction now call (codes "1") (codes "2") (codes "t") stm

abbrev answered : SipTransactionMonitor
answered = (handle_response 200 call (codes "1") (codes "2") (opened 0 quiet)).0

abbrev again : SipTransactionMonitor
again = opened 20000 answered

abbrev old_watcher : Watcher
old_watcher = record { call_id = call; started = 0 }

-- The call is answered and opened again, and the watcher of the first time ends the second session
-- after ten seconds.
ended_early :
    (length again.active_sessions ≡ 1)
    × (length
          (tick 30000 [] old_watcher
            (record { call_id = call; started = 20000 } ∷ [])
            again).0.active_sessions
        ≡ 0)
unfolding monitor_transaction handle_response tick
ended_early = (refl, refl)

-- An answer from 300 to 399 ends the session, and no handler is called.
redirected : (handle_response 302 call (codes "1") (codes "2") (opened 0 quiet)).1 ≡ []
unfolding handle_response
redirected = refl

Reach-again : Reach quiet again
unfolding monitor_transaction handle_response
Reach-again =
    next
      (next (next here (monitoring 0 call (codes "1") (codes "2") (codes "t") refl))
        (responding 200 call (codes "1") (codes "2") refl))
      (monitoring 20000 call (codes "1") (codes "2") (codes "t") refl)

Reach-IsWatched_example : IsWatched again
Reach-IsWatched_example = Reach-IsWatched Reach-again tt

abbrev seconds : List ℕ
seconds = 1000 ∷ 29999 ∷ 30999 ∷ []

d_not_call : call ≢ codes "d"
d_not_call e = ground (arith, e)

watch_lem_example :
    ((watch seconds old_watcher again.active_sessions).1 ≡ has_late 0 seconds)
    × (lookup call (watch seconds old_watcher again.active_sessions).0
        ≡ (if has_late 0 seconds then none else lookup call again.active_sessions))
    × (lookup (codes "d") (watch seconds old_watcher again.active_sessions).0
        ≡ lookup (codes "d") again.active_sessions)
watch_lem_example = watch_lem seconds old_watcher again.active_sessions (codes "d") d_not_call

abbrev line : Line
line = record {
  accepts = true;
  rejects = true;
  call_id = call;
  from_phone = codes "1";
  to_phone = codes "2";
}

abbrev busy : Text
busy = codes "SIP/2.0 486 Busy Here" ++ (13 ∷ 10 ∷ []) ++ codes "Via: SIP/2.0"

-- A busy line ends the reading; a request to hang up does not, nor is anyone told.
readings :
    (process_continuous_response line busy
      ≡ some (rejected call (codes "1") (codes "2") 486 ∷ [], true))
    × (process_continuous_response line (codes "SIP/2.0 200 OK")
        ≡ some (accepted call (codes "1") (codes "2") 200 ∷ [], false))
    × (process_continuous_response line (codes "BYE sip:1@2 SIP/2.0") ≡ some ([], false))
    × (process_immediate_response line [] ≡ none)
unfolding process_continuous_response process_immediate_response
readings = (refl, refl, refl, refl)

process_continuous_response-StopsAtRejection_example :
    IsHandled (λ l. process_continuous_response l busy) line
process_continuous_response-StopsAtRejection_example =
    process_continuous_response-StopsAtRejection line busy
