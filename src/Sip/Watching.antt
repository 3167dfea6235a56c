-- ===== src/Sip/Watching.antt =====
-- sipproxy/sipproxy_transaction_monitor.go: no session is forgotten, since each has a watcher.
use quepasa.Prelude.{
  ℕ, ◌+◌, ◌≡◌, refl, ap, ◌≢◌, inl, inr, Bool, true, false, ◌||◌, none, List, [], ◌∷◌, ◌++◌, arith,
  leb, if◌then◌else◌, Bool-cases, Option-cases, All,
}
use quepasa.Strings.{Text, same, before}
use quepasa.Strings.Laws.{same_iff, same_refl}
use quepasa.Maps.{
  lookup, All-insert, All-remove, All-remove_other, All-lookup, lookup-remove, lookup-remove_other,
}
use quepasa.Sip.{
  TransactionSession, Watcher, SipTransactionMonitor, timeout, monitor_transaction,
  remove_active_call, count_response, handle_response, stop, is_overdue, tick, Step, monitoring,
  responding, removing, stopping, ticking, Reach, here, next, watch,
}

unfoldable pub watches : Text → List Watcher → Bool
unfolding same
watches call [] = false
watches call (w ∷ ws) = same w.call_id call || watches call ws

-- Every session that is open has a watcher that has not returned.
abbrev pub IsWatched : SipTransactionMonitor → Type 0
IsWatched stm = All (λ e. watches e.0 stm.watchers ≡ true) stm.active_sessions

watches-append :
    (call : Text) (ws vs : List Watcher)
    → watches call (ws ++ vs) ≡ (watches call ws || watches call vs)
unfolding watches
watches-append call [] vs = refl
watches-append call (w ∷ ws) vs = ground (arith, watches-append call ws vs)

All-mono {ℓ κ μ} :
    {A : Type ℓ} (P : A → Type κ) (Q : A → Type μ) (xs : List A)
    → ((x : A) → P x → Q x)
    → All P xs
    → All Q xs
All-mono P Q [] f a = tt
All-mono P Q (x ∷ xs) f a = (f x a.0, All-mono P Q xs f a.1)

monitor_transaction-IsWatched :
    (now : ℕ) (call from to transaction : Text) (s : SipTransactionMonitor)
    → IsWatched s
    → IsWatched (monitor_transaction now call from to transaction s)
unfolding monitor_transaction watches
monitor_transaction-IsWatched now call from to transaction s v =
    All-insert _ call _ s.active_sessions
      (ground (
        arith,
        watches-append call s.watchers (record { call_id = call; started = now } ∷ []),
        same_refl call,
      ))
      (All-mono _ _ s.active_sessions
        (λ e h.
          ground (
            arith,
            h,
            watches-append e.0 s.watchers (record { call_id = call; started = now } ∷ []),
          ))
        v)

count_response-IsWatched :
    (status : ℕ) (call : Text) (s : SipTransactionMonitor)
    → IsWatched s
    → IsWatched (count_response status call s)
unfolding count_response
count_response-IsWatched status call s v = elim (Option-cases (lookup call s.active_sessions)) [
  | inl e ↦ rw (e, count_response) v
  | inr (session, e) ↦
      rw (e, count_response)
        (All-insert (λ e. watches e.0 s.watchers ≡ true) call _ s.active_sessions
          (All-lookup (λ e. watches e.0 s.watchers ≡ true) call s.active_sessions v e) v)
]

remove_active_call-IsWatched :
    (call : Text) (s : SipTransactionMonitor) → IsWatched s → IsWatched (remove_active_call call s)
unfolding remove_active_call
remove_active_call-IsWatched call s v = All-remove _ call s.active_sessions v

handle_response-IsWatched :
    (status : ℕ) (call from to : Text) (s : SipTransactionMonitor)
    → IsWatched s
    → IsWatched (handle_response status call from to s).0
unfolding handle_response
handle_response-IsWatched status call from to s v = elim (Bool-cases (leb 200 status)) [
  | inl e ↦ rw e (
      remove_active_call-IsWatched call (count_response status call s)
        (count_response-IsWatched status call s v))
  | inr e ↦ rw e (count_response-IsWatched status call s v)
]

-- A watcher that returns was the watcher of its own call only.
tick-IsWatched :
    (now : ℕ) (before : List Watcher) (w : Watcher) (after : List Watcher)
    (s : SipTransactionMonitor)
    → s.watchers ≡ before ++ (w ∷ after)
    → IsWatched s
    → IsWatched (tick now before w after s).0
unfolding tick watches
tick-IsWatched now before w after s q v = elim (Bool-cases (is_overdue now w)) [
  | inr e ↦ rw e v
  | inl e ↦ rw e (
      All-remove_other (λ e. watches e.0 s.watchers ≡ true)
        (λ e. watches e.0 (before ++ after) ≡ true) w.call_id s.active_sessions
        (λ e other h. ground (
          arith,
          h,
          ap (watches e.0) q,
          watches-append e.0 before (w ∷ after),
          watches-append e.0 before after,
          same_iff w.call_id e.0,
          same_iff e.0 w.call_id,
          other,
        ))
        v)
]

Step-IsWatched : {s t : SipTransactionMonitor} → Step s t → IsWatched s → IsWatched t
unfolding stop
Step-IsWatched {s} (monitoring now call from to transaction e) v =
    rw e (monitor_transaction-IsWatched now call from to transaction s v)
Step-IsWatched {s} (responding status call from to e) v =
    rw e (handle_response-IsWatched status call from to s v)
Step-IsWatched {s} (removing call e) v = rw e (remove_active_call-IsWatched call s v)
Step-IsWatched {s} (stopping e) v = rw e tt
Step-IsWatched {s} (ticking now before w after q e) v =
    rw e (tick-IsWatched now before w after s q v)

-- Whatever calls are made, responses come and watchers tick, and in whatever order, every open
-- session has a watcher that has not returned, if that was so at the start.
pub Reach-IsWatched : {s t : SipTransactionMonitor} → Reach s t → IsWatched s → IsWatched t
Reach-IsWatched here v = v
Reach-IsWatched (next r st) v = Step-IsWatched st (Reach-IsWatched r v)

-- Whether one of the times is at least the time limit after a start.
unfoldable pub has_late : ℕ → List ℕ → Bool
has_late start [] = false
has_late start (now ∷ ticks) = leb (start + timeout) now || has_late start ticks

-- A watcher returns exactly where one of its ticks comes at the time limit or later, and then its
-- call has no session; before, the sessions are as they were. The sessions of other calls stay.
pub watch_lem :
    (ticks : List ℕ) (w : Watcher) (sessions : List (Text × TransactionSession)) (other : Text)
    → w.call_id ≢ other
    → ((watch ticks w sessions).1 ≡ has_late w.started ticks)
      × (lookup w.call_id (watch ticks w sessions).0
          ≡ (if has_late w.started ticks then none else lookup w.call_id sessions))
      × (lookup other (watch ticks w sessions).0 ≡ lookup other sessions)
unfolding watch has_late is_overdue
watch_lem [] w sessions other h = (refl, refl, refl)
watch_lem (now ∷ ticks) w sessions other h =
    let (returned, own, others) = watch_lem ticks w sessions other h in
    elim (Bool-cases (leb (w.started + timeout) now)) [
      | inl e ↦ (
        rw (e, watch) refl,
        rw (e, watch) (lookup-remove w.call_id sessions),
        rw (e, watch) (lookup-remove_other w.call_id other sessions h),
      )
      | inr e ↦ (rw (e, watch) returned, rw (e, watch) own, rw (e, watch) others)
    ]
