-- ===== src/Sip.antt =====
-- sipproxy/sipproxy_transaction_monitor.go: the SIP transactions of calls that are open, each watched by a
-- goroutine. A response is its status; the two handlers are called, where they are set, with the
-- call, the telephones and the status. Times are in milliseconds.
pub mod Responses
mod Watching
mod Tests
use quepasa.Prelude.{
  ℕ, zero, suc, ◌+◌, ◌-◌, ◌*◌, ◌/◌, ◌%◌, ◌^◌, ◌≤◌, ◌<◌, String, ◌≡◌, refl, sym, ap, ◌∙◌, ◌≢◌, ◌↔◌,
  ◌⊎◌, inl, inr, Bool, true, false, ◌&&◌, ◌||◌, not, Option, none, some, List, [], ◌∷◌, ◌++◌, map,
  arith, ltb, leb, ◌==◌, if◌then◌else◌, ltb→lt, lt→ltb, leb→le, le→leb, ==_iff, not_zero, tests,
  Bool-cases, Option-cases, sum-cases, is_some, length, get_elem?, take, drop, length-append,
  drop-append, length-take-le, All, ℤ, pos, negsuc, int_eq, int_eq_iff, ne_of_int_eq, All-append,
  ◌>>=◌,
}
use quepasa.Strings.{
  Text, codes, same, contains, has_prefix, has_suffix, contains_text, without, trim_left, trim,
  split, before, is_space, trim_space, to_upper, to_lower, is_digit, upper, lower, trim_space_left,
  trim_space_right,
}
use quepasa.Maps.{lookup, insert, remove}

pub record TransactionSession : Type 0 where
  pub call_id : Text
  pub from_phone : Text
  pub to_phone : Text
  pub transaction_id : Text
  pub start_time : ℕ
  pub response_count : ℕ
  pub last_response : Option ℕ

-- A goroutine of monitorTransactionResponses, with its `startTime`.
pub record Watcher : Type 0 where
  pub call_id : Text
  pub started : ℕ

pub record SipTransactionMonitor : Type 0 where
  pub active_sessions : List (Text × TransactionSession)
  pub watchers : List Watcher
  pub accepts : Bool
  pub rejects : Bool

-- The calls of callAcceptedHandler and callRejectedHandler.
pub data Report : Type 0 where
  accepted rejected : Text → Text → Text → ℕ → Report

abbrev pub timeout : ℕ
timeout = 30000

unfoldable pub monitor_transaction :
    ℕ → Text → Text → Text → Text → SipTransactionMonitor → SipTransactionMonitor
unfolding insert
monitor_transaction now call from to transaction stm = record stm {
  active_sessions =
      insert call
        (record {
          call_id = call;
          from_phone = from;
          to_phone = to;
          transaction_id = transaction;
          start_time = now;
          response_count = 0;
          last_response = none;
        })
        stm.active_sessions;
  watchers = stm.watchers ++ (record { call_id = call; started = now } ∷ []);
}

unfoldable pub remove_active_call : Text → SipTransactionMonitor → SipTransactionMonitor
unfolding remove
remove_active_call call stm = record stm { active_sessions = remove call stm.active_sessions }

-- The session counts the response.
unfoldable pub count_response : ℕ → Text → SipTransactionMonitor → SipTransactionMonitor
unfolding lookup insert
count_response status call stm = elim (lookup call stm.active_sessions) [
  | none ↦ stm
  | some session ↦ record stm {
    active_sessions =
        insert call
          (record session {
            response_count = suc session.response_count;
            last_response = some status;
          })
          stm.active_sessions;
  }
]

unfoldable pub reports : Bool → Bool → ℕ → Text → Text → Text → List Report
reports accepts rejects status call from to =
    if leb 200 status && ltb status 300
    then (if accepts then accepted call from to status ∷ [] else [])
    else if leb 400 status
    then (if rejects then rejected call from to status ∷ [] else [])
    else []

unfoldable pub handle_response :
    ℕ → Text → Text → Text → SipTransactionMonitor → SipTransactionMonitor × List Report
unfolding count_response reports remove_active_call
handle_response status call from to stm =
    let counted = count_response status call stm in
    (
      if leb 200 status then remove_active_call call counted else counted,
      reports stm.accepts stm.rejects status call from to,
    )

unfoldable pub get_active_sessions_count : SipTransactionMonitor → ℕ
get_active_sessions_count stm = length stm.active_sessions

unfoldable pub stop : SipTransactionMonitor → SipTransactionMonitor
stop stm = record stm { active_sessions = [] }

unfoldable pub is_overdue : ℕ → Watcher → Bool
is_overdue now w = leb (w.started + timeout) now

-- A tick of a watcher that stands between others, and whether it returns.
unfoldable pub tick :
    ℕ → List Watcher → Watcher → List Watcher → SipTransactionMonitor → SipTransactionMonitor × Bool
unfolding is_overdue remove
tick now before w after stm =
    if is_overdue now w
    then (
      record stm {
        active_sessions = remove w.call_id stm.active_sessions;
        watchers = before ++ after;
      },
      true,
    )
    else (stm, false)

-- The calls of the monitor and the ticks of its watchers, in any order.
pub data Step (s t : SipTransactionMonitor) : Type 0 where
  monitoring :
      (now : ℕ) (call from to transaction : Text)
      → t ≡ monitor_transaction now call from to transaction s
      → Step s t
  responding :
      (status : ℕ) (call from to : Text) → t ≡ (handle_response status call from to s).0 → Step s t
  removing : (call : Text) → t ≡ remove_active_call call s → Step s t
  stopping : t ≡ stop s → Step s t
  ticking :
      (now : ℕ) (before : List Watcher) (w : Watcher) (after : List Watcher)
      → s.watchers ≡ before ++ (w ∷ after)
      → t ≡ (tick now before w after s).0
      → Step s t

pub data Reach (s : SipTransactionMonitor) : SipTransactionMonitor → Type 0 where
  here : Reach s s
  next : {t u : SipTransactionMonitor} → Reach s t → Step t u → Reach s u

-- The ticks of one watcher alone, at the given times, and whether it has returned.
unfoldable pub watch :
    List ℕ → Watcher → List (Text × TransactionSession) → List (Text × TransactionSession) × Bool
unfolding is_overdue remove
watch [] w sessions = (sessions, false)
watch (now ∷ ticks) w sessions =
    let rest = watch ticks w sessions in
    if is_overdue now w then (remove w.call_id sessions, true) else rest
