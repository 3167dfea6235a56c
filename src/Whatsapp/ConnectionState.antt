-- ===== src/Whatsapp/ConnectionState.antt =====
-- whatsapp/whatsapp_connection_state.go, and `IsValidToStart` of models/qp_whatsapp_server.go.
mod Names
mod Tests
use quepasa.Prelude.{
  ℕ, zero, suc, ◌+◌, ◌-◌, ◌*◌, ◌/◌, ◌%◌, ◌^◌, ◌≤◌, ◌<◌, String, ◌≡◌, refl, sym, ap, ◌∙◌, ◌≢◌, ◌↔◌,
  ◌⊎◌, inl, inr, Bool, true, false, ◌&&◌, ◌||◌, not, Option, none, some, List, [], ◌∷◌, ◌++◌, map,
  arith, ltb, leb, ◌==◌, if◌then◌else◌, ltb→lt, lt→ltb, leb→le, le→leb, ==_iff, tests, Bool-cases,
  Option-cases, is_some, length, get_elem?, take, drop, length-append, drop-append, length-take-le,
  All, ℤ, pos, negsuc, int_eq, int_eq_iff, ne_of_int_eq,
}
use quepasa.Strings.{
  Text, codes, same, contains, has_prefix, has_suffix, contains_text, without, trim_left, trim,
  split, before, is_space, trim_space, to_upper, to_lower, is_digit,
}

pub data WhatsappConnectionState : Type 0 where
  unknown unprepared unverified starting connecting stopping stopped restarting reconnecting
        connected fetching ready halting disconnected failed :
      WhatsappConnectionState

unfoldable pub enum_index : WhatsappConnectionState → ℕ
enum_index unknown = 0
enum_index unprepared = 1
enum_index unverified = 2
enum_index starting = 3
enum_index connecting = 4
enum_index stopping = 5
enum_index stopped = 6
enum_index restarting = 7
enum_index reconnecting = 8
enum_index connected = 9
enum_index fetching = 10
enum_index ready = 11
enum_index halting = 12
enum_index disconnected = 13
enum_index failed = 14

unfoldable pub state_string : WhatsappConnectionState → Text
state_string unknown = codes "Unknown"
state_string unprepared = codes "UnPrepared"
state_string unverified = codes "UnVerified"
state_string starting = codes "Starting"
state_string connecting = codes "Connecting"
state_string stopping = codes "Stopping"
state_string stopped = codes "Stopped"
state_string restarting = codes "Restarting"
state_string reconnecting = codes "Reconnecting"
state_string connected = codes "Connected"
state_string fetching = codes "Fetching"
state_string ready = codes "Ready"
state_string halting = codes "Halting"
state_string disconnected = codes "Disconnected"
state_string failed = codes "Failed"

unfoldable pub is_healthy : WhatsappConnectionState → Bool
is_healthy ready = true
is_healthy stopped = true
is_healthy _ = false

unfoldable pub is_valid_to_start : WhatsappConnectionState → Bool
is_valid_to_start stopped = true
is_valid_to_start stopping = true
is_valid_to_start disconnected = true
is_valid_to_start failed = true
is_valid_to_start _ = false

-- The map of `UnmarshalJSON`.
states : List (Text × WhatsappConnectionState)
states =
    (codes "Unknown", unknown)
    ∷ (codes "UnPrepared", unprepared)
    ∷ (codes "UnVerified", unverified)
    ∷ (codes "Starting", starting)
    ∷ (codes "Connecting", connecting)
    ∷ (codes "Stopping", stopping)
    ∷ (codes "Stopped", stopped)
    ∷ (codes "Restarting", restarting)
    ∷ (codes "Reconnecting", reconnecting)
    ∷ (codes "Connected", connected)
    ∷ (codes "Fetching", fetching)
    ∷ (codes "Ready", ready)
    ∷ (codes "Halting", halting)
    ∷ (codes "Disconnected", disconnected)
    ∷ (codes "Failed", failed)
    ∷ []

state_of : Text → List (Text × WhatsappConnectionState) → WhatsappConnectionState
unfolding same
state_of str [] = unknown
state_of str ((name, state) ∷ rest) = if same name str then state else state_of str rest

-- The JSON text is decoded by the library: `none` is its error, which is passed on.
unfoldable pub unmarshal_state : Option Text → Option WhatsappConnectionState
unfolding states state_of
unmarshal_state none = none
unmarshal_state (some str) = some (state_of str states)
