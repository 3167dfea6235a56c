-- ===== src/Routing.antt =====
-- models/qp_whatsapp_server_extensions.go, `PostToDispatchingFromServer`, and of qp_dispatching.go
-- `Dispatch` and `DetermineRoutingKey`: which destinations of a server get a message, and by which
-- way. A call of a destination is what it is called with; its result is logged and nothing else. A
-- panic is `none`.
mod Choice
mod Tests
use quepasa.Prelude.{
  ℕ, zero, suc, ◌+◌, ◌-◌, ◌*◌, ◌/◌, ◌%◌, ◌^◌, ◌≤◌, ◌<◌, String, ◌≡◌, refl, sym, ap, ◌∙◌, ◌≢◌, ◌↔◌,
  ◌⊎◌, inl, inr, Bool, true, false, ◌&&◌, ◌||◌, not, Option, none, some, List, [], ◌∷◌, ◌++◌, map,
  arith, ltb, leb, ◌==◌, if◌then◌else◌, ltb→lt, lt→ltb, leb→le, le→leb, ==_iff, tests, Bool-cases,
  Option-cases, sum-cases, is_some, length, get_elem?, take, drop, length-append, drop-append,
  length-take-le, All, ℤ, pos, negsuc, int_eq, int_eq_iff, ne_of_int_eq, All-append, ◌>>=◌,
}
use quepasa.Strings.{
  Text, codes, same, contains, has_prefix, has_suffix, contains_text, without, trim_left, trim,
  split, before, is_space, trim_space, to_upper, to_lower, is_digit, upper, lower, trim_space_left,
  trim_space_right,
}
use quepasa.Whatsapp.Booleans.{WhatsappBoolean, unset_boolean, boolean}
use quepasa.Whatsapp.Message.{
  WhatsappMessage, WhatsappMessageType, call, contact, unhandled, from_group, from_broadcast,
}
use quepasa.Dispatching.{QpDispatching, is_webhook, is_rabbitmq}

-- `post_webhook` and `publish_rabbitmq` of Dispatch; `none` is its error for another type.
pub data Transport : Type 0 where
  post_webhook publish_rabbitmq : Transport

unfoldable pub transport : QpDispatching → Option Transport
unfolding is_webhook is_rabbitmq
transport d =
    if is_webhook d
    then some post_webhook
    else if is_rabbitmq d
    then some publish_rabbitmq
    else none

unfoldable pub is_call : WhatsappMessageType → Bool
is_call call = true
is_call _ = false

unfoldable pub is_contact : WhatsappMessageType → Bool
is_contact contact = true
is_contact _ = false

unfoldable pub is_unhandled : WhatsappMessageType → Bool
is_unhandled unhandled = true
is_unhandled _ = false

-- `applies && option is set && !option.Boolean()`
unfoldable pub refuses : Bool → WhatsappBoolean → Option Bool
unfolding boolean
refuses false option = some false
refuses true option =
    if int_eq option unset_boolean
    then some false
    else boolean option >>= (λ value. some (not value))

module _ {ℓ} {C : Type ℓ} where
  unfoldable pub is_read_receipt : WhatsappMessage C → Bool
  unfolding same
  is_read_receipt msg = same msg.id (codes "readreceipt")

  unfoldable pub is_event_message : WhatsappMessage C → Bool
  unfolding is_unhandled is_contact is_read_receipt
  is_event_message msg =
      if is_unhandled msg.type
      then true
      else if is_contact msg.type
      then msg.edited && is_some msg.attachment
      else is_read_receipt msg

  unfoldable pub determine_routing_key : WhatsappMessage C → Text
  unfolding is_event_message
  determine_routing_key msg =
      if msg.from_history
      then codes "history"
      else if is_event_message msg
      then codes "events"
      else codes "prod"

  -- The message of a server's own API goes back only where it is asked for, and not to its sender.
  unfoldable pub forwards : QpDispatching → WhatsappMessage C → Bool
  unfolding same
  forwards d msg =
      not msg.from_internal
      || (d.forward_internal && ((length d.track_id == 0) || not (same d.track_id msg.track_id)))

  -- The tests of the loop, in their order.
  unfoldable pub accepts : QpDispatching → WhatsappMessage C → Option Bool
  unfolding refuses is_read_receipt is_call forwards from_group from_broadcast
  accepts d msg = do
    receipt ← refuses (is_read_receipt msg) d.options.read_receipts
    if receipt then some false else do
      groups ← refuses (from_group msg) d.options.groups
      if groups then some false else do
        broadcasts ← refuses (from_broadcast msg) d.options.broadcasts
        if broadcasts then some false else do
          calls ← refuses (is_call msg.type) d.options.calls
          if calls then some false else some (forwards d msg)

  -- The destinations that are called, in their order.
  unfoldable pub post_to_dispatching :
      List QpDispatching → WhatsappMessage C → Option (List QpDispatching)
  unfolding accepts
  post_to_dispatching [] msg = some []
  post_to_dispatching (d ∷ ds) msg = do
    accepted ← accepts d msg
    rest ← post_to_dispatching ds msg
    if accepted then some (d ∷ rest) else some rest
