-- ===== src/Events/Settings.antt =====
-- The options that the handler asks for, its clock, and the receipt types: HandleBroadcasts,
-- HandleGroups, HandleReadReceipts, HandleCalls, HandleReadUpdate, ShouldDispatchUnhandled,
-- HandleHistorySync, GetPresence, getTimestamp, and GetWhatsappMessageStatus and ImproveTimestamp of
-- whatsmeow/whatsmeow_extensions.go.
use quepasa.Prelude.{
  ℕ, ◌+◌, ◌/◌, ◌%◌, ◌^◌, Bool, ◌&&◌, Option, none, some, ◌==◌, if◌then◌else◌, is_some,
}
use quepasa.Strings.{Text, codes, same}
use quepasa.Whatsapp.Booleans.{WhatsappBoolean, unset_boolean}
use quepasa.Whatsapp.Options.{
  WhatsappOptions, handle_groups, handle_broadcasts, handle_read_receipts, handle_calls,
  handle_read_update,
}
use quepasa.Whatsapp.Message.{
  WhatsappMessageStatus, status_unknown, status_error, status_delivered, status_read,
}
use quepasa.Events.{
  WhatsmeowHandlers, ReceiptType, delivered, retry, server_error, read, played, other_receipt,
}

-- The field of the local options, `unset` without them.
abbrev local : Option WhatsappOptions → (WhatsappOptions → WhatsappBoolean) → WhatsappBoolean
local none field = unset_boolean
local (some options) field = field options

module _ {ℓ} {C : Type ℓ} where
  unfoldable pub handles_broadcasts : WhatsmeowHandlers C → Option Bool
  unfolding handle_broadcasts
  handles_broadcasts h = handle_broadcasts h.service (local h.options (λ o. o.broadcasts))

  unfoldable pub handles_groups : WhatsmeowHandlers C → Option Bool
  unfolding handle_groups
  handles_groups h = handle_groups h.service (local h.options (λ o. o.groups))

  unfoldable pub handles_read_receipts : WhatsmeowHandlers C → Option Bool
  unfolding handle_read_receipts
  handles_read_receipts h = handle_read_receipts h.service (local h.options (λ o. o.read_receipts))

  unfoldable pub handles_calls : WhatsmeowHandlers C → Option Bool
  unfolding handle_calls
  handles_calls h = handle_calls h.service (local h.options (λ o. o.calls))

  unfoldable pub handles_read_update : WhatsmeowHandlers C → Option Bool
  unfolding handle_read_update
  handles_read_update h = handle_read_update h.service (local h.options (λ o. o.read_update))

  -- Without a number of days the default is not to handle it.
  unfoldable pub handles_history_sync : WhatsmeowHandlers C → Bool
  handles_history_sync h = is_some h.service.history_sync

  -- `default` is WhatsmeowPresenceDefault.
  unfoldable pub get_presence : WhatsmeowHandlers C → Text
  unfolding same
  get_presence h =
      if same h.service.presence (codes "available")
      then codes "available"
      else if same h.service.presence (codes "unavailable")
      then codes "unavailable"
      else codes "unavailable"

  unfoldable pub get_timestamp : ℕ → WhatsmeowHandlers C → ℕ × WhatsmeowHandlers C
  get_timestamp now h =
      let sequence = (h.event_sequence + 1) % 2 ^ 64 in
      (now + sequence % 1000000, record h { event_sequence = sequence })

unfoldable pub get_whatsapp_message_status : ReceiptType → WhatsappMessageStatus
get_whatsapp_message_status delivered = status_delivered
get_whatsapp_message_status retry = status_error
get_whatsapp_message_status server_error = status_error
get_whatsapp_message_status read = status_read
get_whatsapp_message_status played = status_read
get_whatsapp_message_status other_receipt = status_unknown

abbrev second : ℕ
second = 1000000000

-- A time in nanoseconds since the epoch, whose zone has whole minutes.
unfoldable pub improve_timestamp : ℕ → ℕ → ℕ
improve_timestamp now t =
    if (t % second == 0) && (t / second % 60 == now / second % 60) then t + now % second else t
