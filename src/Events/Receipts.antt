-- ===== src/Events/Receipts.antt =====
-- Receipt: the statuses of messages that are read or delivered. The WAHandlers answer whether the status
-- of a message rose (MessageStatusUpdate, of models/qp_whatsapp_messages.go). A `range` over the map of
-- statuses goes in some order: here, that in which the ids come.
use quepasa.Prelude.{
  ◌+◌, ◌%◌, ◌^◌, Bool, ◌||◌, none, some, List, [], ◌∷◌, ltb, ◌==◌, if◌then◌else◌, ◌>>=◌,
}
use quepasa.Strings.{Text, codes, contains_text}
use quepasa.Maps.{lookup, insert}
use quepasa.Whatsapp.Message.{WhatsappMessage, WhatsappMessageStatus, system, blank, status_rank}
use quepasa.Messages.{QpWhatsappMessages, message_status_update, or_unknown}
use quepasa.Contacts.Chats.{jid_id}
use quepasa.Events.{WhatsmeowHandlers, ReceiptEvent, handle_receipt, World, Outcome, ◌then◌}
use quepasa.Events.Settings.{handles_read_receipts, get_whatsapp_message_status}
use quepasa.Events.Chats.{chat_of}

-- The loop that fills the map: an id has its status when it is above the one it has so far.
unfoldable pub statuses_of :
    WhatsappMessageStatus
    → List Text
    → List (Text × WhatsappMessageStatus)
    → List (Text × WhatsappMessageStatus)
unfolding lookup insert or_unknown status_rank
statuses_of current [] statuses = statuses
statuses_of current (id ∷ ids) statuses = statuses_of current ids (
    if ltb (status_rank (or_unknown (lookup id statuses))) (status_rank current)
    then insert id current statuses
    else statuses)

-- The chats whose receipts are passed over.
unfoldable pub is_ignored : Text → Bool
unfolding contains_text
is_ignored chat =
    contains_text chat (codes "@broadcast")
    || contains_text chat (codes "@newsletter")
    || contains_text chat (codes "@g.us")

module _ {ℓ} {C : Type ℓ} where
  -- The receipt that is passed on: its text is the id of the message that was read.
  unfoldable pub read_receipt :
      World C
      → ReceiptEvent C
      → Text
      → WhatsmeowHandlers C
      → WhatsappMessage C × WhatsmeowHandlers C
  unfolding chat_of
  read_receipt w evt id h =
      let (chat, h') = chat_of w evt.chat h in
      (
        record (blank {C = C}) {
          content = some evt.content;
          id = codes "readreceipt";
          timestamp = evt.timestamp;
          chat = chat;
          type = system;
          text = id;
        },
        h',
      )

  -- What follows a status that rose.
  unfoldable pub announce_read :
      World C → ReceiptEvent C → Text → WhatsappMessageStatus → WhatsmeowHandlers C → Outcome C
  unfolding read_receipt handles_read_receipts status_rank
  announce_read w evt id status h =
      let (receipt, h') = read_receipt w evt id h in
      if status_rank status == 4
      then handles_read_receipts h
        >>= (λ wanted. some (if wanted then (h', handle_receipt receipt ∷ []) else (h, [])))
      else some (h, [])

  unfoldable pub update_status :
      World C
      → ReceiptEvent C
      → Text
      → WhatsappMessageStatus
      → QpWhatsappMessages C
      → WhatsmeowHandlers C
      → Outcome C
  unfolding announce_read message_status_update
  update_status w evt id status cache h =
      let (cache', updated) = message_status_update w.cache_days w.now cache id status in
      let h' : WhatsmeowHandlers C = record h { wa_handlers = some cache' } in
      if updated then announce_read w evt id status h' else some (h', [])

  unfoldable pub update_statuses :
      World C
      → ReceiptEvent C
      → List (Text × WhatsappMessageStatus)
      → WhatsmeowHandlers C
      → Outcome C
  unfolding update_status
  update_statuses w evt [] h = some (h, [])
  update_statuses w evt ((id, status) ∷ statuses) h = elim h.wa_handlers [
    | none ↦ some (h, [])
    | some cache ↦ update_status w evt id status cache h then update_statuses w evt statuses
  ]

  unfoldable pub receipt : World C → ReceiptEvent C → WhatsmeowHandlers C → Outcome C
  unfolding is_ignored statuses_of get_whatsapp_message_status update_statuses
  receipt w evt h =
      let counted : WhatsmeowHandlers C = record h { counter = (h.counter + 1) % 2 ^ 64 } in
      if is_ignored (jid_id evt.chat)
      then some (counted, [])
      else update_statuses w evt
          (statuses_of (get_whatsapp_message_status evt.type) evt.message_ids []) counted
