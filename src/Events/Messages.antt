-- ===== src/Events/Messages.antt =====
-- Follow, MarkRead, isHistoryMessage, Message and OnHistorySyncEvent.
use quepasa.Prelude.{
  Bool, true, false, ◌&&◌, ◌||◌, not, Option, none, some, List, [], ◌∷◌, ◌++◌, if◌then◌else◌,
  is_some, ◌>>=◌,
}
use quepasa.Strings.{Text, codes, same}
use quepasa.Whatsapp.Options.{handle_history}
use quepasa.Whatsapp.Message.{
  WhatsappMessage, WhatsappMessageType, unhandled, blank, from_group, from_broadcast,
}
use quepasa.Incoming.{E2eMessage}
use quepasa.Incoming.Conversion.{handle_knowing_messages}
use quepasa.Events.{
  WhatsmeowHandlers, MessageEvent, HistoryMessage, Conversation, Effect, mark_read, handle_message,
  World, Outcome, ◌then◌,
}
use quepasa.Events.Settings.{handles_read_update, improve_timestamp}
use quepasa.Events.Chats.{populate_chat_and_participant, process_mentions}

unfoldable pub is_unhandled : WhatsappMessageType → Bool
is_unhandled unhandled = true
is_unhandled _ = false

-- The contextInfo of an extended text, for its mentions.
unfoldable pub mentioned : E2eMessage → List Text
mentioned m = elim m.extended_text_message [
  | none ↦ []
  | some text ↦ elim text.context_info [ none ↦ [] | some info ↦ info.mentioned_jid ]
]

module _ {ℓ} {C : Type ℓ} where
  -- MarkRead: nothing is sent where a JID does not parse.
  unfoldable pub marks_read : World C → WhatsappMessage C → List (Effect C)
  marks_read w message = elim (w.parse_jid message.chat.id) [
    | none ↦ []
    | some chat ↦ elim message.participant [
      | none ↦ mark_read message.id chat none ∷ []
      | some participant ↦ elim (w.parse_jid participant.id) [
        | none ↦ []
        | some sender ↦ mark_read message.id chat (some sender) ∷ []
      ]
    ]
  ]

  -- The call of WAHandlers.Message, where they are set.
  unfoldable pub handed : WhatsmeowHandlers C → WhatsappMessage C → Text → List (Effect C)
  handed h message from = if is_some h.wa_handlers then handle_message message from ∷ [] else []

  unfoldable pub follow : World C → WhatsappMessage C → Text → WhatsmeowHandlers C → Outcome C
  unfolding handed handles_read_update from_broadcast marks_read
  follow w message from h = handles_read_update h >>= (λ read. some (
    h,
    handed h message from
        ++ (if read && not (from_broadcast message) then marks_read w message else []),
  ))

  unfoldable pub follow_all :
      World C → List (WhatsappMessage C) → Text → WhatsmeowHandlers C → Outcome C
  unfolding follow
  follow_all w [] from h = some (h, [])
  follow_all w (message ∷ messages) from h = follow w message from h then follow_all w messages from

  unfoldable pub is_history_message : Text → WhatsmeowHandlers C → Bool
  unfolding same
  is_history_message from h =
      same from (codes "history") || h.offline_sync_started && not h.offline_sync_completed

  -- The message of an event before its chat and its content are known.
  unfoldable pub received : World C → C → Bool → MessageEvent C → WhatsappMessage C
  unfolding improve_timestamp
  received w content from_history evt = record (blank {C = C}) {
    content = some content;
    id = evt.info.id;
    timestamp = improve_timestamp w.now evt.info.timestamp;
    from_me = evt.info.is_from_me;
    from_history = from_history;
  }

  -- An unhandled message of the history is not followed.
  unfoldable pub deliver : World C → WhatsappMessage C → Text → WhatsmeowHandlers C → Outcome C
  unfolding follow is_unhandled
  deliver w message from h =
      if is_unhandled message.type && message.from_history
      then some (h, [])
      else follow w message from h

  -- The mentions of a message of a group, and Follow.
  unfoldable pub finish :
      World C → E2eMessage → Text → WhatsappMessage C → WhatsmeowHandlers C → Outcome C
  unfolding from_group process_mentions mentioned deliver
  finish w e2e from message h =
      let (formatted, h') = process_mentions w (mentioned e2e) message h in
      if from_group message then deliver w formatted from h' else deliver w message from h

  -- The rest of Message for a message that is converted: the further messages are followed first.
  unfoldable pub after_conversion :
      World C
      → E2eMessage
      → Text
      → WhatsappMessage C × List (WhatsappMessage C)
      → WhatsmeowHandlers C
      → Outcome C
  unfolding follow_all finish
  after_conversion w e2e from converted h =
      follow_all w (converted.1) (codes "contacts_array") h then finish w e2e from (converted.0)

  unfoldable pub process_message :
      World C → MessageEvent C → C → E2eMessage → Text → WhatsmeowHandlers C → Outcome C
  unfolding received populate_chat_and_participant is_history_message handle_knowing_messages
      after_conversion
  process_message w evt content e2e from h =
      let (message, h') =
        populate_chat_and_participant w (received w content (is_history_message from h) evt)
          evt.info h in
      handle_knowing_messages w.library message e2e
      >>= (λ converted. after_conversion w e2e from converted h')

  -- Message: an event without a message is dropped.
  unfoldable pub message : World C → MessageEvent C → Text → WhatsmeowHandlers C → Outcome C
  unfolding process_message
  message w evt from h = elim evt.message [
    | none ↦ some (h, [])
    | some (content, e2e) ↦ process_message w evt content e2e from h
  ]

  -- The loop over the messages of a conversation. The answer tells whether the sync goes on: it ends
  -- at the first id or message that does not parse.
  unfoldable pub history_messages :
      World C
      → Text
      → List (HistoryMessage C)
      → WhatsmeowHandlers C
      → Option (Bool × (WhatsmeowHandlers C × List (Effect C)))
  unfolding message handle_history
  history_messages w id [] h = some (true, (h, []))
  history_messages w id (m ∷ ms) h = elim (w.parse_jid id) [
    | none ↦ some (false, (h, []))
    | some chat ↦
        if handle_history w.history_limit h.service m.message_timestamp
        then elim (m.parse chat) [
          | none ↦ some (false, (h, []))
          | some evt ↦ message w evt (codes "history") h >>= (λ r.
              history_messages w id ms r.0 >>= (λ rest. some (rest.0, (rest.1.0, r.1 ++ rest.1.1))))
        ]
        else history_messages w id ms h
  ]

  unfoldable pub history_conversations :
      World C → List (Conversation C) → WhatsmeowHandlers C → Outcome C
  unfolding history_messages
  history_conversations w [] h = some (h, [])
  history_conversations w (c ∷ cs) h =
      history_messages w c.id c.messages h
      >>= (λ r. if r.0 then some r.1 then history_conversations w cs else some r.1)

  unfoldable pub on_history_sync_event :
      World C → List (Conversation C) → WhatsmeowHandlers C → Outcome C
  unfolding history_conversations
  on_history_sync_event w conversations h =
      if is_some h.service.history_sync
      then history_conversations w conversations h
      else some (h, [])
