-- ===== src/Events/Keeping.antt =====
-- Every handler of an event but those of the connection, of the offline sync and of the end of the
-- session keeps the options, the registration and the flags.
use quepasa.Prelude.{
  ℕ, ◌+◌, ◌%◌, ◌^◌, refl, inl, inr, Bool, true, false, none, some, List, [], ◌∷◌, if◌then◌else◌,
  Option-cases, is_some,
}
use quepasa.Strings.{Text, codes}
use quepasa.Whatsapp.Message.{WhatsappMessage, WhatsappMessageStatus, from_group}
use quepasa.Messages.{QpWhatsappMessages, message_status_update}
use quepasa.Incoming.{E2eMessage}
use quepasa.Incoming.Conversion.{handle_knowing_messages}
use quepasa.Events.{
  WhatsmeowHandlers, MessageEvent, ReceiptEvent, CallMeta, JoinedGroupEvent, Effect, World, Outcome,
  ◌then◌,
}
use quepasa.Events.Settings.{
  handles_read_update, handles_read_receipts, handles_calls, get_timestamp,
}
use quepasa.Events.Chats.{chat_of, populate_chat_and_participant, process_mentions}
use quepasa.Events.Messages.{
  follow, follow_all, deliver, after_conversion, finish, process_message, message, received,
  mentioned, is_history_message,
}
use quepasa.Events.Receipts.{announce_read, update_status, update_statuses, receipt, read_receipt}
use quepasa.Events.Notices.{
  call_message, joined_group_event, dispatch_state, send_sync_dispatching,
  send_connection_dispatching,
}
use quepasa.Events.Frame.{
  Frame, Frame-refl, Kept, Kept-trans, bind-Kept, then-Kept, if-Kept, chat_of-Frame, populate-Frame,
  process_mentions-Frame,
}

module _ {ℓ} {C : Type ℓ} (w : World C) where
  pub nothing-Kept :
      (h : WhatsmeowHandlers C) (effects : List (Effect C)) → Kept h (some (h, effects))
  unfolding Kept
  nothing-Kept h effects = Frame-refl h

  pub left-Kept :
      (h left : WhatsmeowHandlers C) (effects : List (Effect C))
      → Frame h left
      → Kept h (some (left, effects))
  unfolding Kept
  left-Kept h left effects k = k

  pub follow-Kept :
      (m : WhatsappMessage C) (from : Text) (h : WhatsmeowHandlers C) → Kept h (follow w m from h)
  unfolding follow
  follow-Kept m from h = bind-Kept h (handles_read_update h) _ (λ read. nothing-Kept h _)

  follow_all-Kept :
      (ms : List (WhatsappMessage C)) (from : Text) (h : WhatsmeowHandlers C)
      → Kept h (follow_all w ms from h)
  unfolding follow_all
  follow_all-Kept [] from h = nothing-Kept h []
  follow_all-Kept (m ∷ ms) from h =
      then-Kept h (follow w m from h) (follow_all w ms from) (follow-Kept m from h)
        (λ left. follow_all-Kept ms from left)

  deliver-Kept :
      (m : WhatsappMessage C) (from : Text) (h : WhatsmeowHandlers C) → Kept h (deliver w m from h)
  unfolding deliver
  deliver-Kept m from h = if-Kept h _ _ _ (nothing-Kept h []) (follow-Kept m from h)

  finish-Kept :
      (e2e : E2eMessage) (from : Text) (m : WhatsappMessage C) (h : WhatsmeowHandlers C)
      → Kept h (finish w e2e from m h)
  unfolding finish
  finish-Kept e2e from m h =
      if-Kept h (from_group m) _ _
        (Kept-trans h (process_mentions w (mentioned e2e) m h).1 _
          (process_mentions-Frame w (mentioned e2e) m h)
          (deliver-Kept ((process_mentions w (mentioned e2e) m h).0) from
            (process_mentions w (mentioned e2e) m h).1))
        (deliver-Kept m from h)

  after_conversion-Kept :
      (e2e : E2eMessage) (from : Text) (c : WhatsappMessage C × List (WhatsappMessage C))
      (h : WhatsmeowHandlers C)
      → Kept h (after_conversion w e2e from c h)
  unfolding after_conversion
  after_conversion-Kept e2e from c h =
      then-Kept h (follow_all w (c.1) (codes "contacts_array") h) (finish w e2e from (c.0))
        (follow_all-Kept (c.1) (codes "contacts_array") h) (finish-Kept e2e from (c.0))

  process_message-Kept :
      (evt : MessageEvent C) (content : C) (e2e : E2eMessage) (from : Text)
      (h : WhatsmeowHandlers C)
      → Kept h (process_message w evt content e2e from h)
  unfolding process_message
  process_message-Kept evt content e2e from h =
      let start = received w content (is_history_message from h) evt in
      let populated = populate_chat_and_participant w start evt.info h in
      Kept-trans h (populated.1) _ (populate-Frame w start evt.info h) (
        bind-Kept (populated.1) (handle_knowing_messages w.library (populated.0) e2e) _
          (λ c. after_conversion-Kept e2e from c (populated.1)))

  pub message-Kept :
      (evt : MessageEvent C) (from : Text) (h : WhatsmeowHandlers C) → Kept h (message w evt from h)
  unfolding message
  message-Kept evt from h = elim (Option-cases evt.message) [
    | inl e ↦ rw (e, message) (nothing-Kept h [])
    | inr (m, e) ↦ rw (e, message) (process_message-Kept evt (m.0) (m.1) from h)
  ]

  choice-Kept :
      (h : WhatsmeowHandlers C) (wanted : Bool) (r s : WhatsmeowHandlers C × List (Effect C))
      → Kept h (some r)
      → Kept h (some s)
      → Kept h (some (if wanted then r else s))
  choice-Kept h true r s p q = p
  choice-Kept h false r s p q = q

  read_receipt-Frame :
      (evt : ReceiptEvent C) (id : Text) (h : WhatsmeowHandlers C)
      → Frame h (read_receipt w evt id h).1
  unfolding read_receipt
  read_receipt-Frame evt id h = chat_of-Frame w evt.chat h

  announce_read-Kept :
      (evt : ReceiptEvent C) (id : Text) (status : WhatsappMessageStatus) (h : WhatsmeowHandlers C)
      → Kept h (announce_read w evt id status h)
  unfolding announce_read
  announce_read-Kept evt id status h =
      if-Kept h _ _ _
        (bind-Kept h (handles_read_receipts h) _ (λ wanted.
          choice-Kept h wanted _ _
            (left-Kept h (read_receipt w evt id h).1 _ (read_receipt-Frame evt id h))
            (nothing-Kept h [])))
        (nothing-Kept h [])

  messages-Frame :
      (h : WhatsmeowHandlers C) (cache : QpWhatsappMessages C)
      → Frame h (record h { wa_handlers = some cache })
  unfolding Frame
  messages-Frame h cache = (refl, refl, refl, refl, refl, refl, refl)

  update_status-Kept :
      (evt : ReceiptEvent C) (id : Text) (status : WhatsappMessageStatus)
      (cache : QpWhatsappMessages C) (h : WhatsmeowHandlers C)
      → Kept h (update_status w evt id status cache h)
  unfolding update_status
  update_status-Kept evt id status cache h =
      let updated = message_status_update w.cache_days w.now cache id status in
      let h' : WhatsmeowHandlers C = record h { wa_handlers = some (updated.0) } in
      Kept-trans h h' _ (messages-Frame h (updated.0))
        (if-Kept h' (updated.1) _ _ (announce_read-Kept evt id status h') (nothing-Kept h' []))

  update_statuses-Kept :
      (evt : ReceiptEvent C) (statuses : List (Text × WhatsappMessageStatus))
      (h : WhatsmeowHandlers C)
      → Kept h (update_statuses w evt statuses h)
  unfolding update_statuses
  update_statuses-Kept evt [] h = nothing-Kept h []
  update_statuses-Kept evt ((id, status) ∷ statuses) h =
      elim h.wa_handlers
        as (λ o. Kept h (elim o as (λ _. Outcome C) [
          | none ↦ some (h, [])
          | some cache ↦ update_status w evt id status cache h then update_statuses w evt statuses
        ])) [
          | none ↦ nothing-Kept h []
          | some cache ↦
              then-Kept h (update_status w evt id status cache h) (update_statuses w evt statuses)
                (update_status-Kept evt id status cache h) (update_statuses-Kept evt statuses)
        ]

  counted-Frame : (n : ℕ) (h : WhatsmeowHandlers C) → Frame h (record h { counter = n })
  unfolding Frame
  counted-Frame n h = (refl, refl, refl, refl, refl, refl, refl)

  pub receipt-Kept : (evt : ReceiptEvent C) (h : WhatsmeowHandlers C) → Kept h (receipt w evt h)
  unfolding receipt
  receipt-Kept evt h =
      let counted : WhatsmeowHandlers C = record h { counter = (h.counter + 1) % 2 ^ 64 } in
      Kept-trans h counted _ (counted-Frame _ h)
        (if-Kept counted _ _ _ (nothing-Kept counted []) (update_statuses-Kept evt _ counted))

  pub call_message-Kept :
      (evt : CallMeta C) (h : WhatsmeowHandlers C) → Kept h (call_message w evt h)
  unfolding call_message
  call_message-Kept evt h =
      bind-Kept h (handles_calls h) _
        (λ handles. left-Kept h (chat_of w evt.from h).1 _ (chat_of-Frame w evt.from h))

  pub get_timestamp-Frame : (h : WhatsmeowHandlers C) → Frame h (get_timestamp w.now h).1
  unfolding get_timestamp Frame
  get_timestamp-Frame h = (refl, refl, refl, refl, refl, refl, refl)

  pub joined_group-Kept :
      (evt : JoinedGroupEvent C) (h : WhatsmeowHandlers C) → Kept h (joined_group_event w evt h)
  unfolding joined_group_event
  joined_group-Kept evt h =
      Kept-trans h (get_timestamp w.now h).1 _ (get_timestamp-Frame h) (follow-Kept _ _ _)

  dispatch_state-Kept :
      (fields : List (Text × Text)) (from : Text) (h : WhatsmeowHandlers C)
      → Kept h (dispatch_state w fields from h)
  unfolding dispatch_state
  dispatch_state-Kept fields from h =
      if-Kept h (is_some h.wa_handlers) _ _
        (left-Kept h (get_timestamp w.now h).1 _ (get_timestamp-Frame h)) (nothing-Kept h [])

  pub send_sync_dispatching-Kept :
      (event : Text) (fields : List (Text × Text)) (h : WhatsmeowHandlers C)
      → Kept h (send_sync_dispatching w event fields h)
  unfolding send_sync_dispatching
  send_sync_dispatching-Kept event fields h = dispatch_state-Kept _ _ h

  pub send_connection_dispatching-Kept :
      (event : Text) (h : WhatsmeowHandlers C) → Kept h (send_connection_dispatching w event h)
  unfolding send_connection_dispatching
  send_connection_dispatching-Kept event h = dispatch_state-Kept _ _ h
