-- ===== src/Events/Reading.antt =====
-- The receipts of messages that were read, and the statuses in the server's cache.
use quepasa.Prelude.{
  ℕ, ◌+◌, ◌%◌, ◌^◌, ◌≡◌, refl, sym, ap, ◌∙◌, inl, inr, Bool, true, false, ◌&&◌, Option, none, some,
  List, [], ◌∷◌, ◌++◌, ◌==◌, if◌then◌else◌, Bool-cases, ◌>>=◌,
}
use quepasa.Strings.{Text}
use mathlib.Core.Path.{subst}
use quepasa.Whatsapp.Message.{WhatsappMessage, WhatsappMessageStatus, status_rank}
use quepasa.Messages.{QpWhatsappMessages, message_status_update}
use quepasa.Contacts.Chats.{jid_id}
use quepasa.Events.{WhatsmeowHandlers, ReceiptEvent, Effect, handle_receipt, World, Outcome, ◌then◌}
use quepasa.Events.Settings.{handles_read_receipts, get_whatsapp_message_status}
use quepasa.Events.Receipts.{
  announce_read, update_status, update_statuses, receipt, read_receipt, statuses_of, is_ignored,
}
use quepasa.Events.Unregistered.{if_false}
use quepasa.Events.Chats.{chat_of}

nothing_wanted : (wanted : Bool) → ◌≡◌ {A = List Text} [] (if wanted then [] else [])
nothing_wanted true = refl
nothing_wanted false = refl

module _ {ℓ} {C : Type ℓ} where
  -- The updates of the statuses, and the ids of which the status rose to that of a read message.
  unfoldable pub raise_all :
      ℕ
      → ℕ
      → List (Text × WhatsappMessageStatus)
      → QpWhatsappMessages C
      → QpWhatsappMessages C × List Text
  unfolding message_status_update status_rank
  raise_all days now [] cache = (cache, [])
  raise_all days now ((id, status) ∷ statuses) cache =
      let (raised, updated) = message_status_update days now cache id status in
      let (last, ids) = raise_all days now statuses raised in
      (last, if updated && (status_rank status == 4) then id ∷ ids else ids)

  -- The texts of the receipts that are passed on.
  unfoldable pub receipts_of : List (Effect C) → List Text
  receipts_of [] = []
  receipts_of (handle_receipt message ∷ effects) = message.text ∷ receipts_of effects
  receipts_of (_ ∷ effects) = receipts_of effects

  -- An outcome that is no panic, with the cache and the receipts that are given.
  unfoldable pub Tells : QpWhatsappMessages C → List Text → Outcome C → Type ℓ
  unfolding receipts_of
  Tells cache ids none = none ≡ some cache
  Tells cache ids (some (left, effects)) =
      (left.wa_handlers ≡ some cache) × (receipts_of effects ≡ ids)

  -- The answer of HandleReadReceipts, and the receipt.
  told : WhatsappMessage C × WhatsmeowHandlers C → WhatsmeowHandlers C → Option Bool → Outcome C
  told (message, left) h o =
      o >>= (λ b. some (if b then (left, handle_receipt message ∷ []) else (h, [])))

  announce_read-eq :
      (w : World C) (evt : ReceiptEvent C) (id : Text) (status : WhatsappMessageStatus)
      (h : WhatsmeowHandlers C) (wanted : Bool)
      → handles_read_receipts h ≡ some wanted
      → announce_read w evt id status h
        ≡ some (
            if (status_rank status == 4) && wanted
            then ((read_receipt w evt id h).1, handle_receipt (read_receipt w evt id h).0 ∷ [])
            else (h, []))
  unfolding announce_read told
  announce_read-eq w evt id status h wanted e = elim (Bool-cases (status_rank status == 4)) [
    | inl q ↦ rw q (ap (told (read_receipt w evt id h) h) e)
    | inr q ↦ rw q refl
  ]

  after-Tells :
      (cache : QpWhatsappMessages C) (ids : List Text) (effects : List (Effect C)) (o : Outcome C)
      (more : List Text)
      → receipts_of effects ++ ids ≡ more
      → ((rest : List (Effect C))
          → receipts_of (effects ++ rest) ≡ receipts_of effects ++ receipts_of rest)
      → Tells cache ids o
      → Tells cache more (o >>= (λ r. some (r.0, effects ++ r.1)))
  unfolding Tells
  after-Tells cache ids effects none more e a k = k
  after-Tells cache ids effects (some (left, rest)) more e a k =
      (k.0, a rest ∙ ap (λ t. receipts_of effects ++ t) (k.1) ∙ e)

  -- One status: it rose or not, it is that of a read message or not, receipts are wanted or not.
  one_status-Tells :
      (rose is_read wanted : Bool) (cache : QpWhatsappMessages C) (id : Text) (ids : List Text)
      (told_to untold : WhatsmeowHandlers C) (r : WhatsappMessage C)
      (f : WhatsmeowHandlers C → Outcome C)
      → r.text ≡ id
      → Tells cache (if wanted then ids else []) (f told_to)
      → Tells cache (if wanted then ids else []) (f untold)
      → Tells cache (if wanted then (if rose && is_read then id ∷ ids else ids) else []) (
          some
            (if rose && (is_read && wanted) then (told_to, handle_receipt r ∷ []) else (untold, []))
          then f)
  unfolding receipts_of
  one_status-Tells true true true cache id ids a b r f e k n =
      after-Tells cache ids (handle_receipt r ∷ []) (f a) (id ∷ ids) (ap (λ t. t ∷ ids) e)
        (λ rest. refl) k
  one_status-Tells true true false cache id ids a b r f e k n =
      after-Tells cache [] [] (f b) [] refl (λ rest. refl) n
  one_status-Tells true false wanted cache id ids a b r f e k n =
      after-Tells cache (if wanted then ids else []) [] (f b) (if wanted then ids else []) refl
        (λ rest. refl) n
  one_status-Tells false is_read wanted cache id ids a b r f e k n =
      after-Tells cache (if wanted then ids else []) [] (f b) (if wanted then ids else []) refl
        (λ rest. refl) n

  -- The handler with the cache in which a status was raised.
  raised_in :
      World C
      → Text
      → WhatsappMessageStatus
      → QpWhatsappMessages C
      → WhatsmeowHandlers C
      → WhatsmeowHandlers C
  unfolding message_status_update
  raised_in w id status cache h = record h {
    wa_handlers = some (message_status_update w.cache_days w.now cache id status).0;
  }

  module _ (w : World C) (evt : ReceiptEvent C) (wanted : Bool) where
    update_status-eq :
        (id : Text) (status : WhatsappMessageStatus) (cache : QpWhatsappMessages C)
        (h : WhatsmeowHandlers C)
        → handles_read_receipts h ≡ some wanted
        → update_status w evt id status cache h
          ≡ some (
              if (message_status_update w.cache_days w.now cache id status).1
                && ((status_rank status == 4) && wanted)
              then (
                (read_receipt w evt id (raised_in w id status cache h)).1,
                handle_receipt (read_receipt w evt id (raised_in w id status cache h)).0 ∷ [],
              )
              else (raised_in w id status cache h, []))
    unfolding update_status raised_in handles_read_receipts
    update_status-eq id status cache h k =
        elim (Bool-cases (message_status_update w.cache_days w.now cache id status).1) [
          | inl e ↦ rw e (announce_read-eq w evt id status (raised_in w id status cache h) wanted k)
          | inr e ↦ rw e refl
        ]

    with_cache :
        (id : Text) (status : WhatsappMessageStatus)
        (statuses : List (Text × WhatsappMessageStatus)) (cache : QpWhatsappMessages C)
        (h : WhatsmeowHandlers C)
        → h.wa_handlers ≡ some cache
        → update_statuses w evt ((id, status) ∷ statuses) h
          ≡ (update_status w evt id status cache h then update_statuses w evt statuses)
    unfolding update_statuses
    with_cache id status statuses cache h e =
        ap
          (λ o. elim o as (λ _. Outcome C) [
            | none ↦ some (h, [])
            | some cache ↦ update_status w evt id status cache h then update_statuses w evt statuses
          ])
          e

    read_receipt-text :
        (id : Text) (h : WhatsmeowHandlers C) → ((read_receipt w evt id h).0).text ≡ id
    unfolding read_receipt
    read_receipt-text id h = refl

    read_receipt-messages :
        (id : Text) (h : WhatsmeowHandlers C)
        → ((read_receipt w evt id h).1).wa_handlers ≡ h.wa_handlers
    unfolding read_receipt chat_of
    read_receipt-messages id h = refl

    read_receipt-handles :
        (id : Text) (h : WhatsmeowHandlers C)
        → handles_read_receipts (read_receipt w evt id h).1 ≡ handles_read_receipts h
    unfolding read_receipt chat_of handles_read_receipts
    read_receipt-handles id h = refl

    update_statuses-Tells :
        (statuses : List (Text × WhatsappMessageStatus)) (cache : QpWhatsappMessages C)
        (h : WhatsmeowHandlers C)
        → h.wa_handlers ≡ some cache
        → handles_read_receipts h ≡ some wanted
        → Tells
            (raise_all w.cache_days w.now statuses cache).0
            (if wanted then (raise_all w.cache_days w.now statuses cache).1 else [])
            (update_statuses w evt statuses h)
    unfolding update_statuses raise_all Tells raised_in handles_read_receipts
    update_statuses-Tells [] cache h e k = (e, nothing_wanted wanted)
    update_statuses-Tells ((id, status) ∷ statuses) cache h e k =
        let raised = (message_status_update w.cache_days w.now cache id status).0 in
        let left = raised_in w id status cache h in
        let receipt = read_receipt w evt id left in
        let rest = raise_all w.cache_days w.now statuses raised in
        subst
          (Tells (rest.0) (
            if wanted
            then (if (message_status_update w.cache_days w.now cache id status).1
                  && (status_rank status == 4)
                then id ∷ rest.1
                else rest.1)
            else []))
          (sym (
            with_cache id status statuses cache h e
            ∙ ap (λ o. o then update_statuses w evt statuses)
                (update_status-eq id status cache h k)))
          (one_status-Tells (message_status_update w.cache_days w.now cache id status).1
            (status_rank status == 4) wanted (rest.0) id (rest.1) (receipt.1) left (receipt.0)
            (update_statuses w evt statuses) (read_receipt-text id left)
            (update_statuses-Tells statuses raised (receipt.1)
              (read_receipt-messages id left ∙ refl) (read_receipt-handles id left ∙ k))
            (update_statuses-Tells statuses raised left refl k))

    -- A receipt of a chat that is neither a group, a broadcast nor a newsletter, where the WAHandlers are
    -- set and the option on read receipts has a value: the status of each of its ids is raised in the
    -- server's messages, in turn, and a receipt is passed on for exactly the ids of which it rose to
    -- that of a read message, when read receipts are wanted, and for none when they are not. No such
    -- receipt is a panic.
    pub receipt-Tells :
        (cache : QpWhatsappMessages C) (h : WhatsmeowHandlers C)
        → h.wa_handlers ≡ some cache
        → handles_read_receipts h ≡ some wanted
        → is_ignored (jid_id evt.chat) ≡ false
        → Tells
            (raise_all w.cache_days w.now
              (statuses_of (get_whatsapp_message_status evt.type) evt.message_ids [])
              cache).0
            (if wanted
              then (raise_all w.cache_days w.now
                  (statuses_of (get_whatsapp_message_status evt.type) evt.message_ids [])
                  cache).1
              else [])
            (receipt w evt h)
    unfolding receipt handles_read_receipts
    receipt-Tells cache h e k q =
        let statuses = statuses_of (get_whatsapp_message_status evt.type) evt.message_ids [] in
        let counted : WhatsmeowHandlers C = record h { counter = (h.counter + 1) % 2 ^ 64 } in
        subst (Tells _ _) (sym (if_false (is_ignored (jid_id evt.chat)) _ _ q))
          (update_statuses-Tells statuses cache counted e k)
