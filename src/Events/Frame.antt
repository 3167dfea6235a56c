-- ===== src/Events/Frame.antt =====
-- What the handlers of events leave as it was: the options, the client, the registration and the
-- flags of the offline sync.
use quepasa.Prelude.{
  ◌≡◌, refl, ◌∙◌, inl, inr, Bool, true, false, Option, none, some, List, [], ◌∷◌, ◌++◌,
  if◌then◌else◌, Bool-cases, ◌>>=◌,
}
use quepasa.Strings.{Text, codes, same}
use quepasa.Whatsapp.Message.{WhatsappMessage}
use quepasa.Contacts.Manager.{Jid}
use quepasa.Events.{WhatsmeowHandlers, EventInfo, Effect, World, Outcome, ◌then◌}
use quepasa.Events.Chats.{
  chat_of, populate_chat_and_participant, replacement_of, mention_step, mention_loop,
  process_mentions,
}

module _ {ℓ} {C : Type ℓ} where
  -- The second handler has what the first has, but for its counters, messages and directory.
  unfoldable pub Frame : WhatsmeowHandlers C → WhatsmeowHandlers C → Type 0
  Frame a b =
      (b.service ≡ a.service)
      × (b.options ≡ a.options)
      × (b.client ≡ a.client)
      × (b.event_handler_id ≡ a.event_handler_id)
      × (b.unregister_requested ≡ a.unregister_requested)
      × (b.offline_sync_started ≡ a.offline_sync_started)
      × (b.offline_sync_completed ≡ a.offline_sync_completed)

  pub Frame-refl : (h : WhatsmeowHandlers C) → Frame h h
  unfolding Frame
  Frame-refl h = (refl, refl, refl, refl, refl, refl, refl)

  pub Frame-trans : (a b c : WhatsmeowHandlers C) → Frame a b → Frame b c → Frame a c
  unfolding Frame
  Frame-trans a b c p q =
      (q.0 ∙ p.0, q.1 ∙ p.1, q.2 ∙ p.2, q.3 ∙ p.3, q.4 ∙ p.4, q.5 ∙ p.5, q.6 ∙ p.6)

  -- An outcome, unless it is a panic, is of a handler that was kept.
  unfoldable pub Kept : WhatsmeowHandlers C → Outcome C → Type 0
  Kept h none = Unit
  Kept h (some r) = Frame h r.0

  pub Kept-trans : (a b : WhatsmeowHandlers C) (o : Outcome C) → Frame a b → Kept b o → Kept a o
  unfolding Kept
  Kept-trans a b none p k = tt
  Kept-trans a b (some r) p k = Frame-trans a b r.0 p k

  pub bind-Kept {κ} :
      {A : Type κ} (h : WhatsmeowHandlers C) (o : Option A) (f : A → Outcome C)
      → ((a : A) → Kept h (f a))
      → Kept h (o >>= f)
  unfolding Kept
  bind-Kept h none f k = tt
  bind-Kept h (some a) f k = k a

  -- Effects in front of an outcome do not matter.
  prefixed-Kept :
      (h : WhatsmeowHandlers C) (effects : List (Effect C)) (o : Outcome C)
      → Kept h o
      → Kept h (o >>= (λ r. some (r.0, effects ++ r.1)))
  unfolding Kept
  prefixed-Kept h effects none k = tt
  prefixed-Kept h effects (some r) k = k

  pub then-Kept :
      (h : WhatsmeowHandlers C) (o : Outcome C) (f : WhatsmeowHandlers C → Outcome C)
      → Kept h o
      → ((left : WhatsmeowHandlers C) → Kept left (f left))
      → Kept h (o then f)
  unfolding Kept
  then-Kept h none f k n = tt
  then-Kept h (some (left, effects)) f k n =
      prefixed-Kept h effects (f left) (Kept-trans h left (f left) k (n left))

  pub if-Kept :
      (h : WhatsmeowHandlers C) (test : Bool) (a b : Outcome C)
      → Kept h a
      → Kept h b
      → Kept h (if test then a else b)
  if-Kept h true a b p q = p
  if-Kept h false a b p q = q

  pub chat_of-Frame :
      (w : World C) (jid : Jid) (h : WhatsmeowHandlers C) → Frame h (chat_of w jid h).1
  unfolding chat_of Frame
  chat_of-Frame w jid h = (refl, refl, refl, refl, refl, refl, refl)

  pub populate-Frame :
      (w : World C) (m : WhatsappMessage C) (info : EventInfo) (h : WhatsmeowHandlers C)
      → Frame h (populate_chat_and_participant w m info h).1
  unfolding populate_chat_and_participant
  populate-Frame w m info h = elim (Bool-cases info.is_group) [
    | inl e ↦
        rw (e, populate_chat_and_participant)
          (Frame-trans h (chat_of w info.chat h).1 _ (chat_of-Frame w info.chat h)
            (chat_of-Frame w info.sender (chat_of w info.chat h).1))
    | inr e ↦ rw (e, populate_chat_and_participant) (chat_of-Frame w info.chat h)
  ]

  replacement_of-Frame :
      (w : World C) (t : Text) (jid : Jid) (h : WhatsmeowHandlers C)
      → Frame h (replacement_of w t jid h).1
  unfolding replacement_of Frame
  replacement_of-Frame w t jid h = elim (Bool-cases (same jid.server (codes "lid"))) [
    | inl e ↦ rw (e, replacement_of) (refl, refl, refl, refl, refl, refl, refl)
    | inr e ↦ elim (Bool-cases (same jid.server (codes "s.whatsapp.net"))) [
      | inl q ↦ rw (e, q, replacement_of) (refl, refl, refl, refl, refl, refl, refl)
      | inr q ↦ rw (e, q, replacement_of) (refl, refl, refl, refl, refl, refl, refl)
    ]
  ]

  mention_step-Frame :
      (w : World C) (t : Text) (jid : Option Jid) (s : Text × WhatsmeowHandlers C)
      → Frame s.1 (mention_step w t jid s).1
  unfolding mention_step
  mention_step-Frame w t none s = Frame-refl s.1
  mention_step-Frame w t (some jid) (formatted, h) = replacement_of-Frame w t jid h

  mention_loop-Frame :
      (w : World C) (jids : List Text) (s : Text × WhatsmeowHandlers C)
      → Frame s.1 (mention_loop w jids s).1
  unfolding mention_loop
  mention_loop-Frame w [] s = Frame-refl s.1
  mention_loop-Frame w (jid ∷ jids) s =
      Frame-trans s.1 (mention_step w jid (w.parse_jid jid) s).1 _
        (mention_step-Frame w jid (w.parse_jid jid) s)
        (mention_loop-Frame w jids (mention_step w jid (w.parse_jid jid) s))

  pub process_mentions-Frame :
      (w : World C) (jids : List Text) (m : WhatsappMessage C) (h : WhatsmeowHandlers C)
      → Frame h (process_mentions w jids m h).1
  unfolding process_mentions
  process_mentions-Frame w jids m h = mention_loop-Frame w jids (m.text, h)
