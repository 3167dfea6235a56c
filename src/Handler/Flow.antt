-- ===== src/Handler/Flow.antt =====
-- models/dispatching_handler.go: which messages reach the handlers, and what a server keeps of them.
use quepasa.Prelude.{
  ℕ, ◌≡◌, refl, sym, ap, ◌∙◌, ◌⊎◌, inl, inr, Bool, true, false, ◌&&◌, not, Option, none, some, List,
  [], ◌∷◌, ◌==◌, if◌then◌else◌, Bool-cases, Option-cases, length,
}
use quepasa.Strings.{to_upper}
use quepasa.Cache.{set_cache_item, load, clean_up}
use quepasa.Whatsapp.Message.{WhatsappMessage, unhandled, from_group, from_broadcast}
use quepasa.Messages.{QpWhatsappMessages, append, get_cache_expiration}
use quepasa.Handler.{
  ServerView, DispatchingHandler, Settings, World, Effect, signalr, handles_groups,
  handles_broadcasts, is_valid_for_dispatch, notify, trigger_valid, trigger, share,
  append_msg_to_cache, process, message, is_type, fill_synopsis, fill_title,
  process_unhandled_message,
}

-- What a call of `Trigger` may start, with the message that is sent.
pub data Announces {ℓ} {C : Type ℓ} (settings : Settings) (server : Option ServerView)
    (aeh : List ℕ) (effects : List (Effect C)) : Type ℓ where
  silent : effects ≡ [] → Announces settings server aeh effects
  local :
      (sent : WhatsappMessage C)
      → server ≡ none
      → is_valid_for_dispatch settings sent ≡ none
      → effects ≡ notify sent aeh
      → Announces settings server aeh effects
  online :
      (s : ServerView) (sent : WhatsappMessage C)
      → server ≡ some s
      → sent.wid ≡ s.wid
      → is_valid_for_dispatch settings sent ≡ none
      → effects ≡ signalr s.token sent ∷ notify sent aeh
      → Announces settings server aeh effects

module _ {ℓ} {C : Type ℓ} (settings : Settings) (w : World C) where
  -- A message of a group is dropped where groups are not handled, and one of a broadcast where
  -- broadcasts are not, whatever is said of groups: nothing is stored, written or sent.
  pub message_dropped :
      (h : DispatchingHandler C) (msg : WhatsappMessage C) (b : Bool)
      → ((handles_groups settings h ≡ some false) × (from_group msg ≡ true))
        ⊎ ((handles_groups settings h ≡ some b)
            × (handles_broadcasts settings h ≡ some false)
            × (from_broadcast msg ≡ true))
      → message settings w h msg ≡ some (h, [])
  unfolding message
  message_dropped h msg b (inl (e, g)) = rw (message, e, g) refl
  message_dropped h msg false (inr (e, k, g)) = elim (Bool-cases (from_group msg)) [
    | inl t ↦ rw (message, e, t) refl
    | inr f ↦ rw (message, e, f, k, g) refl
  ]
  message_dropped h msg true (inr (e, k, g)) = rw (message, e, k, g) refl

  trigger_valid-Announces :
      (h : DispatchingHandler C) (msg : WhatsappMessage C) (server : Option ServerView)
      → is_valid_for_dispatch settings msg ≡ none
      → Announces settings server h.aeh (trigger_valid w h msg server).2
  unfolding trigger_valid is_valid_for_dispatch
  trigger_valid-Announces h msg none v = local msg refl v refl
  trigger_valid-Announces h msg (some s) v = online s (record msg { wid = s.wid }) refl refl v refl

  trigger-Announces :
      (h : DispatchingHandler C) (msg : WhatsappMessage C)
      → Announces settings h.server h.aeh (trigger settings w h msg).2
  unfolding trigger
  trigger-Announces h msg = elim (Option-cases (is_valid_for_dispatch settings msg)) [
    | inl v ↦ rw (trigger, v) (trigger_valid-Announces h msg h.server v)
    | inr (reason, v) ↦ rw (trigger, v) (silent refl)
  ]

  trigger_valid-aeh :
      (h : DispatchingHandler C) (msg : WhatsappMessage C) (server : Option ServerView)
      → (trigger_valid w h msg server).0.aeh ≡ h.aeh
  unfolding trigger_valid
  trigger_valid-aeh h msg none = refl
  trigger_valid-aeh h msg (some s) = refl

  trigger-aeh :
      (h : DispatchingHandler C) (msg : WhatsappMessage C)
      → (trigger settings w h msg).0.aeh ≡ h.aeh
  unfolding trigger
  trigger-aeh h msg = elim (Option-cases (is_valid_for_dispatch settings msg)) [
    | inl v ↦ rw (trigger, v) (trigger_valid-aeh h msg h.server)
    | inr (reason, v) ↦ rw (trigger, v) refl
  ]

  -- The handler as `appendMsgToCache` hands it to `Trigger`.
  appended : DispatchingHandler C → WhatsappMessage C → DispatchingHandler C
  appended h msg =
      let cache = (append w.validate settings.cache_days w.now h.cache msg).0 in
      record h {
        cache = record cache {
          messages = clean_up w.arrangement cache.messages settings.cache_length;
        };
      }

  append_msg_to_cache-Announces :
      (h : DispatchingHandler C) (msg : WhatsappMessage C)
      → Announces settings h.server h.aeh (append_msg_to_cache settings w h msg).1
        × ((append_msg_to_cache settings w h msg).0.aeh ≡ h.aeh)
  unfolding append_msg_to_cache share appended
  append_msg_to_cache-Announces h msg =
      elim (Bool-cases (append w.validate settings.cache_days w.now h.cache msg).1) [
        | inl valid ↦
            rw valid (trigger-Announces (appended h msg) msg, trigger-aeh (appended h msg) msg)
        | inr invalid ↦ rw invalid (silent refl, refl)
      ]

  fill_synopsis-server :
      (h : DispatchingHandler C) (msg : WhatsappMessage C)
      → ((fill_synopsis settings w h msg).0.server ≡ h.server)
        × ((fill_synopsis settings w h msg).0.aeh ≡ h.aeh)
  unfolding fill_synopsis
  fill_synopsis-server h msg = elim (Bool-cases (length msg.in_reply == 0)) [
    | inl e ↦ rw e (refl, refl)
    | inr e ↦ rw e (refl, refl)
  ]

  Announces_eq :
      {s s' : Option ServerView} {aeh aeh' : List ℕ} {effects : List (Effect C)}
      → s ≡ s'
      → aeh ≡ aeh'
      → Announces settings s aeh effects
      → Announces settings s' aeh' effects
  Announces_eq e k a = rw (sym e, sym k) a

  message-cases :
      (h : DispatchingHandler C) (msg : WhatsappMessage C)
      → (message settings w h msg ≡ none)
        ⊎ (message settings w h msg ≡ some (h, []))
        ⊎ (message settings w h msg ≡ some (process settings w h msg))
  unfolding message
  message-cases h msg = elim (Option-cases (handles_groups settings h)) [
    | inl e ↦ inl (rw (message, e) refl)
    | inr (groups, e) ↦ elim (Bool-cases (not groups && from_group msg)) [
      | inl drop_group ↦ inr (inl (rw (message, e, drop_group) refl))
      | inr keep_group ↦ elim (Option-cases (handles_broadcasts settings h)) [
        | inl k ↦ inl (rw (message, e, keep_group, k) refl)
        | inr (broadcasts, k) ↦ elim (Bool-cases (not broadcasts && from_broadcast msg)) [
          | inl f ↦ inr (inl (rw (message, e, keep_group, k, f) refl))
          | inr f ↦ inr (inr (rw (message, e, keep_group, k, f) refl))
        ]
      ]
    ]
  ]

  process-Announces :
      (h : DispatchingHandler C) (msg : WhatsappMessage C)
      → Announces settings h.server h.aeh (process settings w h msg).1
        × ((process settings w h msg).0.aeh ≡ h.aeh)
  unfolding process
  process-Announces h msg =
      let (h', filled) = fill_synopsis settings w h (fill_title w h msg) in
      let (server, aeh) = fill_synopsis-server h (fill_title w h msg) in
      let sent =
        if is_type filled.type unhandled then process_unhandled_message w filled else filled in
      let (announced, kept) = append_msg_to_cache-Announces h' sent in
      (Announces_eq server aeh announced, kept ∙ aeh)

  -- A message that comes in keeps the list of handlers. It sends nothing, or one message of SignalR
  -- where there is a server and then one call of each registered handler, in their order: all get the
  -- same message, which carries the server's wid and is valid for dispatch.
  pub message-Announces :
      (h h' : DispatchingHandler C) (msg : WhatsappMessage C) (effects : List (Effect C))
      → message settings w h msg ≡ some (h', effects)
      → Announces settings h.server h.aeh effects × (h'.aeh ≡ h.aeh)
  unfolding message
  message-Announces h h' msg effects e = elim (message-cases h msg) [
    | inl k ↦ cc
    | inr (inl k) ↦
        let p : ◌≡◌ {A = DispatchingHandler C × List (Effect C)} (h, []) (h', effects) = cc in
        (silent (sym (ap (λ x. x.1) p)), sym (ap (λ x. x.0.aeh) p))
    | inr (inr k) ↦
        let p : process settings w h msg ≡ (h', effects) = cc in
        let (announced, kept) = process-Announces h msg in
        (rw (sym (ap (λ x. x.1) p)) announced, sym (ap (λ x. x.0.aeh) p) ∙ kept)
  ]

  -- Whether the cache takes a message as new: its id, in any case of letters, is not there, or the
  -- check of a repeated id says so.
  pub accepted : DispatchingHandler C → WhatsappMessage C → Bool
  accepted h msg = elim (load (to_upper msg.id) h.cache.messages.cache_map) [
    | none ↦ true
    | some previous ↦
        w.validate
          (record {
            key = to_upper msg.id;
            value = msg;
            expiration = get_cache_expiration settings.cache_days w.now;
          })
          previous
  ]

  append-accepted :
      (h : DispatchingHandler C) (msg : WhatsappMessage C)
      → (append w.validate settings.cache_days w.now h.cache msg).1 ≡ accepted h msg
  unfolding accepted append set_cache_item
  append-accepted h msg = elim (Option-cases (load (to_upper msg.id) h.cache.messages.cache_map)) [
    | inl e ↦ rw (append, accepted, set_cache_item, e) refl
    | inr (previous, e) ↦ rw (append, accepted, set_cache_item, e) refl
  ]

  trigger_valid-cache :
      (h : DispatchingHandler C) (cache : QpWhatsappMessages C) (msg : WhatsappMessage C)
      (server : Option ServerView)
      → (trigger_valid w (record h { cache = cache }) msg server).2
        ≡ (trigger_valid w h msg server).2
  unfolding trigger_valid
  trigger_valid-cache h cache msg none = refl
  trigger_valid-cache h cache msg (some s) = refl

  trigger-cache :
      (h : DispatchingHandler C) (cache : QpWhatsappMessages C) (msg : WhatsappMessage C)
      → (trigger settings w (record h { cache = cache }) msg).2 ≡ (trigger settings w h msg).2
  unfolding trigger
  trigger-cache h cache msg = elim (Option-cases (is_valid_for_dispatch settings msg)) [
    | inl v ↦ rw (trigger, v) (trigger_valid-cache h cache msg h.server)
    | inr (reason, v) ↦ rw (trigger, v) refl
  ]

  -- A message is handed to `Trigger` exactly once if the cache takes it as new, and not at all if
  -- it is a repetition; what it starts does not depend on the cache.
  pub append_msg_to_cache-accepted :
      (h : DispatchingHandler C) (msg : WhatsappMessage C)
      → (append_msg_to_cache settings w h msg).1
        ≡ (if accepted h msg then (trigger settings w h msg).2 else [])
  unfolding append_msg_to_cache appended
  append_msg_to_cache-accepted h msg =
      elim (Bool-cases (append w.validate settings.cache_days w.now h.cache msg).1) [
        | inl valid ↦
            rw (sym (append-accepted h msg), valid) (trigger-cache h (appended h msg).cache msg)
        | inr invalid ↦ rw (sym (append-accepted h msg), invalid) refl
      ]
