-- ===== src/Handler.antt =====
-- models/dispatching_handler.go and qp_whatsapp_handlers_extensions.go: what a server does with a
-- message from WhatsApp. An event handler is a pointer, here its number. What `Trigger` starts (a
-- SignalR message, a call of each handler, each in a goroutine of its own) is returned as the list
-- of effects, in the order in which they are started. The environment is a record; the title of a
-- chat, a fresh UUID, the rendering of a content and the check of a repeated id are parameters.
pub mod Flow
pub mod Registration
mod Tests
use quepasa.Prelude.{
  ℕ, zero, suc, ◌+◌, ◌-◌, ◌*◌, ◌/◌, ◌%◌, ◌^◌, ◌≤◌, ◌<◌, String, ◌≡◌, refl, sym, ap, ◌∙◌, ◌≢◌, ◌↔◌,
  ◌⊎◌, inl, inr, Bool, true, false, ◌&&◌, ◌||◌, not, Option, none, some, List, [], ◌∷◌, ◌++◌, map,
  arith, ltb, leb, ◌==◌, if◌then◌else◌, ltb→lt, lt→ltb, leb→le, le→leb, ==_iff, tests, Bool-cases,
  Option-cases, is_some, length, get_elem?, take, drop, length-append, drop-append, length-take-le,
  All, ℤ, pos, negsuc, int_eq, int_eq_iff, ne_of_int_eq, All-append, ◌>>=◌,
}
use quepasa.Strings.{
  Text, codes, same, contains, has_prefix, has_suffix, contains_text, without, trim_left, trim,
  split, before, is_space, trim_space, to_upper, to_lower, is_digit, upper, lower, trim_space_left,
  trim_space_right,
}
use quepasa.Cache.{write_through, CacheItem, Cache, Arrangement, clean_up}
use quepasa.Whatsapp.Booleans.{WhatsappBoolean, unset_boolean}
use quepasa.Whatsapp.Options.{WhatsappOptionsExtended, handle_groups, handle_broadcasts}
use quepasa.Whatsapp.Message.{
  WhatsappMessage, WhatsappMessageType, unhandled, text, system, contact, from_group,
  from_broadcast,
}
use quepasa.Messages.{QpWhatsappMessages, append, get_by_id}

-- The part of QpWhatsappServer that the handler reads and writes.
pub record ServerView : Type 0 where
  pub groups : WhatsappBoolean
  pub broadcasts : WhatsappBoolean
  pub wid : Text
  pub token : Text
  pub event_time : Option ℕ
  pub message_time : Option ℕ

pub record DispatchingHandler {ℓ} (C : Type ℓ) : Type ℓ where
  pub cache : QpWhatsappMessages C
  pub server : Option ServerView
  pub aeh : List ℕ

pub record Settings : Type 0 where
  pub options : WhatsappOptionsExtended
  pub dispatch_unhandled : Bool
  pub synopsis_length : ℕ
  pub cache_length : ℕ
  pub cache_days : ℕ

-- What the code takes from elsewhere.
pub record World {ℓ} (C : Type ℓ) : Type ℓ where
  pub now : ℕ
  pub uuid : Text
  pub chat_title : Text → Text
  pub render : C → Text
  pub validate : CacheItem (WhatsappMessage C) → CacheItem (WhatsappMessage C) → Bool
  pub arrangement : Arrangement (WhatsappMessage C)

pub data Effect {ℓ} (C : Type ℓ) : Type ℓ where
  signalr : Text → WhatsappMessage C → Effect C
  handle_dispatching : ℕ → WhatsappMessage C → Effect C

-- The reasons of IsValidForDispatch; `none` is the empty text, for a message to dispatch.
pub data Refusal : Type 0 where
  unhandled_type empty_text : Refusal

-- IsRegistered
unfoldable pub is_registered : ℕ → List ℕ → Bool
is_registered evt [] = false
is_registered evt (v ∷ aeh) = (v == evt) || is_registered evt aeh

remove_handler : ℕ → List ℕ → List ℕ
remove_handler evt [] = []
remove_handler evt (v ∷ aeh) =
    let rest = remove_handler evt aeh in if v == evt then rest else v ∷ rest

unfoldable pub local_groups : Option ServerView → WhatsappBoolean
local_groups none = unset_boolean
local_groups (some server) = server.groups

unfoldable pub local_broadcasts : Option ServerView → WhatsappBoolean
local_broadcasts none = unset_boolean
local_broadcasts (some server) = server.broadcasts

is_type : WhatsappMessageType → WhatsappMessageType → Bool
is_type unhandled unhandled = true
is_type system system = true
is_type text text = true
is_type contact contact = true
is_type _ _ = false

module _ {ℓ} {C : Type ℓ} where
  unfoldable pub register : DispatchingHandler C → ℕ → DispatchingHandler C
  unfolding is_registered
  register handler evt =
      if is_registered evt handler.aeh
      then handler
      else record handler { aeh = handler.aeh ++ evt ∷ [] }

  unfoldable pub unregister : DispatchingHandler C → ℕ → DispatchingHandler C
  unfolding remove_handler
  unregister handler evt = record handler { aeh = remove_handler evt handler.aeh }

  unfoldable pub clear : DispatchingHandler C → DispatchingHandler C
  clear handler = record handler { aeh = [] }

  unfoldable pub is_attached : DispatchingHandler C → Bool
  is_attached handler = ltb 0 (length handler.aeh)

  -- HandleGroups and HandleBroadcasts; `none` is a panic.
  unfoldable pub handles_groups : Settings → DispatchingHandler C → Option Bool
  unfolding local_groups
  handles_groups settings h = handle_groups settings.options (local_groups h.server)

  unfoldable pub handles_broadcasts : Settings → DispatchingHandler C → Option Bool
  unfolding local_broadcasts
  handles_broadcasts settings h = handle_broadcasts settings.options (local_broadcasts h.server)

  unfoldable pub is_valid_for_dispatch : Settings → WhatsappMessage C → Option Refusal
  unfolding is_type trim_space
  is_valid_for_dispatch settings payload =
      if settings.dispatch_unhandled
      then none
      else if is_type payload.type unhandled
      then some unhandled_type
      else if is_type payload.type text
          && (length (trim_space payload.text) == 0)
          && not payload.in_reaction
      then some empty_text
      else none

  unfoldable pub is_event : WhatsappMessage C → Bool
  unfolding is_type same
  is_event payload =
      is_type payload.type unhandled
      || is_type payload.type system
      || same payload.id (codes "readreceipt")

  touch_server : World C → WhatsappMessage C → ServerView → ServerView
  unfolding is_event
  touch_server w payload server =
      if is_event payload
      then record server { event_time = some w.now }
      else record server { message_time = some w.now }

  pub notify : WhatsappMessage C → List ℕ → List (Effect C)
  notify payload [] = []
  notify payload (v ∷ aeh) = handle_dispatching v payload ∷ notify payload aeh

  -- The rest of `Trigger` for a valid message.
  trigger_valid :
      World C
      → DispatchingHandler C
      → WhatsappMessage C
      → Option ServerView
      → DispatchingHandler C × WhatsappMessage C × List (Effect C)
  unfolding notify touch_server
  trigger_valid w source payload none = (source, payload, notify payload source.aeh)
  trigger_valid w source payload (some server) =
      let sent : WhatsappMessage C = record payload { wid = server.wid } in
      (
        record source { server = some (touch_server w payload server) },
        sent,
        signalr server.token sent ∷ notify sent source.aeh,
      )

  -- The handler, the message, which is written to, and the effects.
  unfoldable pub trigger :
      Settings
      → World C
      → DispatchingHandler C
      → WhatsappMessage C
      → DispatchingHandler C × WhatsappMessage C × List (Effect C)
  unfolding is_valid_for_dispatch trigger_valid
  trigger settings w source payload = elim (is_valid_for_dispatch settings payload) [
    | some reason ↦ (source, payload, [])
    | none ↦ trigger_valid w source payload source.server
  ]

  -- The message is in the cache by its pointer: what `Trigger` writes to it stands there too.
  share : WhatsappMessage C → DispatchingHandler C → DispatchingHandler C
  unfolding write_through to_upper
  share sent h =
      let shared = write_through (λ m. sent) (to_upper sent.id) h.cache.messages in
      record h { cache = record h.cache { messages = shared } }

  unfoldable pub append_msg_to_cache :
      Settings
      → World C
      → DispatchingHandler C
      → WhatsappMessage C
      → DispatchingHandler C × List (Effect C)
  unfolding trigger share
  append_msg_to_cache settings w source msg =
      let (cache, valid) = append w.validate settings.cache_days w.now source.cache msg in
      let cleaned : QpWhatsappMessages C = record cache {
        messages = clean_up w.arrangement cache.messages settings.cache_length;
      } in
      let (h, sent, effects) = trigger settings w (record source { cache = cleaned }) msg in
      if valid then (share sent h, effects) else (record source { cache = cache }, [])

  fill_title : World C → DispatchingHandler C → WhatsappMessage C → WhatsappMessage C
  fill_title w source msg =
      let title = if is_some source.server then w.chat_title msg.chat.id else [] in
      if length msg.chat.title == 0
      then record msg { chat = record msg.chat { title = title } }
      else msg

  -- `ENV.SynopsisLength() - 4` is unsigned.
  synopsis_of : Settings → WhatsappMessage C → Text
  synopsis_of settings cached =
      let maxlength = (settings.synopsis_length + 2 ^ 64 - 4) % 2 ^ 64 in
      if ltb maxlength (length cached.text)
      then take maxlength cached.text ++ codes " ..."
      else cached.text

  with_synopsis : Settings → Option (WhatsappMessage C) → WhatsappMessage C → WhatsappMessage C
  unfolding synopsis_of
  with_synopsis settings none msg = msg
  with_synopsis settings (some cached) msg = record msg { synopsis = synopsis_of settings cached }

  fill_synopsis :
      Settings
      → World C
      → DispatchingHandler C
      → WhatsappMessage C
      → DispatchingHandler C × WhatsappMessage C
  unfolding with_synopsis
  fill_synopsis settings w source msg =
      let (cached, cache) = get_by_id w.now source.cache msg.in_reply in
      if length msg.in_reply == 0
      then (source, msg)
      else (record source { cache = cache }, with_synopsis settings cached msg)

  render_content : World C → Option C → Text → Text
  render_content w none t = t
  render_content w (some c) t = if length t == 0 then w.render c else t

  process_unhandled_message : World C → WhatsappMessage C → WhatsappMessage C
  unfolding render_content
  process_unhandled_message w msg = record msg {
    id = msg.id ++ (codes "-unhandled-" ++ w.uuid);
    text = render_content w msg.content msg.text;
  }

  -- `Message`, behind the tests on groups and broadcasts.
  process :
      Settings
      → World C
      → DispatchingHandler C
      → WhatsappMessage C
      → DispatchingHandler C × List (Effect C)
  unfolding fill_title fill_synopsis process_unhandled_message is_type append_msg_to_cache
  process settings w source msg =
      let (h, filled) = fill_synopsis settings w source (fill_title w source msg) in
      append_msg_to_cache settings w h
        (if is_type filled.type unhandled then process_unhandled_message w filled else filled)

  unfoldable pub message :
      Settings
      → World C
      → DispatchingHandler C
      → WhatsappMessage C
      → Option (DispatchingHandler C × List (Effect C))
  unfolding handles_groups handles_broadcasts process from_group from_broadcast
  message settings w source msg = do
    groups ← handles_groups settings source
    if not groups && from_group msg then some (source, []) else do
      broadcasts ← handles_broadcasts settings source
      if not broadcasts && from_broadcast msg
          then some (source, [])
          else some (process settings w source msg)

  unfoldable pub receipt :
      Settings
      → World C
      → DispatchingHandler C
      → WhatsappMessage C
      → DispatchingHandler C × List (Effect C)
  unfolding trigger
  receipt settings w source msg =
      let (h, sent, effects) = trigger settings w source msg in (h, effects)
