-- ===== src/Messages/Lookup.antt =====
-- Messages are found by their ids, whatever the case of the letters.
use quepasa.Prelude.{ℕ, ◌≡◌, Bool, none, some, ltb, if◌then◌else◌}
use quepasa.Strings.{Text, same, to_upper}
use quepasa.Cache.{CacheItem}
use quepasa.Cache.Invariant.{get_any-set_cache_item}
use quepasa.Whatsapp.Message.{WhatsappMessage}
use quepasa.Messages.{QpWhatsappMessages, get_cache_expiration, append, get_by_id}

module _ {ℓ} {C : Type ℓ} where
  -- A message that was appended is found under its id in any case of letters until it expires, and
  -- under every other id there is what was there before.
  pub get_by_id-append :
      (validate : CacheItem (WhatsappMessage C) → CacheItem (WhatsappMessage C) → Bool)
      (days now later : ℕ) (s : QpWhatsappMessages C) (msg : WhatsappMessage C) (id : Text)
      → (get_by_id later (append validate days now s msg).0 id).0 ≡ (
          if same (to_upper msg.id) (to_upper id)
          then (if ltb later (get_cache_expiration days now) then some msg else none)
          else (get_by_id later s id).0)
  unfolding get_by_id append
  get_by_id-append validate days now later s msg id =
      get_any-set_cache_item validate s.messages _ (to_upper id) later
