-- ===== src/Messages.antt =====
-- models/qp_whatsapp_messages.go: the messages of a server and their statuses, in two caches. The
-- cache holds pointers, so a write through one is a write to the item. A slice of a map comes in
-- some order: the functions over all messages take the slice.
pub mod Lookup
pub mod Statuses
pub mod Slices
mod Tests
use quepasa.Prelude.{
  ℕ, zero, suc, ◌+◌, ◌-◌, ◌*◌, ◌/◌, ◌%◌, ◌^◌, ◌≤◌, ◌<◌, String, ◌≡◌, refl, sym, ap, ◌∙◌, ◌≢◌, ◌↔◌,
  ◌⊎◌, inl, inr, Bool, true, false, ◌&&◌, ◌||◌, not, Option, none, some, List, [], ◌∷◌, ◌++◌, map,
  arith, ltb, leb, ◌==◌, if◌then◌else◌, ltb→lt, lt→ltb, leb→le, le→leb, ==_iff, tests, Bool-cases,
  Option-cases, is_some, length, get_elem?, take, drop, length-append, drop-append, length-take-le,
  All, ℤ, pos, negsuc, int_eq, int_eq_iff, ne_of_int_eq, All-append,
}
use quepasa.Strings.{
  Text, codes, same, contains, has_prefix, has_suffix, contains_text, without, trim_left, trim,
  split, before, is_space, trim_space, to_upper, to_lower, is_digit, upper, lower, trim_space_left,
  trim_space_right,
}
use quepasa.Cache.{write_through, CacheItem, Cache, empty, set_cache_item, get_any, load}
use quepasa.Whatsapp.Message.{WhatsappMessage, WhatsappMessageStatus, status_unknown, status_rank}

pub record QpWhatsappMessages {ℓ} (C : Type ℓ) : Type ℓ where
  pub messages : Cache (WhatsappMessage C)
  pub statuses : Cache WhatsappMessageStatus

abbrev pub hour : ℕ
hour = 3600000000000

-- `days` is the environment's CacheDays, below 106,000, where the duration fits into an int64.
unfoldable pub get_cache_expiration : ℕ → ℕ → ℕ
get_cache_expiration days now = if ltb 0 days then now + days * 24 * hour else now + 124 * hour

-- The answer of SetCacheItem for a status, whose `from` does not begin with `message`.
abbrev pub always {ℓ} : {V : Type ℓ} → CacheItem V → CacheItem V → Bool
always item previous = true

unfoldable pub or_unknown : Option WhatsappMessageStatus → WhatsappMessageStatus
or_unknown none = status_unknown
or_unknown (some status) = status

module _ {ℓ} {C : Type ℓ} where
  unfoldable pub append :
      (CacheItem (WhatsappMessage C) → CacheItem (WhatsappMessage C) → Bool)
      → ℕ
      → ℕ
      → QpWhatsappMessages C
      → WhatsappMessage C
      → QpWhatsappMessages C × Bool
  append validate days now source value =
      let item : CacheItem (WhatsappMessage C) = record {
        key = to_upper value.id;
        value = value;
        expiration = get_cache_expiration days now;
      } in
      let (messages, answer) = set_cache_item validate source.messages item in
      (record source { messages = messages }, answer)

  unfoldable pub get_by_id :
      ℕ → QpWhatsappMessages C → Text → Option (WhatsappMessage C) × QpWhatsappMessages C
  get_by_id now source id =
      let (found, messages) = get_any now source.messages (to_upper id) in
      (found, record source { messages = messages })

  unfoldable pub set_status_by_id :
      ℕ → ℕ → QpWhatsappMessages C → Text → WhatsappMessageStatus → QpWhatsappMessages C
  set_status_by_id days now source id status =
      let item : CacheItem WhatsappMessageStatus = record {
        key = to_upper id;
        value = status;
        expiration = get_cache_expiration days now;
      } in
      record source { statuses = (set_cache_item always source.statuses item).0 }

  unfoldable pub get_status_by_id :
      ℕ → QpWhatsappMessages C → Text → WhatsappMessageStatus × QpWhatsappMessages C
  unfolding or_unknown
  get_status_by_id now source id =
      let (cached, statuses) = get_any now source.statuses (to_upper id) in
      (or_unknown cached, record source { statuses = statuses })

  -- `msg.Status = status` through the pointer that GetById found.
  unfoldable pub write_status :
      Text
      → WhatsappMessageStatus
      → Option (WhatsappMessage C)
      → QpWhatsappMessages C
      → QpWhatsappMessages C
  unfolding write_through
  write_status id status none source = source
  write_status id status (some msg) source =
      let write : WhatsappMessage C → WhatsappMessage C = λ m. record m { status = status } in
      record source { messages = write_through write (to_upper id) source.messages }

  unfoldable pub message_status_update :
      ℕ → ℕ → QpWhatsappMessages C → Text → WhatsappMessageStatus → QpWhatsappMessages C × Bool
  message_status_update days now source id status =
      let (cached, read) = get_status_by_id now source id in
      if ltb (status_rank cached) (status_rank status)
      then (let (found, looked) = get_by_id now (set_status_by_id days now read id status) id in
          (write_status id status found looked, true))
      else (read, false)

  -- GetByTime, over the slice of all messages.
  unfoldable pub get_by_time : ℕ → List (WhatsappMessage C) → List (WhatsappMessage C)
  get_by_time timestamp [] = []
  get_by_time timestamp (item ∷ items) =
      let rest = get_by_time timestamp items in
      if ltb timestamp item.timestamp then item ∷ rest else rest

  -- The loop of GetLeading: the zero time is 0.
  leading_from :
      ℕ → Option (WhatsappMessage C) → List (WhatsappMessage C) → Option (WhatsappMessage C)
  leading_from now message [] = message
  leading_from now message (item ∷ items) =
      let earlier = ltb 0 item.timestamp && ltb item.timestamp now in
      leading_from (if earlier then item.timestamp else now)
        (if earlier then some item else message) items

  unfoldable pub get_leading : ℕ → List (WhatsappMessage C) → Option (WhatsappMessage C)
  unfolding leading_from
  get_leading now items = leading_from now none items

  unfoldable pub get_by_prefix : Text → List (WhatsappMessage C) → List (WhatsappMessage C)
  unfolding has_prefix to_upper
  get_by_prefix id [] = []
  get_by_prefix id (item ∷ items) =
      let rest = get_by_prefix id items in
      if has_prefix item.id (to_upper id) then item ∷ rest else rest
