-- ===== src/Contacts/Chats.antt =====
-- whatsmeow/whatsmeow_extensions+chat.go and whatsmeow_group_info_cache.go: the chat of a JID, with its
-- title, number and LID. The titles of groups are kept for an hour in a cache; it and the maps of
-- numbers are one state of the process.
use quepasa.Prelude.{
  ℕ, ◌+◌, ◌⊎◌, inl, inr, Bool, true, ◌&&◌, ◌||◌, not, Option, none, some, [], ◌∷◌, ◌++◌, ltb, ◌==◌,
  if◌then◌else◌, length,
}
use quepasa.Strings.{Text, codes, same, trim_space}
use quepasa.Cache.{Cache, CacheItem, set_cache_item, get_any}
use quepasa.Whatsapp.Message.{WhatsappChat}
use quepasa.Contacts.{WhatsmeowContactMaps}
use quepasa.Contacts.Manager.{
  Jid, ContactInfo, Client, Device, no_client, with_client, ContactError, get_lid_from_phone,
  get_phone_from_contact_id,
}

pub record Directory : Type 0 where
  pub maps : WhatsmeowContactMaps
  pub group_titles : Cache Text

abbrev group_title_expiration : ℕ → ℕ
group_title_expiration now = now + 3600000000000

-- SetCacheItem validates only what comes from a message.
abbrev always : CacheItem Text → CacheItem Text → Bool
always item previous = true

unfoldable pub append_group_title : ℕ → Text → Text → Cache Text → Cache Text
append_group_title now id title titles =
    let item : CacheItem Text = record {
      key = id;
      value = title;
      expiration = group_title_expiration now;
    } in
    (set_cache_item always titles item).0

abbrev or_empty : Option Text → Text
or_empty none = []
or_empty (some title) = title

unfoldable pub get_group_title : ℕ → Text → Cache Text → Text × Cache Text
get_group_title now id titles =
    let (cached, titles') = get_any now titles id in (or_empty cached, titles')

unfoldable pub clean_jid : Jid → Jid
clean_jid jid = record { user = jid.user; server = jid.server; device = 0 }

unfoldable pub extract_contact_name : ContactInfo → Text
extract_contact_name info =
    if not info.found
    then []
    else if ltb 0 (length info.full_name)
    then info.full_name
    else if ltb 0 (length info.business_name)
    then info.business_name
    else if ltb 0 (length info.push_name)
    then info.push_name
    else info.first_name

name_from_store : Client → Jid → Text
unfolding clean_jid extract_contact_name
name_from_store client jid =
    if not (client.has_store && client.has_contacts)
    then []
    else elim (client.get_contact (clean_jid jid)) [
      | none ↦ []
      | some info ↦ extract_contact_name info
    ]

unfoldable pub get_contact_name : Device → Jid → Text
unfolding name_from_store
get_contact_name no_client jid = []
get_contact_name (with_client client) jid = name_from_store client jid

-- strings.ReplaceAll of the line breaks by a space, `\r\n` first.
unfoldable pub join_lines : Text → Text
join_lines [] = []
join_lines (c ∷ []) = if (c == 13) || (c == 10) then b' ' ∷ [] else c ∷ []
join_lines (c ∷ d ∷ s) =
    let after = join_lines s in
    let rest = join_lines (d ∷ s) in
    if (c == 13) && (d == 10)
    then b' ' ∷ after
    else if (c == 13) || (c == 10)
    then b' ' ∷ rest
    else c ∷ rest

unfoldable pub normalize_for_title : Text → Text
unfolding join_lines trim_space
normalize_for_title source = trim_space (join_lines source)

-- The title of a group: GetGroupInfo is asked where the cache has none.
group_title : ℕ → Client → Jid → Cache Text → Text × Cache Text
unfolding append_group_title get_group_title normalize_for_title
group_title now client jid titles =
    let (cached, titles') = get_group_title now (client.jid_string jid) titles in
    if ltb 0 (length cached)
    then (normalize_for_title cached, titles')
    else elim (client.get_group_info jid) [
      | none ↦ ([], titles')
      | some name ↦
          (normalize_for_title name, append_group_title now (client.jid_string jid) name titles')
    ]

-- GetChatTitle of a client with a client.
chat_title : ℕ → Client → Jid → Cache Text → Text × Cache Text
unfolding group_title name_from_store normalize_for_title same
chat_title now client jid titles =
    let name = name_from_store client jid in
    if same jid.server (codes "g.us")
    then group_title now client jid titles
    else (if ltb 0 (length name) then normalize_for_title name else [], titles)

unfoldable pub get_chat_title : ℕ → Device → Jid → Cache Text → Text × Cache Text
unfolding chat_title
get_chat_title now (with_client client) jid titles = chat_title now client jid titles
get_chat_title now no_client jid titles = ([], titles)

-- `err == nil`, and the text that came with it; the empty text otherwise.
abbrev pub answered : ContactError ⊎ Text → Text
answered (inl e) = []
answered (inr t) = t

-- The number and the LID of a user.
user_addresses : Device → Text → WhatsmeowContactMaps → (Text × Text) × WhatsmeowContactMaps
unfolding get_phone_from_contact_id get_lid_from_phone
user_addresses device id c =
    let (c', phone) = get_phone_from_contact_id device id c in
    let (c'', lid) = get_lid_from_phone device (answered phone) c' in
    if ltb 0 (length (answered phone))
    then ((answered phone, answered lid), c'')
    else (([], []), c')

-- The number of a LID, which keeps its id as its LID when the number is known.
lid_addresses : Device → Text → WhatsmeowContactMaps → (Text × Text) × WhatsmeowContactMaps
unfolding get_phone_from_contact_id
lid_addresses device id c =
    let (c', phone) = get_phone_from_contact_id device id c in
    if ltb 0 (length (answered phone)) then ((answered phone, id), c') else (([], []), c')

addresses : Device → Jid → Text → WhatsmeowContactMaps → (Text × Text) × WhatsmeowContactMaps
unfolding user_addresses lid_addresses same
addresses device jid id c =
    let user = user_addresses device id c in
    let local = lid_addresses device id c in
    if same jid.server (codes "s.whatsapp.net")
    then user
    else if same jid.server (codes "lid")
    then local
    else (([], []), c)

-- `user@server`, without the device.
abbrev pub jid_id : Jid → Text
jid_id jid = jid.user ++ (b'@' ∷ jid.server)

-- The contact manager is not nil.
unfoldable pub new_whatsapp_chat : ℕ → Device → Jid → Directory → WhatsappChat × Directory
unfolding get_chat_title addresses
new_whatsapp_chat now device jid directory =
    let (title, titles) = get_chat_title now device jid directory.group_titles in
    let ((phone, lid), maps) = addresses device jid (jid_id jid) directory.maps in
    (
      record { id = jid_id jid; lid = lid; phone = phone; title = title },
      record { maps = maps; group_titles = titles },
    )
