-- ===== src/Events/Chats.antt =====
-- PopulateChatAndParticipant, enrichParticipantName and ProcessMentions.
use quepasa.Prelude.{
  ℕ, zero, suc, ◌-◌, ◌&&◌, Option, none, some, List, [], ◌∷◌, ◌++◌, ltb, ◌==◌, if◌then◌else◌,
  length,
}
use quepasa.Strings.{Text, codes, same, has_prefix, contains_text}
use quepasa.Whatsapp.Message.{WhatsappMessage, WhatsappChat}
use quepasa.Contacts.Manager.{Jid, Device, get_phone_from_lid}
use quepasa.Contacts.Chats.{answered, get_contact_name, normalize_for_title, new_whatsapp_chat}
use quepasa.Events.{WhatsmeowHandlers, EventInfo, World}

unfoldable pub enrich_participant_name : Device → WhatsappChat → Jid → WhatsappChat
unfolding get_contact_name normalize_for_title
enrich_participant_name client participant sender =
    let name = get_contact_name client sender in
    if ltb 0 (length name)
    then record participant { title = normalize_for_title name }
    else participant

-- strings.ReplaceAll(s, old, new) for an `old` that is not empty: `skip` bytes belong to a match.
replace_from : ℕ → Text → Text → Text → Text
unfolding has_prefix
replace_from skip old new [] = []
replace_from zero old new (c ∷ s) =
    let after = replace_from (length old - 1) old new s in
    let rest = replace_from 0 old new s in if has_prefix (c ∷ s) old then new ++ after else c ∷ rest
replace_from (suc skip) old new (c ∷ s) = replace_from skip old new s

unfoldable pub replace_all : Text → Text → Text → Text
unfolding replace_from
replace_all s old new = replace_from 0 old new s

-- `@phone (name)`, without the name where there is none.
mention_of : Device → Jid → Text → Text
unfolding get_contact_name
mention_of client jid phone =
    let name = get_contact_name client jid in
    (b'@' ∷ phone) ++ (if length name == 0 then [] else codes " (" ++ name ++ codes ")")

replace_mention : Text → Text → Text → Text
unfolding replace_all contains_text
replace_mention formatted user replacement =
    if ltb 0 (length replacement) && contains_text formatted (b'@' ∷ user)
    then replace_all formatted (b'@' ∷ user) replacement
    else formatted

module _ {ℓ} {C : Type ℓ} where
  -- The chat of a JID, from the handler's directory.
  unfoldable pub chat_of : World C → Jid → WhatsmeowHandlers C → WhatsappChat × WhatsmeowHandlers C
  unfolding new_whatsapp_chat
  chat_of w jid h =
      let (chat, directory) = new_whatsapp_chat w.now h.client jid h.directory in
      (chat, record h { directory = directory })

  unfoldable pub populate_chat_and_participant :
      World C
      → WhatsappMessage C
      → EventInfo
      → WhatsmeowHandlers C
      → WhatsappMessage C × WhatsmeowHandlers C
  unfolding chat_of enrich_participant_name
  populate_chat_and_participant w message info h =
      let (chat, h') = chat_of w info.chat h in
      let (sender, h'') = chat_of w info.sender h' in
      let participant =
        if length sender.title == 0
        then enrich_participant_name h.client sender info.sender
        else sender in
      if info.is_group
      then (record message { chat = chat; participant = some participant }, h'')
      else (record message { chat = chat }, h')

  -- What a mention of a JID is replaced by, the empty text where it is kept.
  unfoldable pub replacement_of :
      World C → Text → Jid → WhatsmeowHandlers C → Text × WhatsmeowHandlers C
  unfolding get_phone_from_lid mention_of same
  replacement_of w jid_text jid h =
      let (maps, phone) = get_phone_from_lid h.client jid_text h.directory.maps in
      let found =
        if length (answered phone) == 0 then [] else mention_of h.client jid (answered phone) in
      if same jid.server (codes "lid")
      then (found, record h { directory = record h.directory { maps = maps } })
      else if same jid.server (codes "s.whatsapp.net")
      then (mention_of h.client jid jid.user, h)
      else ([], h)

  unfoldable pub mention_step :
      World C → Text → Option Jid → Text × WhatsmeowHandlers C → Text × WhatsmeowHandlers C
  unfolding replacement_of replace_mention
  mention_step w jid_text none s = s
  mention_step w jid_text (some jid) (formatted, h) =
      let (replacement, h') = replacement_of w jid_text jid h in
      (replace_mention formatted jid.user replacement, h')

  -- The loop over the mentioned JIDs; one that does not parse is passed over.
  unfoldable pub mention_loop :
      World C → List Text → Text × WhatsmeowHandlers C → Text × WhatsmeowHandlers C
  unfolding mention_step
  mention_loop w [] s = s
  mention_loop w (jid ∷ jids) s = mention_loop w jids (mention_step w jid (w.parse_jid jid) s)

  unfoldable pub process_mentions :
      World C
      → List Text
      → WhatsappMessage C
      → WhatsmeowHandlers C
      → WhatsappMessage C × WhatsmeowHandlers C
  unfolding mention_loop
  process_mentions w mentioned message h =
      let (formatted, h') = mention_loop w mentioned (message.text, h) in
      (record message { text = formatted }, h')
