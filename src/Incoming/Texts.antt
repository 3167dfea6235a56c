-- ===== src/Incoming/Texts.antt =====
-- The handlers of messages whose content is a text: HandleTextMessage and the like, edits, revokes and
-- the other protocol messages, replies to buttons, templates and lists.
use quepasa.Prelude.{
  ℕ, true, Option, none, some, List, [], ◌∷◌, ◌++◌, ltb, ◌==◌, if◌then◌else◌, length,
}
use quepasa.Strings.{Text, codes}
use quepasa.Whatsapp.Message.{
  WhatsappMessage, WhatsappMessageType, unhandled, revoke, WhatsappMessageUrl, WhatsappMessageAds,
  thumbnail_of, info_text,
}
use quepasa.Incoming.{
  ExternalAdReply, ContextInfo, ExtendedTextMessage, ButtonsResponseMessage, ReactionMessage,
  ProtocolMessage, ProtocolMessageType, EditedMessage, message_edit, history_sync_notification,
  other_protocol, TemplateMessage, TemplateButtonReplyMessage, ListRow, ListSection, ListMessage,
}

or_empty : Option Text → Text
or_empty none = []
or_empty (some t) = t

url_of : ExtendedTextMessage → WhatsappMessageUrl
unfolding thumbnail_of
url_of e = record {
  reference = e.matched_text;
  title = e.title;
  description = e.description;
  thumbnail = thumbnail_of e.thumbnail;
}

ads_of : ExternalAdReply → WhatsappMessageAds
unfolding thumbnail_of
ads_of reply = record {
  id = reply.ctwa_clid;
  title = reply.title;
  source_id = reply.source_id;
  source_url = reply.source_url;
  app = reply.source_app;
  type = reply.source_type;
  thumbnail = thumbnail_of reply.thumbnail;
}

-- The text of an edit: that of its first part in the order of the cases.
edit_text : EditedMessage → Text
unfolding or_empty
edit_text e = elim e.conversation [
  | some t ↦ t
  | none ↦ elim e.image_caption [
    | some t ↦ t
    | none ↦ elim e.video_caption [
      | some t ↦ t
      | none ↦ elim e.document_caption [ some t ↦ t | none ↦ or_empty e.extended_text ]
    ]
  ]
]

row_text : Option ListRow → Text
row_text none = []
row_text (some row) =
    codes "* ("
    ++ row.row_id
    ++ codes ") *"
    ++ row.title
    ++ codes ":* "
    ++ row.description
    ++ (10 ∷ b' ' ∷ [])

rows_text : List (Option ListRow) → Text
unfolding row_text
rows_text [] = []
rows_text (row ∷ rows) = row_text row ++ rows_text rows

sections_text : List (Option ListSection) → Text
unfolding rows_text
sections_text [] = []
sections_text (none ∷ sections) = sections_text sections
sections_text (some section ∷ sections) =
    (codes "-- *" ++ section.title ++ codes ":*" ++ (10 ∷ b' ' ∷ []))
    ++ rows_text section.rows
    ++ sections_text sections

footer : Text → Text
footer [] = []
footer (c ∷ t) = (10 ∷ codes "--------------------------------") ++ (10 ∷ c ∷ t)

unfoldable pub list_text : ListMessage → Text
unfolding sections_text footer
list_text m =
    (codes "*" ++ m.title ++ codes ":*" ++ (10 ∷ b' ' ∷ []))
    ++ (codes "_" ++ m.description ++ codes "_" ++ (10 ∷ b' ' ∷ []))
    ++ (10 ∷ [])
    ++ (codes "*" ++ m.button_text ++ codes "*:" ++ (10 ∷ []))
    ++ sections_text m.sections
    ++ footer m.footer_text

module _ {ℓ} {C : Type ℓ} where
  -- `if info != nil`, which five handlers and those of media share.
  unfoldable pub with_context : Option ContextInfo → WhatsappMessage C → WhatsappMessage C
  with_context none out = out
  with_context (some info) out = record out {
    forwarding_score = info.forwarding_score;
    in_reply = info.stanza_id;
  }

  unfoldable pub with_ads : Option ContextInfo → WhatsappMessage C → WhatsappMessage C
  unfolding ads_of
  with_ads none out = out
  with_ads (some info) out = elim info.external_ad_reply [
    | none ↦ out
    | some reply ↦ record out { ads = some (ads_of reply) }
  ]

  unfoldable pub handle_text_message : WhatsappMessage C → Text → WhatsappMessage C
  handle_text_message out conversation = record out {
    type = WhatsappMessageType.text;
    text = conversation;
  }

  unfoldable pub handle_edit_text_message : WhatsappMessage C → Text → WhatsappMessage C
  handle_edit_text_message out edited = record out {
    type = WhatsappMessageType.text;
    text = edited;
  }

  unfoldable pub as_unhandled : Text → Text → WhatsappMessage C → WhatsappMessage C
  as_unhandled event reason out = record out {
    type = unhandled;
    debug = some (record { event = event; reason = reason });
  }

  unfoldable pub protocol_edit : WhatsappMessage C → ProtocolMessage → WhatsappMessage C
  unfolding edit_text
  protocol_edit out p = record out {
    type = WhatsappMessageType.text;
    id = p.key_id;
    edited = true;
    text = elim p.edited_message [ none ↦ out.text | some e ↦ edit_text e ];
  }

  unfoldable pub protocol_history : WhatsappMessage C → ProtocolMessage → WhatsappMessage C
  unfolding as_unhandled
  protocol_history out p =
      record (as_unhandled (codes "ProtocolMessage") (codes "history sync notification") out) {
        text = codes "ProtocolMessage :: " ++ p.json ++ elim p.history_sync_notification_json [
          | none ↦ []
          | some json ↦ codes "History Sync Notification :: " ++ json
        ];
      }

  unfoldable pub handle_protocol_message : WhatsappMessage C → ProtocolMessage → WhatsappMessage C
  unfolding protocol_edit protocol_history as_unhandled
  handle_protocol_message out p = elim p.type [
    | message_edit ↦ protocol_edit out p
    | ProtocolMessageType.revoke ↦ record out { id = p.key_id; type = revoke }
    | history_sync_notification ↦ protocol_history out p
    | other_protocol ↦
        as_unhandled (codes "ProtocolMessage") (codes "unknown protocol message type") out
  ]

  unfoldable pub handle_extended_text_message :
      WhatsappMessage C → ExtendedTextMessage → WhatsappMessage C
  unfolding url_of with_context with_ads
  handle_extended_text_message out e = with_ads e.context_info (
      with_context e.context_info (record out {
        type = WhatsappMessageType.text;
        text = e.text;
        url = if ltb 0 (length e.matched_text) then some (url_of e) else out.url;
      }))

  unfoldable pub handle_reaction_message : WhatsappMessage C → ReactionMessage → WhatsappMessage C
  handle_reaction_message out r = record out {
    type = WhatsappMessageType.text;
    text = r.text;
    in_reaction = true;
    in_reply = r.key_id;
    info = if length r.text == 0 then info_text (codes "reaction removed") else out.info;
  }

  unfoldable pub handle_buttons_response_message :
      WhatsappMessage C → ButtonsResponseMessage → WhatsappMessage C
  unfolding with_context
  handle_buttons_response_message out b =
      with_context b.context_info
        (record out { type = WhatsappMessageType.text; text = b.selected_button_id })

  unfoldable pub handle_template_message : WhatsappMessage C → TemplateMessage → WhatsappMessage C
  unfolding with_context
  handle_template_message out t = elim t.hydrated_content_text [
    | none ↦ out
    | some content ↦ record (with_context t.context_info out) {
      type = WhatsappMessageType.text;
      text = if ltb 0 (length content) then content ++ (10 ∷ []) else [];
    }
  ]

  unfoldable pub handle_template_button_reply_message :
      (ℕ → Text) → WhatsappMessage C → TemplateButtonReplyMessage → WhatsappMessage C
  unfolding with_context
  handle_template_button_reply_message decimal out t = with_context t.context_info (record out {
    type = WhatsappMessageType.text;
    text = codes "(" ++ decimal t.selected_index ++ codes "): " ++ t.selected_display_text;
  })

  unfoldable pub handle_list_message : WhatsappMessage C → ListMessage → WhatsappMessage C
  unfolding list_text with_context
  handle_list_message out m =
      with_context m.context_info
        (record out { type = WhatsappMessageType.text; text = list_text m })
