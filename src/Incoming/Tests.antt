-- ===== src/Incoming/Tests.antt =====
-- The conversion of messages at fixed inputs.
use quepasa.Prelude.{
  ℕ, ◌+◌, ◌≡◌, refl, sym, ap, Bool, true, false, Option, none, some, List, [], ◌∷◌, ◌++◌, map,
  arith, is_some, pos, ◌>>=◌,
}
use quepasa.Strings.{Text, codes}
use quepasa.Whatsapp.Message.{WhatsappMessage, WhatsappMessageType, unhandled, blank}
use quepasa.Incoming.{E2eMessage, LocationMessage, ContactMessage, ProtocolMessageType, Library}
use quepasa.Incoming.Texts.{list_text}
use quepasa.Incoming.Conversion.{Converted, handle_knowing_messages}
use quepasa.Incoming.Frame.{Preserves, handle_knowing_messages-Preserves}
use quepasa.Incoming.Refusal.{has_coordinates, handle_knowing_messages-converts}
use quepasa.Incoming.Contacts.{all_messages, HaveDistinctIds, contacts-HaveDistinctIds}

abbrev pub empty_message : E2eMessage
empty_message = record {
  image_message = none;
  sticker_message = none;
  document_message = none;
  audio_message = none;
  video_message = none;
  extended_text_message = none;
  ephemeral_message = false;
  buttons_response_message = none;
  location_message = none;
  live_location_message = none;
  contact_message = none;
  reaction_message = none;
  edited_text = none;
  protocol_message = none;
  template_message = none;
  template_button_reply_message = none;
  contacts_array_message = none;
  list_message = none;
  sender_key_distribution_message = false;
  sticker_sync_rmr_message = false;
  conversation = [];
  event_type = codes "unknown";
}

abbrev pub library : Library ℕ
library = record { slug = λ t. t; decimal = λ n. (b'0' + n) ∷ []; contact_content = λ c. 7 }

abbrev received : WhatsappMessage ℕ
received = record (blank {C = ℕ}) {
  id = codes "A1";
  chat = record { id = codes "55@g.us"; lid = []; phone = []; title = [] };
  participant = some (record { id = codes "77@lid"; lid = []; phone = []; title = [] });
  from_history = true;
}

abbrev somewhere : LocationMessage
somewhere = record {
  degrees_latitude = some (codes "1.0");
  degrees_longitude = some (codes "2.0");
  caption = [];
  sequence_number = pos 0;
  thumbnail = [];
}

abbrev nowhere : LocationMessage
nowhere = record somewhere { degrees_longitude = none }

type_of : Converted ℕ → Option WhatsappMessageType
type_of r = r >>= (λ o. some (o.0).type)

-- A conversation is a text; without one the message is unhandled.
texts :
    (type_of (
        handle_knowing_messages library received
          (record empty_message { conversation = codes "hi" }))
      ≡ some WhatsappMessageType.text)
    × (type_of (handle_knowing_messages library received empty_message) ≡ some unhandled)
unfolding handle_knowing_messages type_of
texts = (refl, refl)

-- A location without a longitude is a panic.
without_longitude :
    handle_knowing_messages library received
      (record empty_message { location_message = some nowhere })
    ≡ none
unfolding handle_knowing_messages
without_longitude = refl

abbrev revocation : E2eMessage
revocation = record empty_message {
  protocol_message = some (record {
    type = ProtocolMessageType.revoke;
    key_id = codes "B2";
    edited_message = none;
    json = [];
    history_sync_notification_json = none;
  });
}

-- A revoke takes the id of the message that is revoked.
revoked :
    (handle_knowing_messages library received revocation >>= (λ o. some (o.0).id))
    ≡ some (codes "B2")
unfolding handle_knowing_messages
revoked = refl

abbrev people : List ContactMessage
people =
    record { display_name = codes "Ann"; vcard = codes "v" }
    ∷ record { display_name = codes "Bob"; vcard = codes "w" }
    ∷ []

-- The second contact has a suffix, no participant and no mark of the history.
second_contact :
    map {B = Text × (Bool × Bool)}
      (λ b. (b.id, (is_some b.participant, b.from_history)))
      (all_messages library received people)
    ≡ (codes "A1", (true, true)) ∷ (codes "A1-2", (false, false)) ∷ []
unfolding all_messages
second_contact = refl

-- The rendering of a list.
a_list :
    list_text (record {
      title = codes "T";
      description = codes "D";
      button_text = codes "B";
      sections =
          none
          ∷ some (record {
            title = codes "S";
            rows =
                some (record { row_id = codes "1"; title = codes "R"; description = codes "x" })
                ∷ [];
          })
          ∷ [];
      footer_text = [];
      context_info = none;
    })
    ≡ codes "*T:*"
      ++ (10 ∷ codes " _D_")
      ++ (10 ∷ codes " ")
      ++ (10 ∷ codes "*B*:")
      ++ (10 ∷ codes "-- *S:*")
      ++ (10 ∷ codes " * (1) *R:* x")
      ++ (10 ∷ codes " ")
unfolding list_text
a_list = refl

handle_knowing_messages-Preserves_example :
    Preserves revocation received (handle_knowing_messages library received revocation)
handle_knowing_messages-Preserves_example =
    handle_knowing_messages-Preserves library received revocation

coordinates : (place : LocationMessage) → some somewhere ≡ some place → has_coordinates place ≡ true
coordinates place h = ap (λ o. elim o [ none ↦ true | some l ↦ has_coordinates l ]) (sym h)

handle_knowing_messages-converts_example :
    is_some (
      handle_knowing_messages library received
        (record empty_message { location_message = some somewhere }))
    ≡ true
handle_knowing_messages-converts_example =
    handle_knowing_messages-converts library received
      (record empty_message { location_message = some somewhere }) coordinates (λ l h. cc)

decimal_injective : (a b : ℕ) → library.decimal a ≡ library.decimal b → a ≡ b
decimal_injective a b h = omega (arith, ap {B = ℕ} (λ t. elim t [ [] ↦ 0 | x ∷ xs ↦ x ]) h)

contacts-HaveDistinctIds_example :
    HaveDistinctIds (all_messages library received people)
    × (map (λ b. b.text) (all_messages library received people) ≡ codes "Ann" ∷ codes "Bob" ∷ [])
contacts-HaveDistinctIds_example =
    contacts-HaveDistinctIds library received
      (record { display_name = codes "Ann"; vcard = codes "v" })
      (record { display_name = codes "Bob"; vcard = codes "w" } ∷ []) decimal_injective
