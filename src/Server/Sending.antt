-- ===== src/Server/Sending.antt =====
-- models/qp_whatsapp_server.go: SendMessage. The connection and its contact manager are behind an
-- interface, with a state of their own; the messages that are given to the handler are returned in
-- their order.
mod Sequence
mod Tests
use quepasa.Prelude.{
  ℕ, zero, suc, ◌+◌, ◌-◌, ◌*◌, ◌/◌, ◌%◌, ◌^◌, ◌≤◌, ◌<◌, String, ◌≡◌, refl, sym, ap, ◌∙◌, ◌≢◌, ◌↔◌,
  ◌⊎◌, inl, inr, Bool, true, false, ◌&&◌, ◌||◌, not, Option, none, some, List, [], ◌∷◌, ◌++◌, map,
  arith, ltb, leb, ◌==◌, if◌then◌else◌, ltb→lt, lt→ltb, leb→le, le→leb, ==_iff, not_zero, tests,
  Bool-cases, Option-cases, sum-cases, is_some, length, get_elem?, take, drop, length-append,
  drop-append, length-take-le, All, ℤ, pos, negsuc, int_eq, int_eq_iff, ne_of_int_eq, eq_of_some,
  All-append, ◌>>=◌,
}
use quepasa.Strings.{
  Text, codes, same, contains, has_prefix, has_suffix, contains_text, without, trim_left, trim,
  split, before, is_space, trim_space, to_upper, to_lower, is_digit, upper, lower, trim_space_left,
  trim_space_right,
}
use quepasa.Whatsapp.Message.{WhatsappMessage, has_attachment, WhatsappMessageType, audio, text}
use quepasa.Whatsapp.Endpoint.{get_phone_if_valid, remove_digit_9_if_elegible}
use quepasa.Server.{QpWhatsappServer}

-- Send of IWhatsappConnection, and IsOnWhatsApp of its contact manager. Send takes the message by its
-- pointer and may write to it, as that of whatsmeow does to its id, its content and its time: it answers the
-- message as it leaves it, and the error.
pub record Sender {ℓ} (C : Type ℓ) (W : Type 0) : Type ℓ where
  pub send : WhatsappMessage C → W → W × WhatsappMessage C × Option Text
  pub is_on_whatsapp : Text → Text → W → W × (Text ⊎ List Text)

pub data SendError : Type 0 where
  invalid_connection : SendError
  unknown_contact refused : Text → SendError

pub record Sending {ℓ} (C : Type ℓ) (W : Type 0) : Type ℓ where
  pub world : W
  pub announced : List (WhatsappMessage C)
  pub error : Option SendError

unfoldable pub is_audio : WhatsappMessageType → Bool
is_audio audio = true
is_audio _ = false

or_empty : Option Text → Text
or_empty none = []
or_empty (some t) = t

module _ {ℓ} {C : Type ℓ} where
  with_first : List Text → WhatsappMessage C → WhatsappMessage C
  with_first [] msg = msg
  with_first (valid ∷ valids) msg = record msg { chat = record msg.chat { id = valid } }

  -- The text of an audio, on its own.
  unfoldable pub text_of : WhatsappMessage C → WhatsappMessage C
  text_of msg = record msg { type = text; attachment = none }

  -- The audio without its text, and with another id.
  unfoldable pub audio_of : WhatsappMessage C → WhatsappMessage C
  audio_of msg = record msg {
    id = if ltb 0 (length msg.id) then msg.id ++ codes "-audio" else msg.id;
    text = [];
  }

  unfoldable pub is_audio_with_text : WhatsappMessage C → Bool
  unfolding is_audio has_attachment
  is_audio_with_text msg = has_attachment msg && ltb 0 (length msg.text) && is_audio msg.type

module _ {ℓ} {C : Type ℓ} {W : Type 0} (sender : Sender C W) where
  -- The ninth digit: the error of the contact manager, or the message with the first valid id.
  unfoldable pub readdress : Bool → WhatsappMessage C → W → W × (Text ⊎ WhatsappMessage C)
  unfolding get_phone_if_valid remove_digit_9_if_elegible or_empty with_first
  readdress remove_digit_9 msg w =
      let phone = or_empty (get_phone_if_valid msg.chat.id) in
      let without = or_empty (remove_digit_9_if_elegible phone) in
      let (w', answer) = sender.is_on_whatsapp phone without w in
      if remove_digit_9 && ltb 0 (length phone) && ltb 0 (length without)
      then elim answer [
        | inl error ↦ (w', inl error)
        | inr valids ↦ (w', inr (with_first valids msg))
      ]
      else (w, inr msg)

  -- The last send, behind what was announced.
  unfoldable pub send_last : List (WhatsappMessage C) → WhatsappMessage C → W → Sending C W
  send_last announced msg w =
      let (w', sent, error) = sender.send msg w in
      elim error [
        | none ↦ record { world = w'; announced = announced ++ (sent ∷ []); error = none }
        | some e ↦ record { world = w'; announced = announced; error = some (refused e) }
      ]

  unfoldable pub send_parts : WhatsappMessage C → W → Sending C W
  unfolding is_audio_with_text text_of audio_of send_last
  send_parts msg w =
      let (w', sent, error) = sender.send (text_of msg) w in
      if is_audio_with_text msg
      then elim error [
        | none ↦ send_last (sent ∷ []) (audio_of msg) w'
        | some e ↦ record { world = w'; announced = []; error = some (refused e) }
      ]
      else send_last [] msg w

  unfoldable pub send_message {κ} :
      {K D : Type 0} {H : Type κ}
      → Bool
      → QpWhatsappServer K D H
      → WhatsappMessage C
      → W
      → Sending C W
  unfolding readdress send_parts
  send_message remove_digit_9 source msg w =
      let (w', answer) = readdress remove_digit_9 msg w in
      if is_some source.connection
      then elim answer [
        | inl error ↦ record { world = w'; announced = []; error = some (unknown_contact error) }
        | inr msg' ↦ send_parts msg' w'
      ]
      else record { world = w; announced = []; error = some invalid_connection }
