-- ===== src/Server/Sending/Sequence.antt =====
-- models/qp_whatsapp_server.go: SendMessage sends the parts of a message in their order.
use quepasa.Prelude.{ℕ, ◌<◌, ◌≡◌, ◌⊎◌, none, some, List, [], ◌∷◌, ◌++◌, if◌then◌else◌, length, take}
use quepasa.Strings.{Text}
use quepasa.Whatsapp.Message.{WhatsappMessage}
use quepasa.Server.Sending.{Sender, Sending, refused, is_audio_with_text, text_of, audio_of}

-- The messages that a message is sent as.
unfoldable pub parts {ℓ} : {C : Type ℓ} → WhatsappMessage C → List (WhatsappMessage C)
unfolding is_audio_with_text text_of audio_of
parts msg = if is_audio_with_text msg then text_of msg ∷ audio_of msg ∷ [] else msg ∷ []

module _ {ℓ} {C : Type ℓ} {W : Type 0} (sender : Sender C W) where
  -- A sending of messages up to the first that is refused.
  unfoldable pub send_all : List (WhatsappMessage C) → List (WhatsappMessage C) → W → Sending C W
  send_all [] announced w = record { world = w; announced = announced; error = none }
  send_all (msg ∷ msgs) announced w =
      let (w', sent, error) = sender.send msg w in
      let rest = send_all msgs (announced ++ (sent ∷ [])) w' in
      elim error [
        | none ↦ rest
        | some e ↦ record { world = w'; announced = announced; error = some (refused e) }
      ]

  -- The messages as the connection leaves them, where it takes them all.
  unfoldable pub left_by : List (WhatsappMessage C) → W → List (WhatsappMessage C)
  left_by [] w = []
  left_by (msg ∷ msgs) w = let (w', sent, error) = sender.send msg w in sent ∷ left_by msgs w'

  -- How a sending of messages ends: all are announced as the connection left them, or a first one is
  -- refused and those before it are announced.
  abbrev pub EndsInOrder :
      List (WhatsappMessage C) → List (WhatsappMessage C) → W → Sending C W → Type ℓ
  EndsInOrder msgs announced w result =
      ((result.error ≡ none) × (result.announced ≡ announced ++ left_by msgs w))
      ⊎ ((n : ℕ) × (e : Text) × (n < length msgs)
          × (result.error ≡ some (refused e))
          × (result.announced ≡ announced ++ take n (left_by msgs w)))
