-- ===== src/Server/Sending/Tests.antt =====
-- models/qp_whatsapp_server.go: SendMessage at fixed inputs, over a connection that counts what it takes.
use quepasa.Prelude.{
  ℕ, suc, ◌≡◌, refl, inr, Bool, true, false, none, some, [], ◌∷◌, ◌==◌, if◌then◌else◌, length,
}
use quepasa.Strings.{codes}
use quepasa.Cache.{empty}
use quepasa.Whatsapp.Message.{no_info, no_attachment, WhatsappMessage, WhatsappMessageType}
use quepasa.Server.{QpWhatsappServer}
use quepasa.Server.Sending.{Sender, refused, text_of, audio_of, send_message}

-- It takes one message, to which it writes an id, if it has none, and a time, and refuses the others.
abbrev taking_one : Sender ℕ ℕ
taking_one = record {
  send = λ msg w. (
    suc w,
    record msg { id = if length msg.id == 0 then codes "new" else msg.id; timestamp = 91 },
    if w == 0 then none else some (codes "offline"),
  );
  is_on_whatsapp = λ a b w. (w, inr (b ∷ []));
}

abbrev online : QpWhatsappServer Bool ℕ ℕ
online = record {
  row = record {
    token = codes "t";
    wid = codes "5521@lid";
    verified = true;
    user = [];
    timestamp = 0;
  };
  connection = some (record { client = some true; is_connecting = false; failed_token = false });
  stop_requested = false;
  handler = record {
    cache = record { messages = empty; statuses = empty };
    server = none;
    aeh = [];
  };
  dispatching_handler = 7;
  start_time = 0;
  update_time = 0;
  db = 0;
}

abbrev spoken : WhatsappMessage ℕ
spoken = record {
  content = none;
  id = codes "a1";
  timestamp = 90;
  type = WhatsappMessageType.audio;
  chat = record { id = codes "1@g.us"; lid = []; phone = []; title = codes "T" };
  text = codes "hello";
  attachment = some (record no_attachment { mimetype = codes "audio/ogg" });
  from_me = false;
  participant = none;
  forwarding_score = 0;
  url = none;
  ads = none;
  info = no_info;
  debug = none;
  from_internal = true;
  from_history = false;
  edited = false;
  in_reaction = false;
  in_reply = [];
  synopsis = [];
  status = [];
  wid = [];
  track_id = [];
  exceptions = [];
}

-- The text is sent and announced, and the audio is refused.
half_sent :
    ((send_message taking_one true online spoken 0).announced
      ≡ record (text_of spoken) { timestamp = 91 } ∷ [])
    × ((send_message taking_one true online (record spoken { id = [] }) 0).announced
        ≡ record (text_of spoken) { id = codes "new"; timestamp = 91 } ∷ [])
    × ((send_message taking_one true online spoken 0).error ≡ some (refused (codes "offline")))
    × ((audio_of spoken).id ≡ codes "a1-audio")
unfolding send_message audio_of
half_sent = (refl, refl, refl, refl)
