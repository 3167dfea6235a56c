-- ===== src/Routing/Tests.antt =====
-- Runs of the choice of destinations at fixed inputs.
use quepasa.Prelude.{ℕ, ◌≡◌, refl, inl, inr, Bool, true, false, none, some, List, [], ◌∷◌, ℤ}
use quepasa.Strings.{Text, codes}
use quepasa.Whatsapp.Booleans.{unset_boolean, false_boolean}
use quepasa.Whatsapp.Options.Toggles.{AreDeclared}
use quepasa.Whatsapp.Message.{no_info, WhatsappMessage, WhatsappMessageType}
use quepasa.Dispatching.{QpDispatching}
use quepasa.Routing.{post_to_dispatching, determine_routing_key, transport, post_webhook}
use quepasa.Routing.Choice.{Chosen, post_to_dispatching-Chosen}

-- A message of the server's own API, to a group.
abbrev own : WhatsappMessage ℕ
own = record {
  content = none;
  id = codes "a1";
  timestamp = 90;
  type = WhatsappMessageType.text;
  chat = record { id = codes "1@g.us"; lid = []; phone = []; title = codes "T" };
  text = codes "hello";
  attachment = none;
  from_me = false;
  participant = none;
  forwarding_score = 0;
  url = none;
  ads = none;
  info = no_info;
  debug = none;
  from_internal = true;
  from_history = false;
  edited = false;
  in_reaction = false;
  in_reply = [];
  synopsis = [];
  status = [];
  wid = [];
  track_id = codes "x";
  exceptions = [];
}

abbrev destination : Text → Bool → Text → ℤ → QpDispatching
destination k forward track groups = record {
  options = record {
    groups = groups;
    broadcasts = unset_boolean;
    read_receipts = unset_boolean;
    calls = unset_boolean;
    read_update = unset_boolean;
  };
  connection_string = k;
  type = codes "webhook";
  forward_internal = forward;
  track_id = track;
  wid = codes "w";
}

abbrev silent : QpDispatching
silent = destination (codes "a") false [] unset_boolean

abbrev sender : QpDispatching
sender = destination (codes "b") true (codes "x") unset_boolean

abbrev listener : QpDispatching
listener = destination (codes "c") true (codes "y") unset_boolean

abbrev no_groups : QpDispatching
no_groups = destination (codes "d") true [] false_boolean

routing_tests :
    (post_to_dispatching (silent ∷ sender ∷ listener ∷ no_groups ∷ []) own ≡ some (listener ∷ []))
    × (determine_routing_key own ≡ codes "prod")
    × (transport listener ≡ some post_webhook)
unfolding post_to_dispatching determine_routing_key transport
routing_tests = (refl, refl, refl)

declared : (k : Text) (f : Bool) (t : Text) → AreDeclared (destination k f t unset_boolean).options
declared k f t = record {
  groups = inr (inl refl);
  broadcasts = inr (inl refl);
  read_receipts = inr (inl refl);
  calls = inr (inl refl);
  read_update = inr (inl refl);
}

post_to_dispatching-Chosen_example :
    (calls : List QpDispatching) × (post_to_dispatching (silent ∷ sender ∷ listener ∷ []) own
      ≡ some calls)
    × Chosen own calls (silent ∷ sender ∷ listener ∷ [])
post_to_dispatching-Chosen_example =
    post_to_dispatching-Chosen (silent ∷ sender ∷ listener ∷ []) own (
      declared (codes "a") false [],
      (declared (codes "b") true (codes "x"), (declared (codes "c") true (codes "y"), tt)),
    )
