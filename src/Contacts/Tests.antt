-- ===== src/Contacts/Tests.antt =====
-- whatsmeow/whatsmeow_contact_maps.go: the maps at fixed inputs.
use quepasa.Prelude.{◌≡◌, refl, inr, true, false, none, some, List, [], ◌∷◌, ◌>>=◌}
use quepasa.Strings.{codes}
use quepasa.Contacts.{
  WhatsmeowContactMaps, no_contacts, normalize_phone, format_phone, get_phone_from_lid_map,
  get_lid_from_phone_map, Write, set_phone, set_lid, writes,
}
use quepasa.Contacts.History.{names_lid, names_phone, pair_lid, pair_phone, latest, reads-writes}
use quepasa.Contacts.Manager.{Client, no_client, with_client, user_jid, get_phone_from_lid}
use quepasa.Contacts.Answers.{get_phone_from_lid-again}

-- A LID changes its number, the latest write first.
abbrev moves : List Write
moves =
    set_lid (codes "+552") (codes "b@lid")
    ∷ set_phone (codes "a@lid") (codes "553")
    ∷ set_phone (codes "a@lid") (codes "+552")
    ∷ []

-- The old number of `a` was given to `b`, and `a` keeps its new one.
moved :
    (get_phone_from_lid_map (codes "a@lid") (writes moves no_contacts) ≡ some (codes "+553"))
    × (get_lid_from_phone_map (codes "+552") (writes moves no_contacts) ≡ some (codes "b@lid"))
unfolding get_phone_from_lid_map get_lid_from_phone_map writes
moved = (refl, refl)

-- Of two pluses one is taken off at each read.
two_pluses :
    (get_phone_from_lid_map
        (codes "a")
        (writes (set_phone (codes "a") (codes "++5") ∷ []) no_contacts)
      ≡ some (codes "+5"))
    × (get_lid_from_phone_map
          (codes "+5")
          (writes (set_phone (codes "a") (codes "++5") ∷ []) no_contacts)
        ≡ none)
unfolding get_phone_from_lid_map get_lid_from_phone_map writes
two_pluses = (refl, refl)

reads-writes_example :
    (get_phone_from_lid_map (codes "a@lid") (writes moves no_contacts)
      ≡ (latest (names_lid (codes "a@lid")) moves >>= (λ w. some (format_phone (pair_phone w)))))
    × (get_lid_from_phone_map (codes "+552") (writes moves no_contacts) ≡ (
        latest (names_phone (normalize_phone (codes "+552"))) moves >>= (λ w. some (pair_lid w))))
reads-writes_example = reads-writes (codes "a@lid") (codes "+552") moves

-- A client whose store knows one number.
abbrev client : Client
client = record {
  has_store = true;
  parse_jid = λ t. some (user_jid t);
  jid_string = λ jid. jid.user;
  to_non_ad = λ jid. jid;
  is_empty = λ jid. false;
  get_lid_for_pn = λ jid. none;
  get_pn_for_lid = λ jid. some (user_jid (codes "5521"));
  has_contacts = false;
  get_contact = λ jid. none;
  get_group_info = λ jid. none;
}

known : WhatsmeowContactMaps
known = (get_phone_from_lid (with_client client) (codes "a@lid") no_contacts).0

-- The store's number comes without a plus, the one of the maps with one.
two_answers :
    ((get_phone_from_lid (with_client client) (codes "a@lid") no_contacts).1 ≡ inr (codes "5521"))
    × ((get_phone_from_lid no_client (codes "a@lid") known).1 ≡ inr (codes "+5521"))
unfolding get_phone_from_lid known
two_answers = (refl, refl)

get_phone_from_lid-again_example :
    get_phone_from_lid no_client (codes "a@lid") known ≡ (known, inr (codes "+5521"))
unfolding get_phone_from_lid known
get_phone_from_lid-again_example =
    get_phone_from_lid-again (with_client client) no_client (codes "a@lid") (codes "5521")
      no_contacts refl
