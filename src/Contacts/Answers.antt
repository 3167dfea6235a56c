-- ===== src/Contacts/Answers.antt =====
-- What the contact manager answers a second time.
use quepasa.Prelude.{
  ◌≡◌, refl, inl, inr, none, some, arith, if◌then◌else◌, Bool-cases, Option-cases, is_some,
}
use quepasa.Strings.{Text}
use quepasa.Maps.{lookup-insert}
use quepasa.Contacts.{
  WhatsmeowContactMaps, normalize_phone, format_phone, get_phone_from_lid_map,
  set_phone_from_lid_map,
}
use quepasa.Contacts.Manager.{
  Client, Device, no_client, with_client, phone_from_store, phone_of_answer, get_phone_from_lid,
}

get_phone_from_lid_map-set_phone_from_lid_map :
    (lid phone : Text) (c : WhatsmeowContactMaps)
    → get_phone_from_lid_map lid (set_phone_from_lid_map lid phone c)
      ≡ some (format_phone (normalize_phone phone))
unfolding get_phone_from_lid_map set_phone_from_lid_map
get_phone_from_lid_map-set_phone_from_lid_map lid phone c =
    rw (lookup-insert lid (normalize_phone phone) c.lid_to_phone, get_phone_from_lid_map) refl

-- An answer that stands in the maps is given without the client.
get_phone_from_lid-cached :
    (device : Device) (lid phone : Text) (c : WhatsmeowContactMaps)
    → get_phone_from_lid_map lid c ≡ some phone
    → get_phone_from_lid device lid c ≡ (c, inr phone)
unfolding get_phone_from_lid
get_phone_from_lid-cached device lid phone c h = rw (h, get_phone_from_lid) refl

-- What the store answers is put into the maps.
phone_from_store-cached :
    (lid phone : Text) (client : Client) (c : WhatsmeowContactMaps)
    → (phone_from_store lid client c).1 ≡ inr phone
    → get_phone_from_lid_map lid (phone_from_store lid client c).0
      ≡ some (format_phone (normalize_phone phone))
unfolding phone_from_store phone_of_answer
phone_from_store-cached lid phone client c h = elim (Option-cases (client.parse_jid lid)) [
  | inl e ↦ absurd (ground (arith, e, h))
  | inr (jid, e) ↦ elim (Option-cases (client.get_pn_for_lid jid)) [
    | inl q ↦ absurd (ground (arith, e, q, h))
    | inr (number, q) ↦
        ground (arith, e, q, h, get_phone_from_lid_map-set_phone_from_lid_map lid number.user c)
  ]
]

-- An answer that is not in the maps is the store's.
get_phone_from_lid-asked :
    (device : Device) (lid phone : Text) (c : WhatsmeowContactMaps)
    → get_phone_from_lid_map lid c ≡ none
    → (get_phone_from_lid device lid c).1 ≡ inr phone
    → get_phone_from_lid_map lid (get_phone_from_lid device lid c).0
      ≡ some (format_phone (normalize_phone phone))
unfolding get_phone_from_lid
get_phone_from_lid-asked no_client lid phone c e h = absurd (ground (arith, e, h))
get_phone_from_lid-asked (with_client client) lid phone c e h = elim (Bool-cases client.has_store) [
  | inl q ↦ ground (arith, e, q, h, phone_from_store-cached lid phone client c)
  | inr q ↦ absurd (ground (arith, e, q, h))
]

-- Once the number of a LID is answered, it is answered again by any client, or by none, and the maps
-- stay as they are then. The text is the same where the maps had it. Where the store was asked, one
-- leading plus is taken off it, and one is put in front of what is left, unless that is empty or
-- still begins with a plus.
pub get_phone_from_lid-again :
    (device later : Device) (lid phone : Text) (c : WhatsmeowContactMaps)
    → (get_phone_from_lid device lid c).1 ≡ inr phone
    → let known = (get_phone_from_lid device lid c).0 in
      get_phone_from_lid later lid known ≡ (
        known,
        inr (
            if is_some (get_phone_from_lid_map lid c)
            then phone
            else format_phone (normalize_phone phone)),
      )
get_phone_from_lid-again device later lid phone c h =
    elim (Option-cases (get_phone_from_lid_map lid c)) [
      | inl e ↦ rw e (
          get_phone_from_lid-cached later lid (format_phone (normalize_phone phone))
            (get_phone_from_lid device lid c).0 (get_phone_from_lid-asked device lid phone c e h))
      | inr (p, e) ↦ ground (
        arith,
        e,
        h,
        get_phone_from_lid-cached device lid p c e,
        get_phone_from_lid-cached later lid p c e,
      )
    ]
