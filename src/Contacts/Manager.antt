-- ===== src/Contacts/Manager.antt =====
-- whatsmeow/whatsmeow_contact_manager.go: the telephone number of a LID and the LID of a number, from
-- the maps and, where they do not have it, from whatsmeow's client. The client and the conversions of
-- JIDs are whatsmeow's and come as a record; a failed call of the client is `none`.
use quepasa.Prelude.{ℕ, ◌⊎◌, inl, inr, Bool, Option, none, some, [], ltb, if◌then◌else◌, length}
use quepasa.Strings.{Text, codes, contains_text, trim_space}
use quepasa.Whatsapp.Endpoint.{get_phone_of_wid, user_suffix, lid_suffix}
use quepasa.Contacts.{
  WhatsmeowContactMaps, normalize_phone, get_phone_from_lid_map, set_phone_from_lid_map,
  get_lid_from_phone_map, set_lid_from_phone_map,
}

-- types.JID
pub record Jid : Type 0 where
  pub user : Text
  pub server : Text
  pub device : ℕ

-- types.ContactInfo
pub record ContactInfo : Type 0 where
  pub found : Bool
  pub full_name : Text
  pub business_name : Text
  pub push_name : Text
  pub first_name : Text

-- What the code asks of whatsmeow: whether the client has a store, ParseJID, String, ToNonAD and
-- IsEmpty of JIDs, the store's LIDs and contacts, and GetGroupInfo for the name of a group.
pub record Client : Type 0 where
  pub has_store : Bool
  pub parse_jid : Text → Option Jid
  pub jid_string : Jid → Text
  pub to_non_ad : Jid → Jid
  pub is_empty : Jid → Bool
  pub get_lid_for_pn : Jid → Option Jid
  pub get_pn_for_lid : Jid → Option Jid
  pub has_contacts : Bool
  pub get_contact : Jid → Option ContactInfo
  pub get_group_info : Jid → Option Text

-- The client of a connection, which may be nil.
pub data Device : Type 0 where
  no_client : Device
  with_client : Client → Device

-- The errors, by the message that the code writes.
pub data ContactError : Type 0 where
  client_not_defined store_not_defined invalid_lid failed_to_get_phone no_phone_for_lid
        no_phone_for_contact :
      ContactError

-- `err == nil && !jid.IsEmpty()`
unfoldable pub present : Client → Option Jid → Option Jid
present client none = none
present client (some jid) = if client.is_empty jid then none else some jid

-- The JID of a number at the domain of the users.
abbrev pub user_jid : Text → Jid
user_jid number = record { user = number; server = codes "s.whatsapp.net"; device = 0 }

lid_from_store : Text → Client → WhatsmeowContactMaps → WhatsmeowContactMaps × (ContactError ⊎ Text)
unfolding present set_lid_from_phone_map
lid_from_store normalized client c =
    elim (present client (client.get_lid_for_pn (user_jid normalized))) [
      | none ↦ (c, inr [])
      | some jid ↦
          let lid = client.jid_string (client.to_non_ad jid) in
          (set_lid_from_phone_map normalized lid c, inr lid)
    ]

unfoldable pub get_lid_from_phone :
    Device → Text → WhatsmeowContactMaps → WhatsmeowContactMaps × (ContactError ⊎ Text)
unfolding trim_space normalize_phone get_lid_from_phone_map lid_from_store
get_lid_from_phone device phone c =
    let normalized = normalize_phone (trim_space phone) in
    elim (get_lid_from_phone_map normalized c) [
      | some lid ↦ (c, inr lid)
      | none ↦ elim device [
        | no_client ↦ (c, inl client_not_defined)
        | with_client client ↦
            if client.has_store
            then lid_from_store normalized client c
            else (c, inl store_not_defined)
      ]
    ]

-- GetPNForLID and what follows it.
unfoldable pub phone_of_answer :
    Text → Client → Option Jid → WhatsmeowContactMaps → WhatsmeowContactMaps × (ContactError ⊎ Text)
unfolding set_phone_from_lid_map
phone_of_answer lid client none c = (c, inl failed_to_get_phone)
phone_of_answer lid client (some jid) c =
    if client.is_empty jid
    then (c, inl no_phone_for_lid)
    else (set_phone_from_lid_map lid jid.user c, inr jid.user)

unfoldable pub phone_from_store :
    Text → Client → WhatsmeowContactMaps → WhatsmeowContactMaps × (ContactError ⊎ Text)
unfolding phone_of_answer
phone_from_store lid client c = elim (client.parse_jid lid) [
  | none ↦ (c, inl invalid_lid)
  | some jid ↦ phone_of_answer lid client (client.get_pn_for_lid jid) c
]

unfoldable pub get_phone_from_lid :
    Device → Text → WhatsmeowContactMaps → WhatsmeowContactMaps × (ContactError ⊎ Text)
unfolding get_phone_from_lid_map phone_from_store
get_phone_from_lid device lid c = elim (get_phone_from_lid_map lid c) [
  | some phone ↦ (c, inr phone)
  | none ↦ elim device [
    | no_client ↦ (c, inl client_not_defined)
    | with_client client ↦
        if client.has_store then phone_from_store lid client c else (c, inl store_not_defined)
  ]
]

-- The end of GetPhoneFromContactId: an empty number is returned with the nil error.
abbrev valid_or_error : Option Text → ContactError ⊎ Text
valid_or_error none = inl no_phone_for_contact
valid_or_error (some phone) = inr phone

phone_of_lookup : ContactError ⊎ Text → ContactError ⊎ Text
unfolding get_phone_of_wid
phone_of_lookup (inl e) = inl e
phone_of_lookup (inr phone) =
    if ltb 0 (length phone) then valid_or_error (get_phone_of_wid phone) else inr []

-- The branch for a contact that is not a user with a valid number.
phone_of_other : Device → Text → WhatsmeowContactMaps → WhatsmeowContactMaps × (ContactError ⊎ Text)
unfolding contains_text get_phone_from_lid phone_of_lookup
phone_of_other device contact_id c =
    let (c', answer) = get_phone_from_lid device contact_id c in
    if contains_text contact_id lid_suffix
    then (c', phone_of_lookup answer)
    else (c, inl no_phone_for_contact)

unfoldable pub get_phone_from_contact_id :
    Device → Text → WhatsmeowContactMaps → WhatsmeowContactMaps × (ContactError ⊎ Text)
unfolding contains_text get_phone_of_wid phone_of_other
get_phone_from_contact_id device contact_id c =
    let other = phone_of_other device contact_id c in
    if contains_text contact_id user_suffix
    then elim (get_phone_of_wid contact_id) [ some phone ↦ (c, inr phone) | none ↦ other ]
    else other
