-- ===== src/Contacts/History.antt =====
-- whatsmeow/whatsmeow_contact_maps.go: a read answers the latest write.
use quepasa.Prelude.{
  ◌≡◌, refl, ◌∙◌, inl, inr, Bool, ◌&&◌, Option, none, some, List, [], ◌∷◌, arith, ltb,
  if◌then◌else◌, Bool-cases, length, ◌>>=◌,
}
use quepasa.Strings.{Text, same}
use quepasa.Strings.Laws.{same_iff}
use mathlib.Core.Path.{subst}
use quepasa.Maps.{lookup, insert, lookup-insert, lookup-insert_other}
use quepasa.Contacts.{
  WhatsmeowContactMaps, no_contacts, normalize_phone, format_phone, get_phone_from_lid_map,
  set_phone_from_lid_map, get_lid_from_phone_map, set_lid_from_phone_map, Write, set_phone, set_lid,
  write, writes,
}

-- The pair that a write stores.
unfoldable pub pair_lid : Write → Text
pair_lid (set_phone lid phone) = lid
pair_lid (set_lid phone lid) = lid

unfoldable pub pair_phone : Write → Text
unfolding normalize_phone
pair_phone (set_phone lid phone) = normalize_phone phone
pair_phone (set_lid phone lid) = normalize_phone phone

-- A write with an empty key changes the map of its other key only.
unfoldable pub names_lid : Text → Write → Bool
unfolding same
names_lid lid (set_phone l phone) = same l lid
names_lid lid (set_lid phone l) = ltb 0 (length l) && same l lid

unfoldable pub names_phone : Text → Write → Bool
unfolding same normalize_phone
names_phone phone (set_phone lid p) =
    ltb 0 (length (normalize_phone p)) && same (normalize_phone p) phone
names_phone phone (set_lid p lid) = same (normalize_phone p) phone

-- The latest write of those with a property, the latest first.
unfoldable pub latest : (Write → Bool) → List Write → Option Write
latest p [] = none
latest p (w ∷ past) = let rest = latest p past in if p w then some w else rest

lookup-insert_eq :
    (key other : Text) (v : Text) (m : List (Text × Text))
    → lookup other (insert key v m) ≡ (if same key other then some v else lookup other m)
lookup-insert_eq key other v m = elim (Bool-cases (same key other)) [
  | inl e ↦ rw e (
      subst (λ k. lookup k (insert key v m) ≡ some v) ((same_iff key other).0 e)
        (lookup-insert key v m))
  | inr e ↦ rw e (lookup-insert_other key other v m (λ q. ground (arith, e, same_iff key other, q)))
]

write-lid_to_phone :
    (lid : Text) (w : Write) (c : WhatsmeowContactMaps)
    → lookup lid (write w c).lid_to_phone
      ≡ (if names_lid lid w then some (pair_phone w) else lookup lid c.lid_to_phone)
unfolding write set_phone_from_lid_map set_lid_from_phone_map names_lid pair_phone
write-lid_to_phone lid (set_phone l phone) c =
    lookup-insert_eq l lid (normalize_phone phone) c.lid_to_phone
write-lid_to_phone lid (set_lid phone l) c =
    ground (arith, lookup-insert_eq l lid (normalize_phone phone) c.lid_to_phone)

write-phone_to_lid :
    (phone : Text) (w : Write) (c : WhatsmeowContactMaps)
    → lookup phone (write w c).phone_to_lid
      ≡ (if names_phone phone w then some (pair_lid w) else lookup phone c.phone_to_lid)
unfolding write set_phone_from_lid_map set_lid_from_phone_map names_phone pair_lid
write-phone_to_lid phone (set_phone l p) c =
    ground (arith, lookup-insert_eq (normalize_phone p) phone l c.phone_to_lid)
write-phone_to_lid phone (set_lid p l) c =
    lookup-insert_eq (normalize_phone p) phone l c.phone_to_lid

lid_to_phone-writes :
    (lid : Text) (ws : List Write)
    → lookup lid (writes ws no_contacts).lid_to_phone
      ≡ (latest (names_lid lid) ws >>= (λ w. some (pair_phone w)))
unfolding writes lookup latest
lid_to_phone-writes lid [] = refl
lid_to_phone-writes lid (w ∷ ws) =
    write-lid_to_phone lid w (writes ws no_contacts) ∙ ground (arith, lid_to_phone-writes lid ws)

phone_to_lid-writes :
    (phone : Text) (ws : List Write)
    → lookup phone (writes ws no_contacts).phone_to_lid
      ≡ (latest (names_phone phone) ws >>= (λ w. some (pair_lid w)))
unfolding writes lookup latest
phone_to_lid-writes phone [] = refl
phone_to_lid-writes phone (w ∷ ws) =
    write-phone_to_lid phone w (writes ws no_contacts)
    ∙ ground (arith, phone_to_lid-writes phone ws)

-- After any writes from empty maps, each of the two reads answers the latest write that names its key:
-- a LID is answered with the number last stored with it, behind a plus where it is not empty, and a
-- number, with or without a plus, with the LID last stored with it; what no write names is not
-- found. SetPhoneFromLIDMap names its LID, and its number unless that is empty; SetLIDFromPhoneMap
-- names its number, and its LID unless that is empty.
pub reads-writes :
    (lid phone : Text) (ws : List Write)
    → (get_phone_from_lid_map lid (writes ws no_contacts)
        ≡ (latest (names_lid lid) ws >>= (λ w. some (format_phone (pair_phone w)))))
      × (get_lid_from_phone_map phone (writes ws no_contacts)
          ≡ (latest (names_phone (normalize_phone phone)) ws >>= (λ w. some (pair_lid w))))
unfolding get_phone_from_lid_map get_lid_from_phone_map
reads-writes lid phone ws =
    (ground (arith, lid_to_phone-writes lid ws), phone_to_lid-writes (normalize_phone phone) ws)
