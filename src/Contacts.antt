-- ===== src/Contacts.antt =====
-- whatsmeow/whatsmeow_contact_maps.go: the two maps between telephone numbers and LIDs.
mod Answers
pub mod Chats
mod History
pub mod Manager
mod Tests
use quepasa.Prelude.{
  ℕ, zero, suc, ◌+◌, ◌-◌, ◌*◌, ◌/◌, ◌%◌, ◌^◌, ◌≤◌, ◌<◌, String, ◌≡◌, refl, sym, ap, ◌∙◌, ◌≢◌, ◌↔◌,
  ◌⊎◌, inl, inr, Bool, true, false, ◌&&◌, ◌||◌, not, Option, none, some, List, [], ◌∷◌, ◌++◌, map,
  arith, ltb, leb, ◌==◌, if◌then◌else◌, ltb→lt, lt→ltb, leb→le, le→leb, ==_iff, not_zero, tests,
  Bool-cases, Option-cases, sum-cases, is_some, length, get_elem?, take, drop, length-append,
  drop-append, length-take-le, All, ℤ, pos, negsuc, int_eq, int_eq_iff, ne_of_int_eq, All-append,
  ◌>>=◌,
}
use quepasa.Strings.{
  Text, codes, same, contains, has_prefix, has_suffix, contains_text, without, trim_left, trim,
  split, before, is_space, trim_space, to_upper, to_lower, is_digit, upper, lower, trim_space_left,
  trim_space_right,
}
use quepasa.Maps.{lookup, insert}

pub record WhatsmeowContactMaps : Type 0 where
  pub lid_to_phone : List (Text × Text)
  pub phone_to_lid : List (Text × Text)

abbrev pub no_contacts : WhatsmeowContactMaps
no_contacts = record { lid_to_phone = []; phone_to_lid = [] }

-- strings.TrimPrefix(phone, "+")
unfoldable pub normalize_phone : Text → Text
normalize_phone [] = []
normalize_phone (c ∷ phone) = if c == b'+' then phone else c ∷ phone

unfoldable pub format_phone : Text → Text
format_phone [] = []
format_phone (c ∷ phone) = if c == b'+' then c ∷ phone else b'+' ∷ c ∷ phone

unfoldable pub get_phone_from_lid_map : Text → WhatsmeowContactMaps → Option Text
unfolding lookup format_phone
get_phone_from_lid_map lid c = elim (lookup lid c.lid_to_phone) [
  | none ↦ none
  | some phone ↦ some (format_phone phone)
]

unfoldable pub set_phone_from_lid_map : Text → Text → WhatsmeowContactMaps → WhatsmeowContactMaps
unfolding insert normalize_phone
set_phone_from_lid_map lid phone c =
    let normalized = normalize_phone phone in
    record c {
      lid_to_phone = insert lid normalized c.lid_to_phone;
      phone_to_lid =
          if ltb 0 (length normalized)
          then insert normalized lid c.phone_to_lid
          else c.phone_to_lid;
    }

unfoldable pub get_lid_from_phone_map : Text → WhatsmeowContactMaps → Option Text
unfolding lookup normalize_phone
get_lid_from_phone_map phone c = lookup (normalize_phone phone) c.phone_to_lid

unfoldable pub set_lid_from_phone_map : Text → Text → WhatsmeowContactMaps → WhatsmeowContactMaps
unfolding insert normalize_phone
set_lid_from_phone_map phone lid c =
    let normalized = normalize_phone phone in
    record c {
      phone_to_lid = insert normalized lid c.phone_to_lid;
      lid_to_phone =
          if ltb 0 (length lid) then insert lid normalized c.lid_to_phone else c.lid_to_phone;
    }

-- A write, by either of the two calls.
pub data Write : Type 0 where
  set_phone : Text → Text → Write
  set_lid : Text → Text → Write

unfoldable pub write : Write → WhatsmeowContactMaps → WhatsmeowContactMaps
unfolding set_phone_from_lid_map set_lid_from_phone_map
write (set_phone lid phone) c = set_phone_from_lid_map lid phone c
write (set_lid phone lid) c = set_lid_from_phone_map phone lid c

-- Writes in a row, the latest first.
unfoldable pub writes : List Write → WhatsmeowContactMaps → WhatsmeowContactMaps
unfolding write
writes [] c = c
writes (w ∷ past) c = write w (writes past c)
