-- ===== src/Whatsapp/Endpoint/Tests.antt =====
-- Runs of the chat identifiers at fixed inputs.
use quepasa.Prelude.{◌≡◌, refl, ◌↔◌, true, none, some, ◌∷◌, ◌++◌, arith, length, take, drop}
use quepasa.Strings.{Text, codes, contains, has_prefix, without, trim_left}
use quepasa.Whatsapp.Endpoint.{
  ok, err, empty_recipient, invalid_suffix, invalid_group, format_endpoint, phone_to_wid,
  get_phone_of_wid, get_phone_if_valid, get_phone_by_wid, remove_digit_9_if_elegible,
  trim_session_id, is_valid_group_id, to_endpoint_id,
}
use quepasa.Whatsapp.Endpoint.Formatting.{
  IsAddress, format_endpoint-IsAddress, format_endpoint_idem, format_endpoint_plus,
  to_endpoint_id_idem,
}
use quepasa.Whatsapp.Endpoint.Refusal.{Explains, format_endpoint_refused}
use quepasa.Whatsapp.Endpoint.Phones.{
  get_phone_of_wid-phone_to_wid, remove_digit_9_lem, trim_session_id-session,
}

abbrev phone : Text
phone = codes "5521967609494"

format_tests :
    (format_endpoint (codes "55 21 96760 9494") ≡ ok (codes "5521967609494@s.whatsapp.net"))
    × (format_endpoint (codes "  ") ≡ err empty_recipient)
    × (format_endpoint (codes "someone@example.com") ≡ err invalid_suffix)
    × (format_endpoint (codes "1234-5678") ≡ err invalid_group)
    × (format_endpoint (codes "5521967609494-1") ≡ ok (codes "5521967609494-1@g.us"))
unfolding format_endpoint
format_tests = (refl, refl, refl, refl, refl)

phone_tests :
    (get_phone_by_wid (codes "5521967609494.0:1@s.whatsapp.net") ≡ phone)
    × (get_phone_by_wid (codes "5521967609494:1@s.whatsapp.net") ≡ phone)
    × (get_phone_of_wid (codes " +5521967609494:3@s.whatsapp.net") ≡ some (codes "+5521967609494"))
    × (is_valid_group_id (codes "120363025246125486@g.us") ≡ true)
    × (trim_session_id (codes "5521:3") ≡ none)
unfolding get_phone_by_wid get_phone_of_wid is_valid_group_id trim_session_id
phone_tests = (refl, refl, refl, refl, refl)

-- The comment of `IsValidGroupId` says at most 20 bytes before the `@`; 24 are accepted.
long_group : is_valid_group_id (codes "123456789012345678901234@g.us") ≡ true
unfolding is_valid_group_id
long_group = refl

format_endpoint-IsAddress_example : IsAddress (codes "5521967609494@s.whatsapp.net")
unfolding without has_prefix
format_endpoint-IsAddress_example =
    format_endpoint-IsAddress (codes "55 21 96760 9494") _ refl format_tests.0

formatted_twice :
    format_endpoint (codes "5521967609494@s.whatsapp.net")
    ≡ ok (codes "5521967609494@s.whatsapp.net")
unfolding without has_prefix
formatted_twice =
    format_endpoint_idem (codes "55 21 96760 9494") (codes "5521967609494@s.whatsapp.net") refl
      format_tests.0

plus_unchecked :
    format_endpoint (codes "+" ++ codes "someone@example.com")
    ≡ ok (trim_left (codes "someone@example.com") b'+')
unfolding contains trim_left
plus_unchecked = format_endpoint_plus (codes "someone@example.com") (omega arith) refl refl

format_endpoint_refused_example :
    (format_endpoint (codes "1234-5678") ≡ err invalid_group)
    ↔ Explains invalid_group (without b' ' (codes "1234-5678"))
format_endpoint_refused_example = format_endpoint_refused (codes "1234-5678") invalid_group

to_endpoint_id_idem_example :
    (contains (to_endpoint_id (codes "status")) b'@' ≡ true)
    × (to_endpoint_id (to_endpoint_id (codes "status")) ≡ to_endpoint_id (codes "status"))
to_endpoint_id_idem_example = to_endpoint_id_idem (codes "status")

valid_phone : get_phone_if_valid phone ≡ some (codes "+5521967609494")
unfolding get_phone_if_valid
valid_phone = refl

get_phone_of_wid-phone_to_wid_example :
    (get_phone_of_wid (phone_to_wid phone) ≡ some (codes "+5521967609494"))
    × (get_phone_of_wid (phone_to_wid (codes "+5521967609494")) ≡ some (codes "+5521967609494"))
get_phone_of_wid-phone_to_wid_example =
    get_phone_of_wid-phone_to_wid phone (codes "+5521967609494") valid_phone

without_ninth : remove_digit_9_if_elegible (codes "+5531967609494") ≡ some (codes "+553167609494")
unfolding remove_digit_9_if_elegible
without_ninth = refl

remove_digit_9_lem_run :
    (length (codes "+553167609494") ≡ 13)
    × (codes "+5531967609494"
        ≡ take 5 (codes "+553167609494") ++ (b'9' ∷ drop 5 (codes "+553167609494")))
    × (take 3 (codes "+553167609494") ≡ codes "+55")
    × (remove_digit_9_if_elegible (codes "+553167609494") ≡ none)
remove_digit_9_lem_run =
    remove_digit_9_lem (codes "+5531967609494") (codes "+553167609494") without_ninth

session_left_out :
    trim_session_id (codes "5521" ++ (b':' ∷ (codes "3" ++ (b'@' ∷ codes "lid"))))
    ≡ some (codes "5521" ++ (b'@' ∷ codes "lid"))
unfolding contains
session_left_out =
    trim_session_id-session (codes "5521") (codes "3") (codes "lid") refl refl refl refl
