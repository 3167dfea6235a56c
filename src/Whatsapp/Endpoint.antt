-- ===== src/Whatsapp/Endpoint.antt =====
-- The identifiers of chats: whatsapp/whatsapp_extensions.go, library/phone.go, library/wid.go, the
-- constructors of messages in whatsapp/whatsapp_message_extensions.go, and the conversions of
-- models/qp_whatsapp_extensions.go. A chat id is `user@domain`; a phone number has no `@`.
-- The error of a function that returns one is `err` with the message's case.
pub mod Formatting
pub mod Phones
mod Refusal
mod Tests
use quepasa.Prelude.{
  ℕ, zero, suc, ◌+◌, ◌-◌, ◌*◌, ◌/◌, ◌%◌, ◌^◌, ◌≤◌, ◌<◌, String, ◌≡◌, refl, sym, ap, ◌∙◌, ◌≢◌, ◌↔◌,
  ◌⊎◌, inl, inr, Bool, true, false, ◌&&◌, ◌||◌, not, Option, none, some, List, [], ◌∷◌, ◌++◌, map,
  arith, ltb, leb, ◌==◌, if◌then◌else◌, ltb→lt, lt→ltb, leb→le, le→leb, ==_iff, tests, Bool-cases,
  Option-cases, is_some, length, get_elem?, take, drop, length-append, drop-append, length-take-le,
  All, ℤ, pos, negsuc, int_eq, int_eq_iff, ne_of_int_eq, All-append,
}
use quepasa.Strings.{
  Text, codes, same, contains, has_prefix, has_suffix, contains_text, without, trim_left, trim,
  split, before, is_space, trim_space, to_upper, to_lower, is_digit, upper, lower, trim_space_left,
  trim_space_right,
}
use quepasa.Prelude.{
  ℕ, zero, suc, ◌+◌, ◌-◌, ◌*◌, ◌/◌, ◌%◌, ◌^◌, ◌≤◌, ◌<◌, String, ◌≡◌, refl, sym, ap, ◌∙◌, ◌≢◌, ◌↔◌,
  ◌⊎◌, inl, inr, Bool, true, false, ◌&&◌, ◌||◌, not, Option, none, some, List, [], ◌∷◌, ◌++◌, map,
  arith, ltb, leb, ◌==◌, if◌then◌else◌, ltb→lt, lt→ltb, leb→le, le→leb, ==_iff, tests, Bool-cases,
  Option-cases, is_some, length, get_elem?, take, drop, length-append, drop-append, length-take-le,
  All, ℤ, pos, negsuc, int_eq, int_eq_iff, ne_of_int_eq, All-append,
}

-- The errors, by the message that the code writes.
pub data EndpointError : Type 0 where
  empty_recipient invalid_length invalid_suffix invalid_group : EndpointError

pub data Result {ℓ} (A : Type ℓ) : Type ℓ where
  ok : A → Result A
  err : EndpointError → Result A

abbrev pub user_suffix : Text
user_suffix = codes "@s.whatsapp.net"

abbrev pub group_suffix : Text
group_suffix = codes "@g.us"

abbrev pub lid_suffix : Text
lid_suffix = codes "@lid"

-- The keys of `AllowedSuffix`.
unfoldable pub allowed_suffix : Text → Bool
unfolding same
allowed_suffix s = same s (codes "g.us") || same s (codes "s.whatsapp.net") || same s (codes "lid")

unfoldable pub phone_to_wid : Text → Text
unfolding trim_left contains
phone_to_wid source =
    let destination = trim_left source b'+' in
    if contains destination b'@' then destination else destination ++ user_suffix

unfoldable pub phones_to_wids : List Text → List Text
unfolding phone_to_wid
phones_to_wids [] = []
phones_to_wids (source ∷ sources) = phone_to_wid source ∷ phones_to_wids sources

-- The matches of \d in a text.
unfoldable pub digits : Text → ℕ
unfolding is_digit
digits [] = 0
digits (c ∷ s) = if is_digit c then suc (digits s) else digits s

unfoldable pub is_valid_e164 : Text → Bool
unfolding digits
is_valid_e164 phone = leb 9 (digits phone) && leb (digits phone) 15

-- `parts[1]` where the text has a separator, so that there are two parts.
abbrev second_part : List Text → Text
second_part [] = []
second_part (a ∷ []) = []
second_part (a ∷ b ∷ parts) = b

-- The branches for a text with no white space, of eight bytes or more.
format_destination : Text → Result Text
unfolding contains split before allowed_suffix is_valid_e164 phone_to_wid has_prefix
format_destination destination =
    if has_prefix destination (codes "+")
    then ok (phone_to_wid destination)
    else if contains destination b'@'
    then (if allowed_suffix (second_part (split destination b'@'))
        then ok destination
        else err invalid_suffix)
    else if contains destination b'-'
    then (if is_valid_e164 (before destination b'-')
        then ok (destination ++ group_suffix)
        else err invalid_group)
    else if is_valid_e164 destination
    then ok (phone_to_wid destination)
    else ok (destination ++ group_suffix)

unfoldable pub format_endpoint : Text → Result Text
unfolding without format_destination
format_endpoint source =
    let destination = without b' ' source in
    if ltb (length destination) 8
    then (if length destination == 0 then err empty_recipient else err invalid_length)
    else format_destination destination

-- library.GetPhoneIfValid: `none` is either error.
-- The regular expression ^[1-9]\d{6,14}$
unfoldable pub all_digits : Text → Bool
unfolding is_digit
all_digits [] = true
all_digits (c ∷ s) = is_digit c && all_digits s

matches_e164 : Text → Bool
unfolding all_digits
matches_e164 [] = false
matches_e164 (c ∷ s) =
    leb b'1' c && leb c b'9' && all_digits s && leb 6 (length s) && leb (length s) 14

unfoldable pub get_phone_if_valid : Text → Option Text
unfolding matches_e164
get_phone_if_valid source =
    if ltb (length source) 7
    then none
    else if matches_e164 source
    then some (b'+' ∷ source)
    else none

-- whatsapp.GetPhoneIfValid: drops the domain and the session of a user id.
drop_domain : Text → Text
unfolding has_suffix before contains
drop_domain response =
    if has_suffix response user_suffix
    then (let user = before response b'@' in if contains user b':' then before user b':' else user)
    else response

unfoldable pub get_phone_of_wid : Text → Option Text
unfolding trim_space trim_left drop_domain get_phone_if_valid
get_phone_of_wid source = get_phone_if_valid (drop_domain (trim_left (trim_space source) b'+'))

-- The regular expression \+55([4-9][1-9]|[3-9][1-9])9\d{8}$ at a text of 14 bytes, where it can only
-- match from the first byte on.
matches_mobile : Text → Bool
unfolding all_digits
matches_mobile (p ∷ a ∷ b ∷ c ∷ d ∷ n ∷ rest) =
    (p == b'+')
    && (a == b'5')
    && (b == b'5')
    && (leb b'4' c && leb c b'9' && leb b'1' d && leb d b'9'
        || leb b'3' c && leb c b'9' && leb b'1' d && leb d b'9')
    && (n == b'9')
    && all_digits rest
    && (length rest == 8)
matches_mobile _ = false

-- library.RemoveDigit9IfElegible: `none` is either error.
unfoldable pub remove_digit_9_if_elegible : Text → Option Text
unfolding matches_mobile
remove_digit_9_if_elegible source =
    if length source == 14
    then (if matches_mobile source then some (take 5 source ++ drop 6 source) else none)
    else none

-- The first match of \d* in a text: its leading digits.
leading_digits : Text → Text
unfolding is_digit
leading_digits [] = []
leading_digits (c ∷ s) = let rest = leading_digits s in if is_digit c then c ∷ rest else []

-- library.GetPhoneByWId
unfoldable pub get_phone_by_wid : Text → Text
unfolding without contains before leading_digits
get_phone_by_wid wid =
    let out = without b' ' wid in
    if contains out b'@'
    then (let user = before out b'@' in
        if contains user b'.' then before user b'.' else leading_digits user)
    else leading_digits out

-- library.TrimSessionIdFromWIdString; `none` is the panic of an index out of range.
unfoldable pub trim_session_id : Text → Option Text
unfolding contains before split
trim_session_id wid =
    if contains wid b':'
    then (if contains wid b'@'
        then some (before wid b':' ++ (b'@' ∷ second_part (split wid b'@')))
        else none)
    else some wid

unfoldable pub is_valid_group_id : Text → Bool
unfolding has_suffix
is_valid_group_id id = has_suffix id group_suffix && leb (length id) 29

-- The address of a chat in the first versions of the API, the same in all its conversions.
unfoldable pub to_endpoint_id : Text → Text
unfolding contains same
to_endpoint_id id =
    if contains id b'@'
    then id
    else if same id (codes "status")
    then id ++ codes "@broadcast"
    else if contains id b'-'
    then id ++ group_suffix
    else id ++ user_suffix
