-- ===== src/Whatsapp/Booleans.antt =====
-- whatsapp/whatsapp_boolean.go and whatsapp_boolean_extended.go: three-valued settings, stored as
-- Go ints, so that any integer may turn up. `none` stands for a panic of `Boolean` and for the
-- error of `UnmarshalJSON`.
pub mod RoundTrip
mod Tests
use quepasa.Prelude.{
  ℕ, zero, suc, ◌+◌, ◌-◌, ◌*◌, ◌/◌, ◌%◌, ◌^◌, ◌≤◌, ◌<◌, String, ◌≡◌, refl, sym, ap, ◌∙◌, ◌≢◌, ◌↔◌,
  ◌⊎◌, inl, inr, Bool, true, false, ◌&&◌, ◌||◌, not, Option, none, some, List, [], ◌∷◌, ◌++◌, map,
  arith, ltb, leb, ◌==◌, if◌then◌else◌, ltb→lt, lt→ltb, leb→le, le→leb, ==_iff, tests, Bool-cases,
  Option-cases, is_some, length, get_elem?, take, drop, length-append, drop-append, length-take-le,
  All, ℤ, pos, negsuc, int_eq, int_eq_iff, ne_of_int_eq, All-append,
}
use quepasa.Strings.{
  Text, codes, same, contains, has_prefix, has_suffix, contains_text, without, trim_left, trim,
  split, before, is_space, trim_space, to_upper, to_lower, is_digit, upper, lower, trim_space_left,
  trim_space_right,
}

abbrev pub WhatsappBoolean : Type 0
WhatsappBoolean = ℤ

abbrev pub false_boolean : WhatsappBoolean
false_boolean = negsuc 0

abbrev pub unset_boolean : WhatsappBoolean
unset_boolean = pos 0

abbrev pub true_boolean : WhatsappBoolean
true_boolean = pos 1

-- The values that the constants name.
abbrev pub IsDeclared : WhatsappBoolean → Type 0
IsDeclared v = (v ≡ false_boolean) ⊎ (v ≡ unset_boolean) ⊎ (v ≡ true_boolean)

unfoldable pub marshal_json : WhatsappBoolean → Text
marshal_json v =
    if int_eq v false_boolean
    then codes "false"
    else if int_eq v true_boolean
    then codes "true"
    else codes "null"

-- The switch of `UnmarshalJSON`, over the trimmed text in lower case.
parse : Text → Option WhatsappBoolean
unfolding same
parse json =
    if same json (codes "1")
      || same json (codes "t")
      || same json (codes "true")
      || same json (codes "yes")
    then some true_boolean
    else if same json (codes "-1")
        || same json (codes "f")
        || same json (codes "false")
        || same json (codes "no")
    then some false_boolean
    else if same json [] || same json (codes "0")
    then some unset_boolean
    else none

unfoldable pub unmarshal_json : Text → Option WhatsappBoolean
unfolding parse trim_space trim to_lower
unmarshal_json bytes = parse (to_lower (trim (trim_space bytes) b'"'))

unfoldable pub boolean : WhatsappBoolean → Option Bool
boolean v =
    if int_eq v false_boolean then some false else if int_eq v true_boolean then some true else none

unfoldable pub to_boolean : WhatsappBoolean → Bool → Bool
to_boolean source v =
    if int_eq source false_boolean then false else if int_eq source true_boolean then true else v

unfoldable pub string : WhatsappBoolean → Text
string v =
    if int_eq v false_boolean
    then codes "false"
    else if int_eq v true_boolean
    then codes "true"
    else codes "unset"

abbrev pub WhatsappBooleanExtended : Type 0
WhatsappBooleanExtended = ℤ

abbrev pub forced_false_boolean : WhatsappBooleanExtended
forced_false_boolean = negsuc 1

abbrev pub forced_true_boolean : WhatsappBooleanExtended
forced_true_boolean = pos 2

unfoldable pub to_boolean_extended : WhatsappBooleanExtended → Bool → Bool
unfolding to_boolean
to_boolean_extended source v =
    if int_eq source forced_false_boolean
    then false
    else if int_eq source forced_true_boolean
    then true
    else to_boolean source v

unfoldable pub equals : WhatsappBooleanExtended → WhatsappBoolean → Bool
equals source v =
    if int_eq source forced_false_boolean || int_eq source forced_true_boolean
    then false
    else int_eq source v

unfoldable pub string_extended : WhatsappBooleanExtended → Text
unfolding string
string_extended source =
    if int_eq source forced_false_boolean
    then codes "forcedfalse"
    else if int_eq source forced_true_boolean
    then codes "forcedtrue"
    else string source

-- The receiver decides only where it is forced.
unfoldable pub compare : WhatsappBooleanExtended → WhatsappBoolean → Bool → Bool
unfolding to_boolean
compare source item value =
    if int_eq source forced_false_boolean
    then false
    else if int_eq source forced_true_boolean
    then true
    else to_boolean item value
