-- ===== src/Whatsapp/Options.antt =====
-- whatsapp/whatsapp_options.go and whatsapp_options_extended.go, and the toggles of
-- models/qp_whatsapp_extensions.go. The global options come from the environment, the local ones
-- belong to a server or to a dispatching.
pub mod Resolution
pub mod Toggles
mod Tests
use quepasa.Prelude.{
  ℕ, zero, suc, ◌+◌, ◌-◌, ◌*◌, ◌/◌, ◌%◌, ◌^◌, ◌≤◌, ◌<◌, String, ◌≡◌, refl, sym, ap, ◌∙◌, ◌≢◌, ◌↔◌,
  ◌⊎◌, inl, inr, Bool, true, false, ◌&&◌, ◌||◌, not, Option, none, some, List, [], ◌∷◌, ◌++◌, map,
  arith, ltb, leb, ◌==◌, if◌then◌else◌, ltb→lt, lt→ltb, leb→le, le→leb, ==_iff, tests, Bool-cases,
  Option-cases, is_some, length, get_elem?, take, drop, length-append, drop-append, length-take-le,
  All, ℤ, pos, negsuc, int_eq, int_eq_iff,
}
use quepasa.Strings.{
  Text, codes, same, contains, has_prefix, has_suffix, contains_text, without, trim_left, trim,
  split, before, is_space, trim_space, to_upper, to_lower, is_digit,
}
use quepasa.Whatsapp.Booleans.{
  WhatsappBoolean, unset_boolean, true_boolean, false_boolean, boolean, WhatsappBooleanExtended,
  forced_false_boolean, forced_true_boolean, to_boolean_extended, equals,
}

pub record WhatsappOptions : Type 0 where
  pub groups : WhatsappBoolean
  pub broadcasts : WhatsappBoolean
  pub read_receipts : WhatsappBoolean
  pub calls : WhatsappBoolean
  pub read_update : WhatsappBoolean

pub record WhatsappOptionsExtended : Type 0 where
  pub groups : WhatsappBooleanExtended
  pub broadcasts : WhatsappBooleanExtended
  pub read_receipts : WhatsappBooleanExtended
  pub calls : WhatsappBooleanExtended
  pub read_update : WhatsappBooleanExtended
  pub history_sync : Option ℕ
  pub log_level : Text
  pub presence : Text
  pub dispatch_unhandled : Bool

unfoldable pub is_default : WhatsappOptionsExtended → Bool
unfolding equals
is_default source =
    equals source.groups unset_boolean
    && equals source.broadcasts unset_boolean
    && equals source.read_receipts unset_boolean
    && equals source.calls unset_boolean
    && equals source.read_update unset_boolean
    && not (is_some source.history_sync)
    && not source.dispatch_unhandled
    && (length source.log_level == 0)

-- The switch that the five handlers share; `none` is the panic of `Boolean`.
handle : WhatsappBooleanExtended → WhatsappBoolean → Bool → Option Bool
unfolding boolean to_boolean_extended
handle source local default =
    if int_eq source forced_false_boolean
    then some false
    else if int_eq source forced_true_boolean
    then some true
    else if not (int_eq local unset_boolean)
    then boolean local
    else some (to_boolean_extended source default)

unfoldable pub handle_calls : WhatsappOptionsExtended → WhatsappBoolean → Option Bool
unfolding handle
handle_calls source local = handle source.calls local true

unfoldable pub handle_read_receipts : WhatsappOptionsExtended → WhatsappBoolean → Option Bool
unfolding handle
handle_read_receipts source local = handle source.read_receipts local false

unfoldable pub handle_groups : WhatsappOptionsExtended → WhatsappBoolean → Option Bool
unfolding handle
handle_groups source local = handle source.groups local true

unfoldable pub handle_broadcasts : WhatsappOptionsExtended → WhatsappBoolean → Option Bool
unfolding handle
handle_broadcasts source local = handle source.broadcasts local false

unfoldable pub handle_read_update : WhatsappOptionsExtended → WhatsappBoolean → Option Bool
unfolding handle
handle_read_update source local = handle source.read_update local false

-- int64(mts) for a uint64
abbrev pub to_int64 : ℕ → ℤ
to_int64 n = if ltb n (2 ^ 63) then pos n else negsuc (2 ^ 64 - 1 - n)

-- a > b
abbrev pub gt_int : ℤ → ℤ → Bool
gt_int (pos a) (pos b) = ltb b a
gt_int (pos a) (negsuc b) = true
gt_int (negsuc a) (pos b) = false
gt_int (negsuc a) (negsuc b) = ltb a b

-- `limit days` is the Unix time of `time.Now().AddDate(0, 0, -days)`.
unfoldable pub handle_history : (ℕ → ℤ) → WhatsappOptionsExtended → ℕ → Bool
handle_history limit source mts = elim source.history_sync [
  | none ↦ false
  | some days ↦ if days == 0 then true else gt_int (to_int64 mts) (limit days)
]

toggle : WhatsappBoolean → WhatsappBoolean
toggle v =
    if int_eq v unset_boolean
    then true_boolean
    else if int_eq v true_boolean
    then false_boolean
    else unset_boolean

unfoldable pub toggle_read_receipts : WhatsappOptions → WhatsappOptions
unfolding toggle
toggle_read_receipts options = record options { read_receipts = toggle options.read_receipts }

unfoldable pub toggle_groups : WhatsappOptions → WhatsappOptions
unfolding toggle
toggle_groups options = record options { groups = toggle options.groups }

unfoldable pub toggle_broadcasts : WhatsappOptions → WhatsappOptions
unfolding toggle
toggle_broadcasts options = record options { broadcasts = toggle options.broadcasts }

unfoldable pub toggle_calls : WhatsappOptions → WhatsappOptions
unfolding toggle
toggle_calls options = record options { calls = toggle options.calls }

unfoldable pub toggle_read_update : WhatsappOptions → WhatsappOptions
unfolding toggle
toggle_read_update options = record options { read_update = toggle options.read_update }
