-- ===== src/Dispatching.antt =====
-- models/qp_data_dispatching.go: the destinations of a server, in memory and in their table. The table
-- is a state of type `T` behind the record `Table`, a parameter; its rows come with the server's own
-- wid. The clients of RabbitMQ that an operation closes are returned, by their connection strings.
mod Agreement
mod Tests
use quepasa.Prelude.{
  ℕ, zero, suc, ◌+◌, ◌-◌, ◌*◌, ◌/◌, ◌%◌, ◌^◌, ◌≤◌, ◌<◌, String, ◌≡◌, refl, sym, ap, ◌∙◌, ◌≢◌, ◌↔◌,
  ◌⊎◌, inl, inr, Bool, true, false, ◌&&◌, ◌||◌, not, Option, none, some, List, [], ◌∷◌, ◌++◌, map,
  arith, ltb, leb, ◌==◌, if◌then◌else◌, ltb→lt, lt→ltb, leb→le, le→leb, ==_iff, tests, Bool-cases,
  Option-cases, sum-cases, is_some, length, get_elem?, take, drop, length-append, drop-append,
  length-take-le, All, ℤ, pos, negsuc, int_eq, int_eq_iff, ne_of_int_eq, All-append, ◌>>=◌,
}
use quepasa.Strings.{
  Text, codes, same, contains, has_prefix, has_suffix, contains_text, without, trim_left, trim,
  split, before, is_space, trim_space, to_upper, to_lower, is_digit, upper, lower, trim_space_left,
  trim_space_right,
}
use quepasa.Whatsapp.Options.{WhatsappOptions}

-- A destination, with the fields that are stored.
pub record QpDispatching : Type 0 where
  pub options : WhatsappOptions
  pub connection_string : Text
  pub type : Text
  pub forward_internal : Bool
  pub track_id : Text
  pub wid : Text

-- QpDataDispatchingInterface. A result is an error or what the call answers. DispatchingAddOrUpdate
-- writes to the destination through its pointer, which keeps a track id and a type that are stored: it
-- answers the destination as it leaves it, which is none of those in memory.
pub record Table (T : Type 0) : Type 0 where
  pub find_all : Text → T → Text ⊎ List QpDispatching
  pub add_or_update : Text → QpDispatching → T → T × QpDispatching × (Text ⊎ ℕ)
  pub remove : Text → Text → T → T × (Text ⊎ ℕ)
  pub clear : Text → T → T × Option Text

pub record QpDataDispatching (T : Type 0) : Type 0 where
  pub dispatching : List QpDispatching
  pub context : Text
  pub db : T

unfoldable pub is_webhook : QpDispatching → Bool
unfolding same
is_webhook d = same d.type (codes "webhook")

unfoldable pub is_rabbitmq : QpDispatching → Bool
unfolding same
is_rabbitmq d = same d.type (codes "rabbitmq")

-- The loop of DispatchingAddOrUpdate: the first with the connection string is replaced.
unfoldable pub replace_or_append : QpDispatching → List QpDispatching → List QpDispatching
unfolding same
replace_or_append d [] = d ∷ []
replace_or_append d (x ∷ xs) =
    let rest = replace_or_append d xs in
    if same x.connection_string d.connection_string then d ∷ xs else x ∷ rest

-- The loop of DispatchingRemove, which moves what is kept to the front.
unfoldable pub keep_others : Text → List QpDispatching → List QpDispatching
unfolding same
keep_others k [] = []
keep_others k (x ∷ xs) =
    let rest = keep_others k xs in if same x.connection_string k then rest else x ∷ rest

has_rabbitmq : Text → List QpDispatching → Bool
unfolding same is_rabbitmq
has_rabbitmq k [] = false
has_rabbitmq k (x ∷ xs) = (same x.connection_string k && is_rabbitmq x) || has_rabbitmq k xs

rabbitmq_strings : List QpDispatching → List Text
unfolding is_rabbitmq
rabbitmq_strings [] = []
rabbitmq_strings (x ∷ xs) =
    let rest = rabbitmq_strings xs in if is_rabbitmq x then x.connection_string ∷ rest else rest

with_wid : Text → List QpDispatching → List QpDispatching
with_wid wid [] = []
with_wid wid (x ∷ xs) = record x { wid = wid } ∷ with_wid wid xs

module _ {T : Type 0} (table : Table T) where
  unfoldable pub dispatching_fill :
      Text → Text → T → QpDataDispatching T → QpDataDispatching T × Option Text
  unfolding with_wid
  dispatching_fill token wid db source = elim (table.find_all token db) [
    | inl error ↦ (record source { context = token; db = db }, some error)
    | inr rows ↦ (record { dispatching = with_wid wid rows; context = token; db = db }, none)
  ]

  unfoldable pub dispatching_add_or_update :
      QpDispatching → QpDataDispatching T → QpDataDispatching T × (Text ⊎ ℕ)
  unfolding replace_or_append
  dispatching_add_or_update d source =
      let (db, merged, answer) = table.add_or_update source.context d source.db in
      elim answer [
        | inl error ↦ (record source { db = db }, inl error)
        | inr affected ↦ (
          record source { dispatching = replace_or_append merged source.dispatching; db = db },
          inr affected,
        )
      ]

  unfoldable pub dispatching_remove :
      Text → QpDataDispatching T → QpDataDispatching T × (Text ⊎ ℕ) × List Text
  unfolding keep_others has_rabbitmq
  dispatching_remove k source =
      let (db, answer) = table.remove source.context k source.db in
      elim answer [
        | inl error ↦ (record source { db = db }, inl error, [])
        | inr affected ↦ (
          record source { dispatching = keep_others k source.dispatching; db = db },
          inr affected,
          if has_rabbitmq k source.dispatching then k ∷ [] else [],
        )
      ]

  unfoldable pub dispatching_clear :
      QpDataDispatching T → QpDataDispatching T × Option Text × List Text
  unfolding rabbitmq_strings
  dispatching_clear source =
      let (db, answer) = table.clear source.context source.db in
      let closed = rabbitmq_strings source.dispatching in
      elim answer [
        | some error ↦ (record source { db = db }, some error, closed)
        | none ↦ (record source { dispatching = []; db = db }, none, closed)
      ]
