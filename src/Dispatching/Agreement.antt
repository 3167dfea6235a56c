-- ===== src/Dispatching/Agreement.antt =====
-- models/qp_data_dispatching.go: the list in memory holds the destinations of the table, with their
-- settings.
use quepasa.Prelude.{
  ℕ, ◌≡◌, refl, sym, ap, ◌∙◌, inl, inr, Bool, false, Option, none, some, List, [], ◌∷◌, arith,
  Bool-cases, if◌then◌else◌,
}
use quepasa.Strings.{Text, same}
use quepasa.Strings.Laws.{same_iff}
use quepasa.Whatsapp.Booleans.{WhatsappBoolean}
use quepasa.Dispatching.{QpDispatching, Table, QpDataDispatching, replace_or_append, keep_others}

-- The columns of a destination that the statements of the table write.
pub record Row : Type 0 where
  pub connection_string : Text
  pub type : Text
  pub forward_internal : Bool
  pub track_id : Text
  pub read_receipts : WhatsappBoolean
  pub groups : WhatsappBoolean
  pub broadcasts : WhatsappBoolean

unfoldable pub row_of : QpDispatching → Row
row_of d = record {
  connection_string = d.connection_string;
  type = d.type;
  forward_internal = d.forward_internal;
  track_id = d.track_id;
  read_receipts = d.options.read_receipts;
  groups = d.options.groups;
  broadcasts = d.options.broadcasts;
}

-- The row of the first destination with a connection string.
unfoldable pub find_row : Text → List QpDispatching → Option Row
unfolding same row_of
find_row k [] = none
find_row k (x ∷ xs) =
    let rest = find_row k xs in if same x.connection_string k then some (row_of x) else rest

-- What a table promises: which row a context has for a connection string, that an update keeps the
-- connection string, and that a failed call changes nothing.
pub record Laws {T : Type 0} (table : Table T) : Type 0 where
  pub row : Text → Text → T → Option Row
  pub find_all-row :
      (c k : Text) (t : T) (rows : List QpDispatching)
      → table.find_all c t ≡ inr rows
      → find_row k rows ≡ row c k t
  pub add_or_update-connection_string :
      (c : Text) (d : QpDispatching) (t : T)
      → (table.add_or_update c d t).1.connection_string ≡ d.connection_string
  pub add_or_update-row :
      (c k : Text) (d : QpDispatching) (t : T) (n : ℕ)
      → (table.add_or_update c d t).2 ≡ inr n
      → row c k (table.add_or_update c d t).0 ≡ (
          if same d.connection_string k
          then some (row_of (table.add_or_update c d t).1)
          else row c k t)
  pub remove-row :
      (c k j : Text) (t : T) (n : ℕ)
      → (table.remove c j t).1 ≡ inr n
      → row c k (table.remove c j t).0 ≡ (if same j k then none else row c k t)
  pub clear-row :
      (c k : Text) (t : T) → (table.clear c t).1 ≡ none → row c k (table.clear c t).0 ≡ none
  pub add_or_update-fails :
      (c : Text) (d : QpDispatching) (t : T) (e : Text)
      → (table.add_or_update c d t).2 ≡ inl e
      → (table.add_or_update c d t).0 ≡ t
  pub remove-fails :
      (c j : Text) (t : T) (e : Text) → (table.remove c j t).1 ≡ inl e → (table.remove c j t).0 ≡ t
  pub clear-fails :
      (c : Text) (t : T) (e : Text) → (table.clear c t).1 ≡ some e → (table.clear c t).0 ≡ t

pub find_row-replace_or_append :
    (d : QpDispatching) (k : Text) (xs : List QpDispatching)
    → find_row k (replace_or_append d xs)
      ≡ (if same d.connection_string k then some (row_of d) else find_row k xs)
unfolding find_row replace_or_append
find_row-replace_or_append d k [] = refl
find_row-replace_or_append d k (x ∷ xs) =
    elim (Bool-cases (same x.connection_string d.connection_string)) [
      | inl e ↦
          let equal : x.connection_string ≡ d.connection_string = (same_iff _ _).0 e in
          elim (Bool-cases (same d.connection_string k)) [
            | inl f ↦ rw (e, f) refl
            | inr f ↦ rw (e, f) (rw (equal, f) refl)
          ]
      | inr e ↦ elim (Bool-cases (same x.connection_string k)) [
        | inr f ↦ rw (e, f) (find_row-replace_or_append d k xs)
        | inl f ↦
            let equal : x.connection_string ≡ k = (same_iff _ _).0 f in
            let apart : same d.connection_string k ≡ false = ground (
              arith,
              e,
              equal,
              same_iff d.connection_string k,
              same_iff x.connection_string d.connection_string,
            ) in
            rw (e, f, apart) refl
      ]
    ]

pub find_row-keep_others :
    (j k : Text) (xs : List QpDispatching)
    → find_row k (keep_others j xs) ≡ (if same j k then none else find_row k xs)
unfolding find_row keep_others
find_row-keep_others j k [] = ground arith
find_row-keep_others j k (x ∷ xs) = elim (Bool-cases (same x.connection_string j)) [
  | inl e ↦
      let equal : x.connection_string ≡ j = (same_iff _ _).0 e in
      elim (Bool-cases (same j k)) [
        | inl f ↦ rw (e, f) (rw (find_row-keep_others j k xs, f) refl)
        | inr f ↦ rw (e, f) (rw (find_row-keep_others j k xs, f, equal, f) refl)
      ]
  | inr e ↦ elim (Bool-cases (same j k)) [
    | inl f ↦
        let equal : j ≡ k = (same_iff _ _).0 f in
        let apart : same x.connection_string k ≡ false =
          ap (λ y. same x.connection_string y) (sym equal) ∙ e in
        rw (e, f, apart) (rw (find_row-keep_others j k xs, f) refl)
    | inr f ↦ rw (e, f) (rw (find_row-keep_others j k xs, f) refl)
  ]
]

module _ {T : Type 0} (table : Table T) (laws : Laws table) where
  -- For every connection string the list in memory and the table have the same row in the server's
  -- context, or both have none.
  abbrev pub Agrees : QpDataDispatching T → Type 0
  Agrees s = (k : Text) → find_row k s.dispatching ≡ laws.row s.context k s.db
