-- ===== src/Dispatching/Tests.antt =====
-- Runs of the destinations of a server at fixed inputs, with a table of one context.
use quepasa.Prelude.{◌≡◌, refl, sym, ap, ◌⊎◌, inr, false, none, List, [], ◌∷◌, length}
use quepasa.Strings.{Text, codes}
use quepasa.Whatsapp.Booleans.{unset_boolean}
use quepasa.Dispatching.{
  QpDispatching, Table, QpDataDispatching, replace_or_append, keep_others,
  dispatching_add_or_update, dispatching_remove, dispatching_clear,
}
use quepasa.Dispatching.Agreement.{find_row, Laws, find_row-replace_or_append, find_row-keep_others}

abbrev rows_table : Table (List QpDispatching)
rows_table = record {
  find_all = λ c t. inr t;
  add_or_update = λ c d t. (replace_or_append d t, d, inr 1);
  remove = λ c k t. (keep_others k t, inr 1);
  clear = λ c t. ([], none);
}

same_rows :
    (k : Text) (t rows : List QpDispatching)
    → ◌≡◌ {A = Text ⊎ List QpDispatching} (inr t) (inr rows)
    → find_row k rows ≡ find_row k t
same_rows k t rows h = let equal : t ≡ rows = cc in ap (find_row k) (sym equal)

rows_laws : Laws rows_table
unfolding find_row
rows_laws = record {
  row = λ c k t. find_row k t;
  find_all-row = λ c k t rows h. same_rows k t rows h;
  add_or_update-connection_string = λ c d t. refl;
  add_or_update-row = λ c k d t n h. find_row-replace_or_append d k t;
  remove-row = λ c k j t n h. find_row-keep_others j k t;
  clear-row = λ c k t h. refl;
  add_or_update-fails = λ c d t e h. cc;
  remove-fails = λ c j t e h. cc;
  clear-fails = λ c t e h. cc;
}

abbrev destination : Text → Text → QpDispatching
destination k kind = record {
  options = record {
    groups = unset_boolean;
    broadcasts = unset_boolean;
    read_receipts = unset_boolean;
    calls = unset_boolean;
    read_update = unset_boolean;
  };
  connection_string = k;
  type = kind;
  forward_internal = false;
  track_id = [];
  wid = codes "w";
}

abbrev two : QpDataDispatching (List QpDispatching)
two = record {
  dispatching =
      destination (codes "a") (codes "webhook") ∷ destination (codes "b") (codes "rabbitmq") ∷ [];
  context = codes "t";
  db = destination (codes "b") (codes "rabbitmq") ∷ destination (codes "a") (codes "webhook") ∷ [];
}

dispatching_tests :
    ((dispatching_remove rows_table (codes "b") two).0.dispatching
      ≡ destination (codes "a") (codes "webhook") ∷ [])
    × ((dispatching_remove rows_table (codes "b") two).2 ≡ codes "b" ∷ [])
    × ((dispatching_clear rows_table two).2 ≡ codes "b" ∷ [])
    × (length
          (dispatching_add_or_update rows_table
            (destination (codes "a") (codes "rabbitmq"))
            two).0.dispatching
        ≡ 2)
unfolding dispatching_remove dispatching_clear dispatching_add_or_update
dispatching_tests = (refl, refl, refl, refl)
