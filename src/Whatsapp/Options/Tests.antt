-- ===== src/Whatsapp/Options/Tests.antt =====
-- Runs of the options at fixed inputs.
use quepasa.Prelude.{
  ℕ, ◌-◌, ◌*◌, ◌≤◌, ◌≡◌, refl, ◌≢◌, inl, inr, true, false, none, some, List, [], ◌∷◌, arith, ℤ, pos,
}
use quepasa.Whatsapp.Booleans.{
  true_boolean, unset_boolean, false_boolean, forced_true_boolean, forced_false_boolean,
}
use quepasa.Whatsapp.Options.{
  WhatsappOptions, WhatsappOptionsExtended, is_default, handle_groups, handle_broadcasts,
  handle_read_receipts, handle_calls, handle_read_update, handle_history, toggle_groups,
  toggle_broadcasts, toggle_read_receipts, toggle_calls, toggle_read_update, gt_int,
}
use quepasa.Whatsapp.Options.Resolution.{Resolves, handlers-Resolves, handle_history_mono}
use quepasa.Whatsapp.Options.Toggles.{
  AreDeclared, Button, groups, calls, presses, toggles_thrice, presses-never-panic,
}

abbrev unset : WhatsappOptionsExtended
unset = record {
  groups = unset_boolean;
  broadcasts = unset_boolean;
  read_receipts = unset_boolean;
  calls = unset_boolean;
  read_update = unset_boolean;
  history_sync = none;
  log_level = [];
  presence = [];
  dispatch_unhandled = false;
}

-- The forced values of `forced` win over whatever the server says.
abbrev forced : WhatsappOptionsExtended
forced = record unset {
  groups = forced_true_boolean;
  calls = forced_false_boolean;
  history_sync = some 7;
}

abbrev local : WhatsappOptions
local = record {
  groups = false_boolean;
  broadcasts = true_boolean;
  read_receipts = unset_boolean;
  calls = true_boolean;
  read_update = unset_boolean;
}

handler_tests :
    (handle_groups forced false_boolean ≡ some true)
    × (handle_calls forced true_boolean ≡ some false)
    × (handle_broadcasts unset true_boolean ≡ some true)
    × (handle_calls unset unset_boolean ≡ some true)
    × (handle_groups unset (pos 2) ≡ none)
    × (is_default unset ≡ true)
    × (is_default forced ≡ false)
unfolding handle_groups handle_calls handle_broadcasts is_default
handler_tests = (refl, refl, refl, refl, refl, refl, refl)

handlers-Resolves_example :
    Resolves forced.calls true_boolean true (handle_calls forced true_boolean)
    × Resolves forced.read_receipts true_boolean false (handle_read_receipts forced true_boolean)
    × Resolves forced.groups true_boolean true (handle_groups forced true_boolean)
    × Resolves forced.broadcasts true_boolean false (handle_broadcasts forced true_boolean)
    × Resolves forced.read_update true_boolean false (handle_read_update forced true_boolean)
handlers-Resolves_example = handlers-Resolves forced true_boolean

local-AreDeclared : AreDeclared local
local-AreDeclared = record {
  groups = inl refl;
  broadcasts = inr (inr refl);
  read_receipts = inr (inl refl);
  calls = inr (inr refl);
  read_update = inr (inl refl);
}

three_presses :
    (toggle_groups (toggle_groups (toggle_groups local)) ≡ local)
    × (toggle_broadcasts (toggle_broadcasts (toggle_broadcasts local)) ≡ local)
    × (toggle_read_receipts (toggle_read_receipts (toggle_read_receipts local)) ≡ local)
    × (toggle_calls (toggle_calls (toggle_calls local)) ≡ local)
    × (toggle_read_update (toggle_read_update (toggle_read_update local)) ≡ local)
three_presses = toggles_thrice local local-AreDeclared

abbrev two_presses : List Button
two_presses = groups ∷ calls ∷ []

presses-never-panic_example :
    (handle_groups unset (presses two_presses local).groups ≢ none)
    × (handle_broadcasts unset (presses two_presses local).broadcasts ≢ none)
    × (handle_read_receipts unset (presses two_presses local).read_receipts ≢ none)
    × (handle_calls unset (presses two_presses local).calls ≢ none)
    × (handle_read_update unset (presses two_presses local).read_update ≢ none)
presses-never-panic_example = presses-never-panic unset two_presses local local-AreDeclared

-- Day 100, at second 0.
abbrev limit : ℕ → ℤ
limit days = pos (8640000 - days * 86400)

limit_anti : (a b : ℕ) → a ≤ b → gt_int (limit b) (limit a) ≡ false
limit_anti a b h = ground arith

admitted : handle_history limit forced 8100000 ≡ true
unfolding handle_history
admitted = refl

longer_window : handle_history limit (record forced { history_sync = some 30 }) 8100000 ≡ true
longer_window =
    handle_history_mono limit forced 7 30 8100000 (omega arith) (omega arith) limit_anti admitted
