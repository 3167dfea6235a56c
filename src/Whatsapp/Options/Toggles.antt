-- ===== src/Whatsapp/Options/Toggles.antt =====
-- The toggle buttons, and what they make of the handlers.
use quepasa.Prelude.{◌≡◌, ap, ◌≢◌, inl, inr, Bool, true, false, none, List, [], ◌∷◌, arith}
use quepasa.Whatsapp.Booleans.{WhatsappBoolean, IsDeclared}
use quepasa.Whatsapp.Options.{
  WhatsappOptions, WhatsappOptionsExtended, handle, handle_groups, toggle, toggle_groups,
  toggle_broadcasts, toggle_read_receipts, toggle_calls, toggle_read_update, handle_calls,
  handle_read_receipts, handle_broadcasts, handle_read_update,
}

toggle_thrice : (v : WhatsappBoolean) → IsDeclared v → toggle (toggle (toggle v)) ≡ v
unfolding toggle
toggle_thrice v (inl e) = rw e
toggle_thrice v (inr (inl e)) = rw e
toggle_thrice v (inr (inr e)) = rw e

pub record AreDeclared (o : WhatsappOptions) : Type 0 where
  pub groups : IsDeclared o.groups
  pub broadcasts : IsDeclared o.broadcasts
  pub read_receipts : IsDeclared o.read_receipts
  pub calls : IsDeclared o.calls
  pub read_update : IsDeclared o.read_update

-- Where all options have declared values, three presses of any one button give the options back,
-- the other fields included.
pub toggles_thrice :
    (o : WhatsappOptions)
    → AreDeclared o
    → (toggle_groups (toggle_groups (toggle_groups o)) ≡ o)
      × (toggle_broadcasts (toggle_broadcasts (toggle_broadcasts o)) ≡ o)
      × (toggle_read_receipts (toggle_read_receipts (toggle_read_receipts o)) ≡ o)
      × (toggle_calls (toggle_calls (toggle_calls o)) ≡ o)
      × (toggle_read_update (toggle_read_update (toggle_read_update o)) ≡ o)
unfolding toggle_groups toggle_broadcasts toggle_read_receipts toggle_calls toggle_read_update
toggles_thrice o v = (
  ap (λ x. record o { groups = x }) (toggle_thrice o.groups v.groups),
  ap (λ x. record o { broadcasts = x }) (toggle_thrice o.broadcasts v.broadcasts),
  ap (λ x. record o { read_receipts = x }) (toggle_thrice o.read_receipts v.read_receipts),
  ap (λ x. record o { calls = x }) (toggle_thrice o.calls v.calls),
  ap (λ x. record o { read_update = x }) (toggle_thrice o.read_update v.read_update),
)

pub data Button : Type 0 where
  groups broadcasts read_receipts calls read_update : Button

pub press : Button → WhatsappOptions → WhatsappOptions
press groups o = toggle_groups o
press broadcasts o = toggle_broadcasts o
press read_receipts o = toggle_read_receipts o
press calls o = toggle_calls o
press read_update o = toggle_read_update o

pub presses : List Button → WhatsappOptions → WhatsappOptions
presses [] o = o
presses (b ∷ bs) o = presses bs (press b o)

toggle-IsDeclared : (v : WhatsappBoolean) → IsDeclared (toggle v)
unfolding toggle
toggle-IsDeclared v = ground arith

press-AreDeclared : (b : Button) (o : WhatsappOptions) → AreDeclared o → AreDeclared (press b o)
unfolding press toggle_groups toggle_broadcasts toggle_read_receipts toggle_calls toggle_read_update
press-AreDeclared groups o v = record {
  groups = toggle-IsDeclared o.groups;
  broadcasts = v.broadcasts;
  read_receipts = v.read_receipts;
  calls = v.calls;
  read_update = v.read_update;
}
press-AreDeclared broadcasts o v = record {
  groups = v.groups;
  broadcasts = toggle-IsDeclared o.broadcasts;
  read_receipts = v.read_receipts;
  calls = v.calls;
  read_update = v.read_update;
}
press-AreDeclared read_receipts o v = record {
  groups = v.groups;
  broadcasts = v.broadcasts;
  read_receipts = toggle-IsDeclared o.read_receipts;
  calls = v.calls;
  read_update = v.read_update;
}
press-AreDeclared calls o v = record {
  groups = v.groups;
  broadcasts = v.broadcasts;
  read_receipts = v.read_receipts;
  calls = toggle-IsDeclared o.calls;
  read_update = v.read_update;
}
press-AreDeclared read_update o v = record {
  groups = v.groups;
  broadcasts = v.broadcasts;
  read_receipts = v.read_receipts;
  calls = v.calls;
  read_update = toggle-IsDeclared o.read_update;
}

presses-AreDeclared :
    (bs : List Button) (o : WhatsappOptions) → AreDeclared o → AreDeclared (presses bs o)
unfolding presses
presses-AreDeclared [] o v = v
presses-AreDeclared (b ∷ bs) o v = presses-AreDeclared bs (press b o) (press-AreDeclared b o v)

handle-ne-none : (g l : WhatsappBoolean) (d : Bool) → IsDeclared l → handle g l d ≢ none
unfolding handle
handle-ne-none g l d v = ground arith

-- Whatever buttons are pressed, options whose values were declared never make a handler panic.
pub presses-never-panic :
    (global : WhatsappOptionsExtended) (bs : List Button) (o : WhatsappOptions)
    → AreDeclared o
    → (handle_groups global (presses bs o).groups ≢ none)
      × (handle_broadcasts global (presses bs o).broadcasts ≢ none)
      × (handle_read_receipts global (presses bs o).read_receipts ≢ none)
      × (handle_calls global (presses bs o).calls ≢ none)
      × (handle_read_update global (presses bs o).read_update ≢ none)
unfolding handle_groups handle_broadcasts handle_read_receipts handle_calls handle_read_update
presses-never-panic global bs o v =
    let w = presses-AreDeclared bs o v in
    (
      handle-ne-none global.groups _ true w.groups,
      handle-ne-none global.broadcasts _ false w.broadcasts,
      handle-ne-none global.read_receipts _ false w.read_receipts,
      handle-ne-none global.calls _ true w.calls,
      handle-ne-none global.read_update _ false w.read_update,
    )
