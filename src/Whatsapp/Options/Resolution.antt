-- ===== src/Whatsapp/Options/Resolution.antt =====
-- Which of the global option, the local option and the default decides.
use quepasa.Prelude.{
  ℕ, ◌≤◌, ◌<◌, ◌≡◌, ◌≢◌, inl, inr, Bool, true, false, Option, none, some, arith, if◌then◌else◌,
  Bool-cases, ℤ, pos, negsuc, int_eq, int_eq_iff, ne_of_int_eq,
}
use quepasa.Whatsapp.Booleans.{
  WhatsappBoolean, unset_boolean, true_boolean, false_boolean, WhatsappBooleanExtended,
  forced_false_boolean, forced_true_boolean, IsDeclared,
}
use quepasa.Whatsapp.Options.{
  WhatsappOptionsExtended, handle, handle_calls, handle_read_receipts, handle_groups,
  handle_broadcasts, handle_read_update, handle_history, gt_int, to_int64,
}

-- The order of precedence: a forced global value, then the local value, then the global value, then
-- the default. The last constructor is the panic.
pub data Resolves (global : WhatsappBooleanExtended) (local : WhatsappBoolean) (default : Bool)
    : Option Bool → Type 0 where
  forced_off : global ≡ forced_false_boolean → Resolves global local default (some false)
  forced_on : global ≡ forced_true_boolean → Resolves global local default (some true)
  locally :
      global ≢ forced_false_boolean
      → global ≢ forced_true_boolean
      → (b : Bool) → local ≡ (if b then true_boolean else false_boolean)
      → Resolves global local default (some b)
  globally :
      (b : Bool)
      → global ≡ (if b then true_boolean else false_boolean)
      → local ≡ unset_boolean
      → Resolves global local default (some b)
  by_default :
      global ≢ forced_false_boolean
      → global ≢ forced_true_boolean
      → global ≢ true_boolean
      → global ≢ false_boolean
      → local ≡ unset_boolean
      → Resolves global local default (some default)
  panics :
      global ≢ forced_false_boolean
      → global ≢ forced_true_boolean
      → ¬ IsDeclared local
      → Resolves global local default none

-- A value by the tests that the code makes on it.
data Tested (v c : ℤ) : Bool → Type 0 where
  hit : v ≡ c → Tested v c true
  miss : v ≢ c → Tested v c false

test : (v c : ℤ) → Tested v c (int_eq v c)
test v c = elim (Bool-cases (int_eq v c)) [
  | inl e ↦ rw e (hit ((int_eq_iff v c).0 e))
  | inr e ↦ rw e (miss (ne_of_int_eq v c e))
]

-- The code's decision as a function of the tests' outcomes.
module _ (g : WhatsappBooleanExtended) (l : WhatsappBoolean) (d : Bool) where
  decide : Bool → Bool → Bool → Bool → Bool → Bool → Bool → Option Bool
  decide true on g_off g_on unset off l_on = some false
  decide false true g_off g_on unset off l_on = some true
  decide false false g_off g_on false true l_on = some false
  decide false false g_off g_on false false true = some true
  decide false false g_off g_on false false false = none
  decide false false true g_on true off l_on = some false
  decide false false false true true off l_on = some true
  decide false false false false true off l_on = some d

  handle-decide :
      handle g l d
      ≡ decide
          (int_eq g forced_false_boolean)
          (int_eq g forced_true_boolean)
          (int_eq g false_boolean)
          (int_eq g true_boolean)
          (int_eq l unset_boolean)
          (int_eq l false_boolean)
          (int_eq l true_boolean)
  unfolding handle decide
  handle-decide = ground arith

  decide-Resolves :
      {a b c e u x y : Bool}
      → Tested g forced_false_boolean a
      → Tested g forced_true_boolean b
      → Tested g false_boolean c
      → Tested g true_boolean e
      → Tested l unset_boolean u
      → Tested l false_boolean x
      → Tested l true_boolean y
      → Resolves g l d (decide a b c e u x y)
  unfolding decide
  decide-Resolves (hit p) tb tc te tu tx ty = forced_off p
  decide-Resolves (miss n) (hit p) tc te tu tx ty = forced_on p
  decide-Resolves (miss n) (miss m) tc te (miss u) (hit p) ty = locally n m false p
  decide-Resolves (miss n) (miss m) tc te (miss u) (miss v) (hit p) = locally n m true p
  decide-Resolves (miss n) (miss m) tc te (miss u) (miss v) (miss w) = panics n m (ground arith)
  decide-Resolves (miss n) (miss m) (hit p) te (hit u) tx ty = globally false p u
  decide-Resolves (miss n) (miss m) (miss o) (hit p) (hit u) tx ty = globally true p u
  decide-Resolves (miss n) (miss m) (miss o) (miss q) (hit u) tx ty = by_default n m q o u

  handle-Resolves : Resolves g l d (handle g l d)
  handle-Resolves =
      rw handle-decide (
        decide-Resolves (test g _) (test g _) (test g _) (test g _) (test l _) (test l _)
          (test l _))

-- Each of the five handlers decides by this order of precedence, from its own field and with its
-- own default: calls and groups are handled by default, read receipts, broadcasts and read updates
-- are not.
pub handlers-Resolves :
    (o : WhatsappOptionsExtended) (local : WhatsappBoolean)
    → Resolves o.calls local true (handle_calls o local)
      × Resolves o.read_receipts local false (handle_read_receipts o local)
      × Resolves o.groups local true (handle_groups o local)
      × Resolves o.broadcasts local false (handle_broadcasts o local)
      × Resolves o.read_update local false (handle_read_update o local)
unfolding handle_calls handle_read_receipts handle_groups handle_broadcasts handle_read_update
handlers-Resolves o local = (
  handle-Resolves o.calls local true,
  handle-Resolves o.read_receipts local false,
  handle-Resolves o.groups local true,
  handle-Resolves o.broadcasts local false,
  handle-Resolves o.read_update local false,
)

gt_int_trans : (a b c : ℤ) → gt_int a b ≡ true → gt_int c b ≡ false → gt_int a c ≡ true
gt_int_trans (pos a) (pos b) (pos c) h k = ground arith
gt_int_trans (pos a) (pos b) (negsuc c) h k = ground arith
gt_int_trans (pos a) (negsuc b) (pos c) h k = cc
gt_int_trans (pos a) (negsuc b) (negsuc c) h k = ground arith
gt_int_trans (negsuc a) (pos b) c h k = cc
gt_int_trans (negsuc a) (negsuc b) (pos c) h k = cc
gt_int_trans (negsuc a) (negsuc b) (negsuc c) h k = ground arith

-- A longer history window admits whatever a shorter one admits, if more days put the limit no
-- later: `limit` is the clock's reading less so many days.
pub handle_history_mono :
    (limit : ℕ → ℤ) (o : WhatsappOptionsExtended) (short long mts : ℕ)
    → 0 < short
    → short ≤ long
    → ((a b : ℕ) → a ≤ b → gt_int (limit b) (limit a) ≡ false)
    → handle_history limit (record o { history_sync = some short }) mts ≡ true
    → handle_history limit (record o { history_sync = some long }) mts ≡ true
unfolding handle_history
handle_history_mono limit o short long mts pos_short h anti e =
    ground (arith, anti short long h, gt_int_trans (to_int64 mts) (limit short) (limit long))
