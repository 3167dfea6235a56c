-- ===== src/Whatsapp/ConnectionState/Names.antt =====
-- The names of the states and how they are read back.
use quepasa.Prelude.{
  ◌≡◌, refl, ◌∙◌, ◌≢◌, ◌⊎◌, inl, inr, some, List, [], ◌∷◌, arith, Bool-cases, All,
}
use quepasa.Strings.{Text, same}
use quepasa.Strings.Laws.{same_iff}
use quepasa.Whatsapp.ConnectionState.{
  WhatsappConnectionState, unknown, state_string, unmarshal_state, states, state_of,
}

-- Every state is read back from its name, so no two states share a name.
pub unmarshal_state-state_string :
    (s : WhatsappConnectionState) → unmarshal_state (some (state_string s)) ≡ some s
unfolding unmarshal_state state_string
unmarshal_state-state_string WhatsappConnectionState.unknown = refl
unmarshal_state-state_string _ = refl

-- The entries of the map pair states with their names.
abbrev Named : Text × WhatsappConnectionState → Type 0
Named (name, state) = state_string state ≡ name

states-Named : All Named states
unfolding states state_string
states-Named = (
  refl,
  (
    refl,
    (
      refl,
      (
        refl,
        (refl, (refl, (refl, (refl, (refl, (refl, (refl, (refl, (refl, (refl, (refl, tt))))))))))),
      ),
    ),
  ),
)

state_of-Named :
    (str : Text) (entries : List (Text × WhatsappConnectionState))
    → All Named entries
    → (state_string (state_of str entries) ≡ str) ⊎ (state_of str entries ≡ unknown)
unfolding state_of
state_of-Named str [] h = inr refl
state_of-Named str ((name, state) ∷ rest) h = elim (Bool-cases (same name str)) [
  | inl e ↦ rw e (inl (h.0 ∙ (same_iff name str).0 e))
  | inr e ↦ rw e (state_of-Named str rest h.1)
]

-- A name that is read as another state than `unknown` is that state's name.
pub state_string-unmarshal_state :
    (str : Text) (s : WhatsappConnectionState)
    → unmarshal_state (some str) ≡ some s
    → s ≢ unknown
    → state_string s ≡ str
unfolding unmarshal_state
state_string-unmarshal_state str s h n = ground (arith, state_of-Named str states states-Named)
