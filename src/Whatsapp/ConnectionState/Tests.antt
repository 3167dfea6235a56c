-- ===== src/Whatsapp/ConnectionState/Tests.antt =====
-- Runs of the connection states at fixed inputs.
use quepasa.Prelude.{◌≡◌, refl, true, false, some}
use quepasa.Strings.{codes}
use quepasa.Whatsapp.ConnectionState.{
  unknown, ready, stopped, starting, enum_index, is_healthy, is_valid_to_start, state_string,
  unmarshal_state,
}
use quepasa.Whatsapp.ConnectionState.Names.{
  unmarshal_state-state_string, state_string-unmarshal_state,
}

state_tests :
    (unmarshal_state (some (codes "Ready")) ≡ some ready)
    × (unmarshal_state (some (codes "ready")) ≡ some unknown)
    × (enum_index ready ≡ 11)
    × (is_healthy stopped ≡ true)
    × (is_valid_to_start ready ≡ false)
unfolding unmarshal_state enum_index is_healthy is_valid_to_start
state_tests = (refl, refl, refl, refl, refl)

reads_starting : unmarshal_state (some (state_string starting)) ≡ some starting
reads_starting = unmarshal_state-state_string starting

reads_ready : state_string ready ≡ codes "Ready"
reads_ready = state_string-unmarshal_state (codes "Ready") ready state_tests.0 (λ h. cc)
