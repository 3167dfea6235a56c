-- ===== src/Whatsapp/Booleans/Tests.antt =====
-- Runs of the functions of whatsapp_boolean.go at fixed inputs.
use quepasa.Prelude.{◌≡◌, refl, none, some}
use quepasa.Strings.{codes}
use quepasa.Whatsapp.Booleans.{true_boolean, unset_boolean, unmarshal_json, marshal_json}
use quepasa.Whatsapp.Booleans.RoundTrip.{unmarshal_json-marshal_json}

quoted : unmarshal_json (codes " \"YES\" ") ≡ some true_boolean
unfolding unmarshal_json
quoted = refl

unmarshal_json-marshal_json_run : unmarshal_json (marshal_json unset_boolean) ≡ none
unmarshal_json-marshal_json_run = unmarshal_json-marshal_json unset_boolean
