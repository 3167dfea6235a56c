-- ===== src/Whatsapp/Booleans/RoundTrip.antt =====
-- What a setting becomes when it is written as JSON and read back.
use quepasa.Prelude.{
  ◌≡◌, refl, inl, inr, ◌||◌, none, some, if◌then◌else◌, Bool-cases, int_eq, int_eq_iff,
}
use quepasa.Whatsapp.Booleans.{
  WhatsappBoolean, false_boolean, true_boolean, marshal_json, unmarshal_json,
}

-- The two set values come back as they were; the JSON of every other value, the unset one among
-- them, is refused.
pub unmarshal_json-marshal_json :
    (v : WhatsappBoolean)
    → unmarshal_json (marshal_json v)
      ≡ (if int_eq v false_boolean || int_eq v true_boolean then some v else none)
unfolding unmarshal_json marshal_json
unmarshal_json-marshal_json v = elim (Bool-cases (int_eq v false_boolean)) [
  | inl p ↦ rw (p, (int_eq_iff v false_boolean).0 p) refl
  | inr p ↦ elim (Bool-cases (int_eq v true_boolean)) [
    | inl q ↦ rw (p, q, (int_eq_iff v true_boolean).0 q) refl
    | inr q ↦ rw (p, q) refl
  ]
]
