-- ===== src/Conflict/Tests.antt =====
-- models/qp_cache_fuck_unoapi.go: the check on concrete messages, with one field for the delays and one
-- for the message context.
use quepasa.Prelude.{ℕ, ◌≡◌, refl, ◌↔◌, true, false, ◌&&◌, some, [], arith, ◌==◌}
use quepasa.Strings.{Text, codes, same}
use quepasa.Strings.Laws.{same_iff}
use quepasa.Conflict.{E2E, validate_item}
use quepasa.Conflict.Redelivery.{AreFields, IsRepeat, validate_item-settled}

record Advertisement : Type 0 where
  text : Text
  delay : ℕ
  context : ℕ

abbrev e2e : E2E Advertisement
e2e = record {
  extended_text = λ m. some m.text;
  conversation = λ m. [];
  to_string = λ m. [];
  has_context_info = λ m. true;
  clear_delays = λ m. record m { delay = 0 };
  clear_message_context = λ m. record m { context = 0 };
  deep_equal = λ a b. same a.text b.text && (a.delay == b.delay) && (a.context == b.context);
}

e2e-AreFields : AreFields e2e (λ m. m.delay) (λ m. m.context) (λ m. m.text) 0 0
e2e-AreFields = record {
  deep_equal_iff = λ a b. (
    λ h. (ground (arith, h), ground (arith, h), (same_iff a.text b.text).0 (ground (arith, h))),
    λ h. ground (arith, (same_iff a.text b.text).1 h.2, h.0, h.1),
  );
  clear_delays-fields = λ m h. (refl, refl, refl);
  clear_message_context-fields = λ m. (refl, refl, refl);
  no_context_info = λ m h. cc;
}

abbrev offer : ℕ → ℕ → Advertisement
offer delay context = record { text = codes "offer"; delay = delay; context = context }

-- The same offer with another delay is no new message; another cache is not looked at.
redelivered :
    (validate_item e2e some (codes "message") (offer 0 1) (offer 5 2) ≡ false)
    × (validate_item e2e some (codes "any") (offer 0 1) (offer 5 2) ≡ true)
unfolding validate_item
redelivered = (refl, refl)

validate_item-settled_example :
    (validate_item e2e some (codes "message") (offer 0 1) (offer 5 2) ≡ false)
    ↔ IsRepeat e2e some
        (λ m. m.delay)
        (λ m. m.context)
        (λ m. m.text)
        0
        0
        e2e-AreFields
        (codes "message")
        (offer 0 1)
        (offer 5 2)
validate_item-settled_example =
    validate_item-settled e2e some (λ m. m.delay) (λ m. m.context) (λ m. m.text) 0 0 e2e-AreFields
      (codes "message") (offer 0 1) (offer 5 2)
