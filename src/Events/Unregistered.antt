-- ===== src/Events/Unregistered.antt =====
-- A handler that was unregistered.
use quepasa.Prelude.{
  ◌≡◌, refl, sym, ap, ◌∙◌, inl, inr, Bool, true, false, none, some, List, [], ◌∷◌, ◌++◌, arith,
  if◌then◌else◌, Bool-cases, eq_of_some, ◌>>=◌,
}
use quepasa.Strings.{Text, before}
use quepasa.Events.{WhatsmeowHandlers, Event, logged_out, Effect, World, Outcome, ◌then◌}
use quepasa.Events.Notices.{on_logged_out_event, unregister}
use quepasa.Events.Dispatcher.{dispatch, events_handler, handle_all, removal}

if_true {ℓ} : {A : Type ℓ} (test : Bool) (x y : A) → test ≡ true → (if test then x else y) ≡ x
if_true true x y e = refl
if_true false x y e = absurd (ground (arith, e))

pub if_false {ℓ} : {A : Type ℓ} (test : Bool) (x y : A) → test ≡ false → (if test then x else y) ≡ y
if_false true x y e = absurd (ground (arith, e))
if_false false x y e = refl

module _ {ℓ} {C : Type ℓ} where
  -- The call that takes the handler off its client, once for each event.
  unfoldable pub removals : WhatsmeowHandlers C → List (Event C) → List (Effect C)
  unfolding removal
  removals h [] = []
  removals h (evt ∷ evts) = removal h ++ removals h evts

  handle_all-unregistered :
      (w : World C) (evts : List (Event C)) (h : WhatsmeowHandlers C)
      → h.unregister_requested ≡ true
      → handle_all w evts h ≡ some (h, removals h evts)
  unfolding handle_all removals events_handler
  handle_all-unregistered w [] h e = refl
  handle_all-unregistered w (evt ∷ evts) h e =
      ap (λ o. o then handle_all w evts) (if_true h.unregister_requested _ _ e)
      ∙ ap (λ o. o >>= (λ r. some (r.0, removal h ++ r.1))) (handle_all-unregistered w evts h e)

  ends_unregistered :
      (o : Outcome C) (left : WhatsmeowHandlers C) (effects : List (Effect C))
      → (o then (λ h. some (unregister h))) ≡ some (left, effects)
      → left.unregister_requested ≡ true
  unfolding unregister
  ends_unregistered none left effects q = absurd (ground (arith, q))
  ends_unregistered (some (h, before)) left effects q =
      ap (λ r. (r.0).unregister_requested) (sym (eq_of_some q))

  logged_out-unregistered :
      (w : World C) (reason : Text) (h left : WhatsmeowHandlers C) (effects : List (Effect C))
      → events_handler w (logged_out reason) h ≡ some (left, effects)
      → left.unregister_requested ≡ true
  unfolding events_handler dispatch on_logged_out_event
  logged_out-unregistered w reason h left effects q = elim (Bool-cases h.unregister_requested) [
    | inl e ↦
        ap (λ r. (r.0).unregister_requested)
          (eq_of_some (sym q ∙ if_true h.unregister_requested _ _ e))
        ∙ e
    | inr e ↦ ends_unregistered _ left effects (sym (if_false h.unregister_requested _ _ e) ∙ q)
  ]

  -- Once the handler has taken the event that the session was logged out, without a panic, no event of
  -- any kind changes it or leaves it: each only asks the client, if there is one, to take it off.
  pub handle_all-logged_out :
      (w later : World C) (reason : Text) (evts : List (Event C)) (h left : WhatsmeowHandlers C)
      (effects : List (Effect C))
      → events_handler w (logged_out reason) h ≡ some (left, effects)
      → handle_all later evts left ≡ some (left, removals left evts)
  handle_all-logged_out w later reason evts h left effects q =
      handle_all-unregistered later evts left (logged_out-unregistered w reason h left effects q)
