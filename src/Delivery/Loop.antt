-- ===== src/Delivery/Loop.antt =====
-- models/qp_whatsapp_server_extensions.go: the loop over the destinations calls those that Routing
-- chooses, whatever becomes of the calls.
use quepasa.Prelude.{
  ◌≡◌, refl, sym, Bool, true, false, Option, none, some, List, [], ◌∷◌, map, if◌then◌else◌, ◌>>=◌,
}
use quepasa.Strings.{Text}
use quepasa.Whatsapp.Message.{WhatsappMessage}
use quepasa.Dispatching.{QpDispatching}
use quepasa.Routing.{accepts, post_to_dispatching}
use quepasa.Delivery.{Outside, Delivery, Destination, dispatch, post_all}

abbrev pub Posted {ℓ} : Type ℓ → Type 0 → Type ℓ
Posted P W = List Destination × Delivery P W × List (QpDispatching × Option Text)

module _ {ℓ} {P : Type ℓ} {W : Type 0} where
  -- The destinations that were called, in their order.
  unfoldable pub called : Option (Posted P W) → Option (List QpDispatching)
  called none = none
  called (some (ds, s, calls)) = some (map (λ call. call.0) calls)

  step-called :
      (d d' : Destination) (error : Option Text) (a : Option Bool) (x y : Option (Posted P W))
      (z : Option (List QpDispatching))
      → called x ≡ z
      → called y ≡ z
      → called (
          a >>= (λ accepted.
            if accepted
            then x >>= (λ (ds', t, calls). some (d' ∷ ds', t, (d.dispatching, error) ∷ calls))
            else y >>= (λ (ds', t, calls). some (d ∷ ds', t, calls))))
        ≡ (a >>= (λ accepted.
            z >>= (λ rest. if accepted then some (d.dispatching ∷ rest) else some rest)))
  unfolding called
  step-called d d' error none x y z h k = refl
  step-called d d' error (some true) none y z h k = rw (sym h) refl
  step-called d d' error (some true) (some p) y z h k = rw (sym h) refl
  step-called d d' error (some false) x none z h k = rw (sym k) refl
  step-called d d' error (some false) x (some p) z h k = rw (sym k) refl

module _ {ℓ κ} {P : Type ℓ} {W : Type 0} {C : Type κ} (out : Outside P W)
    (msg : WhatsappMessage C) where
  -- Whatever the outside answers, and whatever error a call ends with, the loop calls exactly the
  -- destinations that PostToDispatching's tests choose, each once and in their order, and it panics
  -- exactly where one of these tests does.
  pub called-post_all :
      (ds : List Destination) (s : Delivery P W)
      → called (post_all out msg ds s) ≡ post_to_dispatching (map (λ d. d.dispatching) ds) msg
  unfolding post_all post_to_dispatching called
  called-post_all [] s = refl
  called-post_all (d ∷ ds) s =
      step-called d (dispatch out msg d s).0 (dispatch out msg d s).2 (accepts d.dispatching msg) _
        _ _ (called-post_all ds (dispatch out msg d s).1) (called-post_all ds s)
