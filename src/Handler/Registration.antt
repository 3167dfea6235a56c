-- ===== src/Handler/Registration.antt =====
-- models/dispatching_handler.go: Register, UnRegister, Clear and IsRegistered on the list of the
-- handlers of events.
use quepasa.Prelude.{
  ℕ, ◌≡◌, refl, ap, ◌∙◌, inl, inr, true, false, ◌&&◌, ◌||◌, not, List, [], ◌∷◌, ◌++◌, arith, ltb,
  ◌==◌, ==_iff, Bool-cases, length, length-append,
}
use quepasa.Handler.{
  DispatchingHandler, is_registered, remove_handler, register, unregister, clear, is_attached,
}

-- No handler stands twice in the list.
abbrev pub Once : List ℕ → Type 0
Once [] = Unit
Once (v ∷ aeh) = (is_registered v aeh ≡ false) × Once aeh

is_registered-append :
    (k evt : ℕ) (aeh : List ℕ)
    → is_registered k (aeh ++ evt ∷ []) ≡ ((k == evt) || is_registered k aeh)
unfolding is_registered
is_registered-append k evt [] = ground arith
is_registered-append k evt (v ∷ aeh) = ground (arith, is_registered-append k evt aeh)

is_registered-remove_handler :
    (k evt : ℕ) (aeh : List ℕ)
    → is_registered k (remove_handler evt aeh) ≡ (not (k == evt) && is_registered k aeh)
unfolding is_registered remove_handler
is_registered-remove_handler k evt [] = ground arith
is_registered-remove_handler k evt (v ∷ aeh) =
    ground (arith, is_registered-remove_handler k evt aeh)

attached_of_registered :
    (k : ℕ) (aeh : List ℕ) → is_registered k aeh ≡ true → ltb 0 (length aeh) ≡ true
unfolding is_registered
attached_of_registered k [] h = cc
attached_of_registered k (v ∷ aeh) h = ground arith

registered_of_equal :
    (k evt : ℕ) (aeh : List ℕ)
    → is_registered evt aeh ≡ true
    → is_registered k aeh ≡ ((k == evt) || is_registered k aeh)
registered_of_equal k evt aeh h = elim (Bool-cases (k == evt)) [
  | inl e ↦ let same : k ≡ evt = (==_iff k evt).0 e in rw e (ap (λ x. is_registered x aeh) same ∙ h)
  | inr e ↦ rw e refl
]

append-Once :
    (evt : ℕ) (aeh : List ℕ) → is_registered evt aeh ≡ false → Once aeh → Once (aeh ++ evt ∷ [])
unfolding is_registered
append-Once evt [] n o = (refl, tt)
append-Once evt (v ∷ aeh) n o =
    (ground (arith, is_registered-append v evt aeh, o.0), append-Once evt aeh (ground arith) o.1)

remove_handler-Once : (evt : ℕ) (aeh : List ℕ) → Once aeh → Once (remove_handler evt aeh)
unfolding remove_handler
remove_handler-Once evt [] o = tt
remove_handler-Once evt (v ∷ aeh) o = elim (Bool-cases (v == evt)) [
  | inl e ↦ rw e (remove_handler-Once evt aeh o.1)
  | inr e ↦
      rw e (
        ground (arith, is_registered-remove_handler v evt aeh, o.0),
        remove_handler-Once evt aeh o.1,
      )
]

module _ {ℓ} {C : Type ℓ} where
  -- After a registration the handler is registered, after its removal it is not, after a clear none
  -- is; each other handler stays as it was.
  pub is_registered-operations :
      (h : DispatchingHandler C) (evt k : ℕ)
      → (is_registered k (register h evt).aeh ≡ ((k == evt) || is_registered k h.aeh))
        × (is_registered k (unregister h evt).aeh ≡ (not (k == evt) && is_registered k h.aeh))
        × (is_registered k (clear h).aeh ≡ false)
        × (is_attached (register h evt) ≡ true)
        × (is_attached (clear h) ≡ false)
  unfolding register unregister clear is_registered is_attached
  is_registered-operations h evt k = elim (Bool-cases (is_registered evt h.aeh)) [
    | inl e ↦ (
      rw e (registered_of_equal k evt h.aeh e),
      is_registered-remove_handler k evt h.aeh,
      refl,
      rw e (attached_of_registered evt h.aeh e),
      refl,
    )
    | inr e ↦ (
      rw e (is_registered-append k evt h.aeh),
      is_registered-remove_handler k evt h.aeh,
      refl,
      rw e (ground (arith, length-append h.aeh (evt ∷ []))),
      refl,
    )
  ]

  -- No handler is registered twice, whatever is registered, removed or cleared.
  pub operations-Once :
      (h : DispatchingHandler C) (evt : ℕ)
      → Once h.aeh
      → Once (register h evt).aeh × Once (unregister h evt).aeh × Once (clear h).aeh
  unfolding register unregister clear
  operations-Once h evt o = (
    elim (Bool-cases (is_registered evt h.aeh)) [
      | inl e ↦ rw e o
      | inr e ↦ rw e (append-Once evt h.aeh e o)
    ],
    remove_handler-Once evt h.aeh o,
    tt,
  )
