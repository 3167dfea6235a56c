-- ===== src/Messages/Slices.antt =====
-- What is read from a slice of all messages, whatever its order.
use mathlib.Core.List.{Mem, mem-cons_self, mem-cons_of_mem}
use quepasa.Prelude.{
  ℕ, ◌≤◌, ◌<◌, ◌≡◌, refl, ◌⊎◌, inl, inr, ◌&&◌, Option, none, some, List, [], ◌∷◌, arith, ltb,
  Bool-cases, All,
}
use quepasa.Whatsapp.Message.{WhatsappMessage}
use quepasa.Messages.{get_leading, leading_from}

module _ {C : Type 0} where
  -- No message of the slice has a time, other than the zero time, before `t`.
  abbrev pub NoneBefore : ℕ → List (WhatsappMessage C) → Type 0
  NoneBefore t items = All (λ (m : WhatsappMessage C). (m.timestamp ≡ 0) ⊎ (t ≤ m.timestamp)) items

  NoneBefore-mono :
      (t u : ℕ) (items : List (WhatsappMessage C)) → u ≤ t → NoneBefore t items → NoneBefore u items
  NoneBefore-mono t u [] h n = tt
  NoneBefore-mono t u (x ∷ items) h n = (omega (arith, n.0), NoneBefore-mono t u items h n.1)

  abbrev pub Leads : ℕ → List (WhatsappMessage C) → Option (WhatsappMessage C) → Type 0
  Leads now items none = NoneBefore now items
  Leads now items (some m) =
      Mem m items × (0 < m.timestamp) × (m.timestamp < now) × NoneBefore m.timestamp items

  Leads-cons :
      (now : ℕ) (x : WhatsappMessage C) (items : List (WhatsappMessage C))
      (o : Option (WhatsappMessage C))
      → (x.timestamp ≡ 0) ⊎ (now ≤ x.timestamp)
      → Leads now items o
      → Leads now (x ∷ items) o
  Leads-cons now x items none h l = (h, l)
  Leads-cons now x items (some m) h (i, p, q, n) = (mem-cons_of_mem x i, p, q, (omega arith, n))

  later :
      (x : WhatsappMessage C) (items : List (WhatsappMessage C)) (r : WhatsappMessage C)
      → (r ≡ x) ⊎ Mem r items
      → Mem r (x ∷ items)
  later x items r (inl e) = rw e mem-cons_self
  later x items r (inr i) = mem-cons_of_mem x i

  Mem-later :
      (x m : WhatsappMessage C) (items : List (WhatsappMessage C)) (r : WhatsappMessage C)
      → (r ≡ m) ⊎ Mem r items
      → (r ≡ m) ⊎ Mem r (x ∷ items)
  Mem-later x m items r (inl e) = inl e
  Mem-later x m items r (inr i) = inr (mem-cons_of_mem x i)

  -- The state of the loop: the bound is the time of the message found, if there is one.
  leading_from-some :
      (now : ℕ) (m : WhatsappMessage C) (items : List (WhatsappMessage C))
      → 0 < m.timestamp
      → m.timestamp < now
      → (r : WhatsappMessage C) × (leading_from m.timestamp (some m) items ≡ some r)
        × ((r ≡ m) ⊎ Mem r items)
        × (0 < r.timestamp)
        × (r.timestamp ≤ m.timestamp)
        × NoneBefore r.timestamp items
  unfolding leading_from
  leading_from-some now m [] p h = (m, refl, inl refl, p, omega arith, tt)
  leading_from-some now m (x ∷ items) p h =
      elim (Bool-cases (ltb 0 x.timestamp && ltb x.timestamp m.timestamp)) [
        | inl e ↦
            let (r, f, i, q, le, n) =
              leading_from-some m.timestamp x items (ground arith) (ground arith) in
            (r, rw e f, inr (later x items r i), q, ground arith, (inr le, n))
        | inr e ↦
            let (r, f, i, q, le, n) = leading_from-some now m items p h in
            (r, rw e f, Mem-later x m items r i, q, le, (ground arith, n))
      ]

  leading_from-none :
      (now : ℕ) (items : List (WhatsappMessage C)) → Leads now items (leading_from now none items)
  unfolding leading_from
  leading_from-none now [] = tt
  leading_from-none now (x ∷ items) = elim (Bool-cases (ltb 0 x.timestamp && ltb x.timestamp now)) [
    | inl e ↦
        let (r, f, i, q, le, n) = leading_from-some now x items (ground arith) (ground arith) in
        rw (e, f) (later x items r i, q, ground arith, (inr le, n))
    | inr e ↦ rw e (Leads-cons now x items _ (ground arith) (leading_from-none now items))
  ]

  -- The leading message is one of the slice whose time is set and past, and no message of the slice with a set time
  -- is older; none is found only where all set times are in the future.
  pub get_leading-Leads :
      (now : ℕ) (items : List (WhatsappMessage C)) → Leads now items (get_leading now items)
  unfolding get_leading
  get_leading-Leads now items = leading_from-none now items
