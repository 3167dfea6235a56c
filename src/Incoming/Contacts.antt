-- ===== src/Incoming/Contacts.antt =====
-- A message with several contacts: one message for each.
use quepasa.Prelude.{
  ℕ, suc, ◌+◌, ◌<◌, ◌≡◌, refl, sym, ap, ◌∙◌, ◌≢◌, List, [], ◌∷◌, ◌++◌, map, arith, length, drop,
  length-append, drop-append, All,
}
use quepasa.Strings.{Text}
use quepasa.Whatsapp.Message.{WhatsappMessage}
use quepasa.Incoming.{ContactMessage, Library}
use quepasa.Incoming.Conversion.{extra_contact, extra_contacts, handle_contacts_array_message}

-- The messages of a list of contacts: the one that is passed on, and those given to Follow.
unfoldable pub all_messages {ℓ} :
    {C : Type ℓ} → Library C → WhatsappMessage C → List ContactMessage → List (WhatsappMessage C)
unfolding handle_contacts_array_message
all_messages lib out contacts =
    let (first, more) = handle_contacts_array_message lib out contacts in first ∷ more

-- No id stands twice.
abbrev pub HaveDistinctIds {ℓ} : {C : Type ℓ} → List (WhatsappMessage C) → Type 0
HaveDistinctIds [] = Unit
HaveDistinctIds (m ∷ ms) = All (λ b. m.id ≢ b.id) ms × HaveDistinctIds ms

-- The suffixes of an id are told apart.
suffix_injective :
    (id : Text) (decimal : ℕ → Text) (i j : ℕ)
    → ((a b : ℕ) → decimal a ≡ decimal b → a ≡ b)
    → id ++ (b'-' ∷ decimal (i + 1)) ≡ id ++ (b'-' ∷ decimal (j + 1))
    → i ≡ j
suffix_injective id decimal i j inj h =
    let tails : drop (length id) (id ++ (b'-' ∷ decimal (i + 1)))
        ≡ drop (length id) (id ++ (b'-' ∷ decimal (j + 1))) =
      ap (drop (length id)) h in
    let same_tail : b'-' ∷ decimal (i + 1) ≡ b'-' ∷ decimal (j + 1) =
      sym (drop-append id _) ∙ tails ∙ drop-append id _ in
    omega (arith, inj (i + 1) (j + 1) (ap (drop 1) same_tail))

suffix_new : (id : Text) (t : Text) → id ≢ id ++ (b'-' ∷ t)
suffix_new id t h = absurd (omega (arith, ap length h, length-append id (b'-' ∷ t)))

module _ {ℓ} {C : Type ℓ} (lib : Library C) (out : WhatsappMessage C) where
  ids_after :
      (k idx : ℕ) (cs : List ContactMessage)
      → ((a b : ℕ) → lib.decimal a ≡ lib.decimal b → a ≡ b)
      → k < idx
      → All (λ b. out.id ++ (b'-' ∷ lib.decimal (k + 1)) ≢ b.id) (extra_contacts lib out idx cs)
  unfolding extra_contacts extra_contact
  ids_after k idx [] inj lt = tt
  ids_after k idx (c ∷ cs) inj lt = (
    λ h. omega (arith, lt, suffix_injective out.id lib.decimal k idx inj h),
    ids_after k (suc idx) cs inj (omega (arith, lt)),
  )

  ids_new :
      (idx : ℕ) (cs : List ContactMessage)
      → All (λ b. out.id ≢ b.id) (extra_contacts lib out idx cs)
  unfolding extra_contacts extra_contact
  ids_new idx [] = tt
  ids_new idx (c ∷ cs) = (suffix_new out.id (lib.decimal (idx + 1)), ids_new (suc idx) cs)

  extra_contacts-HaveDistinctIds :
      (idx : ℕ) (cs : List ContactMessage)
      → ((a b : ℕ) → lib.decimal a ≡ lib.decimal b → a ≡ b)
      → HaveDistinctIds (extra_contacts lib out idx cs)
  unfolding extra_contacts extra_contact
  extra_contacts-HaveDistinctIds idx [] inj = tt
  extra_contacts-HaveDistinctIds idx (c ∷ cs) inj = (
    ids_after idx (suc idx) cs inj (omega arith),
    extra_contacts-HaveDistinctIds (suc idx) cs inj,
  )

  extra_contacts-texts :
      (idx : ℕ) (cs : List ContactMessage)
      → map (λ b. b.text) (extra_contacts lib out idx cs) ≡ map (λ c. c.display_name) cs
  unfolding extra_contacts extra_contact
  extra_contacts-texts idx [] = refl
  extra_contacts-texts idx (c ∷ cs) =
      ap (λ ts. c.display_name ∷ ts) (extra_contacts-texts (suc idx) cs)

  -- A list of contacts that is not empty becomes one message for each contact, in their order, with
  -- the contact's name as its text. No two of them have the same id, where `%d` prints different
  -- numbers differently.
  pub contacts-HaveDistinctIds :
      (c : ContactMessage) (cs : List ContactMessage)
      → ((a b : ℕ) → lib.decimal a ≡ lib.decimal b → a ≡ b)
      → HaveDistinctIds (all_messages lib out (c ∷ cs))
        × (map (λ b. b.text) (all_messages lib out (c ∷ cs)) ≡ map (λ x. x.display_name) (c ∷ cs))
  unfolding handle_contacts_array_message all_messages
  contacts-HaveDistinctIds c cs inj = (
    (ids_new 1 cs, extra_contacts-HaveDistinctIds 1 cs inj),
    ap (λ ts. c.display_name ∷ ts) (extra_contacts-texts 1 cs),
  )
