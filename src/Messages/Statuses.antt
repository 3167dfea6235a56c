-- ===== src/Messages/Statuses.antt =====
-- The status of a message only rises.
use mathlib.Core.Option
use quepasa.Prelude.{
  ℕ, ◌≤◌, ◌≡◌, refl, ap, ◌∙◌, inl, inr, Bool, true, ◌&&◌, Option, none, some, arith, ltb,
  if◌then◌else◌, tests, Bool-cases, Option-cases,
}
use quepasa.Strings.{Text, same, to_upper}
use quepasa.Strings.Laws.{same_iff}
use quepasa.Cache.{get_any}
use quepasa.Cache.Invariant.{get_any-write_through, get_any-set_cache_item, get_any_reread}
use quepasa.Whatsapp.Message.{WhatsappMessage, WhatsappMessageStatus, status_rank}
use quepasa.Messages.{
  QpWhatsappMessages, always, or_unknown, get_cache_expiration, get_by_id, set_status_by_id,
  get_status_by_id, write_status, message_status_update,
}

get_cache_expiration-lt : (days now : ℕ) → ltb now (get_cache_expiration days now) ≡ true
unfolding get_cache_expiration
get_cache_expiration-lt days now = ground arith

module _ {ℓ} {C : Type ℓ} where
  -- The statuses do not depend on what happens to the messages.
  status-write_status :
      (now : ℕ) (id j : Text) (status : WhatsappMessageStatus) (found : Option (WhatsappMessage C))
      (s : QpWhatsappMessages C)
      → (get_status_by_id now (write_status id status found s) j).0 ≡ (get_status_by_id now s j).0
  unfolding write_status get_status_by_id
  status-write_status now id j status none s = refl
  status-write_status now id j status (some msg) s = refl

  status-get_by_id :
      (now later : ℕ) (id j : Text) (s : QpWhatsappMessages C)
      → (get_status_by_id now (get_by_id later s id).1 j).0 ≡ (get_status_by_id now s j).0
  unfolding get_by_id get_status_by_id
  status-get_by_id now later id j s = refl

  status-get_status_by_id :
      (now : ℕ) (id j : Text) (s : QpWhatsappMessages C)
      → (get_status_by_id now (get_status_by_id now s id).1 j).0 ≡ (get_status_by_id now s j).0
  unfolding get_status_by_id
  status-get_status_by_id now id j s =
      ap or_unknown (get_any_reread s.statuses (to_upper id) (to_upper j) now)

  status-set_status_by_id :
      (days now : ℕ) (id j : Text) (status : WhatsappMessageStatus) (s : QpWhatsappMessages C)
      → (get_status_by_id now (set_status_by_id days now s id status) j).0
        ≡ (if same (to_upper id) (to_upper j) then status else (get_status_by_id now s j).0)
  unfolding get_status_by_id set_status_by_id or_unknown
  status-set_status_by_id days now id j status s =
      rw
        (
          get_any-set_cache_item always s.statuses _ (to_upper j) now,
          get_cache_expiration-lt days now,
        )
        (ground arith)

  -- The rise that an update makes, or none.
  abbrev pub raises : ℕ → QpWhatsappMessages C → Text → WhatsappMessageStatus → Bool
  raises now s id status = ltb (status_rank (get_status_by_id now s id).0) (status_rank status)

  -- An update answers whether the new status ranks above the stored one, and only then stores it,
  -- under that id in any case of letters. The statuses of all other ids stay.
  pub message_status_update_lem :
      (days now : ℕ) (s : QpWhatsappMessages C) (id j : Text) (status : WhatsappMessageStatus)
      → ((message_status_update days now s id status).1 ≡ raises now s id status)
        × ((get_status_by_id now (message_status_update days now s id status).0 j).0 ≡ (
            if raises now s id status && same (to_upper id) (to_upper j)
            then status
            else (get_status_by_id now s j).0))
  unfolding message_status_update
  message_status_update_lem days now s id j status = elim (Bool-cases (raises now s id status)) [
    | inl up ↦ rw up (
      refl,
      status-write_status now id j status _ _
          ∙ status-get_by_id now now id j
              (set_status_by_id days now (get_status_by_id now s id).1 id status)
          ∙ status-set_status_by_id days now id j status (get_status_by_id now s id).1
          ∙ ap (λ x. if same (to_upper id) (to_upper j) then status else x)
              (status-get_status_by_id now id j s),
    )
    | inr down ↦ rw down (refl, status-get_status_by_id now id j s)
  ]

  get_status_case :
      (now : ℕ) (s : QpWhatsappMessages C) (id j : Text)
      → to_upper id ≡ to_upper j
      → (get_status_by_id now s id).0 ≡ (get_status_by_id now s j).0
  unfolding get_status_by_id
  get_status_case now s id j e = ap (λ k. or_unknown (get_any now s.statuses k).0) e

  -- No update lowers the rank of any stored status.
  pub message_status_update_mono :
      (days now : ℕ) (s : QpWhatsappMessages C) (id j : Text) (status : WhatsappMessageStatus)
      → status_rank (get_status_by_id now s j).0
        ≤ status_rank (get_status_by_id now (message_status_update days now s id status).0 j).0
  message_status_update_mono days now s id j status =
      rw (message_status_update_lem days now s id j status).1
        (elim (Bool-cases (same (to_upper id) (to_upper j))) [
          | inl e ↦ elim (Bool-cases (raises now s id status)) [
            | inl up ↦
                rw (e, up, ← get_status_case now s id j ((same_iff _ _).0 e)) (omega (tests, up))
            | inr down ↦ rw (e, down) (omega arith)
          ]
          | inr e ↦ elim (Bool-cases (raises now s id status)) [
            | inl up ↦ rw (e, up) (omega arith)
            | inr down ↦ rw (e, down) (omega arith)
          ]
        ])

  abbrev pub with_status : WhatsappMessageStatus → WhatsappMessage C → WhatsappMessage C
  with_status status m = record m { status = status }

  get_by_id-write_status :
      (now : ℕ) (id : Text) (status : WhatsappMessageStatus) (s : QpWhatsappMessages C)
      → (get_by_id now (write_status id status (get_by_id now s id).0 (get_by_id now s id).1) id).0
        ≡ Option.map (with_status status) (get_by_id now s id).0
  unfolding get_by_id write_status
  get_by_id-write_status now id status s =
      elim (Option-cases (get_any now s.messages (to_upper id)).0) [
        | inl e ↦
            rw (e, get_by_id, write_status)
              (get_any_reread s.messages (to_upper id) (to_upper id) now ∙ e)
        | inr (m, e) ↦
            rw (e, get_by_id, write_status)
              (get_any-write_through (with_status status) (get_any now s.messages (to_upper id)).1
                  (to_upper id) now
                ∙ ap (Option.map (with_status status))
                    (get_any_reread s.messages (to_upper id) (to_upper id) now ∙ e))
      ]

  -- The messages do not depend on what happens to the statuses.
  messages-get_status :
      (now : ℕ) (id : Text) (s : QpWhatsappMessages C)
      → (get_by_id now (get_status_by_id now s id).1 id).0 ≡ (get_by_id now s id).0
  unfolding get_by_id get_status_by_id
  messages-get_status now id s = refl

  messages-set_status :
      (days now : ℕ) (id : Text) (status : WhatsappMessageStatus) (s : QpWhatsappMessages C)
      → (get_by_id now (set_status_by_id days now (get_status_by_id now s id).1 id status) id).0
        ≡ (get_by_id now s id).0
  unfolding get_by_id get_status_by_id set_status_by_id
  messages-set_status days now id status s = refl

  -- The message that is cached under the id takes the new status over when the stored status rises,
  -- and else stays.
  pub message_status_update-get_by_id :
      (days now : ℕ) (s : QpWhatsappMessages C) (id : Text) (status : WhatsappMessageStatus)
      → (get_by_id now (message_status_update days now s id status).0 id).0 ≡ (
          if raises now s id status
          then Option.map (with_status status) (get_by_id now s id).0
          else (get_by_id now s id).0)
  unfolding message_status_update
  message_status_update-get_by_id days now s id status =
      elim (Bool-cases (raises now s id status)) [
        | inl up ↦ rw up (
            get_by_id-write_status now id status
              (set_status_by_id days now (get_status_by_id now s id).1 id status)
            ∙ ap (Option.map (with_status status)) (messages-set_status days now id status s))
        | inr down ↦ rw down (messages-get_status now id s)
      ]
