-- ===== src/Sip/Responses/Rejections.antt =====
-- sipproxy/sipproxy_response_handler.go: reading stops with a rejection and only with it.
use quepasa.Prelude.{
  ℕ, zero, suc, ◌≡◌, refl, inl, inr, Bool, true, false, ◌||◌, Option, none, some, List, [], ◌∷◌,
  ◌++◌, arith, leb, ◌==◌, Bool-cases, Option-cases, length, get_elem?, All, eq_of_some,
}
use quepasa.Strings.{Text, codes, same, contains_text, before, is_space, trim_space}
use mathlib.Core.Path.{subst}
use quepasa.Sip.{Report, accepted, rejected}
use quepasa.Sip.Responses.{
  Line, report_accepted, report_rejected, other_status, act, fields, status_code,
  process_continuous_response,
}

-- Whether a rejection is reported.
unfoldable pub has_rejection : List Report → Bool
has_rejection [] = false
has_rejection (accepted c f t s ∷ rs) = has_rejection rs
has_rejection (rejected c f t s ∷ rs) = true

-- The handling came to an end, with reading to stop exactly where a rejection is reported.
unfoldable pub StopsAtRejection : Option (List Report × Bool) → Type 0
StopsAtRejection none = ⊥
StopsAtRejection (some (reports, stop)) = stop ≡ has_rejection reports

-- Two handlings came to an end with the same answer, the first without a report of a rejection.
unfoldable pub IsSilentLike : Option (List Report × Bool) → Option (List Report × Bool) → Type 0
IsSilentLike (some (reports, stop)) (some (heard, stop')) =
    (stop ≡ stop') × (has_rejection reports ≡ false)
IsSilentLike _ _ = ⊥

-- The line with the callback for rejections set, or not.
abbrev pub with_rejects : Bool → Line → Line
with_rejects b l = record l { rejects = b }

-- Both ways of a line.
abbrev pub IsHandled : (Line → Option (List Report × Bool)) → Line → Type 0
IsHandled handle l =
    StopsAtRejection (handle (with_rejects true l))
    × IsSilentLike (handle (with_rejects false l)) (handle (with_rejects true l))

All-fields : (s word : Text) → All (λ w. (length w == 0) ≡ false) (fields s word)
unfolding fields
All-fields [] word = elim (Bool-cases (length word == 0)) [ inl e ↦ rw e tt | inr e ↦ rw e (e, tt) ]
All-fields (c ∷ s) word = elim (Bool-cases (is_space c)) [
  | inr e ↦ rw e (All-fields s (word ++ (c ∷ [])))
  | inl e ↦ elim (Bool-cases (length word == 0)) [
    | inl z ↦ rw (e, z) (All-fields s [])
    | inr z ↦ rw (e, z) (z, All-fields s [])
  ]
]

All-get_elem? {ℓ κ} :
    {A : Type ℓ} (P : A → Type κ) (xs : List A) (i : ℕ) {x : A}
    → All P xs
    → get_elem? xs i ≡ some x
    → P x
All-get_elem? P [] i a h = absurd (ground (arith, h))
All-get_elem? P (y ∷ xs) zero a h = subst P (eq_of_some h) a.0
All-get_elem? P (y ∷ xs) (suc i) a h = All-get_elem? P xs i a.1 h

module _ (l : Line) where
  other_status-IsHandled :
      (code : Text) → (length code == 0) ≡ false → IsHandled (λ l'. other_status l' code) l
  unfolding other_status StopsAtRejection IsSilentLike report_rejected has_rejection
  other_status-IsHandled [] h = absurd (ground (arith, h))
  other_status-IsHandled (c ∷ code) h = elim (Bool-cases (leb b'4' c)) [
    | inl e ↦ rw e (refl, (refl, refl))
    | inr e ↦ rw e (refl, (refl, refl))
  ]

  act-IsHandled : (code : Text) → (length code == 0) ≡ false → IsHandled (λ l'. act l' code) l
  unfolding act StopsAtRejection IsSilentLike report_accepted report_rejected has_rejection
  act-IsHandled code h =
      elim (Bool-cases
        (same code (codes "100") || same code (codes "180") || same code (codes "183"))) [
          | inl a ↦ rw a (refl, (refl, refl))
          | inr a ↦ elim (Bool-cases (same code (codes "200"))) [
            | inl b ↦ elim (Bool-cases l.accepts) [
              | inl c ↦ rw (a, b, c) (refl, (refl, refl))
              | inr c ↦ rw (a, b, c) (refl, (refl, refl))
            ]
            | inr b ↦ elim (Bool-cases (same code (codes "603"))) [
              | inl c ↦ rw (a, b, c) (refl, (refl, refl))
              | inr c ↦ rw (a, b, c) (other_status-IsHandled code h)
            ]
          ]
        ]

  status_code-length :
      (response : Text) {code : Text}
      → status_code response ≡ some code
      → (length code == 0) ≡ false
  unfolding status_code
  status_code-length response {code} h =
      All-get_elem? (λ w. (length w == 0) ≡ false) (fields (trim_space (before response 10)) []) 1
        (All-fields (trim_space (before response 10)) []) (ground (arith, h))

  -- Whatever text comes from the server, its handling does not panic, with the callback for rejections
  -- or without. With it, the reading stops exactly where a rejection is reported; without it, no
  -- rejection is reported and the reading stops on the same texts.
  pub process_continuous_response-StopsAtRejection :
      (response : Text) → IsHandled (λ l'. process_continuous_response l' response) l
  unfolding process_continuous_response StopsAtRejection IsSilentLike has_rejection
  process_continuous_response-StopsAtRejection response =
      elim (Bool-cases
        (contains_text response (codes "BYE ") || contains_text response (codes "CANCEL "))) [
          | inl a ↦ rw a (refl, (refl, refl))
          | inr a ↦ elim (Option-cases (status_code response)) [
            | inl e ↦ rw (a, e) (refl, (refl, refl))
            | inr (code, e) ↦ rw (a, e) (act-IsHandled code (status_code-length response e))
          ]
        ]
