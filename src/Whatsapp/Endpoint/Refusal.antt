-- ===== src/Whatsapp/Endpoint/Refusal.antt =====
-- FormatEndpoint of whatsapp/whatsapp_extensions.go: which recipients it refuses, and with which error.
use quepasa.Prelude.{
  ◌≤◌, ◌<◌, ◌≡◌, refl, sym, ap, ◌∙◌, ◌≢◌, ◌↔◌, ◌⊎◌, inl, inr, true, false, List, [], ◌∷◌, ◌++◌,
  arith, ◌==◌, ==_iff, Bool-cases, length, ℕ,
}
use quepasa.Strings.{Text, codes, contains, has_prefix, without, split, before, on_first}
use quepasa.Strings.Laws.{same_iff, before-append, contains-append}
use quepasa.Whatsapp.Endpoint.{
  err, EndpointError, empty_recipient, invalid_length, invalid_suffix, invalid_group,
  format_endpoint, format_destination, allowed_suffix, second_part, digits, is_valid_e164,
}

-- A text with a separator, cut at its first one.
abbrev pub IsCut : Text → ℕ → Text → Text → Type 0
IsCut d c head tail = (d ≡ head ++ (c ∷ tail)) × (contains head c ≡ false)

first-IsCut :
    (d : Text) (c : ℕ) → contains d c ≡ true → (head : Text) × (tail : Text) × IsCut d c head tail
unfolding contains
first-IsCut [] c h = absurd (ground (arith, h))
first-IsCut (x ∷ d) c h = elim (Bool-cases (x == c)) [
  | inl e ↦ ([], d, (ap (λ y. y ∷ d) ((==_iff x c).0 e), refl))
  | inr e ↦
      let (head, tail, (whole, apart)) = first-IsCut d c (ground (arith, h, e)) in
      (x ∷ head, tail, (ap (λ l. x ∷ l) whole, ground (arith, e, apart)))
]

contains-cut : (head tail : Text) (c : ℕ) → contains (head ++ (c ∷ tail)) c ≡ true
unfolding contains
contains-cut head tail c = contains-append head (c ∷ tail) c (ground arith)

second_part-on_first :
    (c : ℕ) (parts : List Text) → second_part (on_first c parts) ≡ second_part parts
second_part-on_first c [] = refl
second_part-on_first c (a ∷ []) = refl
second_part-on_first c (a ∷ b ∷ parts) = refl

split-before : (s : Text) (c : ℕ) → (parts : List Text) × (split s c ≡ before s c ∷ parts)
unfolding split before
split-before [] c = ([], refl)
split-before (d ∷ s) c = elim (Bool-cases (d == c)) [
  | inl e ↦ (split s c, rw e refl)
  | inr e ↦ let (parts, p) = split-before s c in (parts, rw (e, p) refl)
]

-- The second part of a text that is cut ends at the next separator.
second_part-split :
    (head tail : Text) (c : ℕ)
    → contains head c ≡ false
    → second_part (split (head ++ (c ∷ tail)) c) ≡ before tail c
unfolding split contains
second_part-split [] tail c h =
    let (parts, p) = split-before tail c in
    let same_byte : (c == c) ≡ true = ground arith in rw (same_byte, p) refl
second_part-split (d ∷ head) tail c h =
    let other : (d == c) ≡ false = ground (arith, h) in
    rw other (
      second_part-on_first d (split (head ++ (c ∷ tail)) c)
      ∙ second_part-split head tail c (ground (arith, h)))

-- A domain that is none of the three.
abbrev pub IsForeign : Text → Type 0
IsForeign domain =
    (domain ≢ codes "g.us") × (domain ≢ codes "s.whatsapp.net") × (domain ≢ codes "lid")

allowed_suffix-IsForeign : (domain : Text) → (allowed_suffix domain ≡ false) ↔ IsForeign domain
unfolding allowed_suffix
allowed_suffix-IsForeign domain =
    let group = same_iff domain (codes "g.us") in
    let user = same_iff domain (codes "s.whatsapp.net") in
    let lid = same_iff domain (codes "lid") in
    (
      λ h. (
        λ q. ground (arith, h, group.1 q),
        λ q. ground (arith, h, user.1 q),
        λ q. ground (arith, h, lid.1 q),
      ),
      λ h. ground (arith, group, user, lid, h),
    )

-- Too few or too many digits for the number of a telephone.
abbrev pub IsNoPhone : Text → Type 0
IsNoPhone head = (digits head < 9) ⊎ (15 < digits head)

is_valid_e164-IsNoPhone : (head : Text) → (is_valid_e164 head ≡ false) ↔ IsNoPhone head
unfolding is_valid_e164
is_valid_e164-IsNoPhone head = (λ h. ground (arith, h), λ h. ground (arith, h))

-- What an error says of a recipient, white space left out: it is empty; it is not, and has fewer than
-- eight bytes; it has an `@`, and what follows the first one, up to the next, is none of the allowed
-- domains; it has no `@` but a dash, and before the first dash there are fewer than nine digits or
-- more than fifteen. The last two are said of one with no leading plus and eight bytes or more.
abbrev pub Explains : EndpointError → Text → Type 0
Explains empty_recipient d = d ≡ []
Explains invalid_length d = (0 < length d) × (length d < 8)
Explains invalid_suffix d =
    (8 ≤ length d)
    × (has_prefix d (codes "+") ≡ false)
    × ((user : Text) × (rest : Text) × IsCut d b'@' user rest × IsForeign (before rest b'@'))
Explains invalid_group d =
    (8 ≤ length d)
    × (has_prefix d (codes "+") ≡ false)
    × (contains d b'@' ≡ false)
    × ((head : Text) × (tail : Text) × IsCut d b'-' head tail × IsNoPhone head)

nil_of_length : (d : Text) → (length d == 0) ≡ true → d ≡ []
nil_of_length [] h = refl
nil_of_length (c ∷ d) h = absurd (ground (arith, h))

-- The tests that a recipient fails where it is refused for its domain or for its group.
suffix_tests :
    (s : Text)
    → (format_endpoint s ≡ err invalid_suffix) ↔ (
        (8 ≤ length (without b' ' s))
        × (has_prefix (without b' ' s) (codes "+") ≡ false)
        × (contains (without b' ' s) b'@' ≡ true)
        × (allowed_suffix (second_part (split (without b' ' s) b'@')) ≡ false))
unfolding format_endpoint format_destination
suffix_tests s = (λ h. ground (arith, h), λ h. ground (arith, h))

group_tests :
    (s : Text)
    → (format_endpoint s ≡ err invalid_group) ↔ (
        (8 ≤ length (without b' ' s))
        × (has_prefix (without b' ' s) (codes "+") ≡ false)
        × (contains (without b' ' s) b'@' ≡ false)
        × (contains (without b' ' s) b'-' ≡ true)
        × (is_valid_e164 (before (without b' ' s) b'-') ≡ false))
unfolding format_endpoint format_destination
group_tests s = (λ h. ground (arith, h), λ h. ground (arith, h))

suffix_refused :
    (s : Text) → (format_endpoint s ≡ err invalid_suffix) ↔ Explains invalid_suffix (without b' ' s)
suffix_refused s = (
  λ h.
      let (long, plus, at, foreign) = (suffix_tests s).0 h in
      let (user, rest, (whole, apart)) = first-IsCut (without b' ' s) b'@' at in
      let domain =
        ap (λ d. second_part (split d b'@')) whole ∙ second_part-split user rest b'@' apart in
      (
        long,
        plus,
        (
          user,
          rest,
          (whole, apart),
          (allowed_suffix-IsForeign (before rest b'@')).0
              (ap allowed_suffix (sym domain) ∙ foreign),
        ),
      ),
  λ (long, plus, (user, rest, (whole, apart), foreign)).
      let domain =
        ap (λ d. second_part (split d b'@')) whole ∙ second_part-split user rest b'@' apart in
      (suffix_tests s).1 (
        long,
        plus,
        ap (λ d. contains d b'@') whole ∙ contains-cut user rest b'@',
        ap allowed_suffix domain ∙ (allowed_suffix-IsForeign (before rest b'@')).1 foreign,
      ),
)

group_refused :
    (s : Text) → (format_endpoint s ≡ err invalid_group) ↔ Explains invalid_group (without b' ' s)
group_refused s = (
  λ h.
      let (long, plus, at, dash, few) = (group_tests s).0 h in
      let (head, tail, (whole, apart)) = first-IsCut (without b' ' s) b'-' dash in
      let number = ap (λ d. before d b'-') whole ∙ before-append head tail b'-' apart in
      (
        long,
        plus,
        at,
        (
          head,
          tail,
          (whole, apart),
          (is_valid_e164-IsNoPhone head).0 (ap is_valid_e164 (sym number) ∙ few),
        ),
      ),
  λ (long, plus, at, (head, tail, (whole, apart), few)).
      let number = ap (λ d. before d b'-') whole ∙ before-append head tail b'-' apart in
      (group_tests s).1 (
        long,
        plus,
        at,
        ap (λ d. contains d b'-') whole ∙ contains-cut head tail b'-',
        ap is_valid_e164 number ∙ (is_valid_e164-IsNoPhone head).1 few,
      ),
)

short_refused :
    (s : Text)
    → ((format_endpoint s ≡ err empty_recipient) ↔ Explains empty_recipient (without b' ' s))
      × ((format_endpoint s ≡ err invalid_length) ↔ Explains invalid_length (without b' ' s))
unfolding format_endpoint format_destination
short_refused s = (
  (λ h. nil_of_length (without b' ' s) (ground (arith, h)), λ h. rw h refl),
  (λ h. ground (arith, h), λ h. ground (arith, h)),
)

-- A recipient is refused with an error exactly where, white space left out, it is what the error
-- says: empty; not empty and shorter than eight bytes; or, from eight bytes on and without a leading
-- plus, with an `@` behind which, up to the next one, there is none of the allowed domains, or
-- without an `@` and with a dash before which there are fewer than nine digits or more than fifteen.
pub format_endpoint_refused :
    (s : Text) (e : EndpointError) → (format_endpoint s ≡ err e) ↔ Explains e (without b' ' s)
format_endpoint_refused s empty_recipient = (short_refused s).0
format_endpoint_refused s invalid_length = (short_refused s).1
format_endpoint_refused s invalid_suffix = suffix_refused s
format_endpoint_refused s invalid_group = group_refused s
