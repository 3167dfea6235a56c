-- ===== src/Whatsapp/Endpoint/Formatting.antt =====
-- What a recipient becomes before a message is sent to it.
use quepasa.Prelude.{
  ◌≤◌, ◌≡◌, refl, ◌⊎◌, inl, inr, true, false, ◌++◌, arith, ltb, Bool-cases, length, length-append,
}
use quepasa.Strings.{Text, codes, contains, has_prefix, without, trim_left, split}
use quepasa.Strings.Laws.{
  contains-append, contains-without, without_of_not-contains, contains-append_eq, split-append,
  has_prefix-append_byte, trim_left_of_not-has_prefix,
}
use quepasa.Whatsapp.Endpoint.{
  ok, format_endpoint, format_destination, phone_to_wid, user_suffix, group_suffix, allowed_suffix,
  second_part, to_endpoint_id,
}

-- An address that needs no more formatting: no white space, eight bytes or more, no leading plus,
-- and an allowed domain.
pub record IsAddress (d : Text) : Type 0 where
  pub no_space : contains d b' ' ≡ false
  pub long_enough : 8 ≤ length d
  pub no_plus : has_prefix d (codes "+") ≡ false
  pub has_at : contains d b'@' ≡ true
  pub allowed : allowed_suffix (second_part (split d b'@')) ≡ true

-- A text with no `@` becomes an address when a suffix is put behind it.
module _ (s : Text) (no_space : contains s b' ' ≡ false) (long_enough : 8 ≤ length s)
    (no_plus : has_prefix s (codes "+") ≡ false) (no_at : contains s b'@' ≡ false) where
  IsAddress-group : IsAddress (s ++ group_suffix)
  unfolding contains has_prefix allowed_suffix
  IsAddress-group = record {
    no_space = contains-append_eq s group_suffix b' ' no_space refl;
    long_enough = omega (arith, length-append s group_suffix);
    no_plus = has_prefix-append_byte s (codes "g.us") b'+' b'@' no_plus refl;
    has_at = contains-append s group_suffix b'@' refl;
    allowed = rw (split-append s (codes "g.us") b'@' no_at refl) refl;
  }

  IsAddress-user : IsAddress (s ++ user_suffix)
  unfolding contains has_prefix allowed_suffix
  IsAddress-user = record {
    no_space = contains-append_eq s user_suffix b' ' no_space refl;
    long_enough = omega (arith, length-append s user_suffix);
    no_plus = has_prefix-append_byte s (codes "s.whatsapp.net") b'+' b'@' no_plus refl;
    has_at = contains-append s user_suffix b'@' refl;
    allowed = rw (split-append s (codes "s.whatsapp.net") b'@' no_at refl) refl;
  }

  IsAddress-phone_to_wid : IsAddress (phone_to_wid s)
  unfolding phone_to_wid
  IsAddress-phone_to_wid = rw (trim_left_of_not-has_prefix s b'+' no_plus, no_at) IsAddress-user

-- The ways in which a destination with no leading plus is accepted.
format_destination_cases :
    (s d : Text)
    → has_prefix s (codes "+") ≡ false
    → format_destination s ≡ ok d
    → ((contains s b'@' ≡ true) × (allowed_suffix (second_part (split s b'@')) ≡ true) × (d ≡ s))
      ⊎ ((contains s b'@' ≡ false) × (d ≡ s ++ group_suffix))
      ⊎ ((contains s b'@' ≡ false) × (d ≡ phone_to_wid s))
unfolding format_destination
format_destination_cases s d p e = elim (Bool-cases (contains s b'@')) [
  | inl at ↦ inl (at, ground arith, ground arith)
  | inr no_at ↦ inr (ground arith)
]

format_destination-IsAddress :
    (s d : Text)
    → contains s b' ' ≡ false
    → 8 ≤ length s
    → has_prefix s (codes "+") ≡ false
    → format_destination s ≡ ok d
    → IsAddress d
format_destination-IsAddress s d h l p e = elim (format_destination_cases s d p e) [
  | inl (at, a, q) ↦
      rw q (record { no_space = h; long_enough = l; no_plus = p; has_at = at; allowed = a })
  | inr (inl (no_at, q)) ↦ rw q (IsAddress-group s h l p no_at)
  | inr (inr (no_at, q)) ↦ rw q (IsAddress-phone_to_wid s h l p no_at)
]

format_endpoint_ok :
    (s d : Text)
    → format_endpoint s ≡ ok d
    → (8 ≤ length (without b' ' s)) × (format_destination (without b' ' s) ≡ ok d)
unfolding format_endpoint
format_endpoint_ok s d e = elim (Bool-cases (ltb (length (without b' ' s)) 8)) [
  | inl short ↦ absurd (ground arith)
  | inr long ↦ (ground arith, ground arith)
]

format_endpoint_of_IsAddress : (d : Text) → IsAddress d → format_endpoint d ≡ ok d
unfolding format_endpoint format_destination
format_endpoint_of_IsAddress d a =
    rw (without_of_not-contains b' ' d a.no_space) (ground (arith, a.long_enough))

-- A recipient that does not begin with a plus, white space left out, becomes an address with an
-- allowed domain, or is refused.
pub format_endpoint-IsAddress :
    (s d : Text)
    → has_prefix (without b' ' s) (codes "+") ≡ false
    → format_endpoint s ≡ ok d
    → IsAddress d
format_endpoint-IsAddress s d p e =
    let (l, f) = format_endpoint_ok s d e in
    format_destination-IsAddress (without b' ' s) d (contains-without b' ' s) l p f

-- Formatting the result again changes nothing, where the recipient did not begin with a plus.
pub format_endpoint_idem :
    (s d : Text)
    → has_prefix (without b' ' s) (codes "+") ≡ false
    → format_endpoint s ≡ ok d
    → format_endpoint d ≡ ok d
format_endpoint_idem s d p e = format_endpoint_of_IsAddress d (format_endpoint-IsAddress s d p e)

-- Behind a plus the domain is not checked: whatever stands behind the leading pluses is accepted as
-- it is, where it holds an `@`.
pub format_endpoint_plus :
    (s : Text)
    → 7 ≤ length s
    → contains s b' ' ≡ false
    → contains (trim_left s b'+') b'@' ≡ true
    → format_endpoint (codes "+" ++ s) ≡ ok (trim_left s b'+')
unfolding format_endpoint format_destination phone_to_wid without has_prefix trim_left
format_endpoint_plus s l h at = rw (without_of_not-contains b' ' s h) (ground arith)

contains-to_endpoint_id : (id : Text) → contains (to_endpoint_id id) b'@' ≡ true
unfolding to_endpoint_id
contains-to_endpoint_id id = ground (
  arith,
  contains-append id (codes "@broadcast") b'@' refl,
  contains-append id group_suffix b'@' refl,
  contains-append id user_suffix b'@' refl,
)

to_endpoint_id_of_at : (id : Text) → contains id b'@' ≡ true → to_endpoint_id id ≡ id
unfolding to_endpoint_id
to_endpoint_id_of_at id h = rw h

-- The API's address of a chat holds an `@`, and is its own address.
pub to_endpoint_id_idem :
    (id : Text)
    → (contains (to_endpoint_id id) b'@' ≡ true)
      × (to_endpoint_id (to_endpoint_id id) ≡ to_endpoint_id id)
to_endpoint_id_idem id =
    (contains-to_endpoint_id id, to_endpoint_id_of_at _ (contains-to_endpoint_id id))
