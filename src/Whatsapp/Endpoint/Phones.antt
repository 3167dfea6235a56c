-- ===== src/Whatsapp/Endpoint/Phones.antt =====
-- Phone numbers, and the identifiers that hold them.
use quepasa.Prelude.{
  ℕ, ◌≡◌, refl, sym, true, false, none, some, [], ◌∷◌, ◌++◌, arith, length, take, drop, All-append,
}
use quepasa.Strings.{
  Text, codes, contains, has_prefix, trim_left, split, before, is_space, trim_space, is_digit,
}
use quepasa.Strings.Laws.{
  contains-append, contains-append_eq, split-append, has_suffix-append, before-append,
  has_prefix-append_byte, trim_left_of_not-has_prefix, NoSpace, trim_space_of_NoSpace,
}
use quepasa.Prelude.{
  ℕ, ◌≡◌, refl, sym, true, false, none, some, [], ◌∷◌, ◌++◌, arith, length, take, drop, All-append,
}
use mathlib.Core.List.{append_assoc}
use quepasa.Whatsapp.Endpoint.{
  phone_to_wid, user_suffix, all_digits, matches_e164, get_phone_if_valid, get_phone_of_wid,
  drop_domain, remove_digit_9_if_elegible, trim_session_id, second_part,
}

-- Digits hold no byte that is not one.
contains-digits :
    (s : Text) (c : ℕ) → all_digits s ≡ true → is_digit c ≡ false → contains s c ≡ false
unfolding contains all_digits
contains-digits [] c h k = refl
contains-digits (d ∷ s) c h k = ground (arith, contains-digits s c)

digits-NoSpace : (s : Text) → all_digits s ≡ true → NoSpace s
unfolding all_digits is_space
digits-NoSpace [] h = tt
digits-NoSpace (c ∷ s) h = (ground arith, digits-NoSpace s (ground arith))

user_suffix-NoSpace : NoSpace user_suffix
unfolding is_space
user_suffix-NoSpace = (
  refl,
  (
    refl,
    (
      refl,
      (
        refl,
        (refl, (refl, (refl, (refl, (refl, (refl, (refl, (refl, (refl, (refl, (refl, tt))))))))))),
      ),
    ),
  ),
)

matches_e164_digits :
    (s : Text) → matches_e164 s ≡ true → (all_digits s ≡ true) × (has_prefix s (codes "+") ≡ false)
unfolding matches_e164 has_prefix
matches_e164_digits [] h = cc
matches_e164_digits (c ∷ s) h = (ground arith, ground arith)

drop_domain-user : (s : Text) → all_digits s ≡ true → drop_domain (s ++ user_suffix) ≡ s
unfolding drop_domain is_digit
drop_domain-user s h =
    rw
      (
        has_suffix-append s user_suffix,
        before-append s (codes "s.whatsapp.net") b'@' (contains-digits s b'@' h refl),
        contains-digits s b':' h refl,
      )
      refl

-- What `get_phone_of_wid` and `phone_to_wid` are made of, for proofs that keep the parts shut.
get_phone_of_wid_lem :
    (s : Text)
    → get_phone_of_wid s ≡ get_phone_if_valid (drop_domain (trim_left (trim_space s) b'+'))
unfolding get_phone_of_wid
get_phone_of_wid_lem s = refl

phone_to_wid_lem :
    (s : Text)
    → contains (trim_left s b'+') b'@' ≡ false
    → phone_to_wid s ≡ trim_left s b'+' ++ user_suffix
unfolding phone_to_wid
phone_to_wid_lem s h = rw h

get_phone_if_valid-some :
    (s q : Text) → get_phone_if_valid s ≡ some q → (matches_e164 s ≡ true) × (q ≡ b'+' ∷ s)
unfolding get_phone_if_valid
get_phone_if_valid-some s q h = ground arith

get_phone_of_wid-user :
    (s : Text)
    → all_digits s ≡ true
    → has_prefix (s ++ user_suffix) (codes "+") ≡ false
    → get_phone_of_wid (s ++ user_suffix) ≡ get_phone_if_valid s
get_phone_of_wid-user s h p =
    rw
      (
        get_phone_of_wid_lem (s ++ user_suffix),
        trim_space_of_NoSpace (s ++ user_suffix)
            (All-append _ s user_suffix (digits-NoSpace s h) user_suffix-NoSpace),
        trim_left_of_not-has_prefix (s ++ user_suffix) b'+' p,
        drop_domain-user s h,
      )
      refl

phone_to_wid-digits :
    (s : Text)
    → all_digits s ≡ true
    → has_prefix s (codes "+") ≡ false
    → phone_to_wid s ≡ s ++ user_suffix
unfolding is_digit
phone_to_wid-digits s h p =
    let e = trim_left_of_not-has_prefix s b'+' p in
    let free : contains (trim_left s b'+') b'@' ≡ false = rw e (contains-digits s b'@' h refl) in
    rw (phone_to_wid_lem s free, e) refl

phone_to_wid-plus : (s : Text) → phone_to_wid (b'+' ∷ s) ≡ phone_to_wid s
unfolding phone_to_wid trim_left
phone_to_wid-plus s = refl

-- A phone number becomes a chat id and is read back from it as the same phone number, with its
-- leading plus or without.
pub get_phone_of_wid-phone_to_wid :
    (s q : Text)
    → get_phone_if_valid s ≡ some q
    → (get_phone_of_wid (phone_to_wid s) ≡ some q) × (get_phone_of_wid (phone_to_wid q) ≡ some q)
unfolding has_prefix
get_phone_of_wid-phone_to_wid s q h =
    let (m, e) = get_phone_if_valid-some s q h in
    let (ds, p) = matches_e164_digits s m in
    let wid = phone_to_wid-digits s ds p in
    let back : get_phone_of_wid (phone_to_wid s) ≡ some q =
      rw
        (
          wid,
          get_phone_of_wid-user s ds
              (has_prefix-append_byte s (codes "s.whatsapp.net") b'+' b'@' p refl),
        )
        h in
    (back, rw (e, phone_to_wid-plus s) (rw (← e) back))

remove_digit_9_inversion :
    (p a b c d n : ℕ) (rest r : Text)
    → remove_digit_9_if_elegible (p ∷ a ∷ b ∷ c ∷ d ∷ n ∷ rest) ≡ some r
    → (length rest ≡ 8)
      × (p ≡ b'+')
      × (a ≡ b'5')
      × (b ≡ b'5')
      × (n ≡ b'9')
      × (r ≡ p ∷ a ∷ b ∷ c ∷ d ∷ rest)
unfolding remove_digit_9_if_elegible
remove_digit_9_inversion p a b c d n rest r h = ground arith

-- Of an eligible mobile number the ninth digit behind the area code is taken out, and nothing else:
-- put back it gives the number. The result is not eligible again.
pub remove_digit_9_lem :
    (s r : Text)
    → remove_digit_9_if_elegible s ≡ some r
    → (length r ≡ 13)
      × (s ≡ take 5 r ++ (b'9' ∷ drop 5 r))
      × (take 3 r ≡ codes "+55")
      × (remove_digit_9_if_elegible r ≡ none)
unfolding remove_digit_9_if_elegible
remove_digit_9_lem (p ∷ a ∷ b ∷ c ∷ d ∷ n ∷ rest) r h =
    let (l, ep, ea, eb, en, e) = remove_digit_9_inversion p a b c d n rest r h in
    rw e (omega arith, ground arith, ground arith, rw l refl)
remove_digit_9_lem s r h = cc

trim_session_id_lem :
    (wid : Text)
    → contains wid b':' ≡ true
    → contains wid b'@' ≡ true
    → trim_session_id wid ≡ some (before wid b':' ++ (b'@' ∷ second_part (split wid b'@')))
unfolding trim_session_id
trim_session_id_lem wid c a = rw (c, a)

-- Of `user:session@domain` the session is left out.
pub trim_session_id-session :
    (user session domain : Text)
    → contains user b':' ≡ false
    → contains user b'@' ≡ false
    → contains session b'@' ≡ false
    → contains domain b'@' ≡ false
    → trim_session_id (user ++ (b':' ∷ (session ++ (b'@' ∷ domain))))
      ≡ some (user ++ (b'@' ∷ domain))
trim_session_id-session u s d h k l m =
    let rest : Text = b':' ∷ (s ++ (b'@' ∷ d)) in
    let colon : contains (u ++ rest) b':' ≡ true =
      contains-append u rest b':' (unfold contains in refl) in
    let wid : u ++ rest ≡ (u ++ (b':' ∷ s)) ++ (b'@' ∷ d) =
      sym (append_assoc u (b':' ∷ s) (b'@' ∷ d)) in
    let front : contains (u ++ (b':' ∷ s)) b'@' ≡ false =
      contains-append_eq u (b':' ∷ s) b'@' k (unfold contains in l) in
    let at : contains (u ++ rest) b'@' ≡ true =
      rw wid (contains-append (u ++ (b':' ∷ s)) (b'@' ∷ d) b'@' (unfold contains in refl)) in
    rw
      (
        trim_session_id_lem (u ++ rest) colon at,
        before-append u (s ++ (b'@' ∷ d)) b':' h,
        wid,
        split-append (u ++ (b':' ∷ s)) d b'@' front m,
      )
      refl
