-- ===== src/Service/Found.antt =====
-- models/qp_whatsapp_service.go: what GetServersForUser and the search by number come to.
use mathlib.Core.List.{Memᴰ}
use quepasa.Prelude.{
  ◌≡◌, refl, sym, ◌≢◌, inl, inr, true, none, some, List, [], ◌∷◌, arith, Bool-cases, All,
}
use quepasa.Strings.{Text, same, to_lower}
use quepasa.Strings.Laws.{same_iff}
use quepasa.Maps.{insert, All-insert}
use quepasa.Whatsapp.Endpoint.{get_phone_by_wid}
use quepasa.Server.{QpWhatsappServer}
use quepasa.Service.{servers_for_user, first_with_number}

module _ {ℓ} {K D : Type 0} {C : Type ℓ} where
  -- The servers found for a user stand with their keys.
  pub servers_for_user-All {κ} :
      (P : Text × QpWhatsappServer K D C → Type κ) (user : Text)
      (m : List (Text × QpWhatsappServer K D C))
      (found : List (Text × (Text × QpWhatsappServer K D C)))
      → All P m
      → All (λ e. P e.1) found
      → All (λ e. P e.1) (servers_for_user user m found)
  unfolding servers_for_user
  servers_for_user-All P user [] found a b = b
  servers_for_user-All P user ((key, server) ∷ m) found a b =
      elim (Bool-cases (same server.row.user user)) [
        | inl e ↦ rw e (
            servers_for_user-All P user m (insert (to_lower server.row.token) (key, server) found)
              a.1 (All-insert (λ e. P e.1) (to_lower server.row.token) (key, server) found a.0 b))
        | inr e ↦ rw e (servers_for_user-All P user m found a.1 b)
      ]

  first_head :
      (phone small key : Text) (server : QpWhatsappServer K D C)
      (found : List (Text × (Text × QpWhatsappServer K D C))) {hit : Text × QpWhatsappServer K D C}
      → same (get_phone_by_wid server.row.wid) phone ≡ true
      → first_with_number phone ((small, (key, server)) ∷ found) ≡ some hit
      → (key, server) ≡ hit
  unfolding first_with_number
  first_head phone small key server found e h = ground (arith, e, h)

  pub first_with_number-All {κ} :
      (P : Text × QpWhatsappServer K D C → Type κ) (phone : Text)
      (found : List (Text × (Text × QpWhatsappServer K D C))) {hit : Text × QpWhatsappServer K D C}
      → All (λ e. P e.1) found
      → first_with_number phone found ≡ some hit
      → P hit
  unfolding first_with_number
  first_with_number-All P phone [] a h = absurd (ground (arith, h))
  first_with_number-All P phone ((small, (key, server)) ∷ found) a h =
      elim (Bool-cases (same (get_phone_by_wid server.row.wid) phone)) [
        | inl e ↦ rw (sym (first_head phone small key server found e h)) a.0
        | inr e ↦ first_with_number-All P phone found a.1 (ground (arith, e, h))
      ]

  All-Memᴰ :
      (m whole : List (Text × QpWhatsappServer K D C))
      → ((e : Text × QpWhatsappServer K D C) → Memᴰ e m → Memᴰ e whole)
      → All (λ e. Memᴰ e whole) m
  All-Memᴰ [] whole f = tt
  All-Memᴰ (x ∷ m) whole f = (f x (Memᴰ.head refl), All-Memᴰ m whole (λ e d. f e (Memᴰ.tail d)))

  -- A server found by number is one of the service's.
  pub first_with_number-Memᴰ :
      (phone user : Text) (m : List (Text × QpWhatsappServer K D C))
      {hit : Text × QpWhatsappServer K D C}
      → first_with_number phone (servers_for_user user m []) ≡ some hit
      → Memᴰ hit m
  first_with_number-Memᴰ phone user m h =
      first_with_number-All (λ e. Memᴰ e m) phone (servers_for_user user m [])
        (servers_for_user-All (λ e. Memᴰ e m) user m [] (All-Memᴰ m m (λ e d. d)) tt) h

  -- A server found for a user is of the user.
  pub servers_for_user-user :
      (user : Text) (m : List (Text × QpWhatsappServer K D C))
      (found : List (Text × (Text × QpWhatsappServer K D C)))
      → All (λ e. e.1.1.row.user ≡ user) found
      → All (λ e. e.1.1.row.user ≡ user) (servers_for_user user m found)
  unfolding servers_for_user
  servers_for_user-user user [] found b = b
  servers_for_user-user user ((key, server) ∷ m) found b =
      elim (Bool-cases (same server.row.user user)) [
        | inl e ↦ rw e (
            servers_for_user-user user m (insert (to_lower server.row.token) (key, server) found) (
              All-insert (λ e. e.1.1.row.user ≡ user) (to_lower server.row.token) (key, server)
                found ((same_iff server.row.user user).0 e) b))
        | inr e ↦ rw e (servers_for_user-user user m found b)
      ]

  -- The server found by number has it, and where none is found none has it.
  pub first_with_number-number :
      (phone : Text) (found : List (Text × (Text × QpWhatsappServer K D C)))
      {hit : Text × QpWhatsappServer K D C}
      → first_with_number phone found ≡ some hit
      → get_phone_by_wid hit.1.row.wid ≡ phone
  unfolding first_with_number
  first_with_number-number phone [] h = absurd (ground (arith, h))
  first_with_number-number phone ((small, (key, server)) ∷ found) {hit} h =
      elim (Bool-cases (same (get_phone_by_wid server.row.wid) phone)) [
        | inl e ↦
            rw (sym (first_head phone small key server found e h))
              ((same_iff (get_phone_by_wid server.row.wid) phone).0 e)
        | inr e ↦ first_with_number-number phone found {hit = hit} (ground (arith, e, h))
      ]

  pub first_with_number-none :
      (phone : Text) (found : List (Text × (Text × QpWhatsappServer K D C)))
      → first_with_number phone found ≡ none
      → All (λ e. get_phone_by_wid e.1.1.row.wid ≢ phone) found
  unfolding first_with_number
  first_with_number-none phone [] h = tt
  first_with_number-none phone ((small, (key, server)) ∷ found) h = (
    λ q. ground (arith, h, same_iff (get_phone_by_wid server.row.wid) phone, q),
    first_with_number-none phone found
        (ground (arith, h, same_iff (get_phone_by_wid server.row.wid) phone)),
  )
