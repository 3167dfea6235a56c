-- ===== src/Service/Pairing.antt =====
-- models/qp_whatsapp_pairing.go: the server and the token that a pairing comes to.
use mathlib.Core.List.{Memᴰ}
use quepasa.Prelude.{◌≡◌, ◌≢◌, true, Option, [], All}
use quepasa.Strings.{Text}
use quepasa.Whatsapp.Endpoint.{get_phone_by_wid}
use quepasa.Connection.{WhatsmeowConnection}
use quepasa.Server.{QpWhatsappServer}
use quepasa.Service.{Service, servers_for_user}
use quepasa.Service.Numbers.{IsTaken}

module _ {ℓ} {K D : Type 0} {C : Type ℓ} where
  -- The token that a pairing takes: its own, that of a server of the service, of the user and with the
  -- number, or the new one where no server found for the user has the number.
  pub data IsToken (uuid user wid given : Text) (s : Service K D C) (token : Text) : Type ℓ where
    given_token : given ≢ [] → token ≡ given → IsToken uuid user wid given s token
    known_token :
        given ≡ []
        → (hit : Text × QpWhatsappServer K D C) → Memᴰ hit s.servers
        → hit.1.row.token ≡ token
        → hit.1.row.user ≡ user
        → get_phone_by_wid hit.1.row.wid ≡ get_phone_by_wid wid
        → IsToken uuid user wid given s token
    new_token :
        given ≡ []
        → token ≡ uuid
        → All
            (λ e. get_phone_by_wid e.1.1.row.wid ≢ get_phone_by_wid wid)
            (servers_for_user user s.servers [])
        → IsToken uuid user wid given s token

  pub record IsPaired (key user wid : Text) (conn : Option (WhatsmeowConnection K))
      (s t : Service K D C) : Type ℓ where
    pub taken : IsTaken key user wid s t
    pub verified_is : taken.server.row.verified ≡ true
    pub connection_is : taken.server.connection ≡ conn
