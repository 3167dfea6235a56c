-- ===== src/Service/Numbers.antt =====
-- models/qp_whatsapp_service.go: one server for a user's number, by GetOrCreateServer.
use mathlib.Core.List.{Memᴰ}
use quepasa.Prelude.{◌≡◌, refl, ◌≢◌, ◌⊎◌, some, [], All}
use quepasa.Strings.{Text}
use quepasa.Maps.{lookup, insert, lookup-insert, lookup-insert_other}
use quepasa.Whatsapp.Endpoint.{get_phone_by_wid}
use quepasa.Server.{QpWhatsappServer}
use quepasa.Service.{Service, servers_for_user}

module _ {ℓ} {K D : Type 0} {C : Type ℓ} where
  -- The server of a key, and what is left of the others.
  pub record IsTaken (key user wid : Text) (s t : Service K D C) : Type ℓ where
    pub server : QpWhatsappServer K D C
    pub found : lookup key t.servers ≡ some server
    pub user_is : server.row.user ≡ user
    pub wid_is : server.row.wid ≡ wid
    pub others : (other : Text) → key ≢ other → lookup other t.servers ≡ lookup other s.servers

  abbrev taking_known :
      (user wid : Text) (s : Service K D C) (hit : Text × QpWhatsappServer K D C)
      → hit.1.row.user ≡ user
      → IsTaken hit.0 user wid s (record s {
        servers = insert hit.0 (record hit.1 { row = record hit.1.row { wid = wid } }) s.servers;
      })
  taking_known user wid s hit e = record {
    server = record hit.1 { row = record hit.1.row { wid = wid } };
    found = lookup-insert hit.0 _ s.servers;
    user_is = e;
    wid_is = refl;
    others = λ other h. lookup-insert_other hit.0 other _ s.servers h;
  }

  -- How the server of a key was come by: it is one of the service's, of the user and with the number
  -- of the wid, and only its wid is new; or its key is the new token, and no server found for the user
  -- has the number.
  abbrev pub IsKnownOrNew :
      Text → Text → Text → Service K D C → Text → QpWhatsappServer K D C → Type ℓ
  IsKnownOrNew uuid user wid s key server =
      ((hit : QpWhatsappServer K D C) × Memᴰ (key, hit) s.servers
        × (hit.row.user ≡ user)
        × (get_phone_by_wid hit.row.wid ≡ get_phone_by_wid wid)
        × (server ≡ record hit { row = record hit.row { wid = wid } }))
      ⊎ ((key ≡ uuid)
          × All (λ e. get_phone_by_wid e.1.1.row.wid ≢ get_phone_by_wid wid)
              (servers_for_user user s.servers []))
