-- ===== src/Service.antt =====
-- models/qp_whatsapp_service.go, qp_whatsapp_pairing.go, qp_whatsapp_server_extensions.go: the servers by
-- token, and the pairing of a telephone. A server is changed through a pointer: here it is put
-- back under its key. The table of servers is shared, so the service keeps its state. The address of
-- a new handler and the random token of package uuid are arguments; the connection's pointer to the handler
-- and the destinations of a server, which stand in Dispatching, are left out. `EqualFold` is that of ASCII.
pub mod Lifecycle
mod Found
pub mod Registration
pub mod Numbers
mod Pairing
mod Tests
use quepasa.Prelude.{
  ℕ, zero, suc, ◌+◌, ◌-◌, ◌*◌, ◌/◌, ◌%◌, ◌^◌, ◌≤◌, ◌<◌, String, ◌≡◌, refl, sym, ap, ◌∙◌, ◌≢◌, ◌↔◌,
  ◌⊎◌, inl, inr, Bool, true, false, ◌&&◌, ◌||◌, not, Option, none, some, List, [], ◌∷◌, ◌++◌, map,
  arith, ltb, leb, ◌==◌, if◌then◌else◌, ltb→lt, lt→ltb, leb→le, le→leb, ==_iff, tests, Bool-cases,
  Option-cases, sum-cases, is_some, length, get_elem?, take, drop, length-append, drop-append,
  length-take-le, All, ℤ, pos, negsuc, int_eq, int_eq_iff, ne_of_int_eq, All-append, ◌>>=◌,
}
use quepasa.Strings.{
  Text, codes, same, contains, has_prefix, has_suffix, contains_text, without, trim_left, trim,
  split, before, is_space, trim_space, to_upper, to_lower, is_digit, upper, lower, trim_space_left,
  trim_space_right,
}
use quepasa.Maps.{lookup, insert, remove}
use quepasa.Cache.{empty}
use quepasa.Whatsapp.ConnectionState.{WhatsappConnectionState, unprepared, is_valid_to_start}
use quepasa.Whatsapp.Endpoint.{get_phone_by_wid}
use quepasa.Connection.{Client, WhatsmeowConnection}
use quepasa.Server.{
  ServerError, failure, QpServer, Database, QpWhatsappServer, NewConnection, get_state, save,
}
use quepasa.Server.Operations.{delete}

-- FindAll and FindByToken of QpDataServersInterface.
pub record ServersTable (D : Type 0) : Type 0 where
  pub find_all : D → List QpServer
  pub find_by_token : Text → D → Text ⊎ QpServer

pub record Service {ℓ} (K D : Type 0) (C : Type ℓ) : Type ℓ where
  pub servers : List (Text × QpWhatsappServer K D C)
  pub initialized : Bool
  pub db : D

pub record QpWhatsappPairing (K : Type 0) : Type 0 where
  pub token : Text
  pub wid : Text
  pub username : Text
  pub conn : Option (WhatsmeowConnection K)

module _ {ℓ} {K D : Type 0} {C : Type ℓ} where
  unfoldable pub new_qp_whatsapp_server : ℕ → ℕ → QpServer → D → QpWhatsappServer K D C
  unfolding empty
  new_qp_whatsapp_server now address info db = record {
    row = info;
    connection = none;
    stop_requested = false;
    handler = record {
      cache = record { messages = empty; statuses = empty };
      server = none;
      aeh = [];
    };
    dispatching_handler = address;
    start_time = now;
    update_time = 0;
    db = db;
  }

  unfoldable pub append_new_server : ℕ → ℕ → QpServer → Service K D C → Service K D C
  unfolding new_qp_whatsapp_server lookup insert
  append_new_server now address info s =
      let server : QpWhatsappServer K D C = elim (lookup info.token s.servers) [
        | none ↦ new_qp_whatsapp_server now address info s.db
        | some known ↦ record known { row = info }
      ] in
      record s { servers = insert info.token server s.servers }

  -- The server of AppendPaired, before it is given the connection.
  unfoldable pub paired_server :
      ℕ → ℕ → QpWhatsappPairing K → Service K D C → QpWhatsappServer K D C
  unfolding new_qp_whatsapp_server lookup
  paired_server now address paired s = elim (lookup paired.token s.servers) [
    | none ↦
        new_qp_whatsapp_server now address
          (record {
            token = paired.token;
            wid = paired.wid;
            verified = false;
            user = [];
            timestamp = 0;
          })
          s.db
    | some known ↦ record known {
      row = record known.row { token = paired.token; wid = paired.wid };
      db = s.db;
    }
  ]

  unfoldable pub append_paired :
      Database D → ℕ → ℕ → QpWhatsappPairing K → Service K D C → Service K D C × Option ServerError
  unfolding paired_server insert save
  append_paired base now address paired s =
      let server = paired_server now address paired s in
      let user = if ltb 0 (length paired.username) then paired.username else server.row.user in
      let linked : QpWhatsappServer K D C = record server {
        row = record server.row { verified = true; user = user };
        connection = paired.conn;
      } in
      let (saved, error) = save base now linked in
      (record s { servers = insert paired.token saved s.servers; db = saved.db }, error)

  -- GetServersForUser: the map of its answer, with the key under which a server stands in the service.
  unfoldable pub servers_for_user :
      Text
      → List (Text × QpWhatsappServer K D C)
      → List (Text × (Text × QpWhatsappServer K D C))
      → List (Text × (Text × QpWhatsappServer K D C))
  unfolding same insert to_lower
  servers_for_user user [] found = found
  servers_for_user user ((key, server) ∷ servers) found = servers_for_user user servers (
      if same server.row.user user
      then insert (to_lower server.row.token) (key, server) found
      else found)

  -- The first with `item.GetNumber() == phone`.
  unfoldable pub first_with_number :
      Text → List (Text × (Text × QpWhatsappServer K D C)) → Option (Text × QpWhatsappServer K D C)
  unfolding same get_phone_by_wid
  first_with_number phone [] = none
  first_with_number phone ((lower, (key, server)) ∷ found) =
      let rest = first_with_number phone found in
      if same (get_phone_by_wid server.row.wid) phone then some (key, server) else rest

  -- GetOrCreateServer, with the key of its server.
  unfoldable pub get_or_create_server :
      ℕ → ℕ → Text → Text → Text → Service K D C → Service K D C × Text
  unfolding append_new_server servers_for_user first_with_number get_phone_by_wid insert
  get_or_create_server now address uuid user wid s =
      elim (first_with_number (get_phone_by_wid wid) (servers_for_user user s.servers [])) [
        | some (key, server) ↦ (
          record s {
            servers =
                insert key (record server { row = record server.row { wid = wid } }) s.servers;
          },
          key,
        )
        | none ↦ (
          append_new_server now address
              (record { token = uuid; wid = wid; verified = false; user = user; timestamp = 0 }) s,
          uuid,
        )
      ]

  -- GetOrCreateServerFromToken, with the key of its server.
  unfoldable pub get_or_create_server_from_token :
      Database D → ServersTable D → ℕ → ℕ → Text → Service K D C → Service K D C × (Text ⊎ Text)
  unfolding append_new_server lookup
  get_or_create_server_from_token base table now address token s =
      let blank : QpServer = record {
        token = token;
        wid = [];
        verified = false;
        user = [];
        timestamp = 0;
      } in
      elim (lookup token s.servers) [
        | some server ↦ (s, inr token)
        | none ↦ elim (base.exists token s.db) [
          | inl error ↦ (s, inl error)
          | inr false ↦ (append_new_server now address blank s, inr token)
          | inr true ↦ elim (table.find_by_token token s.db) [
            | inl error ↦ (s, inl error)
            | inr info ↦ (append_new_server now address info s, inr info.token)
          ]
        ]
      ]

  -- FindByToken and GetServerFromToken, with the key of the server.
  unfoldable pub find_by_token :
      Text → List (Text × QpWhatsappServer K D C) → Option (Text × QpWhatsappServer K D C)
  unfolding same to_lower
  find_by_token token [] = none
  find_by_token token ((key, server) ∷ servers) =
      let rest = find_by_token token servers in
      if same (to_lower server.row.token) (to_lower token) then some (key, server) else rest

  -- GetUserToken.
  unfoldable pub get_user_token : Text → Text → Text → Service K D C → Text
  unfolding servers_for_user first_with_number get_phone_by_wid
  get_user_token uuid user wid s =
      elim (first_with_number (get_phone_by_wid wid) (servers_for_user user s.servers [])) [
        | some (key, server) ↦ server.row.token
        | none ↦ uuid
      ]

  -- The pairing as OnPaired leaves it.
  unfoldable pub paired_with :
      Text → Text → QpWhatsappPairing K → Service K D C → QpWhatsappPairing K
  unfolding get_user_token
  paired_with uuid wid paired s =
      let token =
        if (length paired.token == 0) && ltb 0 (length paired.username)
        then get_user_token uuid paired.username wid s
        else paired.token in
      record paired { wid = wid; token = token }

  -- OnPaired, and whether EnsureReady of the server is started.
  unfoldable pub on_paired :
      Database D
      → ℕ
      → ℕ
      → Text
      → Text
      → QpWhatsappPairing K
      → Service K D C
      → QpWhatsappPairing K × Service K D C × Bool
  unfolding paired_with append_paired
  on_paired base now address uuid wid paired s =
      let known = paired_with uuid wid paired s in
      let (s', error) = append_paired base now address known s in
      if length paired.username == 0 then (known, s, false) else (known, s', not (is_some error))
