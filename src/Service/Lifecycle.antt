-- ===== src/Service/Lifecycle.antt =====
-- models/qp_whatsapp_service.go: Initialize and Delete, and a run of the service's operations.
use quepasa.Prelude.{
  ℕ, suc, Bool, true, false, ◌||◌, Option, none, some, List, [], ◌∷◌, if◌then◌else◌, is_some,
}
use quepasa.Strings.{Text}
use quepasa.Maps.{lookup, insert, remove}
use quepasa.Whatsapp.ConnectionState.{WhatsappConnectionState, unprepared, is_valid_to_start}
use quepasa.Connection.{Client}
use quepasa.Server.{ServerError, QpServer, Database, NewConnection, get_state}
use quepasa.Server.Operations.{delete}
use quepasa.Service.{
  ServersTable, Service, QpWhatsappPairing, append_new_server, on_paired, get_or_create_server,
  get_or_create_server_from_token,
}

is_unprepared : WhatsappConnectionState → Bool
is_unprepared unprepared = true
is_unprepared _ = false

unfoldable pub with_addresses : ℕ → List QpServer → List (ℕ × QpServer)
with_addresses address [] = []
with_addresses address (info ∷ infos) = (address, info) ∷ with_addresses (suc address) infos

-- A call, with the outside's answers: the clock, an address for a handler and a random token.
pub data Operation (K : Type 0) : Type 0 where
  appending : ℕ → ℕ → QpServer → Operation K
  pairing : ℕ → ℕ → Text → Text → QpWhatsappPairing K → Operation K
  creating : ℕ → ℕ → Text → Text → Text → Operation K
  requesting : ℕ → ℕ → Text → Operation K
  deleting : Text → Operation K
  initializing : ℕ → Operation K

module _ {ℓ} {K D : Type 0} {C : Type ℓ} (cli : Client K) (base : Database D)
    (new_connection : NewConnection K) (now : ℕ) where
  -- Delete, of the server that stands under a key.
  unfoldable pub delete_server : Text → Service K D C → Service K D C × Option ServerError
  unfolding delete lookup insert remove
  delete_server key s = elim (lookup key s.servers) [
    | none ↦ (s, none)
    | some server ↦
        let (left, error) = delete cli base new_connection now (record server { db = s.db }) in
        let kept = insert key left s.servers in
        if is_some error
        then (record s { servers = kept; db = left.db }, error)
        else (record s { servers = remove left.row.token kept; db = left.db }, none)
  ]

  -- The loop of Initialize, with the tokens of the servers whose start is started.
  unfoldable pub append_all : List (ℕ × QpServer) → Service K D C → Service K D C × List Text
  unfolding append_new_server lookup get_state is_unprepared is_valid_to_start
  append_all [] s = (s, [])
  append_all ((address, info) ∷ infos) s =
      let s' = append_new_server now address info s in
      let (s'', started) = append_all infos s' in
      let begins : Bool = elim (lookup info.token s'.servers) [
        | none ↦ false
        | some server ↦
            is_unprepared (get_state cli server) || is_valid_to_start (get_state cli server)
      ] in
      (s'', if begins then info.token ∷ started else started)

  unfoldable pub initialize : ServersTable D → ℕ → Service K D C → Service K D C × List Text
  unfolding append_all with_addresses
  initialize table address s =
      let (s', started) = append_all (with_addresses address (table.find_all s.db)) s in
      if s.initialized then (s, []) else (record s' { initialized = true }, started)

  unfoldable pub operate : ServersTable D → Operation K → Service K D C → Service K D C
  unfolding append_new_server on_paired get_or_create_server get_or_create_server_from_token
      delete_server initialize
  operate table (appending at address info) s = append_new_server at address info s
  operate table (pairing at address uuid wid paired) s =
      (on_paired base at address uuid wid paired s).1
  operate table (creating at address uuid user wid) s =
      (get_or_create_server at address uuid user wid s).0
  operate table (requesting at address token) s =
      (get_or_create_server_from_token base table at address token s).0
  operate table (deleting key) s = (delete_server key s).0
  operate table (initializing address) s = (initialize table address s).0

  unfoldable pub operations : ServersTable D → List (Operation K) → Service K D C → Service K D C
  unfolding operate
  operations table [] s = s
  operations table (op ∷ ops) s = operations table ops (operate table op s)
