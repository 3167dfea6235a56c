-- ===== src/Service/Registration.antt =====
-- models/qp_whatsapp_service.go, qp_whatsapp_pairing.go: a server stands under its own token, once.
use quepasa.Prelude.{
  ℕ, ◌≡◌, ◌∙◌, inl, inr, true, false, List, [], ◌∷◌, arith, ◌==◌, Bool-cases, Option-cases,
  sum-cases, is_some, length, All,
}
use quepasa.Strings.{Text}
use quepasa.Maps.{
  lookup, insert, remove, AreDistinct, AreDistinct-insert, AreDistinct-remove, All-insert,
  All-remove, All-lookup,
}
use quepasa.Whatsapp.Endpoint.{get_phone_by_wid}
use quepasa.Connection.{Client}
use quepasa.Server.{QpServer, Database, QpWhatsappServer, NewConnection, save}
use quepasa.Server.Operations.{delete}
use quepasa.Service.{
  ServersTable, Service, QpWhatsappPairing, new_qp_whatsapp_server, append_new_server,
  paired_server, append_paired, servers_for_user, first_with_number, get_or_create_server,
  get_or_create_server_from_token, on_paired, paired_with,
}
use quepasa.Service.Lifecycle.{
  append_all, with_addresses, delete_server, initialize, Operation, appending, pairing, creating,
  requesting, deleting, initializing, operate, operations,
}
use quepasa.Service.Found.{servers_for_user-All, first_with_number-All}

module _ {ℓ} {K D : Type 0} {C : Type ℓ} where
  abbrev pub OwnToken : Text × QpWhatsappServer K D C → Type 0
  OwnToken (key, server) = server.row.token ≡ key

  -- No key stands twice, and every server's token is its key.
  pub record IsRegistered (servers : List (Text × QpWhatsappServer K D C)) : Type ℓ where
    pub distinct : AreDistinct servers
    pub own : All OwnToken servers

  insert-IsRegistered :
      (key : Text) (server : QpWhatsappServer K D C) (m : List (Text × QpWhatsappServer K D C))
      → server.row.token ≡ key
      → IsRegistered m
      → IsRegistered (insert key server m)
  insert-IsRegistered key server m e r = record {
    distinct = AreDistinct-insert key server m r.distinct;
    own = All-insert OwnToken key server m e r.own;
  }

  remove-IsRegistered :
      (key : Text) (m : List (Text × QpWhatsappServer K D C))
      → IsRegistered m
      → IsRegistered (remove key m)
  remove-IsRegistered key m r = record {
    distinct = AreDistinct-remove key m r.distinct;
    own = All-remove OwnToken key m r.own;
  }

  append_new_server-IsRegistered :
      (now address : ℕ) (info : QpServer) (s : Service K D C)
      → IsRegistered s.servers
      → IsRegistered (append_new_server now address info s).servers
  unfolding append_new_server new_qp_whatsapp_server
  append_new_server-IsRegistered now address info s r =
      insert-IsRegistered info.token _ s.servers (ground arith) r

  save-token :
      (base : Database D) (now : ℕ) (server : QpWhatsappServer K D C)
      → (save base now server).0.row.token ≡ server.row.token
  unfolding save
  save-token base now server = ground arith

  paired_server-token :
      (now address : ℕ) (paired : QpWhatsappPairing K) (s : Service K D C)
      → (paired_server now address paired s).row.token ≡ paired.token
  unfolding paired_server new_qp_whatsapp_server
  paired_server-token now address paired s = ground arith

  append_paired-IsRegistered :
      (base : Database D) (now address : ℕ) (paired : QpWhatsappPairing K) (s : Service K D C)
      → IsRegistered s.servers
      → IsRegistered (append_paired base now address paired s).0.servers
  unfolding append_paired
  append_paired-IsRegistered base now address paired s r =
      insert-IsRegistered paired.token _ s.servers
        (save-token base now _ ∙ paired_server-token now address paired s) r

  get_or_create_server-IsRegistered :
      (now address : ℕ) (uuid user wid : Text) (s : Service K D C)
      → IsRegistered s.servers
      → IsRegistered (get_or_create_server now address uuid user wid s).0.servers
  unfolding get_or_create_server
  get_or_create_server-IsRegistered now address uuid user wid s r =
      elim (Option-cases
        (first_with_number (get_phone_by_wid wid) (servers_for_user user s.servers []))) [
          | inl e ↦ rw (e, get_or_create_server) (append_new_server-IsRegistered now address _ s r)
          | inr ((key, server), e) ↦
              rw (e, get_or_create_server)
                (insert-IsRegistered key _ s.servers
                  (first_with_number-All OwnToken (get_phone_by_wid wid) _
                    (servers_for_user-All OwnToken user s.servers [] r.own tt) e)
                  r)
        ]

  get_or_create_server_from_token-IsRegistered :
      (base : Database D) (table : ServersTable D) (now address : ℕ) (token : Text)
      (s : Service K D C)
      → IsRegistered s.servers
      → IsRegistered (get_or_create_server_from_token base table now address token s).0.servers
  unfolding get_or_create_server_from_token
  get_or_create_server_from_token-IsRegistered base table now address token s r =
      elim (Option-cases (lookup token s.servers)) [
        | inr (server, e) ↦ rw (e, get_or_create_server_from_token) r
        | inl e ↦ elim (sum-cases (base.exists token s.db)) [
          | inl (error, q) ↦ rw (e, q, get_or_create_server_from_token) r
          | inr (false, q) ↦
              rw (e, q, get_or_create_server_from_token)
                (append_new_server-IsRegistered now address _ s r)
          | inr (true, q) ↦ elim (sum-cases (table.find_by_token token s.db)) [
            | inl (error, t) ↦ rw (e, q, t, get_or_create_server_from_token) r
            | inr (info, t) ↦
                rw (e, q, t, get_or_create_server_from_token)
                  (append_new_server-IsRegistered now address info s r)
          ]
        ]
      ]

  on_paired-IsRegistered :
      (base : Database D) (now address : ℕ) (uuid wid : Text) (paired : QpWhatsappPairing K)
      (s : Service K D C)
      → IsRegistered s.servers
      → IsRegistered (on_paired base now address uuid wid paired s).1.servers
  unfolding on_paired
  on_paired-IsRegistered base now address uuid wid paired s r =
      elim (Bool-cases (length paired.username == 0)) [
        | inl e ↦ rw (e, on_paired) r
        | inr e ↦
            rw (e, on_paired)
              (append_paired-IsRegistered base now address (paired_with uuid wid paired s) s r)
      ]

module _ {ℓ} {K D : Type 0} {C : Type ℓ} (cli : Client K) (base : Database D)
    (new_connection : NewConnection K) (now : ℕ) where
  delete-token :
      (server : QpWhatsappServer K D C)
      → (delete cli base new_connection now server).0.row.token ≡ server.row.token
  unfolding delete
  delete-token server = ground arith

  delete_server-IsRegistered :
      (key : Text) (s : Service K D C)
      → IsRegistered s.servers
      → IsRegistered (delete_server cli base new_connection now key s).0.servers
  unfolding delete_server
  delete_server-IsRegistered key s r = elim (Option-cases (lookup key s.servers)) [
    | inl e ↦ rw (e, delete_server) r
    | inr (server, e) ↦
        let left = delete cli base new_connection now (record server { db = s.db }) in
        let kept =
          insert-IsRegistered key left.0 s.servers
            (delete-token (record server { db = s.db }) ∙ All-lookup OwnToken key s.servers r.own e)
            r in
        elim (Bool-cases (is_some left.1)) [
          | inl b ↦ rw (e, b, delete_server) kept
          | inr b ↦ rw (e, b, delete_server) (remove-IsRegistered left.0.row.token _ kept)
        ]
  ]

  append_all-IsRegistered :
      (infos : List (ℕ × QpServer)) (s : Service K D C)
      → IsRegistered s.servers
      → IsRegistered (append_all cli base new_connection now infos s).0.servers
  unfolding append_all
  append_all-IsRegistered [] s r = r
  append_all-IsRegistered ((address, info) ∷ infos) s r =
      append_all-IsRegistered infos _ (append_new_server-IsRegistered now address info s r)

  initialize-IsRegistered :
      (table : ServersTable D) (address : ℕ) (s : Service K D C)
      → IsRegistered s.servers
      → IsRegistered (initialize cli base new_connection now table address s).0.servers
  unfolding initialize
  initialize-IsRegistered table address s r = elim (Bool-cases s.initialized) [
    | inl e ↦ rw (e, initialize) r
    | inr e ↦
        rw (e, initialize)
          (append_all-IsRegistered (with_addresses address (table.find_all s.db))
            (record s { initialized = false }) r)
  ]

  operate-IsRegistered :
      (table : ServersTable D) (op : Operation K) (s : Service K D C)
      → IsRegistered s.servers
      → IsRegistered (operate cli base new_connection now table op s).servers
  unfolding operate
  operate-IsRegistered table (appending at address info) s r =
      append_new_server-IsRegistered at address info s r
  operate-IsRegistered table (pairing at address uuid wid paired) s r =
      on_paired-IsRegistered base at address uuid wid paired s r
  operate-IsRegistered table (creating at address uuid user wid) s r =
      get_or_create_server-IsRegistered at address uuid user wid s r
  operate-IsRegistered table (requesting at address token) s r =
      get_or_create_server_from_token-IsRegistered base table at address token s r
  operate-IsRegistered table (deleting key) s r = delete_server-IsRegistered key s r
  operate-IsRegistered table (initializing address) s r = initialize-IsRegistered table address s r

  -- Whatever the service is asked and whatever the database and the connections answer: no key
  -- stands twice in the map of servers, and every server stands under its own token.
  pub operations-IsRegistered :
      (table : ServersTable D) (ops : List (Operation K)) (s : Service K D C)
      → IsRegistered s.servers
      → IsRegistered (operations cli base new_connection now table ops s).servers
  unfolding operations
  operations-IsRegistered table [] s r = r
  operations-IsRegistered table (op ∷ ops) s r =
      operations-IsRegistered table ops _ (operate-IsRegistered table op s r)
