-- ===== src/Server/States.antt =====
-- models/qp_whatsapp_server.go: what the states of a server say of it.
use quepasa.Prelude.{
  ◌≡◌, refl, sym, ◌∙◌, ◌≢◌, ◌↔◌, inl, inr, Bool, true, false, ◌&&◌, not, none, some, arith,
  Bool-cases, Option-cases,
}
use quepasa.Whatsapp.ConnectionState.{
  WhatsappConnectionState, ready, stopped, stopping, unverified, unprepared,
}
use quepasa.Connection.{
  Client, WhatsmeowConnection, conn_is_connected, conn_is_valid, conn_get_status,
}
use quepasa.Connection.{client_status, client_connected, client_logged_in}
use quepasa.Server.{QpWhatsappServer, get_state, connection_state, is_disconnected}

-- There is a client that is connected and logged in, and nobody asked the server to stop.
pub record Serves {ℓ} {K D : Type 0} {C : Type ℓ} (cli : Client K) (s : QpWhatsappServer K D C)
    : Type 0 where
  pub conn : WhatsmeowConnection K
  pub has_connection : s.connection ≡ some conn
  pub not_stopping : s.stop_requested ≡ false
  pub not_connecting : conn.is_connecting ≡ false
  pub valid : conn_is_valid cli conn ≡ true

client_status-ready :
    {K : Type 0} (cli : Client K) (b f : Bool) (k : K)
    → client_status cli b f k ≡ ready
    → (b ≡ false) × ((cli.is_connected k && cli.is_logged_in k) ≡ true)
unfolding client_status
client_status-ready cli true f k h = cc
client_status-ready cli false f k h = (refl, ground arith)

conn_get_status-some :
    {K : Type 0} (cli : Client K) (c : WhatsmeowConnection K) (k : K)
    → c.client ≡ some k
    → conn_get_status cli c ≡ client_status cli c.is_connecting c.failed_token k
unfolding conn_get_status
conn_get_status-some cli c k e = rw (conn_get_status, e) refl

conn_get_status-ready :
    {K : Type 0} (cli : Client K) (c : WhatsmeowConnection K)
    → conn_get_status cli c ≡ ready
    → (c.is_connecting ≡ false) × (conn_is_valid cli c ≡ true)
unfolding conn_get_status conn_is_valid client_connected client_logged_in
conn_get_status-ready cli c h = elim (Option-cases c.client) [
  | inl e ↦ let impossible : unverified ≡ ready = rw (sym h, conn_get_status, e) refl in cc
  | inr (k, e) ↦
      let computed = sym (conn_get_status-some cli c k e) ∙ h in
      let (quiet, both) = client_status-ready cli c.is_connecting c.failed_token k computed in
      (quiet, rw e both)
]

conn_get_status-valid :
    {K : Type 0} (cli : Client K) (c : WhatsmeowConnection K)
    → c.is_connecting ≡ false
    → conn_is_valid cli c ≡ true
    → conn_get_status cli c ≡ ready
unfolding conn_get_status conn_is_valid client_status client_connected client_logged_in
conn_get_status-valid cli c h v = elim (Option-cases c.client) [
  | inl e ↦ let impossible : false ≡ true = rw (sym v, e) refl in cc
  | inr (k, e) ↦
      let both : (cli.is_connected k && cli.is_logged_in k) ≡ true = rw (sym v, e) refl in
      rw (conn_get_status, e, h) (ground (arith, both))
]

module _ {K : Type 0} (cli : Client K) where
  connection_state-ready :
      (stop verified : Bool) (conn : WhatsmeowConnection K)
      → connection_state cli stop verified conn ≡ ready
      → (stop ≡ false) × (conn_get_status cli conn ≡ ready)
  unfolding connection_state
  connection_state-ready true verified conn h = elim (Bool-cases (conn_is_connected cli conn)) [
    | inl e ↦ let impossible : stopping ≡ ready = (rw e refl) ∙ h in cc
    | inr e ↦ let impossible : stopped ≡ ready = (rw e refl) ∙ h in cc
  ]
  connection_state-ready false verified conn h =
      elim (Bool-cases (is_disconnected (conn_get_status cli conn) && not verified)) [
        | inl e ↦ let impossible : unverified ≡ ready = (rw e refl) ∙ h in cc
        | inr e ↦ (refl, rw e refl ∙ h)
      ]

  connection_state-serving :
      (verified : Bool) (conn : WhatsmeowConnection K)
      → conn_get_status cli conn ≡ ready
      → connection_state cli false verified conn ≡ ready
  unfolding connection_state is_disconnected
  connection_state-serving verified conn h = rw h refl

unfoldable pub no_connection_state : Bool → Bool → WhatsappConnectionState
no_connection_state true true = stopped
no_connection_state true false = unprepared
no_connection_state false stop = unverified

no_connection_state-ready : (v s : Bool) → no_connection_state v s ≢ ready
unfolding no_connection_state
no_connection_state-ready true true h = cc
no_connection_state-ready true false h = cc
no_connection_state-ready false s h = cc

module _ {ℓ} {K D : Type 0} {C : Type ℓ} (cli : Client K) where
  pub get_state-none :
      (s : QpWhatsappServer K D C)
      → s.connection ≡ none
      → get_state cli s ≡ no_connection_state s.row.verified s.stop_requested
  unfolding get_state no_connection_state
  get_state-none s e = rw (get_state, e) (ground arith)

  pub get_state-some :
      (s : QpWhatsappServer K D C) (conn : WhatsmeowConnection K)
      → s.connection ≡ some conn
      → get_state cli s ≡ connection_state cli s.stop_requested s.row.verified conn
  unfolding get_state
  get_state-some s conn e = rw (get_state, e) refl

  -- A server is Ready where, and only where, it serves.
  pub get_state-ready : (s : QpWhatsappServer K D C) → (get_state cli s ≡ ready) ↔ Serves cli s
  unfolding get_state
  get_state-ready s = (
    (λ h. elim (Option-cases s.connection) [
      | inl e ↦ absurd (no_connection_state-ready _ _ (sym (get_state-none s e) ∙ h))
      | inr (conn, e) ↦
          let (going, status) =
            connection_state-ready cli s.stop_requested s.row.verified conn
              (sym (get_state-some s conn e) ∙ h) in
          let (quiet, valid) = conn_get_status-ready cli conn status in
          record {
            conn = conn;
            has_connection = e;
            not_stopping = going;
            not_connecting = quiet;
            valid = valid;
          }
    ]),
    λ v.
        let status = conn_get_status-valid cli v.conn v.not_connecting v.valid in
        get_state-some s v.conn v.has_connection
        ∙ rw v.not_stopping (connection_state-serving cli s.row.verified v.conn status),
  )
