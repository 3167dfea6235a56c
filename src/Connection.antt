-- ===== src/Connection.antt =====
-- whatsmeow/whatsmeow_connection.go, whatsmeow_connection_extensions+state.go and
-- whatsmeow_status_manager.go: a connection of a server. The client of the package whatsmeow is a
-- state of type `K` behind the record `Client`, a parameter; a client has a store. Of a connection
-- the fields are kept that its states and the operations of a server turn on.
use quepasa.Prelude.{Bool, true, false, ◌&&◌, not, Option, none, some, if◌then◌else◌, is_some}
use quepasa.Strings.{Text, codes, contains_text}
use quepasa.Whatsapp.ConnectionState.{
  WhatsappConnectionState, unverified, connecting, connected, ready, disconnected, failed,
}

-- *whatsmeow.Client. An error of its calls is a text; `nil_client` is the error of a nil client.
pub record Client (K : Type 0) : Type 0 where
  pub is_connected : K → Bool
  pub is_logged_in : K → Bool
  pub connect : K → K × Option Text
  pub wait_for_connection : K → K
  pub logout : K → K × Option Text
  pub delete_store : K → K × Option Text
  pub nil_client : Text

pub record WhatsmeowConnection (K : Type 0) : Type 0 where
  pub client : Option K
  pub is_connecting : Bool
  pub failed_token : Bool

module _ {K : Type 0} (cli : Client K) where
  unfoldable pub client_connected : Option K → Bool
  client_connected none = false
  client_connected (some k) = cli.is_connected k

  unfoldable pub client_logged_in : Option K → Bool
  client_logged_in none = false
  client_logged_in (some k) = cli.is_logged_in k

  -- IsConnected
  unfoldable pub conn_is_connected : WhatsmeowConnection K → Bool
  unfolding client_connected
  conn_is_connected conn = not conn.is_connecting && client_connected conn.client

  -- IsValid of the status manager
  unfoldable pub conn_is_valid : WhatsmeowConnection K → Bool
  unfolding client_connected client_logged_in
  conn_is_valid conn = client_connected conn.client && client_logged_in conn.client

  unfoldable pub client_status : Bool → Bool → K → WhatsappConnectionState
  client_status is_connecting failed_token k =
      if is_connecting
      then connecting
      else if cli.is_connected k
      then (if cli.is_logged_in k then ready else connected)
      else if failed_token
      then failed
      else disconnected

  unfoldable pub conn_get_status : WhatsmeowConnection K → WhatsappConnectionState
  unfolding client_status
  conn_get_status conn = elim conn.client [
    | none ↦ unverified
    | some k ↦ client_status conn.is_connecting conn.failed_token k
  ]

  connect_client : Option K → Option K × Option Text
  connect_client none = (none, some cli.nil_client)
  connect_client (some k) = let (k', e) = cli.connect k in (some k', e)

  wait_client : Option K → Option K
  wait_client none = none
  wait_client (some k) = some (cli.wait_for_connection k)

  -- Connect
  unfoldable pub conn_connect : WhatsmeowConnection K → WhatsmeowConnection K × Option Text
  unfolding connect_client wait_client
  conn_connect conn =
      let (client, error) = connect_client conn.client in
      let failed_conn : WhatsmeowConnection K = record conn {
        client = client;
        failed_token = true;
      } in
      let connected_conn : WhatsmeowConnection K = record conn {
        client = wait_client client;
        failed_token = false;
      } in
      if conn.is_connecting
      then (conn, none)
      else if is_some error
      then (failed_conn, error)
      else (connected_conn, none)

  -- The error of the store that `Delete` ignores.
  ignored : Option Text → Bool
  unfolding contains_text
  ignored none = true
  ignored (some e) = contains_text e (codes "device JID must be known before accessing database")

  delete_client : Option K → Option K × Option Text
  unfolding ignored
  delete_client none = (none, none)
  delete_client (some k) =
      let (left, logout_error) = if cli.is_logged_in k then cli.logout k else (k, none) in
      let (erased, store_error) = cli.delete_store left in
      if is_some logout_error
      then (some left, logout_error)
      else if ignored store_error
      then (some erased, none)
      else (some erased, store_error)

  -- Delete, and the Dispose in it, after which there is no client.
  unfoldable pub conn_delete : WhatsmeowConnection K → WhatsmeowConnection K × Option Text
  unfolding delete_client
  conn_delete conn =
      let (client, error) = delete_client conn.client in
      if is_some error
      then (record conn { client = client }, error)
      else (record conn { client = none }, none)
