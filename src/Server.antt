-- ===== src/Server.antt =====
-- models/qp_whatsapp_server.go with qp_status_manager.go: a server, above its connection. The
-- database is a state of type `D` behind the record `Database`, a parameter, as is the answer of
-- `NewConnection`. A server stands with its handler, as `NewQpWhatsappServer` makes it; the handler's
-- pointer back to the server is not followed here. An operation returns the server as it leaves it
-- and the error, if any. Logging, metrics and the connections of RabbitMQ are left out, and the calls
-- of an operation run one after the other, as under the lock.
pub mod Operations
pub mod States
pub mod Connecting
pub mod Lifecycle
pub mod Sending
mod Tests
use quepasa.Prelude.{
  ℕ, zero, suc, ◌+◌, ◌-◌, ◌*◌, ◌/◌, ◌%◌, ◌^◌, ◌≤◌, ◌<◌, String, ◌≡◌, refl, sym, ap, ◌∙◌, ◌≢◌, ◌↔◌,
  ◌⊎◌, inl, inr, Bool, true, false, ◌&&◌, ◌||◌, not, Option, none, some, List, [], ◌∷◌, ◌++◌, map,
  arith, ltb, leb, ◌==◌, if◌then◌else◌, ltb→lt, lt→ltb, leb→le, le→leb, ==_iff, tests, Bool-cases,
  Option-cases, sum-cases, is_some, length, get_elem?, take, drop, length-append, drop-append,
  length-take-le, All, ℤ, pos, negsuc, int_eq, int_eq_iff, ne_of_int_eq, All-append, ◌>>=◌,
}
use quepasa.Strings.{
  Text, codes, same, contains, has_prefix, has_suffix, contains_text, without, trim_left, trim,
  split, before, is_space, trim_space, to_upper, to_lower, is_digit, upper, lower, trim_space_left,
  trim_space_right,
}
use quepasa.Whatsapp.ConnectionState.{
  WhatsappConnectionState, unknown, unprepared, unverified, stopping, stopped, disconnected,
  is_valid_to_start,
}
use quepasa.Handler.{DispatchingHandler, register, clear, is_attached}
use quepasa.Connection.{
  Client, WhatsmeowConnection, conn_is_connected, conn_is_valid, conn_get_status, conn_connect,
  conn_delete,
}

-- The errors of `NewConnection`: the one whose `Unauthorized()` is true, and any other.
pub data NewConnectionError : Type 0 where
  store_not_found : NewConnectionError
  other : Text → NewConnectionError

-- `unauthorized` is *whatsapp.UnAuthorizedError; `nil_connection` is the panic on a connection that
-- is not there.
pub data ServerError : Type 0 where
  not_verified : ServerError
  invalid_state : WhatsappConnectionState → ServerError
  unauthorized : ServerError
  not_created : NewConnectionError → ServerError
  failure : Text → ServerError
  nil_connection : ServerError

-- The columns of a server that the operations write.
pub record QpServer : Type 0 where
  pub token : Text
  pub wid : Text
  pub verified : Bool
  pub user : Text
  pub timestamp : ℕ

pub record Database (D : Type 0) : Type 0 where
  pub exists : Text → D → Text ⊎ Bool
  pub add : QpServer → D → D × Option Text
  pub update : QpServer → D → D × Option Text
  pub delete : Text → D → D × Option Text
  pub clear_dispatching : Text → D → D × Option Text

pub record QpWhatsappServer {ℓ} (K D : Type 0) (C : Type ℓ) : Type ℓ where
  pub row : QpServer
  pub connection : Option (WhatsmeowConnection K)
  pub stop_requested : Bool
  pub handler : DispatchingHandler C
  pub dispatching_handler : ℕ
  pub start_time : ℕ
  pub update_time : ℕ
  pub db : D

pub as_failure : Option Text → Option ServerError
as_failure none = none
as_failure (some e) = some (failure e)

-- NewConnection, for the id of a server.
abbrev pub NewConnection : Type 0 → Type 0
NewConnection K = Text → NewConnectionError ⊎ WhatsmeowConnection K

is_disconnected : WhatsappConnectionState → Bool
is_disconnected disconnected = true
is_disconnected _ = false

is_unauthorized : NewConnectionError → Bool
is_unauthorized store_not_found = true
is_unauthorized _ = false

is_unauthorized_error : ServerError → Bool
is_unauthorized_error unauthorized = true
is_unauthorized_error _ = false

module _ {K : Type 0} (cli : Client K) where
  pub sm_is_connected : Option (WhatsmeowConnection K) → Bool
  unfolding conn_is_connected
  sm_is_connected none = false
  sm_is_connected (some conn) = conn_is_connected cli conn

  pub sm_is_valid : Option (WhatsmeowConnection K) → Bool
  unfolding conn_is_valid
  sm_is_valid none = false
  sm_is_valid (some conn) = conn_is_valid cli conn

  -- GetState, where there is a connection.
  pub connection_state : Bool → Bool → WhatsmeowConnection K → WhatsappConnectionState
  unfolding conn_is_connected conn_get_status is_disconnected
  connection_state stop_requested verified conn =
      if stop_requested
      then (if conn_is_connected cli conn then stopping else stopped)
      else if is_disconnected (conn_get_status cli conn) && not verified
      then unverified
      else conn_get_status cli conn

module _ {ℓ} {K D : Type 0} {C : Type ℓ} (cli : Client K) where
  unfoldable pub get_state : QpWhatsappServer K D C → WhatsappConnectionState
  unfolding connection_state
  get_state server = elim server.connection [
    | none ↦
        if server.row.verified
        then (if server.stop_requested then stopped else unprepared)
        else unverified
    | some conn ↦ connection_state cli server.stop_requested server.row.verified conn
  ]

  unfoldable pub get_working : QpWhatsappServer K D C → Bool
  unfolding get_state is_valid_to_start
  get_working server = not (is_valid_to_start (get_state server))

write_row : {D : Type 0} → Database D → Bool → QpServer → D → D × Option Text
write_row base present row db = if present then base.update row db else base.add row db

differs : Bool → Bool → Bool
differs true b = not b
differs false b = b

module _ {ℓ} {K D : Type 0} {C : Type ℓ} (base : Database D) where
  -- `now` is the clock's reading.
  unfoldable pub save : ℕ → QpWhatsappServer K D C → QpWhatsappServer K D C × Option ServerError
  unfolding write_row as_failure
  save now source = elim (base.exists source.row.token source.db) [
    | inl error ↦ (source, some (failure error))
    | inr present ↦
        let row : QpServer = record source.row { timestamp = now } in
        let (db, error) = write_row base present row source.db in
        (record source { row = row; update_time = now; db = db }, as_failure error)
  ]

  unfoldable pub mark_verified :
      ℕ → Bool → QpWhatsappServer K D C → QpWhatsappServer K D C × Option ServerError
  unfolding save differs
  mark_verified now value server =
      let marked : QpWhatsappServer K D C = record server {
        row = record server.row { verified = value };
      } in
      if differs server.row.verified value then save now marked else (server, none)

-- What a start is given: the clock's reading and the answers of `NewConnection` and the client.
module _ {ℓ} {K D : Type 0} {C : Type ℓ} (cli : Client K) (base : Database D)
    (new_connection : NewConnection K) (now : ℕ) where
  -- Disconnect; the disposed connection has no client, and the server forgets it.
  unfoldable pub disconnect : QpWhatsappServer K D C → QpWhatsappServer K D C
  unfolding sm_is_connected
  disconnect source =
      if sm_is_connected cli source.connection then record source { connection = none } else source

  pub clear_handler : QpWhatsappServer K D C → QpWhatsappServer K D C
  unfolding clear
  clear_handler source = record source { handler = clear source.handler }

  -- `if !source.Handler.IsAttached() { source.Handler.Register(source.DispatchingHandler) }`
  pub attach : QpWhatsappServer K D C → QpWhatsappServer K D C
  unfolding register is_attached
  attach source =
      if is_attached source.handler
      then source
      else record source { handler = register source.handler source.dispatching_handler }

  unfoldable pub start_connection_error :
      ServerError → QpWhatsappServer K D C → QpWhatsappServer K D C × Option ServerError
  unfolding disconnect clear_handler mark_verified is_unauthorized_error
  start_connection_error error source =
      let left = clear_handler (disconnect source) in
      if is_unauthorized_error error then mark_verified base now false left else (left, some error)

  unfoldable pub ensure_underlying :
      QpWhatsappServer K D C → QpWhatsappServer K D C × Option ServerError
  unfolding mark_verified is_unauthorized
  ensure_underlying source =
      if ltb 0 (length source.row.wid) && not source.row.verified
      then (source, some not_verified)
      else (elim source.connection [
        | some conn ↦ (source, none)
        | none ↦ elim (new_connection source.row.wid) [
          | inl error ↦ (
            if is_unauthorized error then (mark_verified base now false source).0 else source,
            some (not_created error),
          )
          | inr conn ↦ (record source { connection = some conn }, none)
        ]
      ])

  -- `source.connection.Connect()`, and the return from the start on its error.
  pub connect_or_fail : QpWhatsappServer K D C → QpWhatsappServer K D C × Option ServerError
  unfolding conn_connect start_connection_error as_failure
  connect_or_fail source = elim source.connection [
    | none ↦ (source, some nil_connection)
    | some conn ↦
        let (conn', error) = conn_connect cli conn in
        let tried : QpWhatsappServer K D C = record source { connection = some conn' } in
        elim error [ none ↦ (tried, none) | some e ↦ start_connection_error (failure e) tried ]
  ]
