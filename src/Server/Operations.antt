-- ===== src/Server/Operations.antt =====
-- models/qp_whatsapp_server.go: Start, EnsureReady, Stop, Restart, Toggle and Delete.
use quepasa.Prelude.{ℕ, true, false, ◌||◌, Option, none, some, if◌then◌else◌, is_some}
use quepasa.Whatsapp.ConnectionState.{is_valid_to_start}
use quepasa.Connection.{Client, conn_delete}
use quepasa.Server.{
  ServerError, invalid_state, Database, QpWhatsappServer, NewConnection, sm_is_connected,
  sm_is_valid, get_state, get_working, mark_verified, disconnect, clear_handler, attach,
  ensure_underlying, connect_or_fail, as_failure,
}

module _ {ℓ} {K D : Type 0} {C : Type ℓ} (cli : Client K) (base : Database D)
    (new_connection : NewConnection K) (now : ℕ) where
  -- `Connect` and again, if it did not help; the error of the start, if any.
  unfoldable pub connect_twice :
      QpWhatsappServer K D C → QpWhatsappServer K D C × Option ServerError
  unfolding connect_or_fail sm_is_connected
  connect_twice source =
      let (first, error) = connect_or_fail cli base new_connection now source in
      let again = connect_or_fail cli base new_connection now first in
      if is_some error || sm_is_connected cli first.connection then (first, error) else again

  -- Start, behind the tests. An error of the last `MarkVerified` is dropped.
  unfoldable pub run : QpWhatsappServer K D C → QpWhatsappServer K D C × Option ServerError
  unfolding attach connect_twice sm_is_valid mark_verified
  run source =
      let started : QpWhatsappServer K D C = record source {
        stop_requested = false;
        start_time = now;
      } in
      let (server, error) = connect_twice (attach cli base new_connection now started) in
      let marked = (mark_verified base now true server).0 in
      if is_some error
      then (server, error)
      else if sm_is_valid cli server.connection
      then (marked, none)
      else (server, none)

  unfoldable pub start : QpWhatsappServer K D C → QpWhatsappServer K D C × Option ServerError
  unfolding ensure_underlying get_state is_valid_to_start run
  start source =
      let (server, error) = ensure_underlying cli base new_connection now source in
      if is_some error
      then (server, error)
      else if is_valid_to_start (get_state cli server)
      then run server
      else (server, some (invalid_state (get_state cli server)))

  ready_from : QpWhatsappServer K D C → QpWhatsappServer K D C × Option ServerError
  unfolding attach connect_or_fail sm_is_connected mark_verified
  ready_from source =
      let started : QpWhatsappServer K D C = record source { stop_requested = false } in
      let attached = attach cli base new_connection now started in
      let (server, error) =
        if sm_is_connected cli attached.connection
        then (attached, none)
        else connect_or_fail cli base new_connection now attached in
      if is_some error then (server, error) else ((mark_verified base now true server).0, none)

  unfoldable pub ensure_ready : QpWhatsappServer K D C → QpWhatsappServer K D C × Option ServerError
  unfolding ensure_underlying ready_from
  ensure_ready source =
      let (server, error) = ensure_underlying cli base new_connection now source in
      if is_some error then (server, error) else ready_from server

  unfoldable pub stop : QpWhatsappServer K D C → QpWhatsappServer K D C
  unfolding disconnect clear_handler
  stop source =
      let requested : QpWhatsappServer K D C = record source { stop_requested = true } in
      let left = disconnect cli base new_connection now requested in
      if source.stop_requested then source else clear_handler cli base new_connection now left

  unfoldable pub restart : QpWhatsappServer K D C → QpWhatsappServer K D C × Option ServerError
  unfolding stop start
  restart source = start (stop source)

  unfoldable pub toggle : QpWhatsappServer K D C → QpWhatsappServer K D C × Option ServerError
  unfolding get_working stop start
  toggle server = if get_working cli server then (stop server, none) else start server

  delete_rows : QpWhatsappServer K D C → QpWhatsappServer K D C × Option ServerError
  unfolding as_failure
  delete_rows server =
      let (cleared, clear_error) = base.clear_dispatching server.row.token server.db in
      let (deleted, error) = base.delete server.row.token cleared in
      if is_some clear_error
      then (record server { db = cleared }, as_failure clear_error)
      else (record server { db = deleted }, as_failure error)

  -- Delete. A connection that refuses stays.
  unfoldable pub delete : QpWhatsappServer K D C → QpWhatsappServer K D C × Option ServerError
  unfolding conn_delete delete_rows as_failure
  delete server = elim server.connection [
    | none ↦ delete_rows server
    | some conn ↦
        let (conn', error) = conn_delete cli conn in
        let gone : QpWhatsappServer K D C = record server { connection = none } in
        if is_some error
        then (record server { connection = some conn' }, as_failure error)
        else delete_rows gone
  ]
