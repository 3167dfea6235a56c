-- ===== src/Server/Connecting.antt =====
-- models/qp_whatsapp_server.go: what the parts of a start leave behind, the attempts to connect, the
-- registration of the handler and the mark of a verified server.
use quepasa.Prelude.{
  ℕ, ◌≡◌, refl, sym, ◌⊎◌, inl, inr, Bool, true, false, Option, none, some, arith, Bool-cases,
  Option-cases, sum-cases, is_some,
}
use quepasa.Strings.{Text}
use quepasa.Handler.{clear, is_attached}
use quepasa.Handler.Registration.{is_registered-operations}
use quepasa.Connection.{Client, WhatsmeowConnection, conn_connect}
use quepasa.Server.{
  ServerError, failure, Database, QpWhatsappServer, NewConnection, sm_is_connected, mark_verified,
  disconnect, clear_handler, attach, save, connect_or_fail, start_connection_error,
  is_unauthorized_error, differs,
}
use quepasa.Server.Operations.{connect_twice}

differs-false : (a b : Bool) → differs a b ≡ false → a ≡ b
unfolding differs
differs-false true b h = ground arith
differs-false false b h = sym h

module _ {ℓ} {K D : Type 0} {C : Type ℓ} (cli : Client K) where
  -- Nothing is connected and no handler of events is attached.
  abbrev pub Offline : QpWhatsappServer K D C → Type 0
  Offline s = (is_attached s.handler ≡ false) × (sm_is_connected cli s.connection ≡ false)

  -- A connection is there, a handler of events is attached and nobody asked to stop.
  abbrev pub Running : QpWhatsappServer K D C → Type 0
  Running s =
      (is_attached s.handler ≡ true) × (s.stop_requested ≡ false) × (is_some s.connection ≡ true)

module _ {ℓ} {K D : Type 0} {C : Type ℓ} (cli : Client K) (base : Database D)
    (new_connection : NewConnection K) (now : ℕ) where
  pub disconnect-connected :
      (s : QpWhatsappServer K D C)
      → sm_is_connected cli (disconnect cli base new_connection now s).connection ≡ false
  unfolding disconnect sm_is_connected
  disconnect-connected s = elim (Bool-cases (sm_is_connected cli s.connection)) [
    | inl e ↦ rw e refl
    | inr e ↦ rw e e
  ]

  pub disconnect-fields :
      (s : QpWhatsappServer K D C)
      → ((disconnect cli base new_connection now s).handler ≡ s.handler)
        × ((disconnect cli base new_connection now s).stop_requested ≡ s.stop_requested)
        × ((disconnect cli base new_connection now s).row ≡ s.row)
  unfolding disconnect
  disconnect-fields s = elim (Bool-cases (sm_is_connected cli s.connection)) [
    | inl e ↦ rw e (refl, refl, refl)
    | inr e ↦ rw e (refl, refl, refl)
  ]

  start_connection_error-Offline :
      (error : Text) (s : QpWhatsappServer K D C)
      → ((start_connection_error cli base new_connection now (failure error) s).1
          ≡ some (failure error))
        × Offline cli (start_connection_error cli base new_connection now (failure error) s).0
  unfolding start_connection_error clear_handler is_unauthorized_error clear is_attached
  start_connection_error-Offline error s = (refl, (refl, disconnect-connected s))

  -- What an attempt to connect a server that has a connection may come to.
  abbrev pub Attempt : QpWhatsappServer K D C → QpWhatsappServer K D C × Option ServerError → Type ℓ
  Attempt s r =
      ((conn : WhatsmeowConnection K) × (r ≡ (record s { connection = some conn }, none)))
      ⊎ ((error : Text) × (r.1 ≡ some (failure error)) × Offline cli r.0)

  connect_or_fail-Attempt :
      (s : QpWhatsappServer K D C) (conn : WhatsmeowConnection K)
      → s.connection ≡ some conn
      → Attempt s (connect_or_fail cli base new_connection now s)
  unfolding connect_or_fail
  connect_or_fail-Attempt s conn e = elim (Option-cases (conn_connect cli conn).1) [
    | inl ok ↦ inl ((conn_connect cli conn).0, rw (connect_or_fail, e, ok) refl)
    | inr (error, bad) ↦
        let tried : QpWhatsappServer K D C = record s {
          connection = some (conn_connect cli conn).0;
        } in
        let (same_error, offline) = start_connection_error-Offline error tried in
        rw (connect_or_fail, e, bad) (inr (error, same_error, offline))
  ]

  pub connect_twice-Attempt :
      (s : QpWhatsappServer K D C) (conn : WhatsmeowConnection K)
      → s.connection ≡ some conn
      → Attempt s (connect_twice cli base new_connection now s)
  unfolding connect_twice
  connect_twice-Attempt s conn e = elim (connect_or_fail-Attempt s conn e) [
    | inl (first, ok) ↦ elim (Bool-cases (sm_is_connected cli (some first))) [
      | inl on ↦ inl (first, rw (ok, on) refl)
      | inr off ↦
          let again : QpWhatsappServer K D C = record s { connection = some first } in
          rw (ok, off) (connect_or_fail-Attempt again first refl)
    ]
    | inr (error, bad, offline) ↦ rw bad (inr (error, refl, offline))
  ]

  pub attach-attached :
      (s : QpWhatsappServer K D C)
      → (is_attached (attach cli base new_connection now s).handler ≡ true)
        × ((attach cli base new_connection now s).connection ≡ s.connection)
        × ((attach cli base new_connection now s).stop_requested ≡ s.stop_requested)
  unfolding attach
  attach-attached s = elim (Bool-cases (is_attached s.handler)) [
    | inl e ↦ rw e (e, refl, refl)
    | inr e ↦
        let (a, b, c, d, f) = is_registered-operations s.handler s.dispatching_handler 0 in
        rw e (d, refl, refl)
  ]

  save-fields :
      (s : QpWhatsappServer K D C)
      → ((save base now s).0.handler ≡ s.handler)
        × ((save base now s).0.stop_requested ≡ s.stop_requested)
        × ((save base now s).0.connection ≡ s.connection)
        × ((save base now s).0.row.verified ≡ s.row.verified)
  unfolding save
  save-fields s = elim (sum-cases (base.exists s.row.token s.db)) [
    | inl (error, e) ↦ rw (save, e) (refl, refl, refl, refl)
    | inr (present, e) ↦ rw (save, e) (refl, refl, refl, refl)
  ]

  pub mark_verified-fields :
      (value : Bool) (s : QpWhatsappServer K D C)
      → ((mark_verified base now value s).0.handler ≡ s.handler)
        × ((mark_verified base now value s).0.stop_requested ≡ s.stop_requested)
        × ((mark_verified base now value s).0.connection ≡ s.connection)
        × ((mark_verified base now value s).0.row.verified ≡ value)
  unfolding mark_verified
  mark_verified-fields value s = elim (Bool-cases (differs s.row.verified value)) [
    | inl e ↦
        let marked : QpWhatsappServer K D C = record s {
          row = record s.row { verified = value };
        } in
        let (handler, going, connection, verified) = save-fields marked in
        rw e (handler, going, connection, verified)
    | inr e ↦ rw e (refl, refl, refl, differs-false s.row.verified value e)
  ]
