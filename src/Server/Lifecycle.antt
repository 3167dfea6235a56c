-- ===== src/Server/Lifecycle.antt =====
-- models/qp_whatsapp_server.go: what a start and a stop leave behind, on every way through them.
use quepasa.Prelude.{
  ℕ, ◌≡◌, refl, sym, ap, ◌∙◌, ◌⊎◌, inl, inr, true, false, ◌&&◌, not, Option, none, some, ltb,
  Bool-cases, Option-cases, length, is_some, Bool,
}
use quepasa.Strings.{Text}
use quepasa.Whatsapp.ConnectionState.{stopped, unverified, is_valid_to_start}
use quepasa.Handler.{clear, is_attached}
use quepasa.Connection.{Client, WhatsmeowConnection, conn_is_connected}
use quepasa.Server.{
  ServerError, not_verified, failure, Database, QpWhatsappServer, NewConnection, sm_is_connected,
  get_state, disconnect, clear_handler, connection_state, not_created, invalid_state,
}
use quepasa.Server.Operations.{stop}
use quepasa.Server.States.{get_state-none, get_state-some, no_connection_state}
use quepasa.Server.Connecting.{Offline, Running, disconnect-connected, disconnect-fields}

module _ {ℓ} {K D : Type 0} {C : Type ℓ} (cli : Client K) (base : Database D)
    (new_connection : NewConnection K) (now : ℕ) where
  -- The result of a start.
  abbrev pub Started : QpWhatsappServer K D C × Option ServerError → Type 0
  Started r =
      ((r.1 ≡ none) × Running cli r.0)
      ⊎ ((error : Text) × (r.1 ≡ some (failure error)) × Offline cli r.0)

  -- A server that was paired, and is not verified.
  abbrev pub is_unverified : QpWhatsappServer K D C → Bool
  is_unverified s = ltb 0 (length s.row.wid) && not s.row.verified

  -- Why the start of a server is refused with an error, which left the other server: it was not
  -- verified, it had no connection and none could be created, or what it then was is in no state to start
  -- from.
  abbrev pub IsRefusal : QpWhatsappServer K D C → QpWhatsappServer K D C → ServerError → Type 0
  IsRefusal s t not_verified = is_unverified s ≡ true
  IsRefusal s t (not_created error) =
      (is_unverified s ≡ false)
      × (is_some s.connection ≡ false)
      × (new_connection s.row.wid ≡ inl error)
  IsRefusal s t (invalid_state state) =
      (is_unverified s ≡ false) × (state ≡ get_state cli t) × (is_valid_to_start state ≡ false)
  IsRefusal s t _ = ⊥

  -- A refused start: the handlers and the request to stop are as before.
  abbrev pub Refused : QpWhatsappServer K D C → QpWhatsappServer K D C × Option ServerError → Type ℓ
  Refused s r =
      ((error : ServerError) × (r.1 ≡ some error) × IsRefusal s r.0 error)
      × (r.0.handler ≡ s.handler)
      × (r.0.stop_requested ≡ s.stop_requested)

  -- A server that is let through: it is not unverified, and with its connection, or a new one where it had
  -- none, it is in a state to start from.
  abbrev pub LetThrough : QpWhatsappServer K D C → Type 0
  LetThrough s =
      (is_unverified s ≡ false)
      × ((conn : WhatsmeowConnection K) × ((s.connection ≡ some conn)
            ⊎ ((s.connection ≡ none) × (new_connection s.row.wid ≡ inr conn)))
          × (is_valid_to_start (get_state cli (record s { connection = some conn })) ≡ true))

  stopped_state :
      (s : QpWhatsappServer K D C)
      → s.stop_requested ≡ true
      → sm_is_connected cli s.connection ≡ false
      → (get_state cli s ≡ stopped) ⊎ ((get_state cli s ≡ unverified) × (s.row.verified ≡ false))
  unfolding sm_is_connected connection_state no_connection_state
  stopped_state s h off = elim (Option-cases s.connection) [
    | inl e ↦ elim (Bool-cases s.row.verified) [
      | inl v ↦ inl (get_state-none cli s e ∙ rw (v, h) refl)
      | inr v ↦ inr (get_state-none cli s e ∙ rw v refl, v)
    ]
    | inr (conn, e) ↦
        let apart : conn_is_connected cli conn ≡ false = rw (sym off, e) refl in
        inl (get_state-some cli s conn e ∙ rw (h, apart) refl)
  ]

  stop_again :
      (s : QpWhatsappServer K D C)
      → s.stop_requested ≡ true
      → stop cli base new_connection now s ≡ s
  unfolding stop
  stop_again s h = rw h refl

  -- After a stop that was not requested before: it is requested, nothing is attached or connected,
  -- the state is Stopped, or UnVerified for a server that is not verified, the row is as before, and
  -- another stop changes nothing.
  pub stop_lem :
      (s : QpWhatsappServer K D C)
      → s.stop_requested ≡ false
      → ((stop cli base new_connection now s).stop_requested ≡ true)
        × Offline cli (stop cli base new_connection now s)
        × ((get_state cli (stop cli base new_connection now s) ≡ stopped)
            ⊎ ((get_state cli (stop cli base new_connection now s) ≡ unverified)
                × (s.row.verified ≡ false)))
        × ((stop cli base new_connection now s).row ≡ s.row)
        × (stop cli base new_connection now (stop cli base new_connection now s)
            ≡ stop cli base new_connection now s)
  unfolding stop clear_handler clear is_attached
  stop_lem s h =
      let requested : QpWhatsappServer K D C = record s { stop_requested = true } in
      let (handler, going, row) = disconnect-fields cli base new_connection now requested in
      let left =
        clear_handler cli base new_connection now
          (disconnect cli base new_connection now requested) in
      let off = disconnect-connected cli base new_connection now requested in
      let stopped_now : stop cli base new_connection now s ≡ left = rw h refl in
      rw stopped_now (
        going,
        (refl, off),
        elim (stopped_state left going off) [
          | inl a ↦ inl a
          | inr (a, b) ↦ inr (a, ap (λ r. r.verified) (sym row) ∙ b)
        ],
        row,
        stop_again left going,
      )
