-- ===== src/Server/Tests.antt =====
-- Runs of a server at fixed inputs: the client is whether it is connected, the database a number
-- of writes.
use quepasa.Prelude.{ℕ, suc, ◌≡◌, refl, ◌↔◌, ◌⊎◌, inl, inr, Bool, true, false, none, some, [], ◌∷◌}
use quepasa.Strings.{codes}
use quepasa.Cache.{empty}
use quepasa.Whatsapp.ConnectionState.{ready, stopped, unverified}
use quepasa.Handler.{register, is_registered}
use quepasa.Connection.{Client, WhatsmeowConnection}
use quepasa.Server.{
  Database, QpWhatsappServer, NewConnection, get_state, not_created, store_not_found,
}
use quepasa.Server.Operations.{start, stop, delete}
use quepasa.Server.States.{Serves, get_state-ready}
use quepasa.Server.Connecting.{Offline}
use quepasa.Server.Lifecycle.{stop_lem}

-- A client that connects at the first call.
abbrev prompt : Client Bool
prompt = record {
  is_connected = λ k. k;
  is_logged_in = λ k. k;
  connect = λ k. (true, none);
  wait_for_connection = λ k. k;
  logout = λ k. (false, none);
  delete_store = λ k. (k, none);
  nil_client = codes "client is nil";
}

abbrev counting : Database ℕ
counting = record {
  exists = λ token d. inr true;
  add = λ row d. (suc d, none);
  update = λ row d. (suc d, none);
  delete = λ token d. (suc d, none);
  clear_dispatching = λ token d. (suc d, none);
}

abbrev fresh : WhatsmeowConnection Bool
fresh = record { client = some false; is_connecting = false; failed_token = false }

abbrev available : NewConnection Bool
available wid = inr fresh

abbrev lost : NewConnection Bool
lost wid = inl store_not_found

abbrev halted : QpWhatsappServer Bool ℕ ℕ
halted = record {
  row = record {
    token = codes "t";
    wid = codes "5521@lid";
    verified = true;
    user = [];
    timestamp = 0;
  };
  connection = none;
  stop_requested = true;
  handler = record {
    cache = record { messages = empty; statuses = empty };
    server = none;
    aeh = [];
  };
  dispatching_handler = 7;
  start_time = 0;
  update_time = 0;
  db = 0;
}

abbrev going : QpWhatsappServer Bool ℕ ℕ
going = (start prompt counting available 50 halted).0

server_tests :
    (get_state prompt halted ≡ stopped)
    × ((start prompt counting available 50 halted).1 ≡ none)
    × (get_state prompt going ≡ ready)
    × (going.handler.aeh ≡ 7 ∷ [])
    × (get_state prompt (stop prompt counting available 60 going) ≡ stopped)
    × ((start prompt counting lost 50 halted).1 ≡ some (not_created store_not_found))
    × (get_state prompt (start prompt counting lost 50 halted).0 ≡ unverified)
    × ((start prompt counting lost 50 halted).0.db ≡ 1)
    × ((delete prompt counting available 70 going).0.db ≡ 2)
unfolding start stop delete get_state register is_registered
server_tests = (refl, refl, refl, refl, refl, refl, refl, refl, refl)

going_on : going.stop_requested ≡ false
unfolding start get_state register is_registered
going_on = refl

stop_lem_run :
    ((stop prompt counting available 60 going).stop_requested ≡ true)
    × Offline prompt (stop prompt counting available 60 going)
    × ((get_state prompt (stop prompt counting available 60 going) ≡ stopped)
        ⊎ ((get_state prompt (stop prompt counting available 60 going) ≡ unverified)
            × (going.row.verified ≡ false)))
    × ((stop prompt counting available 60 going).row ≡ going.row)
    × (stop prompt counting available 60 (stop prompt counting available 60 going)
        ≡ stop prompt counting available 60 going)
stop_lem_run = stop_lem prompt counting available 60 going going_on

get_state-ready_example : (get_state prompt going ≡ ready) ↔ Serves prompt going
get_state-ready_example = get_state-ready prompt going
