-- ===== src/Service/Tests.antt =====
-- models/qp_whatsapp_service.go, qp_whatsapp_pairing.go: the service at fixed inputs. The table of
-- servers is empty, and its state counts the writes.
use quepasa.Prelude.{
  ℕ, suc, ◌≡◌, refl, inl, inr, Bool, true, false, none, some, List, [], ◌∷◌, map, take, ◌>>=◌,
}
use quepasa.Strings.{codes}
use quepasa.Maps.{AreDistinct}
use quepasa.Connection.{Client, WhatsmeowConnection}
use quepasa.Server.{Database, NewConnection}
use quepasa.Service.{find_by_token, ServersTable, Service, QpWhatsappPairing, on_paired}
use quepasa.Service.Lifecycle.{
  Operation, pairing, creating, requesting, deleting, initializing, operations,
}
use quepasa.Service.Registration.{IsRegistered, operations-IsRegistered}

abbrev prompt : Client Bool
prompt = record {
  is_connected = λ k. k;
  is_logged_in = λ k. k;
  connect = λ k. (true, none);
  wait_for_connection = λ k. k;
  logout = λ k. (false, none);
  delete_store = λ k. (k, none);
  nil_client = codes "client is nil";
}

abbrev fresh : WhatsmeowConnection Bool
fresh = record { client = some false; is_connecting = false; failed_token = false }

abbrev available : NewConnection Bool
available wid = inr fresh

abbrev counting : Database ℕ
counting = record {
  exists = λ token d. inr false;
  add = λ row d. (suc d, none);
  update = λ row d. (suc d, none);
  delete = λ token d. (suc d, none);
  clear_dispatching = λ token d. (suc d, none);
}

abbrev no_rows : ServersTable ℕ
no_rows = record { find_all = λ d. []; find_by_token = λ token d. inl [] }

abbrev nobody : Service Bool ℕ ℕ
nobody = record { servers = []; initialized = false; db = 0 }

abbrev telephone : QpWhatsappPairing Bool
telephone = record { token = []; wid = []; username = codes "u"; conn = some fresh }

abbrev calls : List (Operation Bool)
calls =
    pairing 10 1 (codes "t1") (codes "5521@lid") telephone
    ∷ creating 20 2 (codes "t2") (codes "u") (codes "5521:3@lid")
    ∷ requesting 30 3 (codes "T1")
    ∷ deleting (codes "t1")
    ∷ initializing 40
    ∷ []

-- The pairing makes a server, GetOrCreateServer finds it by its number.
found_by_number :
    map (λ e. e.0) (operations prompt counting available 50 no_rows (take 2 calls) nobody).servers
    ≡ codes "t1" ∷ []
unfolding operations
found_by_number = refl

-- The token in other letters makes a second server, although FindByToken answers the first.
second_server :
    (map (λ e. e.0) (operations prompt counting available 50 no_rows (take 3 calls) nobody).servers
      ≡ codes "t1" ∷ codes "T1" ∷ [])
    × ((find_by_token
            (codes "T1")
            (operations prompt counting available 50 no_rows (take 3 calls) nobody).servers
          >>= (λ e. some e.0))
        ≡ some (codes "t1"))
    × (map
          (λ e. e.0)
          (operations prompt counting available 50 no_rows (take 4 calls) nobody).servers
        ≡ codes "T1" ∷ [])
unfolding operations find_by_token
second_server = (refl, refl, refl)

operations-IsRegistered_example :
    IsRegistered (operations prompt counting available 50 no_rows calls nobody).servers
unfolding AreDistinct
operations-IsRegistered_example =
    operations-IsRegistered prompt counting available 50 no_rows calls nobody
      (record { distinct = tt; own = tt })

abbrev paired_once : Service Bool ℕ ℕ
paired_once = (on_paired counting 10 1 (codes "t1") (codes "5521@lid") telephone nobody).1
