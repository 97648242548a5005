-- ===== src/Tests/Session.antt =====
-- The session of controller/ at concrete requests.
use node_nats.Prelude.{◌≡◌, refl, none, some, [], ◌∷◌, true, false, arith}
use node_nats.Controller.{
  Backend, Controller, new, disconnect, launched, refused, Start, rest_start, new_request, tick,
  base_info,
}
use node_nats.Controller.Session.{start, stop, run, keep_alive_exact}
use node_nats.Controller.Leak.{rest_start_leaks}

abbrev core : Backend
core = record { started = true; version = "25.3.6" }

abbrev good : Start
good = record {
  detected = none;
  ip = "10.0.0.1";
  keep_alive = 60;
  launch = launched core;
  now = 5;
  free_port = 40000;
}

abbrev bad : Start
bad = record good { ip = "10.0.0.2"; launch = refused "no core" }

abbrev pub opened : Controller
opened = record {
  backend = some core;
  api_port = 10000;
  client_ip = "10.0.0.1";
  last_request = 5;
  cancel = 3;
  made = 4;
  live = record { context = 3; keep_alive = 60 } ∷ [];
}

keep_alive_exact_example : (tick 3 61000000000 41000 (new_request 1000000000 opened)).backend ≡ none
keep_alive_exact_example =
    keep_alive_exact opened core 60 1000000000 61000000000 41000 (omega arith) refl refl

rest_start_leaks_example :
    ((rest_start bad (new 10000)).1 ≡ some "no core")
    × ((disconnect 42000 (rest_start good (rest_start bad (new 10000)).0).0).live
        ≡ record { context = 1; keep_alive = 60 } ∷ [])
rest_start_leaks_example =
    rest_start_leaks (new 10000) bad good "no core" core 42000 (refl, refl, refl) refl refl refl
      refl

base_info_after_stop :
    base_info (run (start good ∷ stop 42000 ∷ []) (new 10000))
    ≡ record { started = false; core_version = ""; node_version = "0.1.1" }
unfolding base_info disconnect
base_info_after_stop = refl
