-- ===== src/Tests/Races.antt =====
-- Overlapping handlers of a session at concrete requests.
use node_nats.Prelude.{◌≡◌, refl, none, some, [], ◌∷◌, true}
use node_nats.Controller.{Backend, Controller, new, launched, Start, is_overdue}
use node_nats.Controller.Races.{then_start, then_sleep, System, Reach, quiet, everyone, only_first}
use node_nats.Controller.Races.Serial.{IsSerial, Reach-IsSerial}
use node_nats.Controller.Races.Overlaps.{BothIdle, two_starts_lose_backend, late_wake_ends_start}

abbrev core : Backend
core = record { started = true; version = "25.3.6" }

abbrev good : Start
good = record {
  detected = none;
  ip = "10.0.0.1";
  keep_alive = 60;
  launch = launched core;
  now = 5;
  free_port = 40000;
}

abbrev later : Start
later = record good { ip = "10.0.0.2"; now = 90000000000 }

abbrev opened : Controller
opened = record (new 10000) {
  backend = some core;
  client_ip = "10.0.0.1";
  last_request = 5;
  live = record { context = 0; keep_alive = 60 } ∷ [];
}

overdue : is_overdue 60 5 80000000000 ≡ true
overdue = refl

two_starts_lose_backend_example :
    (t : System) × Reach everyone (quiet (new 10000)) t
    × BothIdle t
    × (t.shared.session.backend ≡ none)
    × (t.shared.lost ≡ 1)
    × (t.shared.session.live ≡ record { context = 1; keep_alive = 60 } ∷ [])
two_starts_lose_backend_example =
    two_starts_lose_backend (new 10000) good later core core 50000 (refl, refl, refl) refl refl

late_wake_ends_start_example :
    (t : System) × Reach only_first (quiet opened) t
    × BothIdle t
    × (t.shared.left ≡ then_sleep 0 ∷ then_start later ∷ [])
    × (t.shared.session.backend ≡ none)
    × (t.shared.session.live ≡ record { context = 1; keep_alive = 60 } ∷ [])
late_wake_ends_start_example =
    late_wake_ends_start opened later core core 60 80000000000 50000 refl refl overdue refl

abbrev woken : System
woken = (late_wake_ends_start opened later core core 60 80000000000 50000 refl refl overdue refl).0

woken_run : Reach only_first (quiet opened) woken
woken_run =
    (late_wake_ends_start opened later core core 60 80000000000 50000 refl refl overdue refl).1

Reach-IsSerial_example : IsSerial woken
Reach-IsSerial_example = Reach-IsSerial opened woken_run
