-- ===== src/Controller/Logs/Delivery.antt =====
-- The lines that GetLogs delivers over either protocol.
use node_nats.Prelude.{◌≡◌, refl, ap, String, none, some, List, [], ◌∷◌, map, true}
use node_nats.Xray.User.{join}
use node_nats.Controller.Logs.{LogEvent, line, closed, client_gone, rpc_logs, rest_loop, rest_logs}

-- The lines that are received and can be written before anything else happens.
abbrev pub written : List LogEvent → List String
written (line detail none ∷ events) = detail ∷ written events
written _ = []

abbrev pub with_newline : String → String
with_newline text = join text "\n"

rpc_logs-written : (events : List LogEvent) → (rpc_logs events).0 ≡ written events
unfolding rpc_logs
rpc_logs-written [] = refl
rpc_logs-written (line detail none ∷ events) = ap (λ ls. detail ∷ ls) (rpc_logs-written events)
rpc_logs-written (line detail (some e) ∷ events) = refl
rpc_logs-written (closed ∷ events) = refl
rpc_logs-written (client_gone ∷ events) = refl

rest_loop-written :
    (events : List LogEvent) → (rest_loop events).0 ≡ map with_newline (written events)
unfolding rest_loop
rest_loop-written [] = refl
rest_loop-written (line detail none ∷ events) =
    ap (λ ls. with_newline detail ∷ ls) (rest_loop-written events)
rest_loop-written (line detail (some e) ∷ events) = refl
rest_loop-written (closed ∷ events) = refl
rest_loop-written (client_gone ∷ events) = refl

-- GetLogs delivers the lines that are received and can be written before anything else happens, over gRPC as
-- they are and over REST, where the response can be flushed, with a line break behind each.
logs_deliver :
    (events : List LogEvent)
    → ((rpc_logs events).0 ≡ written events)
      × ((rest_logs true events).0 ≡ map with_newline (written events))
unfolding rest_logs
logs_deliver events = (rpc_logs-written events, rest_loop-written events)
