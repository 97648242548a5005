-- ===== src/Controller/Logs.antt =====
-- GetLogs of controller/rpc/log.go and controller/rest/log.go: the lines of the channel, until it is closed, the client
-- goes, or a line cannot be written.
pub mod Delivery
use node_nats.Prelude.{String, Option, none, some, List, [], ◌∷◌, Bool, true, false}
use node_nats.Xray.User.{join}

-- What the select takes: a line, with the error of writing it, a closed channel, or the end of the request's context.
pub data LogEvent : Type 0 where
  line : (detail : String) (write_error : Option String) → LogEvent
  closed : LogEvent
  client_gone : LogEvent

-- The lines that are written, and how the handler ends; a stream whose events are used up still runs.
pub data StreamEnd : Type 0 where
  running : StreamEnd
  finished : Option String → StreamEnd

abbrev pub Delivered : Type 0
Delivered = List String × StreamEnd

abbrev pub deliver : String → Delivered → Delivered
deliver detail (lines, end) = (detail ∷ lines, end)

unfoldable pub rpc_logs : List LogEvent → Delivered
rpc_logs [] = ([], running)
rpc_logs (line detail none ∷ events) = deliver detail (rpc_logs events)
rpc_logs (line detail (some message) ∷ events) =
    ([], finished (some (join "failed to send log: " message)))
rpc_logs (closed ∷ events) = ([], finished (some "log channel closed"))
rpc_logs (client_gone ∷ events) = ([], finished none)

unfoldable pub rest_loop : List LogEvent → Delivered
rest_loop [] = ([], running)
rest_loop (line detail none ∷ events) = deliver (join detail "\n") (rest_loop events)
rest_loop (line detail (some message) ∷ events) = ([], finished none)
rest_loop (closed ∷ events) = ([], finished none)
rest_loop (client_gone ∷ events) = ([], finished none)

-- Over REST a response that cannot be flushed is refused with status 500 and this text.
unfoldable pub rest_logs : (can_flush : Bool) → List LogEvent → Delivered
unfolding rest_loop
rest_logs false events = ([], finished (some "Streaming unsupported"))
rest_logs true events = rest_loop events
