-- ===== src/Controller/Node.antt =====
-- The node under gRPC: the interceptors of controller/rpc/middleware.go in front of the handlers of
-- controller/rpc/base.go and controller/rpc/user.go, on one session and its backend. A call is one step. The handlers
-- that only read leave the node as the interceptors do. A panic ends the node.
pub mod Keeps
pub mod Sound
pub mod Serves
pub mod Streams
pub mod Rest
use node_nats.Prelude.{
  ℕ, String, Option, none, some, List, [], ◌∷◌, Bool, Result, ok, fail, panic, ◌>>=◌, if◌then◌else◌,
}
use node_nats.Common.User.{User}
use node_nats.Common.Codes.{Code, CallError, error_text}
use node_nats.Xray.Inbound.{Packages, Inbound}
use node_nats.Xray.Config.{Config, mark_excluded}
use node_nats.Xray.Core.{Answers}
use node_nats.Xray.Backend.{Xray, Host, Created, created, new_xray, is_started}
use node_nats.Controller.{
  Backend, Controller, Launch, launched, Start, take_over, rpc_start, disconnect,
}
use node_nats.Controller.Access.{RpcAnswer, Operation, rpc_access, full_method}
use node_nats.Controller.Handlers.{Received, rpc_sync_user, rpc_sync_users}

-- The controller, and the backend that its field holds.
pub record Node : Type 0 where
  pub session : Controller
  pub xray : Option Xray

-- Started and Version of the backend
abbrev pub view : Xray → Backend
view x = record { started = is_started x; version = x.version }

abbrev pub view_of : Option Xray → Option Backend
view_of none = none
view_of (some x) = some (view x)

abbrev pub with_xray : Xray → Node → Node
with_xray x n = record { session = record n.session { backend = some (view x) }; xray = some x }

-- A request to start: the session's part, of which the handler finds out `detected` and `launch`; the backend's type; the
-- error of decoding the configuration, or the decoded one, its inbounds apart, which are pointers; the inbounds to
-- exclude, the users, and what the system answers.
pub record Starting : Type 0 where
  pub session : Start
  pub is_xray : Bool
  pub decode_error : Option String
  pub decoded : Config
  pub inbounds : List (Option Inbound)
  pub exclude : List String
  pub users : List User
  pub debug : Bool
  pub host : Host

-- NewXRayConfig
abbrev pub new_xray_config :
    Option String → Config → List (Option Inbound) → List String → Result Config
new_xray_config (some message) decoded inbounds exclude = fail message
new_xray_config none decoded inbounds exclude = do
  is ← mark_excluded exclude inbounds
  ok (record decoded { inbounds = is })

unfoldable pub detect_backend : Starting → Result Config
unfolding mark_excluded
detect_backend s =
    if s.is_xray
    then new_xray_config s.decode_error s.decoded s.inbounds s.exclude
    else fail "unknown backend type"

pub data Call : Type 0 where
  start : Starting → Call
  stop : ℕ → Call
  sync_user : List Received → Call
  sync_users : Answers → List User → Call
  read : Operation → Call

abbrev pub operation : Call → Operation
operation (start s) = Operation.start
operation (stop port) = Operation.stop
operation (sync_user received) = Operation.sync_user
operation (sync_users answers users) = Operation.sync_users
operation (read op) = op

pub data Reply : Type 0 where
  done : Reply
  failed : String → Reply
  denied : Code → String → Reply

abbrev pub reply_of : Option String → Reply
reply_of none = done
reply_of (some message) = failed message

abbrev pub reply_of_call : Option CallError → Reply
reply_of_call none = done
reply_of_call (some e) = failed (error_text e)

abbrev pub answered : Node → Controller × Option String → Node × Reply
answered n (c, error) = (record n { session = c }, reply_of error)

-- Start, with what NewXray returns: an error of it leaves no backend.
abbrev pub launch_with : Starting → Node → Created → Node × Reply
launch_with s n (created x) =
    answered (record n { xray = some x })
      (rpc_start (record s.session { detected = none; launch = launched (view x) }) n.session)
launch_with s n (Created.refused core message) =
    answered (record n { xray = none })
      (rpc_start (record s.session { detected = none; launch = Launch.refused message }) n.session)

abbrev pub start_detected : Result Config → Packages → Starting → Node → Result (Node × Reply)
start_detected (fail message) pkg s n = ok (n, failed message)
start_detected panic pkg s n = panic
start_detected (ok config) pkg s n = do
  made ←
      new_xray pkg s.host (take_over s.session.free_port n.session).api_port s.debug (some config)
        (some s.users)
  ok (launch_with s n made)

abbrev pub sync_stream : Packages → List Received → Node → Option Xray → Result (Node × Reply)
sync_stream pkg received n none = panic
sync_stream pkg received n (some x) = do
  (x', error) ← rpc_sync_user pkg received x
  ok (with_xray x' n, reply_of_call error)

abbrev pub sync_all : Packages → Answers → List User → Node → Option Xray → Result (Node × Reply)
sync_all pkg answers users n none = panic
sync_all pkg answers users n (some x) = do
  (x', error) ← rpc_sync_users pkg answers users x
  ok (with_xray x' n, reply_of_call error)

unfoldable pub handle : Packages → Call → Node → Result (Node × Reply)
unfolding new_xray detect_backend take_over rpc_start disconnect rpc_sync_user rpc_sync_users
handle pkg (start s) n = start_detected (detect_backend s) pkg s n
handle pkg (stop port) n = ok (record { session = disconnect port n.session; xray = none }, done)
handle pkg (sync_user received) n = sync_stream pkg received n n.xray
handle pkg (sync_users answers users) n = sync_all pkg answers users n n.xray
handle pkg (read op) n = ok (n, done)

-- What a call brings besides its content.
pub record Sender : Type 0 where
  pub metadata : Option (List (String × List String))
  pub now : ℕ

abbrev pub admitted : Packages → Call → Node → RpcAnswer → Result (Node × Reply)
admitted pkg call n (c, some (code, message)) = ok (record n { session = c }, denied code message)
admitted pkg call n (c, none) = handle pkg call (record n { session = c })

unfoldable pub serve :
    Packages → (String → Option ℕ) → ℕ → Sender → Call → Node → Result (Node × Reply)
unfolding handle rpc_access
serve pkg parse api_key sender call n =
    admitted pkg call n
      (rpc_access parse api_key (full_method (operation call)) sender.metadata sender.now n.session)

-- The calls in order, with their replies.
unfoldable pub serve_all :
    Packages → (String → Option ℕ) → ℕ → List (Sender × Call) → Node → Result (Node × List Reply)
unfolding serve
serve_all pkg parse api_key [] n = ok (n, [])
serve_all pkg parse api_key ((sender, call) ∷ calls) n = do
  (n', reply) ← serve pkg parse api_key sender call n
  (n'', replies) ← serve_all pkg parse api_key calls n'
  ok (n'', reply ∷ replies)
