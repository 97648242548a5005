-- ===== src/Controller/Node/Rest.antt =====
-- The node under REST: the middlewares of controller/rest/middleware.go and the routes of controller/rest/service.go in
-- front of the handlers of controller/rest/base.go and controller/rest/user.go. A call is one step. A panic of a
-- handler is answered with status 500 by the router; what it leaves of the node is not modelled.
pub mod Denied
pub mod Alike
pub mod Views
use node_nats.Prelude.{
  ℕ, String, Option, none, some, List, [], ◌∷◌, Bool, Result, ok, fail, panic, ◌>>=◌, if◌then◌else◌,
}
use node_nats.Common.User.{User}
use node_nats.Xray.Inbound.{Packages}
use node_nats.Xray.Config.{Config, mark_excluded}
use node_nats.Xray.Core.{Answers}
use node_nats.Xray.Backend.{Xray, Created, created, new_xray}
use node_nats.Controller.{Controller, Launch, launched, connect, take_over, rest_start, disconnect}
use node_nats.Controller.Access.{RestAnswer, Operation, rest_access}
use node_nats.Controller.Handlers.{
  RestReply, sent, http_error, Received, rest_sync_user, rest_sync_users,
}
use node_nats.Controller.Node.{Node, view, with_xray, Starting, new_xray_config}

-- The error of ReadProtoBody, if it has one, and for a start whether net.SplitHostPort finds an address.
pub data Call : Type 0 where
  start : (body : Option String) (knows_ip : Bool) → Starting → Call
  stop : ℕ → Call
  sync_user : (body : Option String) → Received → Call
  sync_users : (body : Option String) → Answers → List User → Call
  read : Operation → Call

abbrev pub operation : Call → Operation
operation (start body knows_ip s) = Operation.start
operation (stop port) = Operation.stop
operation (sync_user body received) = Operation.sync_user
operation (sync_users body answers users) = Operation.sync_users
operation (read op) = op

abbrev pub Outcome : Type 0
Outcome = Result (Node × RestReply (Unit {0}))

-- detectBackend
unfoldable pub detect_body : Option String → Starting → Result Config
unfolding mark_excluded
detect_body (some message) s = fail message
detect_body none s =
    if s.is_xray
    then new_xray_config s.decode_error s.decoded s.inbounds s.exclude
    else fail "invalid backend type"

abbrev pub start_reply : Option String → RestReply (Unit {0})
start_reply none = sent tt
start_reply (some message) = http_error 503 message

abbrev pub answered : Node → Controller × Option String → Node × RestReply (Unit {0})
answered n (c, error) = (record n { session = c }, start_reply error)

-- Start, with what NewXray returns, at the port of the session that has been opened.
abbrev pub launch_with : Starting → Node → Created → Node × RestReply (Unit {0})
launch_with s n (created x) =
    answered (record n { xray = some x })
      (rest_start (record s.session { detected = none; launch = launched (view x) }) n.session)
launch_with s n (Created.refused core message) =
    answered (record n { xray = none })
      (rest_start (record s.session { detected = none; launch = Launch.refused message }) n.session)

abbrev pub start_from : Bool → Packages → Config → Starting → Node → Outcome
start_from Bool.false pkg config s n = ok (n, http_error 503 "unknown ip")
start_from Bool.true pkg config s n = do
  made ←
      new_xray pkg s.host (take_over s.session.free_port n.session).api_port s.debug (some config)
        (some s.users)
  ok (launch_with s n made)

abbrev pub start_detected : Result Config → Bool → Packages → Starting → Node → Outcome
start_detected (fail message) knows_ip pkg s n = ok (n, http_error 503 message)
start_detected panic knows_ip pkg s n = panic
start_detected (ok config) knows_ip pkg s n = start_from knows_ip pkg config s n

abbrev pub sync_one_on : Packages → Option String → Received → Node → Option Xray → Outcome
sync_one_on pkg body received n none = panic
sync_one_on pkg body received n (some x) = do
  (x', reply) ← rest_sync_user pkg body received x
  ok (with_xray x' n, reply)

abbrev pub sync_all_on :
    Packages → Option String → Answers → List User → Node → Option Xray → Outcome
sync_all_on pkg body answers users n none = panic
sync_all_on pkg body answers users n (some x) = do
  (x', reply) ← rest_sync_users pkg body answers users x
  ok (with_xray x' n, reply)

unfoldable pub handle : Packages → Call → Node → Outcome
unfolding new_xray detect_body take_over rest_start disconnect rest_sync_user rest_sync_users
handle pkg (start body knows_ip s) n = start_detected (detect_body body s) knows_ip pkg s n
handle pkg (stop port) n = ok (record { session = disconnect port n.session; xray = none }, sent tt)
handle pkg (sync_user body received) n = sync_one_on pkg body received n n.xray
handle pkg (sync_users body answers users) n = sync_all_on pkg body answers users n n.xray
handle pkg (read op) n = ok (n, sent tt)

abbrev pub admitted : Packages → Call → Node → RestAnswer → Outcome
admitted pkg call n (c, some (status, message)) =
    ok (record n { session = c }, http_error status message)
admitted pkg call n (c, none) = handle pkg call (record n { session = c })

-- A call with the header "x-api-key", which is empty where it is not there, at a time.
unfoldable pub serve :
    Packages → (String → Option ℕ) → ℕ → (header : String) → (now : ℕ) → Call → Node → Outcome
unfolding handle rest_access
serve pkg parse api_key header now call n =
    admitted pkg call n (rest_access parse api_key (operation call) header now n.session)

-- The calls in order, with their replies; a call has its header and its time.
unfoldable pub serve_all :
    Packages
    → (String → Option ℕ)
    → ℕ
    → List (String × ℕ × Call)
    → Node
    → Result (Node × List (RestReply (Unit {0})))
unfolding serve
serve_all pkg parse api_key [] n = ok (n, [])
serve_all pkg parse api_key ((header, now, call) ∷ calls) n = do
  (n', reply) ← serve pkg parse api_key header now call n
  (n'', replies) ← serve_all pkg parse api_key calls n'
  ok (n'', reply ∷ replies)
