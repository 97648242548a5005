-- ===== src/Controller/Handlers.antt =====
-- The handlers of controller/rpc/user.go, controller/rpc/stats.go, controller/rest/user.go and
-- controller/rest/stats.go, past the access checks. Reading a body is its error, if it has one. The router of
-- REST recovers from a panic with status 500; a panic under gRPC ends the node.
pub mod Errors
pub mod Stream
use node_nats.Prelude.{
  ℕ, String, Option, none, some, List, [], ◌∷◌, Bool, str_eq, if◌then◌else◌, Result, ok, fail,
  panic, ◌>>=◌,
}
use node_nats.Common.User.{User}
use node_nats.Common.Codes.{
  internal, CallError, plain, status, error_text, code_of, grpc_code_to_http, intercept_not_found,
}
use node_nats.Tools.{SystemStats, Machine, get_system_stats}
use node_nats.Xray.Account.{Account}
use node_nats.Xray.Inbound.{Packages}
use node_nats.Xray.User.{join}
use node_nats.Xray.Core.{Answers}
use node_nats.Xray.Backend.{Xray, sync_one, sync_users}

-- What a method of the backend does.
pub data Answer (A : Type 0) : Type 0 where
  value : A → Answer A
  error : CallError → Answer A
  panicked : Answer A

pub data RpcReply (A : Type 0) : Type 0 where
  replied : A → RpcReply A
  refused : CallError → RpcReply A
  node_ended : RpcReply A

pub data RestReply (A : Type 0) : Type 0 where
  sent : A → RestReply A
  http_error : ℕ → String → RestReply A

-- GetStats, GetUserOnlineStats and GetUserOnlineIpListStats over gRPC
unfoldable pub rpc_stats : {A : Type 0} → Answer A → RpcReply A
unfolding intercept_not_found
rpc_stats (value stats) = replied stats
rpc_stats (error e) = refused (intercept_not_found e)
rpc_stats panicked = node_ended

abbrev pub recovered : {A : Type 0} → RestReply A
recovered = http_error 500 ""

abbrev pub rest_error : {A : Type 0} → CallError → RestReply A
rest_error e = http_error (grpc_code_to_http (code_of e)) (error_text e)

abbrev pub rest_answer : {A : Type 0} → Answer A → RestReply A
rest_answer (value stats) = sent stats
rest_answer (error e) = rest_error (intercept_not_found e)
rest_answer panicked = recovered

-- The same three over REST.
unfoldable pub rest_stats : {A : Type 0} → Option String → Answer A → RestReply A
unfolding intercept_not_found grpc_code_to_http
rest_stats (some message) answer = http_error 400 message
rest_stats none answer = rest_answer answer

-- A user that the stream receives, with the core's answers to the calls that it causes.
abbrev pub Received : Type 0
Received = User × (String → Account → Option String)

abbrev pub synced_or_error :
    Option String → Xray → Result (Xray × Option CallError) → Result (Xray × Option CallError)
synced_or_error (some message) x later =
    ok (x, some (status internal (join "failed to update user: " message)))
synced_or_error none x later = later

-- SyncUser over gRPC, on the users received before Recv returns an error, which ends the stream well
-- whatever the error is.
unfoldable pub rpc_sync_user : Packages → List Received → Xray → Result (Xray × Option CallError)
unfolding sync_one
rpc_sync_user pkg [] x = ok (x, none)
rpc_sync_user pkg ((user, answers) ∷ received) x =
    let synced =
      sync_one pkg answers user x
      >>= (λ (x', message). synced_or_error message x' (rpc_sync_user pkg received x')) in
    if str_eq user.email "" then ok (x, some (plain "email is required")) else synced

-- SyncUsers over gRPC
unfoldable pub rpc_sync_users :
    Packages → Answers → List User → Xray → Result (Xray × Option CallError)
unfolding sync_users
rpc_sync_users pkg answers users x = do
  (x', message) ← sync_users pkg answers users x
  ok (x', elim message [ none ↦ none | some m ↦ some (plain m) ])

abbrev pub put_reply : Option String → RestReply (Unit {0})
put_reply none = sent tt
put_reply (some message) = http_error 500 message

-- SyncUser and SyncUsers over REST: a body that cannot be read or decoded is refused with its text. Where
-- the backend panics, so does the handler.
unfoldable pub rest_sync_user :
    Packages → Option String → Received → Xray → Result (Xray × RestReply (Unit {0}))
unfolding sync_one
rest_sync_user pkg (some message) (user, answers) x = ok (x, http_error 400 message)
rest_sync_user pkg none (user, answers) x = do
  (x', message) ← sync_one pkg answers user x
  ok (x', put_reply message)

unfoldable pub rest_sync_users :
    Packages → Option String → Answers → List User → Xray → Result (Xray × RestReply (Unit {0}))
unfolding sync_users
rest_sync_users pkg (some message) answers users x = ok (x, http_error 400 message)
rest_sync_users pkg none answers users x = do
  (x', message) ← sync_users pkg answers users x
  ok (x', put_reply message)

-- GetBackendStats over both protocols: an error is passed on as it is over gRPC, and has status 500 over REST.
unfoldable pub rpc_backend_stats : {A : Type 0} → Answer A → RpcReply A
rpc_backend_stats (value stats) = replied stats
rpc_backend_stats (error e) = refused e
rpc_backend_stats panicked = node_ended

unfoldable pub rest_backend_stats : {A : Type 0} → Answer A → RestReply A
rest_backend_stats (value stats) = sent stats
rest_backend_stats (error e) = http_error 500 (error_text e)
rest_backend_stats panicked = recovered

-- One round of recordSystemStats, whose answer GetSystemStats gives: a cancelled round and a failed reading keep what is
-- there.
abbrev pub record_read : SystemStats × Option String → Option SystemStats → Option SystemStats
record_read (stats, none) kept = some stats
record_read (stats, some message) kept = kept

unfoldable pub record_system_stats : Bool → Machine → Option SystemStats → Option SystemStats
unfolding get_system_stats
record_system_stats is_done machine kept =
    if is_done then kept else record_read (get_system_stats machine) kept
