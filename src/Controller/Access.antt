-- ===== src/Controller/Access.antt =====
-- Who may call what: controller/rpc/middleware.go, controller/rest/middleware.go and the routes of
-- controller/rest/service.go. uuid.Parse is an argument; a UUID is its number. Logging is left out.
pub mod Laws
use node_nats.Prelude.{
  ℕ, String, Option, none, some, List, [], ◌∷◌, Bool, true, false, ◌==◌, if◌then◌else◌, str_eq,
  lookup, mem,
}
use node_nats.Common.Codes.{Code, unauthenticated, invalid_argument, permission_denied, unavailable}
use node_nats.Controller.{Backend, Controller, new_request}

-- An error of gRPC, and one of HTTP with its status; none lets the call pass.
abbrev pub RpcAnswer : Type 0
RpcAnswer = Controller × Option (Code × String)

abbrev pub RestAnswer : Type 0
RestAnswer = Controller × Option (ℕ × String)

-- The switch on the parsed key; a valid one counts as a request.
abbrev pub rpc_key : ℕ → Option ℕ → ℕ → Controller → RpcAnswer
rpc_key api_key none now c =
    (c, some (invalid_argument, "invalid api key format: must be a valid UUID"))
rpc_key api_key (some key) now c =
    if key == api_key
    then (new_request now c, none)
    else (c, some (permission_denied, "api key mismatch"))

-- The values under "x-api-key" in the metadata, of which the first counts.
abbrev pub rpc_header : (String → Option ℕ) → ℕ → Option (List String) → ℕ → Controller → RpcAnswer
rpc_header parse api_key none now c = (c, some (unauthenticated, "missing x-api-key header"))
rpc_header parse api_key (some []) now c = (c, some (unauthenticated, "missing x-api-key header"))
rpc_header parse api_key (some (header ∷ others)) now c = rpc_key api_key (parse header) now c

-- validateApiKey of gRPC
unfoldable pub rpc_validate :
    (String → Option ℕ) → ℕ → Option (List (String × List String)) → ℕ → Controller → RpcAnswer
unfolding new_request lookup
rpc_validate parse api_key none now c = (c, some (unauthenticated, "missing metadata"))
rpc_validate parse api_key (some md) now c = rpc_header parse api_key (lookup "x-api-key" md) now c

-- checkBackendStatus
abbrev pub backend_status : Option Backend → Option (Code × String)
backend_status none = some (unavailable, "backend not initialized")
backend_status (some b) = if b.started then none else some (unavailable, "core is not started yet")

abbrev pub backend_methods : List String
backend_methods =
    "/service.NodeService/GetStats" ∷ "/service.NodeService/GetUserOnlineStats"
    ∷ "/service.NodeService/GetUserOnlineIpListStats" ∷ "/service.NodeService/GetBackendStats"
    ∷ "/service.NodeService/GetSystemStats" ∷ "/service.NodeService/Stop"
    ∷ "/service.NodeService/SyncUser" ∷ "/service.NodeService/SyncUsers"
    ∷ "/service.NodeService/GetLogs" ∷ []

-- The interceptors of ConditionalMiddleware and ConditionalStreamMiddleware, in their order.
abbrev pub rpc_checked : Bool → RpcAnswer → RpcAnswer
rpc_checked wants_backend (c, some refusal) = (c, some refusal)
rpc_checked false (c, none) = (c, none)
rpc_checked true (c, none) = (c, backend_status c.backend)

unfoldable pub rpc_access :
    (String → Option ℕ)
    → ℕ
    → String
    → Option (List (String × List String))
    → ℕ
    → Controller
    → RpcAnswer
unfolding rpc_validate mem
rpc_access parse api_key method md now c =
    rpc_checked (mem backend_methods method) (rpc_validate parse api_key md now c)

abbrev pub rest_key : ℕ → Option ℕ → ℕ → Controller → RestAnswer
rest_key api_key none now c = (c, some (422, "invalid api key format: must be a valid UUID"))
rest_key api_key (some key) now c =
    if key == api_key then (new_request now c, none) else (c, some (403, "api key mismatch"))

-- validateApiKey of REST; a header that is not there is empty
unfoldable pub rest_validate : (String → Option ℕ) → ℕ → String → ℕ → Controller → RestAnswer
unfolding new_request
rest_validate parse api_key header now c =
    if str_eq header ""
    then (c, some (401, "missing x-api-key header"))
    else rest_key api_key (parse header) now c

-- checkBackendMiddleware
abbrev pub rest_status : Option Backend → Option (ℕ × String)
rest_status none = some (500, "backend not initialized")
rest_status (some b) = if b.started then none else some (503, "core is not started yet")

-- The calls that the node serves, over either protocol.
pub data Operation : Type 0 where
  start info stop logs stats user_online user_online_ip backend_stats system_stats sync_user
        sync_users :
      Operation

-- setRouter: the routes of the private group
abbrev pub is_private : Operation → Bool
is_private start = false
is_private info = false
is_private _ = true

abbrev pub rest_checked : Bool → RestAnswer → RestAnswer
rest_checked private_route (c, some refusal) = (c, some refusal)
rest_checked false (c, none) = (c, none)
rest_checked true (c, none) = (c, rest_status c.backend)

unfoldable pub rest_access :
    (String → Option ℕ) → ℕ → Operation → String → ℕ → Controller → RestAnswer
unfolding rest_validate
rest_access parse api_key op header now c =
    rest_checked (is_private op) (rest_validate parse api_key header now c)

-- The full name of an operation's method, as common/service_grpc.pb.go has it.
abbrev pub full_method : Operation → String
full_method start = "/service.NodeService/Start"
full_method info = "/service.NodeService/GetBaseInfo"
full_method stop = "/service.NodeService/Stop"
full_method logs = "/service.NodeService/GetLogs"
full_method stats = "/service.NodeService/GetStats"
full_method user_online = "/service.NodeService/GetUserOnlineStats"
full_method user_online_ip = "/service.NodeService/GetUserOnlineIpListStats"
full_method backend_stats = "/service.NodeService/GetBackendStats"
full_method system_stats = "/service.NodeService/GetSystemStats"
full_method sync_user = "/service.NodeService/SyncUser"
full_method sync_users = "/service.NodeService/SyncUsers"
