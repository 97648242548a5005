-- ===== src/Controller/Interceptors.antt =====
-- The interceptors of controller/rpc/middleware.go, and what they log. ChainUnaryServer and ChainStreamServer of
-- go-grpc-middleware are one argument: a list of interceptors, put around a handler. An error's code is left out of
-- the log.
pub mod Chained
use node_nats.Prelude.{
  ℕ, String, Option, none, some, List, [], ◌∷◌, ◌++◌, Bool, true, false, Result, ok, fail, panic,
  ◌>>=◌, mem, if◌then◌else◌,
}
use node_nats.Common.Codes.{Code}
use node_nats.Controller.Access.{
  RpcAnswer, Operation, start, info, stop, logs, stats, user_online, user_online_ip, backend_stats,
  system_stats, sync_user, sync_users, rpc_validate, backend_status, backend_methods, full_method,
}
use node_nats.Controller.Node.{Node, Reply, done, failed, denied, Sender}

-- The lines of log.Println and log.Printf: a stream that is opened, a key that a stream is refused for, and the end of a
-- call, with whether it ends well.
pub data LogLine : Type 0 where
  trying : (ip method : String) → LogLine
  invalid_key : (message : String) → LogLine
  ended : (ip method : String) (is_well : Bool) → LogLine

-- The node and what it has logged.
pub record World : Type 0 where
  pub node : Node
  pub lines : List LogLine

abbrev pub Handler : Type 0
Handler = World → Result (World × Reply)

abbrev pub Interceptor : Type 0
Interceptor = Handler → Handler

abbrev pub with_session : World → RpcAnswer → World
with_session w (c, refusal) = record w { node = record w.node { session = c } }

abbrev pub say : LogLine → World → World
say line w = record w { lines = w.lines ++ line ∷ [] }

-- An answer of a check: an error ends the call, else the handler goes on.
abbrev pub pass : Handler → World → Option (Code × String) → Result (World × Reply)
pass handler w (some (code, message)) = ok (w, denied code message)
pass handler w none = handler w

abbrev pub validate_answer : Handler → World → RpcAnswer → Result (World × Reply)
validate_answer handler w answer = pass handler (with_session w answer) answer.1

-- validateApiKeyMiddleware
unfoldable pub validate_api_key : (String → Option ℕ) → ℕ → Sender → Interceptor
unfolding rpc_validate
validate_api_key parse api_key sender handler w =
    validate_answer handler w (rpc_validate parse api_key sender.metadata sender.now w.node.session)

abbrev pub say_invalid : Option (Code × String) → World → World
say_invalid none w = w
say_invalid (some (code, message)) w = say (invalid_key message) w

abbrev pub validate_stream_answer : Handler → World → RpcAnswer → Result (World × Reply)
validate_stream_answer handler w answer =
    pass handler (say_invalid answer.1 (with_session w answer)) answer.1

-- validateApiKeyStreamMiddleware
unfoldable pub validate_api_key_stream : (String → Option ℕ) → ℕ → Sender → Interceptor
unfolding rpc_validate
validate_api_key_stream parse api_key sender handler w =
    validate_stream_answer handler w
      (rpc_validate parse api_key sender.metadata sender.now w.node.session)

-- CheckBackendMiddleware and CheckBackendStreamMiddleware
unfoldable pub check_backend : Interceptor
check_backend handler w = pass handler w (backend_status w.node.session.backend)

abbrev pub is_well : Reply → Bool
is_well done = true
is_well (failed message) = false
is_well (denied code message) = false

-- logRequest
abbrev pub log_request : (ip method : String) → Reply → World → World
log_request ip method reply w = say (ended ip method (is_well reply)) w

-- LoggingInterceptor
unfoldable pub logging : (ip method : String) → Interceptor
logging ip method handler w = do (w', reply) ← handler w; ok (log_request ip method reply w', reply)

-- LoggingStreamInterceptor
unfoldable pub logging_stream : (ip method : String) → Interceptor
unfolding logging
logging_stream ip method handler w = logging ip method handler (say (trying ip method) w)

abbrev pub Chain : Type 0
Chain = List Interceptor → Interceptor

abbrev pub with_backend_check : String → List Interceptor
with_backend_check method = if mem backend_methods method then check_backend ∷ [] else []

-- ConditionalMiddleware: the method by its full name and as it is logged.
unfoldable pub conditional :
    Chain → (String → Option ℕ) → ℕ → Sender → (ip method logged : String) → Interceptor
unfolding logging validate_api_key check_backend mem
conditional chain parse api_key sender ip method logged handler =
    chain (logging ip logged ∷ validate_api_key parse api_key sender ∷ with_backend_check method)
      handler

-- ConditionalStreamMiddleware
unfoldable pub conditional_stream :
    Chain → (String → Option ℕ) → ℕ → Sender → (ip method logged : String) → Interceptor
unfolding logging_stream validate_api_key_stream check_backend mem
conditional_stream chain parse api_key sender ip method logged handler =
    chain
      (logging_stream ip logged
        ∷ validate_api_key_stream parse api_key sender
        ∷ with_backend_check method)
      handler

-- The two methods of the service that are streams.
abbrev pub is_stream : Operation → Bool
is_stream sync_user = true
is_stream logs = true
is_stream _ = false

-- The interceptors that the server has for a method.
unfoldable pub intercepted :
    Chain → (String → Option ℕ) → ℕ → Sender → (ip logged : String) → Operation → Interceptor
unfolding conditional conditional_stream
intercepted chain parse api_key sender ip logged op handler =
    if is_stream op
    then conditional_stream chain parse api_key sender ip (full_method op) logged handler
    else conditional chain parse api_key sender ip (full_method op) logged handler
