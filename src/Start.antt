-- ===== src/Start.antt =====
-- main.go: the node's start, from its settings to its listener, and its end. Listeners, certificates and signals are the
-- system's; what it answers is data. Texts are bytes.
pub mod Address
use node_nats.Prelude.{
  ℕ, zero, suc, ◌+◌, ◌*◌, ◌/◌, ◌%◌, String, Option, none, some, List, [], ◌∷◌, ◌++◌, Bool, true,
  false, ◌==◌, str_eq, Result, ok, fail, panic, ◌>>=◌, if◌then◌else◌,
}
use node_nats.Common.User.{Bytes}
use node_nats.Tools.Certificates.{TlsConfig, load_tls_credentials}
use node_nats.Config.{codes, ℤ, pos, negsuc, Env, Config, load}
use node_nats.Controller.{Controller, disconnect}

-- The digits of a number in front of a text, on fuel: the number itself is enough.
unfoldable pub emit : (fuel n : ℕ) → Bytes → Bytes
emit zero n out = out
emit (suc fuel) n out =
    let rest = emit fuel (n / 10) ((48 + n % 10) ∷ out) in if n == 0 then out else rest

abbrev pub decimal : ℕ → Bytes
decimal n = if n == 0 then 48 ∷ [] else emit n n []

-- %d
abbrev pub format_int : ℤ → Bytes
format_int (pos n) = decimal n
format_int (negsuc n) = 45 ∷ decimal (suc n)

-- fmt.Sprintf("%s:%d", …)
unfoldable pub address : Config → Bytes
unfolding emit
address cfg = codes cfg.node_host ++ (58 ∷ format_int cfg.service_port)

pub data Protocol : Type 0 where
  rest : Protocol
  grpc : Protocol

abbrev pub protocol_of : String → Protocol
protocol_of name = if str_eq name "rest" then rest else grpc

-- The errors of StartHttpListener and StartGRPCListener, by that of the listening.
abbrev pub listen_error : Protocol → Bytes → Option String → Option Bytes
listen_error protocol addr none = none
listen_error rest addr (some message) = some (codes message)
listen_error grpc addr (some message) =
    some (codes "failed to listen on " ++ addr ++ codes ": " ++ codes message)

-- What is done to the gRPC server at its end: the graceful stop, which runs on until it is over, and the forced one.
pub data Stopping : Type 0 where
  graceful : Stopping
  forced : Stopping

-- The function that StartGRPCListener returns: whether the graceful stop is over first, or the error of the context that it
-- is called with is.
abbrev pub shutdown_grpc : Option String → List Stopping × Option String
shutdown_grpc none = (graceful ∷ [], none)
shutdown_grpc (some message) = (graceful ∷ forced ∷ [], some message)

-- What reading a pair of certificate and key gives, and the error of the listener; that of the shutdown is only logged.
pub record Surroundings (Certificate : Type 0) : Type 0 where
  pub load_pair : String → String → Result Certificate
  pub listen : Protocol → Bytes → Option String

-- log.Fatal ends the process without the deferred Disconnect; else the node serves, and disconnects at its end.
pub data Ending : Type 0 where
  fatal : Bytes → Ending
  served : Protocol → Bytes → Controller → Ending
  crashed : Ending

abbrev pub listened : Option Bytes → Protocol → Bytes → Controller → Ending
listened (some message) protocol addr c = fatal message
listened none protocol addr c = served protocol addr c

abbrev pub with_certificates :
    {Certificate : Type 0}
    → Result (TlsConfig Certificate)
    → Surroundings Certificate
    → Config
    → Controller
    → Ending
with_certificates (fail message) machine cfg c = fatal (codes message)
with_certificates panic machine cfg c = crashed
with_certificates (ok tls) machine cfg c =
    let protocol = protocol_of cfg.service_protocol in
    let addr = address cfg in
    listened (listen_error protocol addr (machine.listen protocol addr)) protocol addr c

-- main, with the session that the calls of the clients leave, and the port that the last Disconnect draws.
unfoldable pub main :
    {Certificate : Type 0}
    → (String → Option ℕ)
    → Env
    → Surroundings Certificate
    → (port : ℕ) → Controller
    → Ending
unfolding load address disconnect
main parse env machine port c =
    let cfg = load parse env in
    with_certificates (load_tls_credentials machine.load_pair cfg.ssl_cert_file cfg.ssl_key_file)
      machine cfg (disconnect port c)
