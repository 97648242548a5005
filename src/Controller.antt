-- ===== src/Controller.antt =====
-- controller/: the session of the node, and the handlers that open and close it (rpc/base.go,
-- rest/base.go). A handler, and a wake of a tracker, is one step here; Controller/Races cuts them. The
-- statistics that a session's goroutine records are in Controller/Handlers. Times are nanoseconds.
pub mod Session
pub mod Leak
pub mod Access
pub mod Handlers
pub mod Node
pub mod Logs
pub mod Races
pub mod Uses
pub mod Interceptors
use Prim.Native.Nat.{compare, Ordering}
use node_nats.Prelude.{
  ℕ, zero, suc, ◌+◌, ◌*◌, ◌%◌, ◌||◌, String, Option, none, some, List, [], ◌∷◌, Bool, true, false,
  ◌&&◌, ltb, leb, ◌==◌, if◌then◌else◌,
}

-- What a running backend answers about itself.
pub record Backend : Type 0 where
  pub started : Bool
  pub version : String

-- A context made by Connect, by its number: its goroutines run until it is cancelled.
pub record Tracker : Type 0 where
  pub context : ℕ
  pub keep_alive : ℕ

-- `cancel` is the context that cancelFunc cancels, `made` the number of contexts made so far, and
-- `live` those that have goroutines and are not cancelled.
pub record Controller : Type 0 where
  pub backend : Option Backend
  pub api_port : ℕ
  pub client_ip : String
  pub last_request : ℕ
  pub cancel : ℕ
  pub made : ℕ
  pub live : List Tracker

-- New: a first context without goroutines.
abbrev pub new : ℕ → Controller
new port = record {
  backend = none;
  api_port = port;
  client_ip = "";
  last_request = 0;
  cancel = 0;
  made = 1;
  live = [];
}

abbrev pub cancelled : ℕ → List Tracker → List Tracker
cancelled context [] = []
cancelled context (t ∷ ts) =
    let rest = cancelled context ts in if t.context == context then rest else t ∷ rest

unfoldable pub connect : String → ℕ → ℕ → Controller → Controller
connect ip keep_alive now c = record c {
  last_request = now;
  client_ip = ip;
  cancel = c.made;
  made = c.made + 1;
  live = record { context = c.made; keep_alive = keep_alive } ∷ c.live;
}

-- Disconnect, with the port that FindFreePort answers; the backend is shut down and dropped.
unfoldable pub disconnect : ℕ → Controller → Controller
disconnect port c = record c {
  live = cancelled c.cancel c.live;
  backend = none;
  api_port = port;
  client_ip = "";
}

unfoldable pub new_request : ℕ → Controller → Controller
new_request now c = record c { last_request = now }

-- What NewXray answers to a start: its error, or the backend.
pub data Launch : Type 0 where
  launched : Backend → Launch
  refused : String → Launch

-- StartBackend, for the one type of backend that there is; an unknown type is refused.
unfoldable pub start_backend : Launch → Controller → Controller × Option String
start_backend (launched b) c = (record c { backend = some b }, none)
start_backend (refused message) c = (c, some message)

-- A request to start: what detectBackend and the address of the peer give, the time, and what the environment answers.
pub record Start : Type 0 where
  pub detected : Option String
  pub ip : String
  pub keep_alive : ℕ
  pub launch : Launch
  pub now : ℕ
  pub free_port : ℕ

-- The session of a previous client is closed.
unfoldable pub take_over : ℕ → Controller → Controller
unfolding disconnect
take_over port c = elim c.backend [ none ↦ c | some _ ↦ disconnect port c ]

abbrev pub connect_if_ok : Start → Controller × Option String → Controller × Option String
connect_if_ok s (c, none) = (connect s.ip s.keep_alive s.now c, none)
connect_if_ok s (c, some message) = (c, some message)

-- Start of rpc/base.go: the backend is started before the session is opened. Without an error the answer is base_info.
abbrev pub rpc_start_after : Option String → Start → Controller → Controller × Option String
rpc_start_after (some message) s c = (c, some message)
rpc_start_after none s c = connect_if_ok s (start_backend s.launch (take_over s.free_port c))

unfoldable pub rpc_start : Start → Controller → Controller × Option String
unfolding take_over start_backend connect
rpc_start s c = rpc_start_after s.detected s c

-- Start of rest/base.go: the session is opened before the backend is started.
abbrev pub rest_start_after : Option String → Start → Controller → Controller × Option String
rest_start_after (some message) s c = (c, some message)
rest_start_after none s c =
    start_backend s.launch (connect s.ip s.keep_alive s.now (take_over s.free_port c))

unfoldable pub rest_start : Start → Controller → Controller × Option String
unfolding take_over start_backend connect
rest_start s c = rest_start_after s.detected s c

-- One wake of keepAliveTracker in a context: nothing if the context is cancelled, or the session has had a request
-- in time; a tracker of 0 seconds is not started.
abbrev pub keep_alive_of : ℕ → List Tracker → Option ℕ
keep_alive_of context [] = none
keep_alive_of context (t ∷ ts) =
    if t.context == context then some t.keep_alive else keep_alive_of context ts

-- time.Duration(keepAlive)*time.Second: 64 bits, of which the upper half is negative.
abbrev pub duration : ℕ → ℕ
duration keep_alive = (keep_alive * 1000000000) % 18446744073709551616

abbrev pub is_overdue : ℕ → ℕ → ℕ → Bool
is_overdue keep_alive last now =
    ltb 0 keep_alive
    && (leb 9223372036854775808 (duration keep_alive) || leb (last + duration keep_alive) now)

unfoldable pub tick : ℕ → ℕ → ℕ → Controller → Controller
unfolding disconnect
tick context now port c = elim (keep_alive_of context c.live) [
  | none ↦ c
  | some keep_alive ↦ if is_overdue keep_alive c.last_request now then disconnect port c else c
]

pub record BaseInfo : Type 0 where
  pub started : Bool
  pub core_version : String
  pub node_version : String

-- BaseInfoResponse
unfoldable pub base_info : Controller → BaseInfo
base_info c = elim c.backend [
  | none ↦ record { started = false; core_version = ""; node_version = "0.1.1" }
  | some b ↦ record { started = b.started; core_version = b.version; node_version = "0.1.1" }
]
