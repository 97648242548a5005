-- ===== src/Controller/Session.antt =====
-- The session over gRPC: at most one is open, its goroutines are those of its own context, and it is
-- open exactly while there is a backend.
use mathlib.Core.Path.{subst}
use node_nats.Prelude.{
  ℕ, ◌+◌, ◌*◌, ◌<◌, ◌≡◌, refl, ap, sym, ◌⊎◌, inl, inr, String, Option, none, some, List, [], ◌∷◌,
  arith, ltb, leb, ◌&&◌, Option-cases, Bool-cases, if◌then◌else◌,
}
use node_nats.Controller.{
  Backend, Tracker, Controller, cancelled, connect, disconnect, new_request, Launch, launched,
  refused, start_backend, Start, take_over, connect_if_ok, rpc_start_after, rpc_start,
  keep_alive_of, is_overdue, tick,
}

-- Closed: no backend, no goroutine, no client. Open: a backend, and the goroutines of one context,
-- the one that Disconnect would cancel.
abbrev pub IsClosed : Controller → Type 0
IsClosed c = (c.backend ≡ none) × (c.live ≡ []) × (c.client_ip ≡ "")

abbrev pub IsOpen : Controller → Type 0
IsOpen c =
    (b : Backend) × (keep_alive : ℕ) × (c.backend ≡ some b)
    × (c.live ≡ record { context = c.cancel; keep_alive = keep_alive } ∷ [])

abbrev pub IsSound : Controller → Type 0
IsSound c = IsClosed c ⊎ IsOpen c

cancelled-live :
    (context keep_alive : ℕ) (ts : List Tracker)
    → ts ≡ record { context = context; keep_alive = keep_alive } ∷ []
    → cancelled context ts ≡ []
cancelled-live context keep_alive ts e = rw (e, cancelled) (ground arith)

disconnect-IsClosed : (port : ℕ) (c : Controller) → IsSound c → IsClosed (disconnect port c)
unfolding disconnect
disconnect-IsClosed port c (inl (_, live, _)) = (refl, ap (cancelled c.cancel) live, refl)
disconnect-IsClosed port c (inr (b, k, _, live)) =
    (refl, cancelled-live c.cancel k c.live live, refl)

pub take_over-none : (port : ℕ) (c : Controller) → c.backend ≡ none → take_over port c ≡ c
unfolding take_over
take_over-none port c e = ground arith

pub take_over-some :
    (port : ℕ) (c : Controller) (b : Backend)
    → c.backend ≡ some b
    → take_over port c ≡ disconnect port c
unfolding take_over
take_over-some port c b e = ground arith

pub take_over-IsClosed : (port : ℕ) (c : Controller) → IsSound c → IsClosed (take_over port c)
take_over-IsClosed port c (inl closed) =
    subst IsClosed (sym (take_over-none port c closed.0)) closed
take_over-IsClosed port c (inr (b, k, backend, live)) =
    subst IsClosed (sym (take_over-some port c b backend))
      (disconnect-IsClosed port c (inr (b, k, backend, live)))

-- The steps of the node under gRPC: a request to start or to stop, any other request with a valid key,
-- and a wake of a tracker.
pub data Event : Type 0 where
  start : Start → Event
  stop : (free_port : ℕ) → Event
  request : (now : ℕ) → Event
  wake : (context now free_port : ℕ) → Event

abbrev pub step : Event → Controller → Controller
step (start s) c = (rpc_start s c).0
step (stop port) c = disconnect port c
step (request now) c = new_request now c
step (wake context now port) c = tick context now port c

abbrev pub run : List Event → Controller → Controller
run [] c = c
run (e ∷ es) c = run es (step e c)

abbrev opened : Start → Controller → Tracker
opened s c = record { context = c.made; keep_alive = s.keep_alive }

launch-IsSound :
    (s : Start) (launch : Launch) (c : Controller)
    → IsClosed c
    → IsSound (connect_if_ok s (start_backend launch c)).0
unfolding start_backend connect
launch-IsSound s (launched b) c (_, live, _) =
    inr (b, s.keep_alive, refl, ap (λ ts. opened s c ∷ ts) live)
launch-IsSound s (refused message) c closed = inl closed

start_after-IsSound :
    (detected : Option String) (s : Start) (c : Controller)
    → IsSound c
    → IsSound (rpc_start_after detected s c).0
start_after-IsSound (some message) s c sound = sound
start_after-IsSound none s c sound =
    launch-IsSound s s.launch (take_over s.free_port c) (take_over-IsClosed s.free_port c sound)

rpc_start-IsSound : (s : Start) (c : Controller) → IsSound c → IsSound (rpc_start s c).0
unfolding rpc_start
rpc_start-IsSound s c sound = start_after-IsSound s.detected s c sound

pub found :
    (context keep_alive : ℕ) (ts : List Tracker)
    → ts ≡ record { context = context; keep_alive = keep_alive } ∷ []
    → keep_alive_of context ts ≡ some keep_alive
found context keep_alive ts e = rw (e, keep_alive_of) (ground arith)

tick-cases :
    (context now port : ℕ) (c : Controller)
    → (tick context now port c ≡ c) ⊎ (tick context now port c ≡ disconnect port c)
unfolding tick
tick-cases context now port c = elim (Option-cases (keep_alive_of context c.live)) [
  | inl e ↦ inl (ground arith)
  | inr (k, e) ↦ elim (Bool-cases (is_overdue k c.last_request now)) [
    | inl late ↦ inr (ground arith)
    | inr early ↦ inl (ground arith)
  ]
]

tick-IsSound :
    (context now port : ℕ) (c : Controller) → IsSound c → IsSound (tick context now port c)
tick-IsSound context now port c sound = elim (tick-cases context now port c) [
  | inl same ↦ subst IsSound (sym same) sound
  | inr closed ↦ subst IsSound (sym closed) (inl (disconnect-IsClosed port c sound))
]

step-IsSound : (e : Event) (c : Controller) → IsSound c → IsSound (step e c)
unfolding new_request
step-IsSound (start s) c sound = rpc_start-IsSound s c sound
step-IsSound (stop port) c sound = inl (disconnect-IsClosed port c sound)
step-IsSound (request now) c (inl closed) = inl closed
step-IsSound (request now) c (inr open_session) = inr open_session
step-IsSound (wake context now port) c sound = tick-IsSound context now port c sound

-- Whatever requests and wakes a node under gRPC gets, one at a time: it is closed, with no backend, no goroutine and
-- no client, or it has a backend and the goroutines of exactly one session, the one that the next Disconnect cancels.
pub run-IsSound : (es : List Event) (c : Controller) → IsSound c → IsSound (run es c)
run-IsSound [] c sound = sound
run-IsSound (e ∷ es) c sound = run-IsSound es (step e c) (step-IsSound e c sound)

-- What a request to start leaves and answers.
abbrev pub StartOutcome :
    Option String → Launch → Start → Controller → Controller × Option String → Type 0
StartOutcome (some message) launch s c (c', error) = (c' ≡ c) × (error ≡ some message)
StartOutcome none (refused message) s c (c', error) = IsClosed c' × (error ≡ some message)
StartOutcome none (launched b) s c (c', error) =
    (error ≡ none)
    × (c'.backend ≡ some b)
    × (c'.client_ip ≡ s.ip)
    × (c'.last_request ≡ s.now)
    × (c'.live ≡ record { context = c'.cancel; keep_alive = s.keep_alive } ∷ [])

start_after-StartOutcome :
    (detected : Option String) (launch : Launch) (s : Start) (c : Controller)
    → s.launch ≡ launch
    → IsSound c
    → StartOutcome detected launch s c (rpc_start_after detected s c)
unfolding start_backend connect
start_after-StartOutcome (some message) launch s c e sound = (refl, refl)
start_after-StartOutcome none (refused message) s c e sound =
    rw e (take_over-IsClosed s.free_port c sound, refl)
start_after-StartOutcome none (launched b) s c e sound =
    let (_, live, _) = take_over-IsClosed s.free_port c sound in
    let taken = take_over s.free_port c in
    rw e (refl, refl, refl, refl, ap (λ ts. opened s taken ∷ ts) live)

-- Start over gRPC: an unreadable request changes nothing; a backend that does not start leaves the session closed
-- and returns the error; otherwise the new session has the backend, the client's address and time, and no goroutine of an
-- earlier session goes on.
pub rpc_start-StartOutcome :
    (s : Start) (c : Controller) → IsSound c → StartOutcome s.detected s.launch s c (rpc_start s c)
unfolding rpc_start
rpc_start-StartOutcome s c sound = start_after-StartOutcome s.detected s.launch s c refl sound

overdue :
    (k t now : ℕ)
    → k * 1000000000 < 9223372036854775808
    → is_overdue k t now ≡ (ltb 0 k && leb (t + k * 1000000000) now)
overdue k t now fits = grind arith

-- In an open session, where the keep-alive fits a Duration, a wake of its tracker after a request at time `t` closes
-- the session exactly where the client asked for a keep-alive and it has passed since the request.
pub keep_alive_exact :
    (c : Controller) (b : Backend) (k t now port : ℕ)
    → k * 1000000000 < 9223372036854775808
    → c.backend ≡ some b
    → c.live ≡ record { context = c.cancel; keep_alive = k } ∷ []
    → (tick c.cancel now port (new_request t c)).backend
      ≡ (if ltb 0 k && leb (t + k * 1000000000) now then none else some b)
unfolding tick disconnect new_request
keep_alive_exact c b k t now port fits backend live =
    ground (arith, found c.cancel k c.live live, overdue k t now fits)
