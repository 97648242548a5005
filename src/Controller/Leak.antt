-- ===== src/Controller/Leak.antt =====
-- The session over REST, which is opened before its backend is started: what a failed start leaves.
use node_nats.Prelude.{ℕ, ◌≡◌, refl, String, none, some, [], ◌∷◌, arith}
use node_nats.Controller.{
  Backend, Controller, connect, disconnect, launched, refused, start_backend, Start, rest_start,
}
use node_nats.Controller.Session.{IsClosed, take_over-none}

-- A start over REST that fails, on a closed session.
abbrev failed : Start → Controller → Controller
failed s c = connect s.ip s.keep_alive s.now c

rest_start-refused :
    (s : Start) (c : Controller) (message : String)
    → c.backend ≡ none
    → s.detected ≡ none
    → s.launch ≡ refused message
    → rest_start s c ≡ (failed s c, some message)
unfolding rest_start start_backend
rest_start-refused s c message closed read answer =
    rw (read, take_over-none s.free_port c closed, answer) refl

rest_start-launched :
    (s : Start) (c : Controller) (b : Backend)
    → c.backend ≡ none
    → s.detected ≡ none
    → s.launch ≡ launched b
    → rest_start s c ≡ (record (failed s c) { backend = some b }, none)
unfolding rest_start start_backend
rest_start-launched s c b closed read answer =
    rw (read, take_over-none s.free_port c closed, answer) refl

-- On a closed session, a start over REST that is read but whose backend does not start returns the error and leaves the
-- goroutines of its context; after a second start, which succeeds, and a stop, they still run.
pub rest_start_leaks :
    (c : Controller) (s s' : Start) (message : String) (b : Backend) (port : ℕ)
    → IsClosed c
    → s.detected ≡ none
    → s.launch ≡ refused message
    → s'.detected ≡ none
    → s'.launch ≡ launched b
    → ((rest_start s c).1 ≡ some message)
      × ((disconnect port (rest_start s' (rest_start s c).0).0).live
          ≡ record { context = c.made; keep_alive = s.keep_alive } ∷ [])
unfolding disconnect connect
rest_start_leaks c s s' message b port (closed, live, _) read answer read' answer' =
    rw
      (
        rest_start-refused s c message closed read answer,
        rest_start-launched s' (failed s c) b closed read' answer',
      )
      (refl, rw live (ground arith))
