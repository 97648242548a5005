-- ===== src/Controller/Races.antt =====
-- The handlers Start and Stop of controller/rpc/base.go and the wakes of keepAliveTracker of
-- controller/controller.go, cut where another goroutine may come in: at the test of Backend, in Disconnect between
-- cancelFunc and the mutex, and between StartBackend and Connect. A goroutine is a thread by its number. A wake of a
-- tracker is a thread's too, so that one tracker may wake in two threads here, which the code does not do.
pub mod Serial
pub mod Overlaps
use node_nats.Prelude.{
  ℕ, zero, suc, ◌≡◌, String, Option, none, some, List, [], ◌∷◌, Bool, true, false, ◌==◌,
  if◌then◌else◌,
}
use node_nats.Prelude.Threads as Threads
use node_nats.Prelude.Threads.{put}
use node_nats.Controller.{
  Backend, Controller, cancelled, connect, new_request, launched, refused, Start, keep_alive_of,
  is_overdue,
}

-- Disconnect up to the mutex, and from there on, with the port that FindFreePort answers.
unfoldable pub cancel_context : Controller → Controller
cancel_context c = record c { live = cancelled c.cancel c.live }

unfoldable pub drop_backend : ℕ → Controller → Controller
drop_backend port c = record c { backend = none; api_port = port; client_ip = "" }

-- StartBackend where NewXray returns a backend
unfoldable pub store : Backend → Controller → Controller
store b c = record c { backend = some b }

-- What a thread does after Disconnect: it goes on with a start, it returns from a stop, or, the tracker of a context, it
-- sleeps.
pub data After : Type 0 where
  then_start : Start → After
  then_end : After
  then_sleep : (context : ℕ) → After

-- What the threads share: the controller, how many running backends StartBackend has overwritten, which nothing shuts down
-- any more, and for whom Disconnect has run, the latest first.
pub record Shared : Type 0 where
  pub session : Controller
  pub lost : ℕ
  pub left : List After

-- Where a thread is: before the test of Backend, in Disconnect before cancelFunc and before the mutex, before StartBackend,
-- before Connect, and in a wake before it reads the last request.
pub data Pc : Type 0 where
  idle : Pc
  asked : Start → Pc
  leaving : After → Pc
  dropping : After → Pc
  starting : Start → Pc
  connecting : Start → Pc
  reading : (context keep_alive : ℕ) → Pc

abbrev pub resume : After → Pc
resume (then_start s) = starting s
resume then_end = idle
resume (then_sleep context) = idle

abbrev pub overwritten : Option Backend → ℕ → ℕ
overwritten none lost = lost
overwritten (some b) lost = suc lost

-- A step of one thread; `may_start` is whether it serves requests to start.
pub data Move (may_start : Bool) (m : Shared) : Pc → Shared → Pc → Type 0 where
  asks : (s : Start) → may_start ≡ true → Move may_start m idle m (asked s)
  stops : Move may_start m idle m (leaving then_end)
  requests :
      (now : ℕ) → Move may_start m idle (record m { session = new_request now m.session }) idle
  sees_none : (s : Start) → m.session.backend ≡ none → Move may_start m (asked s) m (starting s)
  sees_some :
      (s : Start) (b : Backend)
      → m.session.backend ≡ some b
      → Move may_start m (asked s) m (leaving (then_start s))
  cancels :
      (next : After)
      → Move may_start m
          (leaving next)
          (record m { session = cancel_context m.session })
          (dropping next)
  drops :
      (next : After) (port : ℕ)
      → Move may_start m
          (dropping next)
          (record m { session = drop_backend port m.session; left = next ∷ m.left })
          (resume next)
  launches :
      (s : Start) (b : Backend)
      → s.launch ≡ launched b
      → Move may_start m
          (starting s)
          (record {
            session = store b m.session;
            lost = overwritten m.session.backend m.lost;
            left = m.left;
          })
          (connecting s)
  fails :
      (s : Start) (message : String)
      → s.launch ≡ refused message
      → Move may_start m (starting s) m idle
  connects :
      (s : Start)
      → Move may_start m
          (connecting s)
          (record m { session = connect s.ip s.keep_alive s.now m.session })
          idle
  wakes :
      (context keep_alive : ℕ)
      → keep_alive_of context m.session.live ≡ some keep_alive
      → Move may_start m idle m (reading context keep_alive)
  reads_late :
      (context keep_alive now : ℕ)
      → is_overdue keep_alive m.session.last_request now ≡ true
      → Move may_start m (reading context keep_alive) m (leaving (then_sleep context))
  reads_early :
      (context keep_alive now : ℕ)
      → is_overdue keep_alive m.session.last_request now ≡ false
      → Move may_start m (reading context keep_alive) m idle

pub record System : Type 0 where
  pub shared : Shared
  pub pc : ℕ → Pc

pub data Step (may_start : ℕ → Bool) (s : System) : System → Type 0 where
  pick :
      (i : ℕ) {m : Shared} {p : Pc}
      → Move (may_start i) s.shared (s.pc i) m p
      → Step may_start s (record { shared = m; pc = put s.pc i p })

abbrev pub Reach : (ℕ → Bool) → System → System → Type 0
Reach may_start = Threads.Reach (Step may_start)

-- No call is under way.
abbrev pub quiet : Controller → System
quiet c = record { shared = record { session = c; lost = 0; left = [] }; pc = λ i. idle }

abbrev pub everyone : ℕ → Bool
everyone i = true

-- One thread serves the requests to start, one after the other.
abbrev pub only_first : ℕ → Bool
only_first zero = true
only_first (suc i) = false
