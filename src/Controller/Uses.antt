-- ===== src/Controller/Uses.antt =====
-- The handlers of controller/rpc/user.go and stats.go that use a backend, overlapping with Disconnect and StartBackend of
-- controller/controller.go: a handler passes the check of middleware.go, fetches the backend, and calls the core's API on
-- it; SyncUser fetches it again for each user of its stream, without the check. A backend is its number in the order of
-- creation. Of the check only the test for a backend is here; that the core runs makes fewer calls pass. A step `calls`
-- stands for the calls of the core that one user, or one request, takes.
pub mod Stops
use node_nats.Prelude.{ℕ, suc, ◌≡◌, Option, none, some, Bool, true, false, ◌==◌, if◌then◌else◌}
use node_nats.Prelude.Threads as Threads
use node_nats.Prelude.Threads.{put}

-- The field `backend`, the backends whose clients Shutdown has set to nil, how many backends there have been, and how many
-- calls of the core's API were answered.
pub record Shared : Type 0 where
  pub backend : Option ℕ
  pub shut : ℕ → Bool
  pub made : ℕ
  pub called : ℕ

-- What a thread panics of: the call of a method on no backend, or of a client that Shutdown has set to nil.
pub data Panic : Type 0 where
  nil_backend : Panic
  nil_client : ℕ → Panic

-- Where a thread is: outside, past the check, with a backend that it has fetched, or in a panic, which ends the node.
pub data Pc : Type 0 where
  outside : Pc
  passed : Pc
  holding : ℕ → Pc
  crashed : Panic → Pc

abbrev pub shut_down : Option ℕ → (ℕ → Bool) → ℕ → Bool
shut_down none shut k = shut k
shut_down (some b) shut k = if k == b then true else shut k

-- Disconnect under its mutex, and StartBackend where NewXray returns a backend.
abbrev pub dropped : Shared → Shared
dropped m = record m { backend = none; shut = shut_down m.backend m.shut }

abbrev pub stored : Shared → Shared
stored m = record m { backend = some m.made; made = suc m.made }

abbrev pub answered : Shared → Shared
answered m = record m { called = suc m.called }

-- A step of one thread.
pub data Move (m : Shared) : Pc → Shared → Pc → Type 0 where
  drops : Move m outside (dropped m) outside
  stores : Move m outside (stored m) outside
  passes : (b : ℕ) → m.backend ≡ some b → Move m outside m passed
  fetches : (b : ℕ) → m.backend ≡ some b → Move m passed m (holding b)
  fetches_nil : m.backend ≡ none → Move m passed m (crashed nil_backend)
  calls : (b : ℕ) → m.shut b ≡ false → Move m (holding b) (answered m) (holding b)
  calls_nil : (b : ℕ) → m.shut b ≡ true → Move m (holding b) m (crashed (nil_client b))
  receives : (b : ℕ) → Move m (holding b) m passed
  returns : (b : ℕ) → Move m (holding b) m outside

pub record System : Type 0 where
  pub shared : Shared
  pub pc : ℕ → Pc

pub data Step (s : System) : System → Type 0 where
  pick :
      (i : ℕ) {m : Shared} {p : Pc}
      → Move s.shared (s.pc i) m p
      → Step s (record { shared = m; pc = put s.pc i p })

abbrev pub Reach : System → System → Type 0
Reach = Threads.Reach Step

-- No call is under way.
abbrev pub unused : Shared → System
unused m = record { shared = m; pc = λ i. outside }
