-- ===== src/Xray/Core/Steps.antt =====
-- Start, Stop and Restart of backend/xray/core.go as overlapping threads: Restart is cut between its flag, Stop, Start and the
-- flag's reset, and Start before its lock. A thread is a goroutine by its number: a handler, or the health check. All work
-- on one core and one configuration. The test and the setting of the log section are one step.
pub mod Logged
pub mod Single
pub mod Leaks
use node_nats.Prelude.{
  ℕ, suc, ◌-◌, ◌≡◌, String, Option, none, some, Bool, true, false, ◌==◌, if◌then◌else◌,
}
use node_nats.Prelude.Threads as Threads
use node_nats.Prelude.Threads.{put}
use node_nats.Xray.Config.{LogConfig, Config}
use node_nats.Xray.Core.{
  Process, LogFiles, Core, Answers, started, launch, cleared_config, log_files, stop,
}

-- The core, the configuration, and how many loggers Start has made that are not closed.
pub record Shared : Type 0 where
  pub core : Core
  pub config : Config
  pub loggers : ℕ

-- Where a thread is: in Restart before Stop, in Start before it reads the log section and before its lock, and in
-- Restart before the flag's reset. Start is called by Restart or by itself.
pub data Pc : Type 0 where
  idle : Pc
  flagged : Pc
  preparing : (in_restart : Bool) → Pc
  locking : (in_restart : Bool) → LogFiles → Config → Pc
  resetting : Pc

abbrev pub returned : Bool → Pc
returned in_restart = if in_restart then resetting else idle

abbrev pub ended : Option Process → Option Process
ended none = none
ended (some p) = some (record p { exited = true })

abbrev pub exit : Core → Core
exit c = record c { process = ended c.process }

abbrev pub counted : Option String → ℕ → ℕ
counted none n = suc n
counted (some message) n = n

-- The loggers after Start at its lock, and after Stop.
abbrev pub made : Answers → Core → ℕ → ℕ
made a c n = if started c then n else counted a.pipes n

abbrev pub dropped : Option LogFiles → ℕ → ℕ
dropped none n = n
dropped (some files) n = n - 1

abbrev pub closed : Core → ℕ → ℕ
closed c n = if started c then dropped c.logger n else n

abbrev pub stopped : Shared → Shared
stopped m = record m { core = stop m.core; loggers = closed m.core m.loggers }

abbrev pub launched : Answers → LogFiles → Config → Shared → Shared
launched a files config m = record m {
  core = (launch a files config m.core).0;
  loggers = made a m.core m.loggers;
}

abbrev pub flag : Bool → Shared → Shared
flag b m = record m { core = record m.core { restarting = b } }

-- A step of one thread. `exits` is the process's own.
pub data Move (m : Shared) : Pc → Shared → Pc → Type 0 where
  exits : Move m idle (record m { core = exit m.core }) idle
  stops : Move m idle (stopped m) idle
  starts : Move m idle m (preparing false)
  refuses : m.core.restarting ≡ true → Move m idle m idle
  restarts : m.core.restarting ≡ false → Move m idle (flag true m) flagged
  kills : Move m flagged (stopped m) (preparing true)
  misses : (r : Bool) → m.config.log_config ≡ none → Move m (preparing r) m (returned r)
  prepares :
      (r : Bool) (l : LogConfig)
      → m.config.log_config ≡ some l
      → Move m
          (preparing r)
          (record m { config = cleared_config l m.config })
          (locking r (log_files l) (cleared_config l m.config))
  gives_up :
      (r : Bool) (files : LogFiles) (config : Config)
      → Move m (locking r files config) m (returned r)
  launches :
      (r : Bool) (files : LogFiles) (config : Config) (a : Answers)
      → Move m (locking r files config) (launched a files config m) (returned r)
  resets : Move m resetting (flag false m) idle

pub record System : Type 0 where
  pub shared : Shared
  pub pc : ℕ → Pc

pub data Step (s : System) : System → Type 0 where
  pick :
      (i : ℕ) {m : Shared} {p : Pc}
      → Move s.shared (s.pc i) m p
      → Step s (record { shared = m; pc = put s.pc i p })

abbrev pub Reach : System → System → Type 0
Reach = Threads.Reach Step

-- No call is under way.
abbrev pub quiet : Shared → System
quiet m = record { shared = m; pc = λ i. idle }
