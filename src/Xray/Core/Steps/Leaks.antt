-- ===== src/Xray/Core/Steps/Leaks.antt =====
-- What restarts leave open.
use mathlib.Core.Path.{subst}
use node_nats.Prelude.{ℕ, zero, suc, ◌+◌, ◌≡◌, refl, sym, ap, ◌∙◌, none, some, true, false, arith}
use node_nats.Prelude.Threads.{here, next, Reach-trans}
use node_nats.Xray.Config.{LogConfig, remove_log_files}
use node_nats.Xray.Core.{Answers, started, raise_level, cleared_config, log_files, stop}
use node_nats.Xray.Core.Steps.{
  Shared, idle, exit, stopped, launched, flag, Move, exits, restarts, kills, prepares, launches,
  resets, System, pick, Reach, quiet,
}
use node_nats.Xray.Core.Steps.Logged.{ended-down, started-restarting}

abbrev pub good : Answers
good = record { generate = none; pipes = none; log_file = none; command = none }

-- Thread 0 is idle, the core runs and is not being restarted, and the configuration has a log section.
abbrev pub Runs : System → Type 0
Runs s =
    (s.pc 0 ≡ idle)
    × (started s.shared.core ≡ true)
    × (s.shared.core.restarting ≡ false)
    × ((l : LogConfig) × (s.shared.config.log_config ≡ some l))

abbrev exited : Shared → Shared
exited m = record m { core = exit m.core }

abbrev halted : Shared → Shared
halted m = stopped (flag true (exited m))

abbrev relaunched : LogConfig → Shared → Shared
relaunched l m = flag false (
    launched good (log_files l) (cleared_config l m.config)
      (record (halted m) { config = cleared_config l m.config }))

halted-down : (m : Shared) → started (record (exit m.core) { restarting = true }) ≡ false
halted-down m = started-restarting true (exit m.core) ∙ ended-down m.core.process m.core

relaunched-Runs :
    (l : LogConfig) (m : Shared)
    → (started (relaunched l m).core ≡ true) × ((relaunched l m).loggers ≡ suc m.loggers)
unfolding stop started
relaunched-Runs l m = let down = halted-down m in (rw (down, down) refl, rw (down, down) refl)

-- The process exits, and thread 0 restarts the core.
round :
    (s : System) (l : LogConfig)
    → s.pc 0 ≡ idle
    → s.shared.core.restarting ≡ false
    → s.shared.config.log_config ≡ some l
    → (t : System) × Reach s t × (t.pc 0 ≡ idle) × (t.shared ≡ relaunched l s.shared)
round s l e clear section =
    let ended =
      next here (pick 0 (subst (λ q. Move s.shared q (exited s.shared) idle) (sym e) exits)) in
    let killed = next (next ended (pick 0 (restarts clear))) (pick 0 kills) in
    let running =
      next (next killed (pick 0 (prepares true l section)))
        (pick 0 (launches true (log_files l) (cleared_config l s.shared.config) good)) in
    (_, next running (pick 0 resets), refl, refl)

rounds :
    (k : ℕ) (s : System)
    → Runs s
    → (t : System) × Reach s t × Runs t × (t.shared.loggers ≡ k + s.shared.loggers)
rounds zero s h = (s, here, h, omega arith)
rounds (suc k) s h =
    let (t, r, up, count) = rounds k s h in
    let (e, _, clear, (l, section)) = up in
    let (u, q, at, same) = round t l e clear section in
    let (runs, more) = relaunched-Runs l t.shared in
    (
      u,
      Reach-trans r q,
      (
        at,
        ap (λ (m : Shared). started m.core) same ∙ runs,
        ap (λ (m : Shared). m.core.restarting) same,
        ((remove_log_files (raise_level l)).0, ap (λ (m : Shared). m.config.log_config) same),
      ),
      ap (λ (m : Shared). m.loggers) same ∙ more ∙ ap suc count ∙ omega arith,
    )

-- A running core that is not being restarted, with a log section: its process can exit and be restarted by one thread any
-- number of times, so that the core runs and as many more loggers are left unclosed as there were exits.
pub restarts_leak_loggers :
    (k : ℕ) (m : Shared) (l : LogConfig)
    → started m.core ≡ true
    → m.core.restarting ≡ false
    → m.config.log_config ≡ some l
    → (t : System) × Reach (quiet m) t × Runs t × (t.shared.loggers ≡ k + m.loggers)
restarts_leak_loggers k m l up clear section = rounds k (quiet m) (refl, up, clear, (l, section))
