-- ===== src/Xray/Core/Reports.antt =====
-- Starts and restarts of the core's process: an error goes with no process.
use mathlib.Core.Path.{subst}
use node_nats.Prelude.{
  ◌≡◌, refl, sym, String, Option, none, some, Bool, true, false, arith, if◌then◌else◌,
}
use node_nats.Xray.Config.{LogConfig, Config}
use node_nats.Xray.Core.{
  LogFiles, Core, Answers, started, launch, launch_free, cleared_config, log_files, start_generated,
  start_with, start, stop, restart,
}
use node_nats.Xray.Core.Restarts.{stop_free}

-- With an error no process runs, without one a process does.
abbrev pub Reports : Option String → Core → Type 0
Reports none c = started c ≡ true
Reports (some message) c = started c ≡ false

launch_free-Reports :
    (pipes log_file command : Option String) (files : LogFiles) (config : Config) (c : Core)
    → c.process ≡ none
    → let r = launch_free pipes log_file command files config c in Reports r.1 r.0
unfolding started
launch_free-Reports (some m) log_file command files config c e = ground arith
launch_free-Reports none (some m) command files config c e = ground arith
launch_free-Reports none none (some m) files config c e = ground arith
launch_free-Reports none none none files config c e = refl

free_launch :
    (a : Answers) (files : LogFiles) (config : Config) (c : Core)
    → started c ≡ false
    → launch a files config c
      ≡ launch_free a.pipes a.log_file a.command files config (record c { process = none })
free_launch a files config c free = simp (free)

launch-Reports :
    (a : Answers) (files : LogFiles) (config : Config) (c : Core)
    → started c ≡ false
    → Reports (launch a files config c).1 (launch a files config c).0
launch-Reports a files config c free =
    subst (λ r. Reports r.1 r.0) (sym (free_launch a files config c free))
      (launch_free-Reports a.pipes a.log_file a.command files config (record c { process = none })
        refl)

start_generated-Reports :
    (answer : Option String) (l : LogConfig) (a : Answers) (config : Config) (c : Core)
    → started c ≡ false
    → let r = start_generated answer l a config c in Reports r.2 r.0
start_generated-Reports (some m) l a config c free = free
start_generated-Reports none l a config c free =
    launch-Reports a (log_files l) (cleared_config l config) c free

start_with-Reports :
    (o : Option LogConfig) (a : Answers) (debug : Bool) (config : Config) (c : Core)
    → started c ≡ false
    → let r = start_with o a debug config c in Reports r.2 r.0
start_with-Reports none a debug config c free = free
start_with-Reports (some l) a debug config c free =
    start_generated-Reports (if debug then a.generate else none) l a config c free

pub start-Reports :
    (a : Answers) (debug : Bool) (config : Config) (c : Core)
    → started c ≡ false
    → Reports (start a debug config c).2 (start a debug config c).0
unfolding start
start-Reports a debug config c free = start_with-Reports config.log_config a debug config c free

abbrev settled : Core × Config × Option String → Core × Config × Option String
settled (c, config, error) = (record c { restarting = false }, config, error)

idle_restart :
    (a : Answers) (debug : Bool) (config : Config) (c : Core)
    → c.restarting ≡ false
    → restart a debug config c
      ≡ settled (start a debug config (stop (record c { restarting = true })))
unfolding restart
idle_restart a debug config c idle = simp (idle)

settled-Reports :
    (r : Core × Config × Option String) → Reports r.2 r.0 → Reports (settled r).2 (settled r).0
unfolding started
settled-Reports (c, config, none) h = h
settled-Reports (c, config, some m) h = h

-- A Restart that is not within another one leaves a process running exactly where it returns no error,
-- whatever ran before.
pub restart-Reports :
    (a : Answers) (debug : Bool) (config : Config) (c : Core)
    → c.restarting ≡ false
    → Reports (restart a debug config c).2 (restart a debug config c).0
restart-Reports a debug config c idle =
    let stopped = stop (record c { restarting = true }) in
    subst (λ r. Reports r.2 r.0) (sym (idle_restart a debug config c idle))
      (settled-Reports (start a debug config stopped)
        (start-Reports a debug config stopped (stop_free (record c { restarting = true }))))
