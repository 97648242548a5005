-- ===== src/Xray/Core/Restarts.antt =====
-- Starts, stops and restarts of the core's process.
use node_nats.Prelude.{
  ◌≡◌, refl, ap, ◌∙◌, inl, inr, none, some, Bool, true, false, arith, str_eq, if◌then◌else◌,
  Bool-cases, ◌||◌,
}
use node_nats.Xray.Config.{LogConfig, Config, remove_log_files}
use node_nats.Xray.Core.{
  LogFiles, Core, Answers, started, raise_level, launch, launch_free, start_with, start_generated,
  cleared_config, log_files, start, stop, restart,
}

-- Nothing fails.
abbrev pub AllPass : Answers → Bool → Type 0
AllPass a debug =
    (a.pipes ≡ none)
    × (a.log_file ≡ none)
    × (a.command ≡ none)
    × ((if debug then a.generate else none) ≡ none)

-- The core after a start: a process with the configuration, and a logger for the files.
abbrev pub running : LogFiles → Config → Core → Core
running files config c = record c {
  logger = some files;
  process = some (record { config = config; exited = false });
}

launch_passed :
    (a : Answers) (files : LogFiles) (config : Config) (c : Core)
    → a.pipes ≡ none
    → a.log_file ≡ none
    → a.command ≡ none
    → started c ≡ false
    → launch a files config c ≡ (running files config c, none)
launch_passed a files config c pipes log_file command free =
    simp (free, pipes, log_file, command, launch_free)

start_with_passed :
    (a : Answers) (debug : Bool) (config : Config) (l : LogConfig) (c : Core)
    → AllPass a debug
    → started c ≡ false
    → start_with (some l) a debug config c
      ≡ (running (log_files l) (cleared_config l config) c, cleared_config l config, none)
start_with_passed a debug config l c (pipes, log_file, command, generate) free =
    ap (λ o. start_generated o l a config c) generate
    ∙ ap (λ r. (r.0, cleared_config l config, r.1))
        (launch_passed a (log_files l) (cleared_config l config) c pipes log_file command free)

pub start_passed :
    (a : Answers) (debug : Bool) (config : Config) (l : LogConfig) (c : Core)
    → AllPass a debug
    → config.log_config ≡ some l
    → started c ≡ false
    → start a debug config c
      ≡ (running (log_files l) (cleared_config l config) c, cleared_config l config, none)
unfolding start
start_passed a debug config l c pass has free =
    ap (λ o. start_with o a debug config c) has ∙ start_with_passed a debug config l c pass free

pub stop_free : (c : Core) → started (stop c) ≡ false
unfolding started stop
stop_free c = elim (Bool-cases (started c)) [
  | inl up ↦ rw (up, stop) refl
  | inr down ↦ rw (down, stop) down
]

-- A Restart that is not within another one and meets no error brings the core up from any state: it runs the
-- configuration with the log section that Start makes of its own, and logs to the files that the section named.
pub restart_passed :
    (a : Answers) (debug : Bool) (config : Config) (l : LogConfig) (c : Core)
    → AllPass a debug
    → config.log_config ≡ some l
    → c.restarting ≡ false
    → restart a debug config c ≡ (
      record (running (log_files l) (cleared_config l config) c) { restarting = false },
      cleared_config l config,
      none,
    )
unfolding restart
restart_passed a debug config l c pass has idle = simp (
  idle,
  start_passed a debug config l (stop (record c { restarting = true })) pass has
      (stop_free (record c { restarting = true })),
)

log_files-cleared :
    (l : LogConfig)
    → l.access_log ≡ ""
    → l.error_log ≡ ""
    → log_files l ≡ record { access = ""; error = "" }
unfolding remove_log_files raise_level
log_files-cleared l access error =
    elim (Bool-cases (str_eq l.log_level "none" || str_eq l.log_level "error")) [
      | inl silent ↦ ground (arith, silent)
      | inr loud ↦ ground (arith, loud)
    ]

-- A core that was started without error with a log section, and is then restarted without error with the configuration that
-- Start left, logs to no file, whatever files the section named.
pub restart_loses_log_files :
    (a a' : Answers) (debug : Bool) (config : Config) (l : LogConfig) (c : Core)
    → AllPass a debug
    → AllPass a' debug
    → config.log_config ≡ some l
    → started c ≡ false
    → c.restarting ≡ false
    → (restart a' debug (start a debug config c).1 (start a debug config c).0).0.logger
      ≡ some (record { access = ""; error = "" })
unfolding remove_log_files
restart_loses_log_files a a' debug config l c pass pass' has free idle =
    let l' = (remove_log_files (raise_level l)).0 in
    rw
      (
        start_passed a debug config l c pass has free,
        restart_passed a' debug (cleared_config l config) l'
            (running (log_files l) (cleared_config l config) c) pass' refl idle,
      )
      (ap some (log_files-cleared l' refl refl))
