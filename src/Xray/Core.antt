-- ===== src/Xray/Core.antt =====
-- The core's process: backend/xray/core.go. The mutex makes Stop, and Start from its lock on, one step; a
-- Restart is one step too, which Xray/Core/Steps cuts. What the system answers to a start is data. The
-- version is in Xray/Version; the goroutines that read the process's output are in Xray/Logs; an error of
-- ToBytes, which Start ignores, is left out.
pub mod Restarts
pub mod Reports
pub mod Steps
use node_nats.Prelude.{
  String, Option, none, some, Bool, true, false, not, ◌||◌, str_eq, if◌then◌else◌,
}
use node_nats.Xray.Config.{LogConfig, Config, remove_log_files}

pub record Process : Type 0 where
  pub config : Config
  pub exited : Bool

-- The files that SetLogFile was called with.
pub record LogFiles : Type 0 where
  pub access : String
  pub error : String

pub record Core : Type 0 where
  pub process : Option Process
  pub restarting : Bool
  pub logger : Option LogFiles

-- The errors of GenerateConfigFile, of the pipes, of SetLogFile and of the command's start.
pub record Answers : Type 0 where
  pub generate : Option String
  pub pipes : Option String
  pub log_file : Option String
  pub command : Option String

-- Started
unfoldable pub started : Core → Bool
started c = elim c.process [ none ↦ false | some p ↦ not p.exited ]

unfoldable pub raise_level : LogConfig → LogConfig
raise_level l =
    if str_eq l.log_level "none" || str_eq l.log_level "error"
    then record l { log_level = "warning" }
    else l

-- Start after its check, with an orphaned process killed and dropped.
abbrev pub launch_free :
    (pipes log_file command : Option String) → LogFiles → Config → Core → Core × Option String
launch_free (some message) log_file command files config c = (c, some message)
launch_free none (some message) command files config c =
    (record c { logger = some files }, some message)
launch_free none none (some message) files config c =
    (record c { logger = some files }, some message)
launch_free none none none files config c = (
  record c { logger = some files; process = some (record { config = config; exited = false }) },
  none,
)

abbrev pub launch : Answers → LogFiles → Config → Core → Core × Option String
launch a files config c =
    if started c
    then (c, some "xray is started already")
    else launch_free a.pipes a.log_file a.command files config (record c { process = none })

-- The configuration that Start works on, and the files of its log section, which it clears.
abbrev pub cleared_config : LogConfig → Config → Config
cleared_config l config = record config { log_config = some (remove_log_files (raise_level l)).0 }

abbrev pub log_files : LogConfig → LogFiles
log_files l =
    let (_, access, error) = remove_log_files (raise_level l) in
    record { access = access; error = error }

-- Start, at GenerateConfigFile's answer and at the log section. The caller's configuration is changed,
-- whether the start fails or not.
abbrev pub start_generated :
    Option String → LogConfig → Answers → Config → Core → Core × Config × Option String
start_generated (some message) l a config c = (c, cleared_config l config, some message)
start_generated none l a config c =
    let (c', error) = launch a (log_files l) (cleared_config l config) c in
    (c', cleared_config l config, error)

abbrev pub start_with :
    Option LogConfig → Answers → Bool → Config → Core → Core × Config × Option String
start_with none a debug config c = (c, config, some "log config is empty")
start_with (some l) a debug config c =
    start_generated (if debug then a.generate else none) l a config c

unfoldable pub start : Answers → Bool → Config → Core → Core × Config × Option String
unfolding started raise_level remove_log_files
start a debug config c = start_with config.log_config a debug config c

unfoldable pub stop : Core → Core
unfolding started
stop c = if started c then record c { process = none; logger = none } else c

unfoldable pub restart : Answers → Bool → Config → Core → Core × Config × Option String
unfolding start stop
restart a debug config c =
    if c.restarting
    then (c, config, some "xray is already restarting")
    else let (c', config', error) = start a debug config (stop (record c { restarting = true })) in
      (record c' { restarting = false }, config', error)
