-- ===== src/Tests/Process.antt =====
-- Starts and restarts of backend/xray/core.go at a concrete log section.
use node_nats.Prelude.{◌≡◌, refl, none, some, false}
use node_nats.Xray.Flow.{end}
use node_nats.Xray.Config.{LogConfig, Config}
use node_nats.Xray.Core.{Core, Answers, started, start, stop, restart}
use node_nats.Xray.Core.Restarts.{restart_loses_log_files}
use node_nats.Tests.Start.{config}

abbrev pub section : LogConfig
section = record {
  access_log = "access.log";
  error_log = "error.log";
  log_level = "none";
  other = end;
}

abbrev with_log : Config
with_log = record config { log_config = some section }

abbrev pub fine : Answers
fine = record { generate = some "no directory"; pipes = none; log_file = none; command = none }

abbrev pub idle : Core
idle = record { process = none; restarting = false; logger = none }

restart_loses_log_files_example :
    (restart fine false
      (start fine false with_log idle).1
      (start fine false with_log idle).0).0.logger
    ≡ some (record { access = ""; error = "" })
unfolding started
restart_loses_log_files_example =
    restart_loses_log_files fine fine false with_log section idle (refl, refl, refl, refl)
      (refl, refl, refl, refl) refl refl refl

first_start :
    (start fine false with_log idle).0.logger
    ≡ some (record { access = "access.log"; error = "error.log" })
unfolding start
first_start = refl

start_twice :
    (start fine false with_log (start fine false with_log idle).0).2
    ≡ some "xray is started already"
unfolding start
start_twice = refl

start_without_log : (start fine false config idle).2 ≡ some "log config is empty"
unfolding start
start_without_log = refl

stopping_keeps_idle : stop idle ≡ idle
unfolding stop
stopping_keeps_idle = refl
