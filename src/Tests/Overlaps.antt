-- ===== src/Tests/Overlaps.antt =====
-- Overlapping calls on a core and on a backend at concrete inputs.
use node_nats.Prelude.{refl, some, false}
use node_nats.Prelude.Threads.{here, next}
use node_nats.Xray.Core.{Core}
use node_nats.Xray.Core.Steps.{Shared, restarts, kills, starts, System, pick, Reach, quiet}
use node_nats.Xray.Core.Steps.Single.{IsExclusive, Reach-IsExclusive}
use node_nats.Controller.Uses as Uses
use node_nats.Controller.Uses.Stops.{HasPanicked, stop_crashes_stream}
use node_nats.Tests.Start.{config}
use node_nats.Tests.Process.{section}

abbrev up : Core
up = record {
  process = some (record { config = config; exited = false });
  restarting = false;
  logger = some (record { access = "a"; error = "b" });
}

abbrev shared : Shared
shared = record { core = up; config = record config { log_config = some section }; loggers = 1 }

-- Thread 0 is in Start, and thread 1 in Restart.
abbrev overlapping : (t : System) × Reach (quiet shared) t
overlapping = (_, next (next (next here (pick 0 starts)) (pick 1 (restarts refl))) (pick 1 kills))

Reach-IsExclusive_example : IsExclusive overlapping.0
Reach-IsExclusive_example = Reach-IsExclusive shared refl (λ _ e. absurd (cc)) overlapping.1

-- The first backend is open in the field.
abbrev node : Uses.Shared
node = record { backend = some 0; shut = λ k. false; made = 1; called = 7 }

stop_crashes_stream_example :
    ((t : Uses.System) × HasPanicked node 2 (Uses.nil_client 0) t)
    × ((t : Uses.System) × HasPanicked node 2 Uses.nil_backend t)
stop_crashes_stream_example = stop_crashes_stream 2 node 0 refl refl
