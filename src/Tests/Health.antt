-- ===== src/Tests/Health.antt =====
-- The health check of backend/xray/jobs.go at concrete backends.
use node_nats.Prelude.{◌≡◌, refl, inl, none, some, [], ◌∷◌, true, false}
use node_nats.Prelude.Threads.{here, next}
use node_nats.Common.Codes.{context_canceled, plain}
use node_nats.Xray.Core.{started}
use node_nats.Xray.Core.Restarts.{running}
use node_nats.Xray.Backend.{Xray}
use node_nats.Xray.Health.{Node, selecting, asking, ended, Reach, Step, selects, exit}
use node_nats.Xray.Health.Runs.{
  IsDown, Reach-IsDown, shutdown_revives, health_heals, sync_users_revives,
}
use node_nats.Tests.Process.{section, fine, idle}
use node_nats.Tests.Digest.{packages}
use node_nats.Tests.Sync.{ann, bob, inbounds}
use node_nats.Tests.Handlers.{synced}
use node_nats.Tests.Backend.{wanted}

abbrev up : Xray
up = record {
  config = wanted;
  debug = false;
  version = "25.3.6";
  core = running (record { access = ""; error = "" }) wanted idle;
  handler = some 20000;
  cancelled = false;
}

abbrev down : Xray
down = record up { core = idle; handler = none; cancelled = true }

down-IsDown : IsDown (record { backend = down; job = selecting; heard = [] })
unfolding started
down-IsDown = record { cancelled = refl; free = refl; job = inl refl }

ends :
    Step false
      (record { backend = down; job = selecting; heard = [] })
      (record { backend = down; job = ended; heard = [] })
ends = selects refl

Reach-IsDown_example : IsDown (record { backend = down; job = ended; heard = [] })
Reach-IsDown_example = Reach-IsDown (next here ends) down-IsDown

shutdown_revives_example :
    (m : Node) × Reach false (record { backend = up; job = asking; heard = [] }) m
    × (m.heard ≡ record { cancelled = true; error = some context_canceled } ∷ [])
    × (m.backend.cancelled ≡ true)
    × (started m.backend.core ≡ true)
shutdown_revives_example =
    shutdown_revives (record { backend = up; job = asking; heard = [] }) fine section
      (refl, refl, refl, refl) refl refl context_canceled refl

exited : started (record up.core { process = exit up.core.process }) ≡ false
unfolding started
exited = refl

health_heals_example :
    (m : Node) × Reach false
      (record {
        backend = record up { core = record up.core { process = exit up.core.process } };
        job = selecting;
        heard = [];
      })
      m
    × (m.heard ≡ record { cancelled = false; error = some (plain "connection refused") } ∷ [])
    × (m.job ≡ selecting)
    × (m.backend.cancelled ≡ false)
    × (m.backend.handler ≡ some 20000)
    × (started m.backend.core ≡ true)
health_heals_example =
    health_heals
      (record {
        backend = record up { core = record up.core { process = exit up.core.process } };
        job = selecting;
        heard = [];
      })
      fine section (refl, refl, refl, refl) refl refl 20000 (plain "connection refused") refl refl
      refl exited

-- A backend whose inbounds take users.
abbrev serving : Xray
serving = record up { config = record wanted { inbounds = inbounds } }

sync_users_revives_example :
    (m : Node) × Reach true (record { backend = serving; job = ended; heard = [] }) m
    × (m.heard ≡ [])
    × (m.job ≡ ended)
    × (m.backend.cancelled ≡ true)
    × (m.backend.config.inbounds ≡ synced.0)
    × (started m.backend.core ≡ true)
sync_users_revives_example =
    sync_users_revives (record { backend = serving; job = ended; heard = [] }) fine section
      (refl, refl, refl, refl) refl refl packages (ann ∷ bob ∷ []) synced.0 synced.1
