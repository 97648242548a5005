-- ===== src/Xray/Health/Runs.antt =====
-- What checkXrayHealth of backend/xray/jobs.go does to a backend, in every interleaving with Shutdown and SyncUsers.
use node_nats.Prelude.{
  ℕ, String, ◌≡◌, refl, ap, ◌∙◌, ◌⊎◌, Option, some, List, ◌∷◌, ok, true, false, arith,
}
use node_nats.Prelude.Threads.{here, next}
use node_nats.Common.User.{User}
use node_nats.Xray.Inbound.{Packages, Inbound}
use node_nats.Xray.User.{sync_config}
use node_nats.Common.Codes.{CallError}
use node_nats.Xray.Config.{LogConfig, Config}
use node_nats.Xray.Core.{Core, Answers, started, stop, cleared_config, log_files}
use node_nats.Xray.Core.Restarts.{AllPass, running, restart_passed, stop_free}
use node_nats.Xray.Backend.{Xray, shutdown, restart_xray, sync_users}
use node_nats.Xray.Health.{
  selecting, calling, asking, ended, crashed, Node, Step, selects, calls, hears, restarts,
  shuts_down, syncs, exits, Reach, after_select, after_client,
}

-- Shut down, with no process, and the goroutine before its select or gone.
pub record IsDown (n : Node) : Type 0 where
  pub cancelled : n.backend.cancelled ≡ true
  pub free : started n.backend.core ≡ false
  pub job : (n.job ≡ selecting) ⊎ (n.job ≡ ended)

shutdown_free : (x : Xray) → started (shutdown x).core ≡ false
unfolding shutdown
shutdown_free x = stop_free x.core

Step-IsDown : {n m : Node} → Step false n m → IsDown n → IsDown m
unfolding started shutdown stop
Step-IsDown {n} (selects e) h = ground (arith, h)
Step-IsDown {n} (calls e) h = ground (arith, h)
Step-IsDown {n} (hears answer e) h = ground (arith, h)
Step-IsDown {n} (restarts answers e) h = ground (arith, h)
Step-IsDown {n} shuts_down h = record {
  cancelled = refl;
  free = shutdown_free n.backend;
  job = h.job;
}
Step-IsDown {n} (syncs pkg answers users x error may e) h = absurd (cc)
Step-IsDown {n} exits h = ground (arith, h)

-- After a Shutdown that finds the health check before its select, and while no handler that has the backend calls SyncUsers, no
-- process runs again, whatever the core answers and the system does.
pub Reach-IsDown : {n m : Node} → Reach false n m → IsDown n → IsDown m
Reach-IsDown here h = h
Reach-IsDown (next r s) h = Step-IsDown s (Reach-IsDown r h)

-- A restart that meets no error, of a backend whose core is not restarting.
restarted :
    (x : Xray) (a : Answers) (l : LogConfig)
    → AllPass a x.debug
    → x.config.log_config ≡ some l
    → x.core.restarting ≡ false
    → (restart_xray a x).0 ≡ record x {
      core = record (running (log_files l) (cleared_config l x.config) x.core) {
        restarting = false;
      };
      config = cleared_config l x.config;
    }
unfolding restart_xray
restarted x a l pass has idle =
    ap (λ (r : Core × Config × Option String). record x { core = r.0; config = r.1 })
      (restart_passed a x.debug x.config l x.core pass has idle)

shutdown-restarting : (x : Xray) → (shutdown x).core.restarting ≡ x.core.restarting
unfolding shutdown stop
shutdown-restarting x = ground arith

module _ (n : Node) (a : Answers) (l : LogConfig) (pass : AllPass a n.backend.debug)
    (has : n.backend.config.log_config ≡ some l) (idle : n.backend.core.restarting ≡ false) where
  -- A Shutdown while the health check waits for the core's answer, which is any error, that of the cancelled context included,
  -- and is the only one that it hears: where the core is not being restarted, the configuration has a log section
  -- and the restart meets no error, a process runs again although the backend is shut down, without a call of SyncUsers.
  pub shutdown_revives :
      (e : CallError)
      → n.job ≡ asking
      → (m : Node) × Reach false n m
        × (m.heard ≡ record { cancelled = true; error = some e } ∷ n.heard)
        × (m.backend.cancelled ≡ true)
        × (started m.backend.core ≡ true)
  unfolding started shutdown
  shutdown_revives e at =
      let down = shutdown n.backend in
      let back = restarted down a l pass has (shutdown-restarting n.backend ∙ idle) in
      (
        _,
        next (next (next here shuts_down) (hears (some e) at)) (restarts a refl),
        refl,
        rw back refl,
        rw back refl,
      )

  -- The health check heals a core whose process has exited: from before its select, with the client open and the backend
  -- not shut down, one call that fails, with whatever error, and a restart that meets no error, of a core that is
  -- not being restarted and a configuration with a log section, lead to a running process, without a
  -- call of SyncUsers, and with the health check before its select again.
  pub health_heals :
      (port : ℕ) (e : CallError)
      → n.job ≡ selecting
      → n.backend.cancelled ≡ false
      → n.backend.handler ≡ some port
      → started n.backend.core ≡ false
      → (m : Node) × Reach false n m
        × (m.heard ≡ record { cancelled = false; error = some e } ∷ n.heard)
        × (m.job ≡ selecting)
        × (m.backend.cancelled ≡ false)
        × (m.backend.handler ≡ some port)
        × (started m.backend.core ≡ true)
  unfolding started
  health_heals port e at live client exited =
      let back = restarted n.backend a l pass has idle in
      (
        _,
        next
            (next (next (next here (selects at)) (calls (ap after_select live)))
              (hears (some e) (ap after_client client)))
            (restarts a refl),
        ap (λ c. record { cancelled = c; error = some e } ∷ n.heard) live,
        refl,
        rw back live,
        rw back client,
        rw back refl,
      )

  -- A Shutdown after which a handler that has fetched the backend calls SyncUsers, whose users are put into the
  -- configuration: where the core is not being restarted, the configuration has a log section and the restart meets no
  -- error, a process runs again although the backend is shut down, and the health check has heard nothing meanwhile.
  pub sync_users_revives :
      (pkg : Packages) (users : List User) (inbounds : List Inbound)
      → sync_config pkg users n.backend.config.inbounds ≡ ok inbounds
      → (m : Node) × Reach true n m
        × (m.heard ≡ n.heard)
        × (m.job ≡ n.job)
        × (m.backend.cancelled ≡ true)
        × (m.backend.config.inbounds ≡ inbounds)
        × (started m.backend.core ≡ true)
  unfolding started shutdown sync_users
  sync_users_revives pkg users inbounds synced =
      let down = shutdown n.backend in
      let x = record down { config = record down.config { inbounds = inbounds } } in
      let back = restarted x a l pass has (shutdown-restarting n.backend ∙ idle) in
      (
        _,
        next (next here shuts_down)
            (syncs pkg a users (restart_xray a x).0 (restart_xray a x).1 refl (rw synced refl)),
        refl,
        refl,
        ap (λ (y : Xray). y.cancelled) back,
        ap (λ (y : Xray). y.config.inbounds) back,
        ap (λ (y : Xray). started y.core) back,
      )

-- A Shutdown between the select and the call ends the node: the call dereferences the closed client.
pub shutdown_crashes :
    (n : Node) → n.job ≡ calling → (m : Node) × Reach false n m × (m.job ≡ crashed)
unfolding shutdown
shutdown_crashes n at = (_, next (next here shuts_down) (calls at), refl)
