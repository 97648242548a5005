-- ===== src/Xray/Health.antt =====
-- checkXrayHealth of backend/xray/jobs.go, interleaved with what happens to its backend: Shutdown by the
-- session, SyncUsers of backend/xray/user.go by a handler that has fetched the backend, and the exit of the process. A step of the goroutine is what it does up to the next point at
-- which another may come in; how long it sleeps is not modelled.
pub mod Runs
use node_nats.Prelude.{
  String, List, ◌∷◌, ok, Option, none, some, Bool, true, false, ◌≡◌, if◌then◌else◌,
}
use node_nats.Prelude.Threads as Threads
use node_nats.Common.User.{User}
use node_nats.Common.Codes.{unknown, CallError, context_canceled, status, error_text}
use node_nats.Xray.User.{join}
use node_nats.Xray.Inbound.{Packages}
use node_nats.Xray.Core.{Process, Core, Answers}
use node_nats.Xray.Backend.{Xray, shutdown, restart_xray, sync_users}

-- GetSysStats of backend/xray/api/stats.go, by its error
abbrev pub get_sys_stats : Option CallError → Option CallError
get_sys_stats none = none
get_sys_stats (some e) = some (status unknown (join "failed to get sys stats: " (error_text e)))

-- errors.Is(err, context.Canceled)
abbrev pub is_canceled : CallError → Bool
is_canceled context_canceled = true
is_canceled _ = false

-- The goroutine: before the select, before the call, in the call, before the restart; gone; or it has
-- dereferenced the closed client, which ends the node.
pub data Job : Type 0 where
  selecting calling asking restarting ended crashed : Job

abbrev pub after_select : Bool → Job
after_select true = ended
after_select false = calling

-- client := *x.StatsServiceClient
abbrev pub after_client {ℓ} : {A : Type ℓ} → Option A → Job
after_client none = crashed
after_client (some client) = asking

abbrev pub after_answer : Option CallError → Job
after_answer none = selecting
after_answer (some e) = if is_canceled e then ended else restarting

-- An answer of the core that the goroutine has heard, and whether the backend's context was cancelled by then.
pub record Heard : Type 0 where
  pub cancelled : Bool
  pub error : Option CallError

-- `heard` has the latest answer first.
pub record Node : Type 0 where
  pub backend : Xray
  pub job : Job
  pub heard : List Heard

abbrev pub exit : Option Process → Option Process
exit none = none
exit (some p) = some (record p { exited = true })

-- `may_sync` is whether a handler may be in SyncUsers.
pub data Step (may_sync : Bool) (n : Node) : Node → Type 0 where
  selects :
      n.job ≡ selecting → Step may_sync n (record n { job = after_select n.backend.cancelled })
  calls : n.job ≡ calling → Step may_sync n (record n { job = after_client n.backend.handler })
  hears :
      (answer : Option CallError)
      → n.job ≡ asking
      → Step may_sync n (record n {
        job = after_answer (get_sys_stats answer);
        heard = record { cancelled = n.backend.cancelled; error = answer } ∷ n.heard;
      })
  restarts :
      (answers : Answers)
      → n.job ≡ restarting
      → Step may_sync n (record n { backend = (restart_xray answers n.backend).0; job = selecting })
  shuts_down : Step may_sync n (record n { backend = shutdown n.backend })
  syncs :
      (pkg : Packages) (answers : Answers) (users : List User) (x : Xray) (error : Option String)
      → may_sync ≡ true
      → sync_users pkg answers users n.backend ≡ ok (x, error)
      → Step may_sync n (record n { backend = x })
  exits : Step may_sync n (record n {
    backend = record n.backend {
      core = record n.backend.core { process = exit n.backend.core.process };
    };
  })

abbrev pub Reach : Bool → Node → Node → Type 0
Reach may_sync = Threads.Reach (Step may_sync)
