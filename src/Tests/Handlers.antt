-- ===== src/Tests/Handlers.antt =====
-- The handlers of controller/rpc and controller/rest at concrete answers and users.
use node_nats.Prelude.{ℕ, ◌≡◌, refl, none, some, List, [], ◌∷◌, false, ok}
use node_nats.Common.Codes.{plain}
use node_nats.Xray.Inbound.{Inbound}
use node_nats.Xray.User.{sync_config}
use node_nats.Xray.User.Round.{Each}
use node_nats.Xray.User.Agreement.{FullSync, sync_config-FullSync}
use node_nats.Xray.Backend.{Xray}
use node_nats.Controller.Handlers.{error, rest_stats, http_error}
use node_nats.Tests.Digest.{packages}
use node_nats.Tests.Sync.{
  ann, bob, inbounds, distinct, ann-HasUuids, bob-HasUuids, inbounds-IsSyncable,
}
use node_nats.Tests.Process.{idle}
use node_nats.Tests.Start.{config}

missing :
    rest_stats {A = ℕ} none (error (plain "user>>>ann>>>online not found."))
    ≡ http_error 404 "rpc error: code = NotFound desc = user>>>ann>>>online not found."
unfolding rest_stats
missing = refl

-- A backend whose inbounds are synchronised to one user.
pub synced :
    (is : List Inbound) × (sync_config packages (ann ∷ bob ∷ []) inbounds ≡ ok is)
    × Each (FullSync packages (ann ∷ bob ∷ [])) inbounds is
synced =
    sync_config-FullSync packages (ann ∷ bob ∷ []) distinct (ann-HasUuids, (bob-HasUuids, tt))
      inbounds inbounds-IsSyncable

abbrev backend : Xray
backend = record {
  config = record config { inbounds = synced.0 };
  debug = false;
  version = "25.3.6";
  core = idle;
  handler = some 20000;
  cancelled = false;
}
