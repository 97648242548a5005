-- ===== src/Tests/Backend.antt =====
-- The creation of a backend of backend/xray/xray.go, and the wait for its core, at concrete inputs.
use node_nats.Prelude.{◌≡◌, refl, ◌↔◌, inr, none, some, String, List, [], ◌∷◌, false, All, ok}
use node_nats.Xray.Config.{Config}
use node_nats.Xray.Config.Api.{AtMostOneApi, without_api}
use node_nats.Xray.User.Round.{IsSyncable}
use node_nats.Xray.Status.{log_fields, failure_of, check_status}
use node_nats.Xray.Status.Laws.{StartSeen, check_status-StartSeen}
use node_nats.Xray.Backend.{Xray, Host, created, new_xray}
use node_nats.Xray.Backend.Creation.{Settled, IsCreated, new_xray-Settled, new_xray-IsCreated}
use node_nats.Tests.Digest.{packages}
use node_nats.Tests.Sync.{
  ann, bob, bare, secret, bare-IsReady, secret-IsReady, distinct, ann-HasUuids, bob-HasUuids,
}
use node_nats.Tests.Start.{config, old_api, no_policy, config_rules}
use node_nats.Tests.Process.{section, fine}

abbrev pub wanted : Config
wanted = record config { log_config = some section; inbounds = bare ∷ old_api ∷ secret ∷ [] }

abbrev pub lines : List String
lines =
    "Xray 25.3.6 (Xray, Penetrates Everything.)"
    ∷ "2025/01/02 03:04:05 [Warning] core: Xray 25.3.6 started" ∷ []

abbrev pub host : Host
host = record {
  paths = none;
  new_core = none;
  version = "25.3.6";
  answers = fine;
  lines = lines;
  new_api = none;
}

fields_of_line :
    log_fields "2025/01/02 03:04:05 [Error] app: no such file" ≡ some ("Error", "app: no such file")
unfolding log_fields
fields_of_line = refl

failure_of_line :
    failure_of "2025/01/02 03:04:05 [Error] app: no such file"
    ≡ some "failed to start xray: app: no such file"
unfolding failure_of
failure_of_line = refl

failure_without_format :
    failure_of "Failed to start: x" ≡ some "failed to start xray: Failed to start: x"
unfolding failure_of
failure_without_format = refl

pub host-HasStarted : check_status "25.3.6" lines ≡ none
unfolding check_status
host-HasStarted = refl

check_status-StartSeen_example : (check_status "25.3.6" lines ≡ none) ↔ StartSeen "25.3.6" lines
check_status-StartSeen_example = check_status-StartSeen "25.3.6" lines

pub one : AtMostOneApi wanted.inbounds
one = inr (bare ∷ [], old_api, secret ∷ [], refl, refl, (refl, tt), (refl, tt))

pub syncable : All IsSyncable (without_api wanted.inbounds)
syncable = (inr (refl, bare-IsReady), (inr (refl, secret-IsReady), tt))

new_xray-IsCreated_example :
    (x : Xray) × (new_xray packages host 20000 false (some wanted) (some (ann ∷ bob ∷ []))
      ≡ ok (created x))
    × IsCreated packages (ann ∷ bob ∷ []) 20000 wanted section x
new_xray-IsCreated_example =
    new_xray-IsCreated packages host 20000 false wanted (ann ∷ bob ∷ []) section
      (refl, refl, (refl, refl, refl, refl), host-HasStarted, refl) refl one no_policy config_rules
      syncable distinct (ann-HasUuids, (bob-HasUuids, tt))

new_xray-Settled_example : Settled 20000 (
    new_xray packages
      (record host { new_api = some "no client" })
      20000
      false
      (some wanted)
      (some (ann ∷ [])))
new_xray-Settled_example =
    new_xray-Settled packages (record host { new_api = some "no client" }) 20000 false (some wanted)
      (some (ann ∷ []))
