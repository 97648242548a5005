-- ===== src/Xray/Backend/Creation.antt =====
-- What NewXray of backend/xray/xray.go leaves.
use node_nats.Prelude.{
  ℕ, ◌≡◌, refl, ap, ◌∙◌, String, Option, none, some, List, ◌∷◌, Bool, true, false, All, Result, ok,
  fail, panic, inl, inr, ◌>>=◌,
}
use node_nats.Common.User.{User}
use node_nats.Xray.Inbound.{Packages, Inbound, kind_of}
use node_nats.Xray.User.{sync_config}
use node_nats.Xray.User.Grants.{HasDistinctEmails, HasUuids}
use node_nats.Xray.User.Round.{Each, IsSyncable}
use node_nats.Xray.User.Agreement.{FullSync, sync_config-FullSync}
use node_nats.Xray.Config.{LogConfig, Config, apply_api, api_inbound}
use node_nats.Xray.Config.Counting.{HasLevel}
use node_nats.Xray.Config.Api.{
  AtMostOneApi, IsRule, IsApplied, rules_of, without_api, apply_api-IsApplied,
}
use node_nats.Xray.Core.{Core, started, start, cleared_config, log_files}
use node_nats.Xray.Core.Restarts.{AllPass, running, start_passed, stop_free}
use node_nats.Xray.Core.Reports.{Reports, start-Reports}
use node_nats.Xray.Status.{check_status}
use node_nats.Xray.Backend.{
  Xray, Host, new_xray_core, Created, created, refused, shutdown, connect_api, await_core,
  check_started, start_core, prepare, create_at, new_xray,
}

-- A backend is created with its core running and its client open; where the creation fails or panics, no
-- core that it has started goes on.
abbrev pub Settled : ℕ → Result Created → Type 0
Settled port (ok (created x)) =
    (started x.core ≡ true) × (x.cancelled ≡ false) × (x.handler ≡ some port)
Settled port (ok (refused none message)) = Unit
Settled port (ok (refused (some core) message)) = started core ≡ false
Settled port (fail message) = Unit
Settled port panic = Unit

shutdown_free : (x : Xray) → started (shutdown x).core ≡ false
unfolding shutdown
shutdown_free x = stop_free x.core

connect-Settled :
    (answer : Option String) (port : ℕ) (x : Xray)
    → started x.core ≡ true
    → x.cancelled ≡ false
    → Settled port (ok (connect_api answer port x))
connect-Settled none port x up live = (up, live, refl)
connect-Settled (some message) port x up live = shutdown_free x

await-Settled :
    (answer : Option String) (host : Host) (port : ℕ) (x : Xray)
    → started x.core ≡ true
    → x.cancelled ≡ false
    → Settled port (ok (await_core answer host port x))
await-Settled none host port x up live = connect-Settled host.new_api port x up live
await-Settled (some message) host port x up live = shutdown_free x

start-Settled :
    (host : Host) (port : ℕ) (debug : Bool) (r : Core × Config × Option String)
    → Reports r.2 r.0
    → Settled port (ok (check_started host port debug r))
start-Settled host port debug (core, config, some message) h = h
start-Settled host port debug (core, config, none) h =
    await-Settled (check_status host.version host.lines) host port _ h refl

core-Settled :
    (answer : Option String) (host : Host) (port : ℕ) (debug : Bool) (c : Config)
    → Settled port (ok (start_core answer host port debug c))
unfolding started
core-Settled (some message) host port debug c = tt
core-Settled none host port debug c =
    start-Settled host port debug (start host.answers debug c new_xray_core)
      (start-Reports host.answers debug c new_xray_core refl)

module _ (pkg : Packages) (host : Host) (port : ℕ) (debug : Bool) where
  prepared-Settled :
      (r : Result Config)
      → Settled port (r >>= (λ c. ok (start_core host.new_core host port debug c)))
  prepared-Settled (ok c) = core-Settled host.new_core host port debug c
  prepared-Settled (fail m) = tt
  prepared-Settled panic = tt

  create-Settled :
      (answer : Option String) (config : Option Config) (users : Option (List User))
      → Settled port (create_at answer pkg host port debug config users)
  create-Settled (some message) config users = tt
  create-Settled none none users = tt
  create-Settled none (some config) users = prepared-Settled (prepare pkg port config users)

  -- Whatever NewXray is given and the system answers: where it returns a backend, the core runs and the client of its
  -- API is open; where it returns an error, no process that it has started goes on.
  pub new_xray-Settled :
      (config : Option Config) (users : Option (List User))
      → Settled port (new_xray pkg host port debug config users)
  unfolding new_xray
  new_xray-Settled config users = create-Settled host.paths config users

-- Nothing that the system answers while the backend is created is an error.
abbrev pub HostPasses : Host → Bool → Type 0
HostPasses host debug =
    (host.paths ≡ none)
    × (host.new_core ≡ none)
    × AllPass host.answers debug
    × (check_status host.version host.lines ≡ none)
    × (host.new_api ≡ none)

-- The inbounds that the core is started with: the API's, then those of the client with their users.
pub record IsCreated (pkg : Packages) (users : List User) (port : ℕ) (config : Config)
    (l : LogConfig) (x : Xray) : Type 0 where
  pub applied : Config
  pub is_applied : IsApplied config port applied
  pub inbounds : List Inbound
  pub synced : Each (FullSync pkg users) (api_inbound port ∷ without_api config.inbounds) inbounds
  pub left : x.config ≡ cleared_config l (record applied { inbounds = inbounds })
  pub process : x.core.process ≡ some (record { config = x.config; exited = false })
  pub logger : x.core.logger ≡ some (log_files l)
  pub open_at : x.handler ≡ some port

api_inbound-IsSyncable : (port : ℕ) → IsSyncable (api_inbound port)
unfolding kind_of
api_inbound-IsSyncable port = inl (inr refl)

prepared :
    (pkg : Packages) (port : ℕ) (c c' : Config) (us : List User) (is : List Inbound)
    → apply_api c port ≡ ok c'
    → sync_config pkg us c'.inbounds ≡ ok is
    → prepare pkg port c (some us) ≡ ok (record c' { inbounds = is })
unfolding prepare
prepared pkg port c c' us is e₁ e₂ = simp (e₁, e₂)

abbrev unconnected : Host → Bool → LogConfig → Config → Xray
unconnected host debug l c = record {
  config = cleared_config l c;
  debug = debug;
  version = host.version;
  core = running (log_files l) (cleared_config l c) new_xray_core;
  handler = none;
  cancelled = false;
}

started_core :
    (host : Host) (port : ℕ) (debug : Bool) (c : Config) (l : LogConfig)
    → HostPasses host debug
    → c.log_config ≡ some l
    → start_core host.new_core host port debug c
      ≡ created (record (unconnected host debug l c) { handler = some port })
unfolding started
started_core host port debug c l (_, new_core, pass, status, api) has =
    ap (λ o. start_core o host port debug c) new_core
    ∙ ap (check_started host port debug)
        (start_passed host.answers debug c l new_xray_core pass has refl)
    ∙ ap (λ o. await_core o host port (unconnected host debug l c)) status
    ∙ ap (λ o. connect_api o port (unconnected host debug l c)) api

created_from :
    (pkg : Packages) (host : Host) (port : ℕ) (debug : Bool) (c c' : Config) (us : List User)
    → host.paths ≡ none
    → prepare pkg port c (some us) ≡ ok c'
    → new_xray pkg host port debug (some c) (some us)
      ≡ ok (start_core host.new_core host port debug c')
unfolding new_xray
created_from pkg host port debug c c' us paths e =
    ap (λ o. create_at o pkg host port debug (some c) (some us)) paths
    ∙ ap (λ r. r >>= (λ k. ok (start_core host.new_core host port debug k))) e

-- Where nothing fails on the system's side, the configuration has a log section, at most one inbound of the API's tag, rules
-- that decode into maps and no nil at level 0, its other inbounds have no users or clients that fit, and the users have
-- distinct emails and UUIDs as ids: NewXray returns a backend. Its core runs the configuration that ApplyAPI makes, with
-- the API's inbound first and each other inbound synchronised to the users, logs to the files of the
-- log section, which is cleared, and the client is open at the port.
pub new_xray-IsCreated :
    (pkg : Packages) (host : Host) (port : ℕ) (debug : Bool) (c : Config) (us : List User)
    (l : LogConfig)
    → HostPasses host debug
    → c.log_config ≡ some l
    → AtMostOneApi c.inbounds
    → HasLevel c.policy
    → All IsRule (rules_of c)
    → All IsSyncable (without_api c.inbounds)
    → HasDistinctEmails us
    → All (HasUuids pkg) us
    → (x : Xray) × (new_xray pkg host port debug (some c) (some us) ≡ ok (created x))
      × IsCreated pkg us port c l x
new_xray-IsCreated pkg host port debug c us l passes log one level rules syncable distinct uuids =
    let (c', run, applied) = apply_api-IsApplied c port one level rules in
    let (is, synced, each) =
      sync_config-FullSync pkg us distinct uuids (api_inbound port ∷ without_api c.inbounds)
        (api_inbound-IsSyncable port, syncable) in
    let made = record c' { inbounds = is } in
    (
      record (unconnected host debug l made) { handler = some port },
      created_from pkg host port debug c made us passes.0
            (prepared pkg port c c' us is run (ap (sync_config pkg us) applied.inbounds ∙ synced))
          ∙ ap ok (started_core host port debug made l passes (applied.log_config ∙ log)),
      record {
        applied = c';
        is_applied = applied;
        inbounds = is;
        synced = each;
        left = refl;
        process = refl;
        logger = refl;
        open_at = refl;
      },
    )
