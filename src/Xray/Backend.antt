-- ===== src/Xray/Backend.antt =====
-- backend/xray/xray.go: the backend that a session has. What the system answers while it is created is
-- `Host`; the context's values are arguments. The mutex makes each method one step.
pub mod Creation
use node_nats.Prelude.{
  ℕ, String, Option, none, some, List, Bool, true, false, Result, ok, fail, panic, ◌>>=◌,
}
use node_nats.Common.User.{User}
use node_nats.Xray.Inbound.{Packages}
use node_nats.Xray.Account.{Account}
use node_nats.Xray.User.{sync_user, sync_config}
use node_nats.Xray.Config.{Config, apply_api}
use node_nats.Xray.Core.{Core, Answers, started, start, stop, restart}
use node_nats.Xray.Status.{check_status}

-- `handler` is the client of the core's API, by its port, while it is not closed; `cancelled` is the
-- state of the context that cancelFunc cancels.
pub record Xray : Type 0 where
  pub config : Config
  pub debug : Bool
  pub version : String
  pub core : Core
  pub handler : Option ℕ
  pub cancelled : Bool

-- The errors of filepath.Abs, NewXRayCore and NewXrayAPI, the core's version, the answers to its start
-- and the lines that it logs before the deadline.
pub record Host : Type 0 where
  pub paths : Option String
  pub new_core : Option String
  pub version : String
  pub answers : Answers
  pub lines : List String
  pub new_api : Option String

abbrev pub new_xray_core : Core
new_xray_core = record { process = none; restarting = false; logger = none }

-- A creation that is refused leaves the core, where there is one, as it is.
pub data Created : Type 0 where
  created : Xray → Created
  refused : Option Core → String → Created

unfoldable pub shutdown : Xray → Xray
unfolding stop
shutdown x = record x { cancelled = true; core = stop x.core; handler = none }

-- Restart
unfoldable pub restart_xray : Answers → Xray → Xray × Option String
unfolding restart
restart_xray answers x =
    let (core, config, error) = restart answers x.debug x.config x.core in
    (record x { core = core; config = config }, error)

abbrev pub is_started : Xray → Bool
is_started x = started x.core

-- The rest of NewXray after the core's start: the wait, then the client of the core's API.
abbrev pub connect_api : Option String → ℕ → Xray → Created
connect_api (some message) port x = refused (some (shutdown x).core) message
connect_api none port x = created (record x { handler = some port })

abbrev pub await_core : Option String → Host → ℕ → Xray → Created
await_core (some message) host port x = refused (some (shutdown x).core) message
await_core none host port x = connect_api host.new_api port x

abbrev pub check_started : Host → ℕ → Bool → Core × Config × Option String → Created
check_started host port debug (core, config, some message) = refused (some core) message
check_started host port debug (core, config, none) =
    await_core (check_status host.version host.lines) host port (record {
      config = config;
      debug = debug;
      version = host.version;
      core = core;
      handler = none;
      cancelled = false;
    })

abbrev pub start_core : Option String → Host → ℕ → Bool → Config → Created
start_core (some message) host port debug config = refused none message
start_core none host port debug config =
    check_started host port debug (start host.answers debug config new_xray_core)

-- The configuration that the core is started with; the users are asserted to be a list of users.
unfoldable pub prepare : Packages → ℕ → Config → Option (List User) → Result Config
unfolding apply_api sync_config
prepare pkg port config none = apply_api config port >>= (λ c. panic)
prepare pkg port config (some users) = do
  c ← apply_api config port
  inbounds ← sync_config pkg users c.inbounds
  ok (record c { inbounds = inbounds })

abbrev pub create_with :
    Packages → Host → ℕ → Bool → Option Config → Option (List User) → Result Created
create_with pkg host port debug none users =
    ok (refused none "xray config has not been initialized")
create_with pkg host port debug (some config) users = do
  c ← prepare pkg port config users
  ok (start_core host.new_core host port debug c)

abbrev pub create_at :
    Option String → Packages → Host → ℕ → Bool → Option Config → Option (List User) → Result Created
create_at (some message) pkg host port debug config users = ok (refused none message)
create_at none pkg host port debug config users = create_with pkg host port debug config users

-- NewXray
unfoldable pub new_xray :
    Packages → Host → ℕ → Bool → Option Config → Option (List User) → Result Created
unfolding prepare start check_status shutdown
new_xray pkg host port debug config users = create_at host.paths pkg host port debug config users

-- SyncUser, on the client that is open.
unfoldable pub sync_one :
    Packages → (String → Account → Option String) → User → Xray → Result (Xray × Option String)
unfolding sync_user
sync_one pkg answers user x = do
  (inbounds, calls, error) ← sync_user pkg answers user x.config.inbounds
  ok (record x { config = record x.config { inbounds = inbounds } }, error)

-- SyncUsers: the configuration is synchronised, and the core is started again with it.
unfoldable pub sync_users : Packages → Answers → List User → Xray → Result (Xray × Option String)
unfolding sync_config restart_xray
sync_users pkg answers users x = do
  inbounds ← sync_config pkg users x.config.inbounds
  ok (restart_xray answers (record x { config = record x.config { inbounds = inbounds } }))
