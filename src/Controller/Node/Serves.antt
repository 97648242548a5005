-- ===== src/Controller/Node/Serves.antt =====
-- A client of the node over gRPC: it starts the core, and then keeps its users in step.
use mathlib.Core.Path.{subst}
use node_nats.Prelude.{
  ℕ, ◌≡◌, refl, sym, ap, ◌∙◌, String, Option, none, some, List, ◌∷◌, true, false, ==_iff, All, mem,
  ok, ◌>>=◌,
}
use node_nats.Common.User.{User}
use node_nats.Xray.Inbound.{Packages, Inbound}
use node_nats.Xray.Config.{Config, LogConfig, api_inbound}
use node_nats.Xray.Config.Counting.{HasLevel}
use node_nats.Xray.Config.Api.{AtMostOneApi, IsRule, rules_of, without_api}
use node_nats.Xray.User.Grants.{HasDistinctEmails, HasUuids}
use node_nats.Xray.User.Round.{Each, IsSyncable}
use node_nats.Xray.User.Agreement.{FullSync}
use node_nats.Xray.Core.{Process, started}
use node_nats.Xray.Backend.{Xray, created, is_started}
use node_nats.Xray.Backend.Creation.{HostPasses, IsCreated, new_xray-IsCreated}
use node_nats.Controller.{
  Backend, Controller, new_request, take_over, start_backend, connect, rpc_start,
}
use node_nats.Controller.Access.{
  rpc_key, rpc_validate, rpc_checked, rpc_access, backend_methods, backend_status, full_method,
  Operation,
}
use node_nats.Controller.Access.Laws.{mem-backend_methods}
use node_nats.Controller.Node.{
  Node, view, Starting, start, done, launch_with, start_detected, detect_backend, handle, Sender,
  admitted, serve,
}
use node_nats.Controller.Node.Keeps.{HasKey}

key_passes :
    (api_key : ℕ) (key : Option ℕ) (now : ℕ) (c : Controller)
    → key ≡ some api_key
    → rpc_key api_key key now c ≡ (new_request now c, none)
key_passes api_key key now c e = rw e (rw ((==_iff api_key api_key).1 refl) refl)

validate_passes :
    (parse : String → Option ℕ) (api_key : ℕ) (sender : Sender) (c : Controller)
    → HasKey parse api_key sender
    → rpc_validate parse api_key sender.metadata sender.now c ≡ (new_request sender.now c, none)
unfolding rpc_validate
validate_passes parse api_key sender c (md, header, others, given, found, parsed) =
    rw (given, found) (key_passes api_key (parse header) sender.now c parsed)

access_checked :
    (parse : String → Option ℕ) (api_key : ℕ) (op : Operation) (sender : Sender) (c : Controller)
    → HasKey parse api_key sender
    → rpc_access parse api_key (full_method op) sender.metadata sender.now c
      ≡ rpc_checked (mem backend_methods (full_method op)) (new_request sender.now c, none)
unfolding rpc_access
access_checked parse api_key op sender c h =
    ap (rpc_checked (mem backend_methods (full_method op)))
      (validate_passes parse api_key sender c h)

-- A call of a handler that wants a running backend, where there is one.
pub running_passes :
    (parse : String → Option ℕ) (api_key : ℕ) (sender : Sender) (c : Controller) (b : Backend)
    → HasKey parse api_key sender
    → c.backend ≡ some b
    → b.started ≡ true
    → rpc_access parse api_key (full_method Operation.sync_user) sender.metadata sender.now c
      ≡ (new_request sender.now c, none)
unfolding new_request
running_passes parse api_key sender c b h has up =
    access_checked parse api_key Operation.sync_user sender c h
    ∙ ap (λ wants. rpc_checked wants (new_request sender.now c, none))
        (mem-backend_methods Operation.sync_user)
    ∙ ap (λ o. (new_request sender.now c, backend_status o)) has
    ∙ rw up refl

start_passes :
    (parse : String → Option ℕ) (api_key : ℕ) (sender : Sender) (c : Controller)
    → HasKey parse api_key sender
    → rpc_access parse api_key (full_method Operation.start) sender.metadata sender.now c
      ≡ (new_request sender.now c, none)
start_passes parse api_key sender c h =
    access_checked parse api_key Operation.start sender c h
    ∙ ap (λ wants. rpc_checked wants (new_request sender.now c, none))
        (mem-backend_methods Operation.start)

-- The node runs a core, and the inbounds of the backend's configuration have exactly the users' accounts.
pub record IsServing (pkg : Packages) (us : List User) (base : List Inbound) (n : Node)
    : Type 0 where
  pub xray : Xray
  pub has : n.xray ≡ some xray
  pub seen : n.session.backend ≡ some (view xray)
  pub up : is_started xray ≡ true
  pub synced : Each (FullSync pkg us) base xray.config.inbounds

-- What a start that succeeds is asked for, with the configuration that NewXRayConfig returns for it.
pub record IsReady (pkg : Packages) (config : Config) (l : LogConfig) (s : Starting) : Type 0 where
  pub detected : detect_backend s ≡ ok config
  pub passes : HostPasses s.host s.debug
  pub has_log : config.log_config ≡ some l
  pub one_api : AtMostOneApi config.inbounds
  pub level : HasLevel config.policy
  pub rules : All IsRule (rules_of config)
  pub syncable : All IsSyncable (without_api config.inbounds)
  pub distinct : HasDistinctEmails s.users
  pub uuids : All (HasUuids pkg) s.users

abbrev pub counted : Sender → Node → Node
counted sender n = record n { session = new_request sender.now n.session }

-- The port of the core's API that a start uses.
abbrev pub start_port : Starting → Node → ℕ
start_port s n = (take_over s.session.free_port n.session).api_port

-- The inbounds that the core is asked for: the API's, and the client's.
abbrev pub asked : Config → ℕ → List Inbound
asked config port = api_inbound port ∷ without_api config.inbounds

created-up :
    (x : Xray) (p : Process) → x.core.process ≡ some p → p.exited ≡ false → is_started x ≡ true
unfolding started
created-up x p e live = rw (e, live) refl

started-IsServing :
    (pkg : Packages) (config : Config) (s : Starting) (n : Node) (l : LogConfig) (port : ℕ)
    (x : Xray)
    → IsCreated pkg s.users port config l x
    → IsServing pkg s.users (asked config port) (launch_with s n (created x)).0
unfolding rpc_start start_backend connect
started-IsServing pkg config s n l port x made = record {
  xray = x;
  has = refl;
  seen = refl;
  up = created-up x _ made.process refl;
  synced =
      subst (λ is. Each (FullSync pkg s.users) (asked config port) is)
        (sym (ap (λ (c : Config). c.inbounds) made.left)) made.synced;
}

start_replies : (s : Starting) (n : Node) (x : Xray) → (launch_with s n (created x)).1 ≡ done
unfolding rpc_start start_backend connect
start_replies s n x = refl

pub serve-start :
    (pkg : Packages) (parse : String → Option ℕ) (api_key : ℕ) (sender : Sender) (s : Starting)
    (n : Node) (config : Config) (l : LogConfig)
    → HasKey parse api_key sender
    → IsReady pkg config l s
    → (n' : Node) × (serve pkg parse api_key sender (start s) n ≡ ok (n', done))
      × IsServing pkg s.users (asked config (start_port s (counted sender n))) n'
unfolding serve handle
serve-start pkg parse api_key sender s n config l key ready =
    let n₁ = counted sender n in
    let port = start_port s n₁ in
    let (x, run, made) =
      new_xray-IsCreated pkg s.host port s.debug config s.users l ready.passes ready.has_log
        ready.one_api ready.level ready.rules ready.syncable ready.distinct ready.uuids in
    (
      (launch_with s n₁ (created x)).0,
      ap (admitted pkg (start s) n) (start_passes parse api_key sender n.session key)
          ∙ ap (λ r. start_detected r pkg s n₁) ready.detected
          ∙ ap (λ r. r >>= (λ made. ok (launch_with s n₁ made))) run
          ∙ ap (λ reply. ok ((launch_with s n₁ (created x)).0, reply)) (start_replies s n₁ x),
      started-IsServing pkg config s n₁ l port x made,
    )
