-- ===== src/Lib.antt =====
-- PasarGuard node: the users, the configuration and the control of a proxy core.
--
-- The node runs an Xray core for a client. A client opens a session over gRPC or REST (controller/), with
-- the core's configuration and a list of users. The node marks the inbounds that the client excludes, adds
-- its own API inbound, routing rule and policy, writes the users into the other inbounds and starts the
-- core (backend/xray/). While the core runs, the client changes one user (SyncUser) or all (SyncUsers) and
-- reads traffic counters.
--
-- Files, with the code that they model:
--
--   Common/User          common/service.proto, common/service.pb.go: the user and proxy messages, their
--                        getters, nil as `none`.
--   Common/Base64        encoding/base64 as EnsureBase64Password uses it, over bytes.
--   Common/Password      common/helper.go: EnsureBase64Password (`ensure_base64_password`).
--   Common/Codes         common/helper.go: GrpcCodeToHTTP and InterceptNotFound, with errors as values.
--   Xray/Account         backend/xray/api/account.go: accounts and their constructors.
--   Xray/Flow            backend/xray/user.go: checkVless (`check_vless`), over decoded JSON.
--   Xray/Inbound         backend/xray/config.go: Inbound with syncUsers, updateUser and removeUser
--                        (`sync_users`, `update_user`, `remove_user`).
--   Xray/User            backend/xray/user.go: setupUserAccount, isActiveInbound, SyncUser (`sync_user`);
--                        Config.syncUsers of config.go (`sync_config`).
--   Config               config/config.go: Load (`load`), with the address pattern as a regular expression
--                        (`match_string`) and strconv.Atoi (`atoi`).
--   Xray/Client          backend/xray/api/base.go, message.go and proxyman.go: the requests that the calls of
--                        SyncUser send (`perform`), with the Message methods of account.go. Xray/Client/Outbounds:
--                        the calls for outbound users.
--   Xray/Config          backend/xray/config.go: filterRules, ApplyAPI (`apply_api`), checkPolicy,
--                        RemoveLogFiles, and the loop of NewXRayConfig (`mark_excluded`).
--   Xray/Core            backend/xray/core.go: Start, Stop and Restart of the process (`start`, `stop`,
--                        `restart`).
--   Xray/Status          backend/xray/jobs.go: checkXrayStatus (`check_status`), with its log pattern.
--   Xray/Health          backend/xray/jobs.go: checkXrayHealth as a step relation (`Step`).
--   Xray/Backend         backend/xray/xray.go: NewXray (`new_xray`), Restart and Shutdown; SyncUser and
--                        SyncUsers of backend/xray/user.go on a backend (`sync_one`, `sync_users`).
--   Xray/Logs            backend/xray/log.go: the pattern of access lines, the buffered channel, and a
--                        reader of the process's output with Stop coming in (`step`).
--   Xray/Stats           backend/xray/api/stats.go: the counter requests (`scope_stats` for the plural ones,
--                        `named_stats` for the singular ones); GetStats of backend/xray/stats.go.
--                        Xray/Stats/Online: the two requests for who is online.
--   Logger               logger/logger.go: SetLogFile, Log and Close (`set_log_file`, `log`, `close`).
--   Tools                tools/port.go: FindFreePort (`find_free_port`); tools/sys.go: GetSystemStats
--                        (`get_system_stats`) and getBandwidthSpeed. Tools/Certificates: tools/tls.go, tools/file.go.
--   Controller           controller/controller.go: the session; Start of controller/rpc/base.go
--                        (`rpc_start`) and of controller/rest/base.go (`rest_start`).
--   Controller/Access    controller/rpc/middleware.go (`rpc_access`), controller/rest/middleware.go with
--                        the routes of controller/rest/service.go (`rest_access`).
--   Controller/Handlers  controller/rpc/user.go and stats.go, controller/rest/user.go and stats.go.
--   Controller/Logs      GetLogs of controller/rpc/log.go (`rpc_logs`) and controller/rest/log.go (`rest_logs`).
--   Controller/Node      the node under gRPC: the interceptors of controller/rpc/middleware.go in front of
--                        the handlers, on one session and its backend (`serve`, `serve_all`).
--                        Controller/Node/Rest: the same calls under REST (`serve`), with the middlewares and
--                        routes of controller/rest.
--   Controller/Interceptors  the interceptors of controller/rpc/middleware.go one by one, with what they log
--                        (`conditional`, `conditional_stream`), chained by an argument.
--   Controller/Races     Start, Stop and the wakes of controller/controller.go as overlapping threads (`Move`,
--                        `Step`, `Reach`).
--   Controller/Uses      the handlers that use a backend, overlapping with Disconnect (`Move`, `Step`, `Reach`).
--   Xray/Core/Steps      Start, Stop and Restart of backend/xray/core.go as overlapping threads.
--   Xray/Version         backend/xray/core.go: refreshVersion (`refresh_version`) and GenerateConfigFile.
--   Start                main.go: the address to listen at (`address`) and the ends of `main`; the listeners' errors
--                        and the server's stop, of controller/rpc/service.go.
--   Prelude              shared types, tests and lemmas, and the runs of threads (Prelude/Threads).
--                        Tests: the theorems at concrete inputs.
--
-- The modules below a component hold its proofs and are named for what they prove. Xray/Inbound/View gives
-- the abstract view of an inbound, a map from email to account, and Xray/Inbound/Slice that of a
-- synchronisation; Xray/User compares the two ways to synchronise users through it. Xray/User/Told relates
-- the calls of the core's API to the configuration; what the core makes of them is not modelled, and the
-- record of a backend does not hold them.
--
-- Correspondence. A call returns a Result: a value, an error, or a panic, which is what Go does at a nil
-- dereference, a failed type assertion or an index out of range. A pointer is an Option, a nil map too. A
-- JSON value that the code only looks into is a tree (Xray/Flow); what it only carries is kept as it is.
-- Methods that mutate an inbound or the configuration return the new one, since one mutex makes each of
-- them a step; the shift in place of ApplyAPI's loop is modelled on the array, with its length and
-- its stale tail. Native numbers stand for the integers that are carried only; the Duration of a keep-alive
-- wraps at 2 ^ 64, and so do the sums of tools/sys.go. A handler of the controller, and a wake of a
-- keep-alive tracker, is one step, and `Controller.Session.run` composes the steps
-- of a session whose backend is only a flag and a version. `Controller.Node.serve_all` composes whole calls: the
-- checks, the session, NewXray and SyncUser on the backend that the session has. Goroutines are modelled
-- in the interleavings that matter to them: the health check with Shutdown and SyncUsers (Xray/Health), cut at its select,
-- its call and its restart; a reader of the core's output with Stop and with receivers (Xray/Logs), cut
-- at its select, its send and its call of the logger; and the handlers that open and close a session with
-- the wakes of trackers (Controller/Races), cut at the test of Backend, in Disconnect before cancelFunc and
-- before the mutex, and between StartBackend and Connect. Controller/Uses cuts the other handlers at their
-- fetch of the backend and their calls on it, Xray/Core/Steps cuts Restart at its flag, Stop and Start.
--
-- Code of other packages is an argument: `Packages` holds uuid.Parse, which may accept or refuse any text,
-- and sha256.Sum256, of which the theorems that need it assume a digest of 32 bytes; the chains of go-
-- grpc-middleware are a function whose documented law is a hypothesis; the answers of the core's API to
-- AlterInbound and QueryStats are functions; what the system answers while a backend is created is `Host`;
-- NewXray's answer, the clock and FindFreePort's port are data of a request to the controller. The
-- environment and uuid.Parse are arguments of Load, proto.Marshal and the core's answer are arguments of
-- the client of its API. The patterns of jobs.go and log.go are written out as functions on texts, that of
-- config.go as an expression with its matcher.
--
-- Fuel: `remove_from` counts the rounds of Go's range loop, which is fixed at the length of the slice
-- on entry, so that no run is cut short; `find_from` counts the ports that are left below 65536. The loops
-- over a channel run over the lines or users that are received; all other loops are structural.
--
-- Not modelled: the making of listeners and of the HTTP client for tests, encoding to JSON and protobuf, the log of
-- the REST middleware, what a panic that the REST router recovers leaves, and how long a goroutine sleeps.
pub mod Prelude
pub mod Common
pub mod Config
pub mod Xray
pub mod Logger
pub mod Tools
pub mod Controller
pub mod Start
mod Tests
