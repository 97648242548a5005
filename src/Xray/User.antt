-- ===== src/Xray/User.antt =====
-- backend/xray/user.go: the accounts of a user, and the synchronisation of one user or of all.
-- The core's own API is seen through the calls that it gets, in order; the answer to an added user is an
-- argument, `answers`: the text of the error for a tag and an account, if there is one.
pub mod Grants
pub mod Put
pub mod Full
pub mod Round
pub mod Agreement
pub mod Told
pub mod Nil
use Prim.Native.String
use mathlib.Core.Option
use node_nats.Prelude.{
  String, Option, none, some, List, [], ◌∷◌, ◌++◌, str_eq, mem, if◌then◌else◌, Result, ok, ◌>>=◌,
}
use node_nats.Common.User.{User, get_vmess, get_vless, get_trojan, get_shadowsocks}
use node_nats.Xray.Account.{
  VmessAccount, VlessAccount, TrojanAccount, ShadowsocksAccount, ShadowsocksTcpAccount, Account,
  vmess, vless, trojan, shadowsocks, shadowsocks_tcp, new_vmess_account, new_vless_account,
  new_trojan_account, new_shadowsocks_account, new_shadowsocks_tcp_account,
}
use node_nats.Xray.Flow.{check_vless}
use node_nats.Xray.Inbound.{
  Packages, Inbound, Kind, vmess_kind, vless_kind, trojan_kind, shadowsocks_kind,
  shadowsocks_tcp_kind, other_kind, kind_of, check_shadowsocks_2022, remove_user, update_user,
  sync_users,
}

pub record ProxySettings : Type 0 where
  pub vmess : Option VmessAccount
  pub vless : Option VlessAccount
  pub trojan : Option TrojanAccount
  pub shadowsocks : Option ShadowsocksTcpAccount
  pub shadowsocks2022 : Option ShadowsocksAccount

-- A value where the user has the proxy, nil where not.
abbrev pub where_set : {A B : Type 0} → Option A → Option B → Option B
where_set none b = none
where_set (some _) b = b

unfoldable pub setup_user_account : Packages → User → ProxySettings
setup_user_account pkg user = record {
  vmess = where_set (get_vmess user) (new_vmess_account pkg.parse_uuid user);
  vless = where_set (get_vless user) (new_vless_account pkg.parse_uuid user);
  trojan = where_set (get_trojan user) (some (new_trojan_account user));
  shadowsocks = where_set (get_shadowsocks user) (some (new_shadowsocks_tcp_account user));
  shadowsocks2022 = where_set (get_shadowsocks user) (some (new_shadowsocks_account user));
}

-- The switch of isActiveInbound.
unfoldable pub active_account : Packages → Kind → Inbound → ProxySettings → Option Account
active_account pkg vless_kind i settings =
    Option.map (λ a. vless (check_vless i.stream_settings a)) settings.vless
active_account pkg vmess_kind i settings = Option.map vmess settings.vmess
active_account pkg trojan_kind i settings = Option.map trojan settings.trojan
active_account pkg (shadowsocks_kind method) i settings =
    Option.map (λ a. shadowsocks (check_shadowsocks_2022 pkg.sha256 method a))
      settings.shadowsocks2022
active_account pkg shadowsocks_tcp_kind i settings = Option.map shadowsocks_tcp settings.shadowsocks
active_account pkg other_kind i settings = none

unfoldable pub is_active_inbound : Packages → Inbound → List String → ProxySettings → Option Account
unfolding active_account
is_active_inbound pkg i inbounds settings =
    if mem inbounds i.tag then active_account pkg (kind_of i) i settings else none

-- The calls of the core's API.
pub data Call : Type 0 where
  remove_inbound_user : String → String → Call
  add_inbound_user : String → Account → Call

pub record Synced : Type 0 where
  pub inbounds : List Inbound
  pub calls : List Call
  pub message : String

abbrev pub join : String → String → String
join = String.◌++◌

abbrev pub error_text : Option String → String
error_text none = ""
error_text (some e) = join "\n" e

-- One round of the loop of SyncUser, for an inbound that is not excluded.
unfoldable pub sync_inbound :
    Packages
    → (String → Account → Option String)
    → User
    → Inbound
    → Option Account
    → Result (Inbound × List Call × String)
unfolding update_user remove_user
sync_inbound pkg answers user i (some account) = do
  i' ← update_user pkg i account
  ok (
    i',
    remove_inbound_user i.tag user.email ∷ add_inbound_user i.tag account ∷ [],
    error_text (answers i.tag account),
  )
sync_inbound pkg answers user i none = do
  i' ← remove_user i user.email
  ok (i', remove_inbound_user i.tag user.email ∷ [], "")

unfoldable pub sync_inbounds :
    Packages
    → (String → Account → Option String)
    → User
    → ProxySettings
    → List Inbound
    → Result Synced
unfolding sync_inbound is_active_inbound
sync_inbounds pkg answers user settings [] = ok (record { inbounds = []; calls = []; message = "" })
sync_inbounds pkg answers user settings (i ∷ is) =
    let later = sync_inbounds pkg answers user settings is in
    if i.exclude
    then later >>= (λ r. ok (record r { inbounds = i ∷ r.inbounds }))
    else sync_inbound pkg answers user i (is_active_inbound pkg i user.inbounds settings)
      >>= (λ (i', calls, message). later >>= (λ r. ok (record {
        inbounds = i' ∷ r.inbounds;
        calls = calls ++ r.calls;
        message = join message r.message;
      })))

abbrev pub sync_error : String → Option String
sync_error message = if str_eq message "" then none else some (join "failed to add user:" message)

-- SyncUser: the inbounds and the calls as they are after the loop, and the error that it returns.
unfoldable pub sync_user :
    Packages
    → (String → Account → Option String)
    → User
    → List Inbound
    → Result (List Inbound × List Call × Option String)
unfolding sync_inbounds setup_user_account
sync_user pkg answers user inbounds = do
  r ← sync_inbounds pkg answers user (setup_user_account pkg user) inbounds
  ok (r.inbounds, r.calls, sync_error r.message)

-- Config.syncUsers: every inbound that is not excluded.
unfoldable pub sync_config : Packages → List User → List Inbound → Result (List Inbound)
unfolding sync_users
sync_config pkg users [] = ok []
sync_config pkg users (i ∷ is) =
    let later = sync_config pkg users is in
    if i.exclude
    then later >>= (λ rest. ok (i ∷ rest))
    else sync_users pkg users i >>= (λ i'. later >>= (λ rest. ok (i' ∷ rest)))
