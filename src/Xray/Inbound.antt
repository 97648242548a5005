-- ===== src/Xray/Inbound.antt =====
-- The inbounds of backend/xray/config.go: their settings, and the operations on their clients.
-- `settings` is a map that may be nil: reading a nil map finds nothing, and writing to it panics.
-- The mutex `mu` guards single calls and is not modelled: an operation is one step.
pub mod Clients
pub mod View
pub mod Slice
pub mod Update
use node_nats.Prelude.{
  ℕ, String, Option, none, some, List, [], ◌∷◌, ◌++◌, Bool, str_eq, mem, starts_with, lookup,
  insert, if◌then◌else◌, Result, ok, panic, ◌>>=◌,
}
use node_nats.Common.User.{Bytes, User, get_vmess, get_vless, get_trojan, get_shadowsocks}
use node_nats.Common.Password.{ensure_base64_password}
use node_nats.Xray.Account.{
  UuidParser, VmessAccount, VlessAccount, TrojanAccount, ShadowsocksAccount, ShadowsocksTcpAccount,
  Account, vmess, vless, trojan, shadowsocks, shadowsocks_tcp, new_vmess_account, new_vless_account,
  new_trojan_account, new_shadowsocks_account, new_shadowsocks_tcp_account,
}
use node_nats.Xray.Flow.{Json, text, Fields, check_vless}
use node_nats.Xray.Inbound.Clients.{drop_client}

-- A value of the settings: decoded JSON, or a typed slice that the program has put there.
pub data Setting : Type 0 where
  json : Json → Setting
  vmess_clients : List (Option VmessAccount) → Setting
  vless_clients : List (Option VlessAccount) → Setting
  trojan_clients : List (Option TrojanAccount) → Setting
  shadowsocks_clients : List (Option ShadowsocksAccount) → Setting
  shadowsocks_tcp_clients : List (Option ShadowsocksTcpAccount) → Setting

abbrev pub Settings : Type 0
Settings = List (String × Setting)

-- What the interface{} of a port holds: decoded JSON, or the int that ApplyAPI puts there.
pub data Port : Type 0 where
  json_port : Json → Port
  int_port : ℕ → Port

pub record Inbound : Type 0 where
  pub tag : String
  pub listen : String
  pub port : Option Port
  pub protocol : String
  pub settings : Option Settings
  pub stream_settings : Fields
  pub sniffing : Option Json
  pub allocation : Fields
  pub exclude : Bool

-- The packages that the operations call: uuid.Parse and crypto/sha256.
pub record Packages : Type 0 where
  pub parse_uuid : UuidParser
  pub sha256 : Bytes → Bytes

-- What an inbound's clients are: its protocol, and for Shadowsocks the text of its method.
pub data Kind : Type 0 where
  vmess_kind vless_kind trojan_kind shadowsocks_tcp_kind other_kind : Kind
  shadowsocks_kind : String → Kind

abbrev pub read_setting : String → Option Settings → Option Setting
read_setting key settings = elim settings [ none ↦ none | some m ↦ lookup key m ]

-- i.Settings["method"].(string)
abbrev pub method_text : Option Setting → Option String
method_text (some (json (text s))) = some s
method_text _ = none

unfoldable pub shadowsocks_variant : Option String → Kind
shadowsocks_variant none = shadowsocks_tcp_kind
shadowsocks_variant (some method) =
    if starts_with method "2022-blake3" then shadowsocks_kind method else shadowsocks_tcp_kind

-- The switch on i.Protocol, with the test of the method in its Shadowsocks case.
unfoldable pub kind_of : Inbound → Kind
unfolding shadowsocks_variant
kind_of i =
    if str_eq i.protocol "vmess"
    then vmess_kind
    else (if str_eq i.protocol "vless"
        then vless_kind
        else (if str_eq i.protocol "trojan"
            then trojan_kind
            else (if str_eq i.protocol "shadowsocks"
                then shadowsocks_variant (method_text (read_setting "method" i.settings))
                else other_kind)))

-- i.Settings["clients"] = clients
unfoldable pub put_clients : Setting → Inbound → Result Inbound
put_clients clients i = elim i.settings [
  | none ↦ panic
  | some m ↦ ok (record i { settings = some (insert "clients" clients m) })
]

-- The type assertions on i.Settings["clients"]; where one fails the slice is empty.
abbrev pub as_vmess : Option Setting → List (Option VmessAccount)
as_vmess (some (vmess_clients cs)) = cs
as_vmess _ = []

abbrev pub as_vless : Option Setting → List (Option VlessAccount)
as_vless (some (vless_clients cs)) = cs
as_vless _ = []

abbrev pub as_trojan : Option Setting → List (Option TrojanAccount)
as_trojan (some (trojan_clients cs)) = cs
as_trojan _ = []

abbrev pub as_shadowsocks : Option Setting → List (Option ShadowsocksAccount)
as_shadowsocks (some (shadowsocks_clients cs)) = cs
as_shadowsocks _ = []

abbrev pub as_shadowsocks_tcp : Option Setting → List (Option ShadowsocksTcpAccount)
as_shadowsocks_tcp (some (shadowsocks_tcp_clients cs)) = cs
as_shadowsocks_tcp _ = []

abbrev pub clients_of : Inbound → Option Setting
clients_of i = read_setting "clients" i.settings

unfoldable pub check_shadowsocks_2022 :
    (Bytes → Bytes) → String → ShadowsocksAccount → ShadowsocksAccount
check_shadowsocks_2022 sha256 method account = record account {
  password = ensure_base64_password sha256 account.password method;
}

-- removeUser, by the case of its switch
unfoldable pub remove_client : Kind → Inbound → String → Result Inbound
unfolding drop_client put_clients
remove_client vmess_kind i email = do
  kept ← drop_client (λ c. c.email) email (as_vmess (clients_of i))
  put_clients (vmess_clients kept) i
remove_client vless_kind i email = do
  kept ← drop_client (λ c. c.email) email (as_vless (clients_of i))
  put_clients (vless_clients kept) i
remove_client trojan_kind i email = do
  kept ← drop_client (λ c. c.email) email (as_trojan (clients_of i))
  put_clients (trojan_clients kept) i
remove_client (shadowsocks_kind method) i email = do
  kept ← drop_client (λ c. c.email) email (as_shadowsocks (clients_of i))
  put_clients (shadowsocks_clients kept) i
remove_client shadowsocks_tcp_kind i email = do
  kept ← drop_client (λ c. c.email) email (as_shadowsocks_tcp (clients_of i))
  put_clients (shadowsocks_tcp_clients kept) i
remove_client other_kind i email = ok i

unfoldable pub remove_user : Inbound → String → Result Inbound
unfolding remove_client kind_of
remove_user i email = remove_client (kind_of i) i email

abbrev pub found_text : Option String → Result String
found_text none = panic
found_text (some s) = ok s

-- updateUser: a switch on the type of the account. A method that is no text panics.
unfoldable pub update_user : Packages → Inbound → Account → Result Inbound
unfolding drop_client put_clients check_shadowsocks_2022
update_user pkg i (vmess a) = do
  kept ← drop_client (λ c. c.email) a.email (as_vmess (clients_of i))
  put_clients (vmess_clients (kept ++ some a ∷ [])) i
update_user pkg i (vless a) = do
  kept ← drop_client (λ c. c.email) a.email (as_vless (clients_of i))
  put_clients (vless_clients (kept ++ some a ∷ [])) i
update_user pkg i (trojan a) = do
  kept ← drop_client (λ c. c.email) a.email (as_trojan (clients_of i))
  put_clients (trojan_clients (kept ++ some a ∷ [])) i
update_user pkg i (shadowsocks_tcp a) = do
  kept ← drop_client (λ c. c.email) a.email (as_shadowsocks_tcp (clients_of i))
  put_clients (shadowsocks_tcp_clients (kept ++ some a ∷ [])) i
update_user pkg i (shadowsocks a) = do
  kept ← drop_client (λ c. c.email) a.email (as_shadowsocks (clients_of i))
  method ← found_text (method_text (read_setting "method" i.settings))
  put_clients (shadowsocks_clients (kept ++ some (check_shadowsocks_2022 pkg.sha256 method a) ∷ []))
      i

-- The loops of syncUsers. An account that its constructor refused is a nil pointer: the Vmess loop
-- appends it all the same, and the Vless loop dereferences it.
unfoldable pub vmess_accounts : UuidParser → String → List User → List (Option VmessAccount)
unfolding new_vmess_account mem
vmess_accounts parse tag [] = []
vmess_accounts parse tag (user ∷ users) =
    let later = vmess_accounts parse tag users in
    elim (get_vmess user) [
      | none ↦ later
      | some _ ↦ if mem user.inbounds tag then new_vmess_account parse user ∷ later else later
    ]

abbrev pub deref : {A : Type 0} → Option A → Result A
deref none = panic
deref (some a) = ok a

unfoldable pub vless_accounts :
    UuidParser → String → Fields → List User → Result (List (Option VlessAccount))
unfolding new_vless_account mem check_vless
vless_accounts parse tag stream [] = ok []
vless_accounts parse tag stream (user ∷ users) =
    let later = vless_accounts parse tag stream users in
    let added =
      deref (new_vless_account parse user)
      >>= (λ a. later >>= (λ rest. ok (some (check_vless stream a) ∷ rest))) in
    elim (get_vless user) [ none ↦ later | some _ ↦ if mem user.inbounds tag then added else later ]

unfoldable pub trojan_accounts : String → List User → List (Option TrojanAccount)
unfolding new_trojan_account mem
trojan_accounts tag [] = []
trojan_accounts tag (user ∷ users) =
    let later = trojan_accounts tag users in
    elim (get_trojan user) [
      | none ↦ later
      | some _ ↦ if mem user.inbounds tag then some (new_trojan_account user) ∷ later else later
    ]

unfoldable pub shadowsocks_accounts :
    (Bytes → Bytes) → String → String → List User → List (Option ShadowsocksAccount)
unfolding new_shadowsocks_account mem check_shadowsocks_2022
shadowsocks_accounts sha256 method tag [] = []
shadowsocks_accounts sha256 method tag (user ∷ users) =
    let later = shadowsocks_accounts sha256 method tag users in
    elim (get_shadowsocks user) [
      | none ↦ later
      | some _ ↦
          if mem user.inbounds tag
          then some (check_shadowsocks_2022 sha256 method (new_shadowsocks_account user)) ∷ later
          else later
    ]

unfoldable pub shadowsocks_tcp_accounts : String → List User → List (Option ShadowsocksTcpAccount)
unfolding new_shadowsocks_tcp_account mem
shadowsocks_tcp_accounts tag [] = []
shadowsocks_tcp_accounts tag (user ∷ users) =
    let later = shadowsocks_tcp_accounts tag users in
    elim (get_shadowsocks user) [
      | none ↦ later
      | some _ ↦
          if mem user.inbounds tag then some (new_shadowsocks_tcp_account user) ∷ later else later
    ]

-- Inbound.syncUsers, by the case of its switch
unfoldable pub sync_kind : Packages → List User → Kind → Inbound → Result Inbound
unfolding vmess_accounts vless_accounts trojan_accounts shadowsocks_accounts
    shadowsocks_tcp_accounts put_clients
sync_kind pkg users vmess_kind i =
    put_clients (vmess_clients (vmess_accounts pkg.parse_uuid i.tag users)) i
sync_kind pkg users vless_kind i = do
  clients ← vless_accounts pkg.parse_uuid i.tag i.stream_settings users
  put_clients (vless_clients clients) i
sync_kind pkg users trojan_kind i = put_clients (trojan_clients (trojan_accounts i.tag users)) i
sync_kind pkg users (shadowsocks_kind method) i =
    put_clients (shadowsocks_clients (shadowsocks_accounts pkg.sha256 method i.tag users)) i
sync_kind pkg users shadowsocks_tcp_kind i =
    put_clients (shadowsocks_tcp_clients (shadowsocks_tcp_accounts i.tag users)) i
sync_kind pkg users other_kind i = ok i

unfoldable pub sync_users : Packages → List User → Inbound → Result Inbound
unfolding sync_kind kind_of
sync_users pkg users i = sync_kind pkg users (kind_of i) i
