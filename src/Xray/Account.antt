-- ===== src/Xray/Account.antt =====
-- backend/xray/api/account.go: the accounts of the proxy protocols, made from a user message.
-- `Uuid` is the 16 bytes of the uuid package as one number: the program only compares and carries
-- them. Its parser is an argument, since the package is not part of the repository.
use node_nats.Prelude.{ℕ, String, Option, none, some, List, [], ◌∷◌, lookup}
use node_nats.Common.User.{Bytes, User, get_vmess, get_vless, get_trojan, get_shadowsocks}

abbrev pub Uuid : Type 0
Uuid = ℕ

-- uuid.Parse; `none` is its error
abbrev pub UuidParser : Type 0
UuidParser = String → Option Uuid

pub record VmessAccount : Type 0 where
  pub email : String
  pub level : ℕ
  pub id : Uuid

pub record VlessAccount : Type 0 where
  pub email : String
  pub level : ℕ
  pub id : Uuid
  pub flow : String

pub record TrojanAccount : Type 0 where
  pub email : String
  pub level : ℕ
  pub password : Bytes

pub record ShadowsocksAccount : Type 0 where
  pub email : String
  pub level : ℕ
  pub password : Bytes

pub record ShadowsocksTcpAccount : Type 0 where
  pub email : String
  pub level : ℕ
  pub password : Bytes
  pub method : String

-- The interface `Account`, by the type that it holds.
pub data Account : Type 0 where
  vmess : VmessAccount → Account
  vless : VlessAccount → Account
  trojan : TrojanAccount → Account
  shadowsocks_tcp : ShadowsocksTcpAccount → Account
  shadowsocks : ShadowsocksAccount → Account

abbrev pub get_email : Account → String
get_email (vmess a) = a.email
get_email (vless a) = a.email
get_email (trojan a) = a.email
get_email (shadowsocks_tcp a) = a.email
get_email (shadowsocks a) = a.email

abbrev pub get_level : Account → ℕ
get_level (vmess a) = a.level
get_level (vless a) = a.level
get_level (trojan a) = a.level
get_level (shadowsocks_tcp a) = a.level
get_level (shadowsocks a) = a.level

-- The getters of a message answer "" at nil.
abbrev pub vmess_id : User → String
vmess_id user = elim (get_vmess user) [ none ↦ "" | some v ↦ v.id ]

abbrev pub vless_id : User → String
vless_id user = elim (get_vless user) [ none ↦ "" | some v ↦ v.id ]

abbrev pub vless_flow : User → String
vless_flow user = elim (get_vless user) [ none ↦ "" | some v ↦ v.flow ]

abbrev pub trojan_password : User → Bytes
trojan_password user = elim (get_trojan user) [ none ↦ [] | some v ↦ v.password ]

abbrev pub shadowsocks_password : User → Bytes
shadowsocks_password user = elim (get_shadowsocks user) [ none ↦ [] | some v ↦ v.password ]

abbrev pub shadowsocks_method : User → String
shadowsocks_method user = elim (get_shadowsocks user) [ none ↦ "" | some v ↦ v.method ]

-- `none` is a nil pointer beside the parser's error.
unfoldable pub new_vmess_account : UuidParser → User → Option VmessAccount
new_vmess_account parse user = elim (parse (vmess_id user)) [
  | none ↦ none
  | some id ↦ some (record { email = user.email; level = 0; id = id })
]

unfoldable pub new_vless_account : UuidParser → User → Option VlessAccount
new_vless_account parse user = elim (parse (vless_id user)) [
  | none ↦ none
  | some id ↦ some (record { email = user.email; level = 0; id = id; flow = vless_flow user })
]

unfoldable pub new_trojan_account : User → TrojanAccount
new_trojan_account user = record { email = user.email; level = 0; password = trojan_password user }

abbrev pub cipher_type_value : List (String × ℕ)
cipher_type_value =
    ("aes-128-gcm", 5)
    ∷ ("aes-256-gcm", 6)
    ∷ ("chacha20-poly1305", 7)
    ∷ ("chacha20-ietf-poly1305", 7)
    ∷ ("xchacha20-poly1305", 8)
    ∷ ("xchacha20-ietf-poly1305", 8)
    ∷ ("none", 9)
    ∷ []

unfoldable pub new_shadowsocks_account : User → ShadowsocksAccount
new_shadowsocks_account user = record {
  email = user.email;
  level = 0;
  password = shadowsocks_password user;
}

-- A method that the table does not name becomes "none".
unfoldable pub known_method : String → String
known_method method = elim (lookup method cipher_type_value) [ none ↦ "none" | some _ ↦ method ]

unfoldable pub new_shadowsocks_tcp_account : User → ShadowsocksTcpAccount
new_shadowsocks_tcp_account user = record {
  email = user.email;
  level = 0;
  password = shadowsocks_password user;
  method = known_method (shadowsocks_method user);
}
