-- ===== src/Common/User.antt =====
-- The user messages of common/service.pb.go. A pointer that may be nil is an `Option`; the getters
-- answer the zero value at nil, as the generated ones do.
use node_nats.Prelude.{String, Option, none, some, List, ℕ}

-- The bytes of a Go string, for the texts that the program decodes; the texts that it only compares
-- are `String`.
abbrev pub Bytes : Type 0
Bytes = List ℕ

pub record Vmess : Type 0 where
  pub id : String

pub record Vless : Type 0 where
  pub id : String
  pub flow : String

pub record Trojan : Type 0 where
  pub password : Bytes

pub record Shadowsocks : Type 0 where
  pub password : Bytes
  pub method : String

pub record Proxy : Type 0 where
  pub vmess : Option Vmess
  pub vless : Option Vless
  pub trojan : Option Trojan
  pub shadowsocks : Option Shadowsocks

pub record User : Type 0 where
  pub email : String
  pub proxies : Option Proxy
  pub inbounds : List String

-- user.GetProxies().GetVmess() and its siblings
abbrev pub get_vmess : User → Option Vmess
get_vmess user = elim user.proxies [ none ↦ none | some p ↦ p.vmess ]

abbrev pub get_vless : User → Option Vless
get_vless user = elim user.proxies [ none ↦ none | some p ↦ p.vless ]

abbrev pub get_trojan : User → Option Trojan
get_trojan user = elim user.proxies [ none ↦ none | some p ↦ p.trojan ]

abbrev pub get_shadowsocks : User → Option Shadowsocks
get_shadowsocks user = elim user.proxies [ none ↦ none | some p ↦ p.shadowsocks ]
