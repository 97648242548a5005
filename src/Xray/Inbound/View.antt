-- ===== src/Xray/Inbound/View.antt =====
-- The abstract view of an inbound: which account an email has among its clients. It forgets the
-- order of the clients and which of the five slice types holds them.
use mathlib.Core.Option
use node_nats.Prelude.{
  String, ◌≡◌, refl, ◌≢◌, inl, inr, Option, none, some, arith, str_eq, insert, lookup-insert, ok,
  Option-cases, if◌then◌else◌,
}
use node_nats.Xray.Account.{Account, vmess, vless, trojan, shadowsocks, shadowsocks_tcp}
use node_nats.Xray.Inbound.{
  Setting, json, vmess_clients, vless_clients, trojan_clients, shadowsocks_clients,
  shadowsocks_tcp_clients, Settings, Inbound, Kind, vmess_kind, vless_kind, trojan_kind,
  shadowsocks_kind, shadowsocks_tcp_kind, other_kind, read_setting, kind_of, put_clients,
  clients_of,
}
use node_nats.Xray.Inbound.Clients.{find_client, IsDistinct}

abbrev pub find_setting : Option Setting → String → Option Account
find_setting (some (vmess_clients cs)) e = Option.map vmess (find_client (λ c. c.email) e cs)
find_setting (some (vless_clients cs)) e = Option.map vless (find_client (λ c. c.email) e cs)
find_setting (some (trojan_clients cs)) e = Option.map trojan (find_client (λ c. c.email) e cs)
find_setting (some (shadowsocks_clients cs)) e =
    Option.map shadowsocks (find_client (λ c. c.email) e cs)
find_setting (some (shadowsocks_tcp_clients cs)) e =
    Option.map shadowsocks_tcp (find_client (λ c. c.email) e cs)
find_setting _ e = none

-- The account of an email among the clients of an inbound.
abbrev pub client : Inbound → String → Option Account
client i e = find_setting (clients_of i) e

-- Where the clients are a typed slice, it is of the inbound's kind, with no nil and no email twice.
abbrev pub ClientsFit : Kind → Option Setting → Type 0
ClientsFit k none = Unit
ClientsFit k (some (json j)) = Unit
ClientsFit vmess_kind (some (vmess_clients cs)) = IsDistinct (λ c. c.email) cs
ClientsFit vless_kind (some (vless_clients cs)) = IsDistinct (λ c. c.email) cs
ClientsFit trojan_kind (some (trojan_clients cs)) = IsDistinct (λ c. c.email) cs
ClientsFit (shadowsocks_kind method) (some (shadowsocks_clients cs)) = IsDistinct (λ c. c.email) cs
ClientsFit shadowsocks_tcp_kind (some (shadowsocks_tcp_clients cs)) = IsDistinct (λ c. c.email) cs
ClientsFit _ _ = ⊥

-- An inbound with settings, of a protocol that has users, whose clients fit its kind.
pub record IsReady (i : Inbound) : Type 0 where
  pub present : i.settings ≢ none
  pub known : kind_of i ≢ other_kind
  pub fits : ClientsFit (kind_of i) (clients_of i)

-- `i'` is `i` with other clients: those that `view` tells.
pub record Updates (i i' : Inbound) (view : String → Option Account) : Type 0 where
  pub ready : IsReady i'
  pub found : (j : String) → client i' j ≡ view j
  pub kind : kind_of i' ≡ kind_of i
  pub others : i' ≡ record i { settings = i'.settings }

abbrev pub written : Setting → Inbound → Inbound
written s i = record i { settings = Option.map (insert "clients" s) i.settings }

read_setting-insert :
    (s : Setting) (key : String) (o : Option Settings)
    → o ≢ none
    → read_setting key (Option.map (insert "clients" s) o)
      ≡ (if str_eq "clients" key then some s else read_setting key o)
read_setting-insert s key none h = absurd (h refl)
read_setting-insert s key (some m) h = lookup-insert "clients" key s m

map-ne-none :
    (s : Setting) (o : Option Settings) → o ≢ none → Option.map (insert "clients" s) o ≢ none
map-ne-none s none h = absurd (h refl)
map-ne-none s (some m) h = cc

module _ (s : Setting) (i : Inbound) where
  pub put_clients-written : i.settings ≢ none → put_clients s i ≡ ok (written s i)
  unfolding put_clients
  put_clients-written h = elim (Option-cases i.settings) [
    | inl e ↦ absurd (h e)
    | inr (m, e) ↦ ground arith
  ]

  read_setting-written :
      (key : String)
      → i.settings ≢ none
      → read_setting key (written s i).settings
        ≡ (if str_eq "clients" key then some s else read_setting key i.settings)
  read_setting-written key h = read_setting-insert s key i.settings h

  pub clients_of-written : i.settings ≢ none → clients_of (written s i) ≡ some s
  clients_of-written h = read_setting-written "clients" h

  pub kind_of-written : i.settings ≢ none → kind_of (written s i) ≡ kind_of i
  unfolding kind_of
  kind_of-written h = rw (read_setting-written "method" h)

  pub written-Updates :
      (view : String → Option Account)
      → IsReady i
      → ClientsFit (kind_of i) (some s)
      → ((j : String) → find_setting (some s) j ≡ view j)
      → Updates i (written s i) view
  written-Updates view h fit found =
      let same = kind_of-written h.present in
      let now = clients_of-written h.present in
      record {
        ready = record {
          present = map-ne-none s i.settings h.present;
          known = rw same h.known;
          fits = rw (same, now) fit;
        };
        found = λ j. rw now (found j);
        kind = same;
        others = refl;
      }
