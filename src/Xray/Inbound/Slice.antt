-- ===== src/Xray/Inbound/Slice.antt =====
-- The five slice types of clients behind one interface: what updateUser and removeUser use of each.
use mathlib.Core.Option
use mathlib.Core.Path.{subst}
use node_nats.Prelude.{
  String, ◌≡◌, refl, sym, ◌∙◌, Bool, true, false, Option, none, some, List, [], ◌∷◌, ◌++◌, arith,
  str_eq, ok, ◌>>=◌, if◌then◌else◌,
}
use node_nats.Xray.Account.{
  VmessAccount, VlessAccount, TrojanAccount, ShadowsocksAccount, ShadowsocksTcpAccount, Account,
  vmess, vless, trojan, shadowsocks, shadowsocks_tcp,
}
use node_nats.Xray.Inbound.{
  Setting, vmess_clients, vless_clients, trojan_clients, shadowsocks_clients,
  shadowsocks_tcp_clients, Inbound, Kind, vmess_kind, vless_kind, trojan_kind, shadowsocks_kind,
  shadowsocks_tcp_kind, kind_of, put_clients, clients_of, as_vmess, as_vless, as_trojan,
  as_shadowsocks, as_shadowsocks_tcp,
}
use node_nats.Xray.Inbound.Clients.{
  drop_client, find_client, IsDistinct, without, updated, drop_client-without, find_client-without,
  without-IsDistinct, find_client-updated, updated-IsDistinct,
}
use node_nats.Xray.Inbound.View.{
  find_setting, client, ClientsFit, IsReady, Updates, written, put_clients-written, written-Updates,
}

pub record Slice (k : Kind) (A : Type 0) : Type 0 where
  pub email_of : A → String
  pub wrap : List (Option A) → Setting
  pub unwrap : Option Setting → List (Option A)
  pub inject : A → Account
  pub find-wrap :
      (cs : List (Option A)) (e : String)
      → find_setting (some (wrap cs)) e ≡ Option.map inject (find_client email_of e cs)
  pub fit-wrap : (cs : List (Option A)) → IsDistinct email_of cs → ClientsFit k (some (wrap cs))
  pub distinct-unwrap : (o : Option Setting) → ClientsFit k o → IsDistinct email_of (unwrap o)
  pub find-unwrap :
      (o : Option Setting) (e : String)
      → ClientsFit k o
      → find_setting o e ≡ Option.map inject (find_client email_of e (unwrap o))

pub as_vmess-IsDistinct :
    (o : Option Setting) → ClientsFit vmess_kind o → IsDistinct (λ c. c.email) (as_vmess o)
as_vmess-IsDistinct (some (vmess_clients cs)) h = h
as_vmess-IsDistinct _ h = ground arith

pub vmess_find :
    (o : Option Setting) (e : String)
    → ClientsFit vmess_kind o
    → find_setting o e ≡ Option.map vmess (find_client (λ c. c.email) e (as_vmess o))
vmess_find (some (vmess_clients cs)) e h = refl
vmess_find _ e h = ground arith

abbrev pub vmess_slice : Slice vmess_kind VmessAccount
vmess_slice = record {
  email_of = λ c. c.email;
  wrap = vmess_clients;
  unwrap = as_vmess;
  inject = vmess;
  find-wrap = λ cs e. refl;
  fit-wrap = λ cs h. h;
  distinct-unwrap = as_vmess-IsDistinct;
  find-unwrap = vmess_find;
}

pub as_vless-IsDistinct :
    (o : Option Setting) → ClientsFit vless_kind o → IsDistinct (λ c. c.email) (as_vless o)
as_vless-IsDistinct (some (vless_clients cs)) h = h
as_vless-IsDistinct _ h = ground arith

pub vless_find :
    (o : Option Setting) (e : String)
    → ClientsFit vless_kind o
    → find_setting o e ≡ Option.map vless (find_client (λ c. c.email) e (as_vless o))
vless_find (some (vless_clients cs)) e h = refl
vless_find _ e h = ground arith

abbrev pub vless_slice : Slice vless_kind VlessAccount
vless_slice = record {
  email_of = λ c. c.email;
  wrap = vless_clients;
  unwrap = as_vless;
  inject = vless;
  find-wrap = λ cs e. refl;
  fit-wrap = λ cs h. h;
  distinct-unwrap = as_vless-IsDistinct;
  find-unwrap = vless_find;
}

pub as_trojan-IsDistinct :
    (o : Option Setting) → ClientsFit trojan_kind o → IsDistinct (λ c. c.email) (as_trojan o)
as_trojan-IsDistinct (some (trojan_clients cs)) h = h
as_trojan-IsDistinct _ h = ground arith

pub trojan_find :
    (o : Option Setting) (e : String)
    → ClientsFit trojan_kind o
    → find_setting o e ≡ Option.map trojan (find_client (λ c. c.email) e (as_trojan o))
trojan_find (some (trojan_clients cs)) e h = refl
trojan_find _ e h = ground arith

abbrev pub trojan_slice : Slice trojan_kind TrojanAccount
trojan_slice = record {
  email_of = λ c. c.email;
  wrap = trojan_clients;
  unwrap = as_trojan;
  inject = trojan;
  find-wrap = λ cs e. refl;
  fit-wrap = λ cs h. h;
  distinct-unwrap = as_trojan-IsDistinct;
  find-unwrap = trojan_find;
}

pub as_shadowsocks_tcp-IsDistinct :
    (o : Option Setting)
    → ClientsFit shadowsocks_tcp_kind o
    → IsDistinct (λ c. c.email) (as_shadowsocks_tcp o)
as_shadowsocks_tcp-IsDistinct (some (shadowsocks_tcp_clients cs)) h = h
as_shadowsocks_tcp-IsDistinct _ h = ground arith

pub shadowsocks_tcp_find :
    (o : Option Setting) (e : String)
    → ClientsFit shadowsocks_tcp_kind o
    → find_setting o e
      ≡ Option.map shadowsocks_tcp (find_client (λ c. c.email) e (as_shadowsocks_tcp o))
shadowsocks_tcp_find (some (shadowsocks_tcp_clients cs)) e h = refl
shadowsocks_tcp_find _ e h = ground arith

abbrev pub shadowsocks_tcp_slice : Slice shadowsocks_tcp_kind ShadowsocksTcpAccount
shadowsocks_tcp_slice = record {
  email_of = λ c. c.email;
  wrap = shadowsocks_tcp_clients;
  unwrap = as_shadowsocks_tcp;
  inject = shadowsocks_tcp;
  find-wrap = λ cs e. refl;
  fit-wrap = λ cs h. h;
  distinct-unwrap = as_shadowsocks_tcp-IsDistinct;
  find-unwrap = shadowsocks_tcp_find;
}

pub as_shadowsocks-IsDistinct :
    (method : String) (o : Option Setting)
    → ClientsFit (shadowsocks_kind method) o
    → IsDistinct (λ c. c.email) (as_shadowsocks o)
as_shadowsocks-IsDistinct method (some (shadowsocks_clients cs)) h = h
as_shadowsocks-IsDistinct method _ h = ground arith

pub shadowsocks_find :
    (method : String) (o : Option Setting) (e : String)
    → ClientsFit (shadowsocks_kind method) o
    → find_setting o e ≡ Option.map shadowsocks (find_client (λ c. c.email) e (as_shadowsocks o))
shadowsocks_find method (some (shadowsocks_clients cs)) e h = refl
shadowsocks_find method _ e h = ground arith

abbrev pub shadowsocks_slice :
    (method : String) → Slice (shadowsocks_kind method) ShadowsocksAccount
shadowsocks_slice method = record {
  email_of = λ c. c.email;
  wrap = shadowsocks_clients;
  unwrap = as_shadowsocks;
  inject = shadowsocks;
  find-wrap = λ cs e. refl;
  fit-wrap = λ cs h. h;
  distinct-unwrap = as_shadowsocks-IsDistinct method;
  find-unwrap = shadowsocks_find method;
}

module _ {A : Type 0} (inject : A → Account) where
  map-unless :
      (b : Bool) (o : Option A)
      → Option.map inject (if b then none else o) ≡ (if b then none else Option.map inject o)
  map-unless true o = refl
  map-unless false o = refl

  map-if :
      (b : Bool) (a : A) (o : Option A)
      → Option.map inject (if b then some a else o)
        ≡ (if b then some (inject a) else Option.map inject o)
  map-if true a o = refl
  map-if false a o = refl

module _ {k : Kind} {A : Type 0} (slice : Slice k A) (i : Inbound) (ready : IsReady i)
    (same : kind_of i ≡ k) where
  open slice use {email_of, wrap, unwrap, inject, find-wrap, fit-wrap, distinct-unwrap, find-unwrap}

  abbrev old : List (Option A)
  old = unwrap (clients_of i)

  old-IsDistinct : IsDistinct email_of old
  old-IsDistinct = distinct-unwrap (clients_of i) (rw same at ready.fits)

  found-old : (j : String) → client i j ≡ Option.map inject (find_client email_of j old)
  found-old j = find-unwrap (clients_of i) j (rw same at ready.fits)

  pub slice-written :
      (cs : List (Option A)) (view : String → Option Account)
      → IsDistinct email_of cs
      → ((j : String) → Option.map inject (find_client email_of j cs) ≡ view j)
      → (i' : Inbound) × (put_clients (wrap cs) i ≡ ok i') × Updates i i' view
  slice-written cs view distinct found = (
    written (wrap cs) i,
    put_clients-written (wrap cs) i ready.present,
    written-Updates (wrap cs) i view ready
        (subst (λ kd. ClientsFit kd (some (wrap cs))) (sym same) (fit-wrap cs distinct))
        (λ j. find-wrap cs j ∙ found j),
  )

  pub slice-removed :
      (email : String)
      → (i' : Inbound) × ((drop_client email_of email old >>= λ kept. put_clients (wrap kept) i)
          ≡ ok i')
        × Updates i i' (λ j. if str_eq email j then none else client i j)
  slice-removed email = rw (drop_client-without email_of email old old-IsDistinct) (
      slice-written (without email_of email old) _
        (without-IsDistinct email_of email old old-IsDistinct)
        (λ j. rw (find_client-without, found-old j) (map-unless inject (str_eq email j) _)))

  pub slice-updated :
      (a : A)
      → (i' : Inbound) × ((drop_client email_of (email_of a) old >>= λ kept.
            put_clients (wrap (kept ++ some a ∷ [])) i)
          ≡ ok i')
        × Updates i i' (λ j. if str_eq (email_of a) j then some (inject a) else client i j)
  slice-updated a = rw (drop_client-without email_of (email_of a) old old-IsDistinct) (
      slice-written (updated email_of a old) _ (updated-IsDistinct email_of a old old-IsDistinct)
        (λ j. rw (find_client-updated, found-old j) (map-if inject (str_eq (email_of a) j) a _)))
