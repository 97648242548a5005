-- ===== src/Xray/User/Full.antt =====
-- Config.syncUsers of backend/xray/config.go: a full synchronisation gives every email the account
-- that SyncUser would give it.
use mathlib.Core.Option
use node_nats.Prelude.{
  String, ◌≡◌, refl, ap, ◌∙◌, Option, none, some, List, [], ◌∷◌, arith, mem, All, ok, if◌then◌else◌,
}
use node_nats.Common.User.{User, get_vmess, get_vless, get_trojan, get_shadowsocks}
use node_nats.Xray.Account.{
  VmessAccount, VlessAccount, TrojanAccount, ShadowsocksAccount, ShadowsocksTcpAccount, Account,
  vmess, vless, trojan, shadowsocks, shadowsocks_tcp, new_vmess_account, new_vless_account,
  new_trojan_account, new_shadowsocks_account, new_shadowsocks_tcp_account,
}
use node_nats.Xray.Flow.{check_vless}
use node_nats.Xray.Inbound.{
  Packages, Inbound, Kind, vmess_kind, vless_kind, trojan_kind, shadowsocks_kind,
  shadowsocks_tcp_kind, other_kind, kind_of, check_shadowsocks_2022, vmess_accounts, vless_accounts,
  trojan_accounts, shadowsocks_accounts, shadowsocks_tcp_accounts, sync_kind, sync_users,
  put_clients,
}
use node_nats.Xray.Inbound.View.{IsReady, Updates}
use node_nats.Xray.Inbound.Slice.{
  Slice, vmess_slice, vless_slice, trojan_slice, shadowsocks_slice, shadowsocks_tcp_slice,
  slice-written,
}
use node_nats.Xray.User.{setup_user_account, active_account, is_active_inbound, where_set}
use node_nats.Xray.User.Grants.{
  granted, entitled, HasDistinctEmails, HasUuids, granted_list, KeepsEmail, granted_list-IsDistinct,
  find_client-granted_list,
}

module _ (pkg : Packages) (i : Inbound) where
  -- What each loop grants a user.
  abbrev pub member_grant : {A : Type 0} → Option A → User → Option A
  member_grant o u = if mem u.inbounds i.tag then o else none

  abbrev pub vmess_grant : User → Option VmessAccount
  vmess_grant u = member_grant (where_set (get_vmess u) (new_vmess_account pkg.parse_uuid u)) u

  abbrev pub vless_grant : User → Option VlessAccount
  vless_grant u =
      member_grant
        (where_set (get_vless u)
          (Option.map (check_vless i.stream_settings) (new_vless_account pkg.parse_uuid u)))
        u

  abbrev pub trojan_grant : User → Option TrojanAccount
  trojan_grant u = member_grant (where_set (get_trojan u) (some (new_trojan_account u))) u

  abbrev pub shadowsocks_grant : String → User → Option ShadowsocksAccount
  shadowsocks_grant method u =
      member_grant
        (where_set (get_shadowsocks u)
          (some (check_shadowsocks_2022 pkg.sha256 method (new_shadowsocks_account u))))
        u

  abbrev pub shadowsocks_tcp_grant : User → Option ShadowsocksTcpAccount
  shadowsocks_tcp_grant u =
      member_grant (where_set (get_shadowsocks u) (some (new_shadowsocks_tcp_account u))) u

  vmess_keeps : KeepsEmail (λ c. c.email) vmess_grant
  unfolding new_vmess_account
  vmess_keeps u a e = ground arith

  vless_keeps : KeepsEmail (λ c. c.email) vless_grant
  unfolding new_vless_account check_vless
  vless_keeps u a e = ground arith

  trojan_keeps : KeepsEmail (λ c. c.email) trojan_grant
  unfolding new_trojan_account
  trojan_keeps u a e = ground arith

  shadowsocks_keeps : (method : String) → KeepsEmail (λ c. c.email) (shadowsocks_grant method)
  unfolding new_shadowsocks_account check_shadowsocks_2022
  shadowsocks_keeps method u a e = ground arith

  shadowsocks_tcp_keeps : KeepsEmail (λ c. c.email) shadowsocks_tcp_grant
  unfolding new_shadowsocks_tcp_account
  shadowsocks_tcp_keeps u a e = ground arith

  vmess_loop :
      (us : List User)
      → All (HasUuids pkg) us
      → vmess_accounts pkg.parse_uuid i.tag us ≡ granted_list (λ c. c.email) vmess_grant us
  unfolding vmess_accounts
  vmess_loop [] h = refl
  vmess_loop (u ∷ us) (parses, h) = ground (arith, vmess_loop us h)

  vless_loop :
      (us : List User)
      → All (HasUuids pkg) us
      → vless_accounts pkg.parse_uuid i.tag i.stream_settings us
        ≡ ok (granted_list (λ c. c.email) vless_grant us)
  unfolding vless_accounts
  vless_loop [] h = refl
  vless_loop (u ∷ us) (parses, h) = ground (arith, vless_loop us h)

  trojan_loop :
      (us : List User) → trojan_accounts i.tag us ≡ granted_list (λ c. c.email) trojan_grant us
  unfolding trojan_accounts
  trojan_loop [] = refl
  trojan_loop (u ∷ us) = ground (arith, trojan_loop us)

  shadowsocks_loop :
      (method : String) (us : List User)
      → shadowsocks_accounts pkg.sha256 method i.tag us
        ≡ granted_list (λ c. c.email) (shadowsocks_grant method) us
  unfolding shadowsocks_accounts
  shadowsocks_loop method [] = refl
  shadowsocks_loop method (u ∷ us) = ground (arith, shadowsocks_loop method us)

  shadowsocks_tcp_loop :
      (us : List User)
      → shadowsocks_tcp_accounts i.tag us ≡ granted_list (λ c. c.email) shadowsocks_tcp_grant us
  unfolding shadowsocks_tcp_accounts
  shadowsocks_tcp_loop [] = refl
  shadowsocks_tcp_loop (u ∷ us) = ground (arith, shadowsocks_tcp_loop us)

  -- The decision of isActiveInbound, by the kind of the inbound.
  granted_vmess :
      kind_of i ≡ vmess_kind → (u : User) → granted pkg i u ≡ Option.map vmess (vmess_grant u)
  unfolding is_active_inbound setup_user_account active_account
  granted_vmess same u = ground arith

  granted_vless :
      kind_of i ≡ vless_kind → (u : User) → granted pkg i u ≡ Option.map vless (vless_grant u)
  unfolding is_active_inbound setup_user_account active_account
  granted_vless same u = ground arith

  granted_trojan :
      kind_of i ≡ trojan_kind → (u : User) → granted pkg i u ≡ Option.map trojan (trojan_grant u)
  unfolding is_active_inbound setup_user_account active_account
  granted_trojan same u = ground arith

  granted_shadowsocks :
      (method : String)
      → kind_of i ≡ shadowsocks_kind method
      → (u : User) → granted pkg i u ≡ Option.map shadowsocks (shadowsocks_grant method u)
  unfolding is_active_inbound setup_user_account active_account
  granted_shadowsocks method same u = ground arith

  granted_shadowsocks_tcp :
      kind_of i ≡ shadowsocks_tcp_kind
      → (u : User) → granted pkg i u ≡ Option.map shadowsocks_tcp (shadowsocks_tcp_grant u)
  unfolding is_active_inbound setup_user_account active_account
  granted_shadowsocks_tcp same u = ground arith

  map-entitled :
      {A : Type 0} (inject : A → Account) (grant : User → Option A)
      → ((u : User) → granted pkg i u ≡ Option.map inject (grant u))
      → (j : String) (us : List User)
      → Option.map inject (entitled grant j us) ≡ entitled (granted pkg i) j us
  map-entitled inject grant same j [] = refl
  map-entitled inject grant same j (u ∷ us) =
      ground (arith, same u, map-entitled inject grant same j us)

  module _ (ready : IsReady i) (us : List User) (distinct : HasDistinctEmails us) where
    -- Writing the list that a loop grants makes the view that of the grants.
    slice_sync :
        {k : Kind} {A : Type 0} (slice : Slice k A) (grant : User → Option A)
        → kind_of i ≡ k
        → KeepsEmail slice.email_of grant
        → ((u : User) → granted pkg i u ≡ Option.map slice.inject (grant u))
        → (i' : Inbound) × (put_clients (slice.wrap (granted_list slice.email_of grant us)) i
            ≡ ok i')
          × Updates i i' (λ j. entitled (granted pkg i) j us)
    slice_sync slice grant same keeps grants =
        slice-written slice i ready same (granted_list slice.email_of grant us) _
          (granted_list-IsDistinct slice.email_of grant keeps us distinct)
          (λ j.
            ap (Option.map slice.inject)
              (find_client-granted_list slice.email_of grant keeps j us distinct)
            ∙ map-entitled slice.inject grant grants j us)

    sync_kind-Updates :
        (k : Kind)
        → kind_of i ≡ k
        → All (HasUuids pkg) us
        → (i' : Inbound) × (sync_kind pkg us k i ≡ ok i')
          × Updates i i' (λ j. entitled (granted pkg i) j us)
    unfolding sync_kind
    sync_kind-Updates vmess_kind same uuids =
        rw (vmess_loop us uuids)
          (slice_sync vmess_slice vmess_grant same vmess_keeps (granted_vmess same))
    sync_kind-Updates vless_kind same uuids =
        rw (vless_loop us uuids)
          (slice_sync vless_slice vless_grant same vless_keeps (granted_vless same))
    sync_kind-Updates trojan_kind same uuids =
        rw (trojan_loop us)
          (slice_sync trojan_slice trojan_grant same trojan_keeps (granted_trojan same))
    sync_kind-Updates (shadowsocks_kind method) same uuids = rw (shadowsocks_loop method us) (
        slice_sync (shadowsocks_slice method) (shadowsocks_grant method) same
          (shadowsocks_keeps method) (granted_shadowsocks method same))
    sync_kind-Updates shadowsocks_tcp_kind same uuids = rw (shadowsocks_tcp_loop us) (
        slice_sync shadowsocks_tcp_slice shadowsocks_tcp_grant same shadowsocks_tcp_keeps
          (granted_shadowsocks_tcp same))
    sync_kind-Updates other_kind same uuids = absurd (ready.known same)

    -- For users with distinct emails and UUIDs as ids, a full synchronisation of an inbound whose
    -- clients fit its kind returns, keeps that, and gives each email exactly the account that
    -- isActiveInbound grants its user, none to an email without a user; no field but the settings changes.
    pub sync_users-Updates :
        All (HasUuids pkg) us
        → (i' : Inbound) × (sync_users pkg us i ≡ ok i')
          × Updates i i' (λ j. entitled (granted pkg i) j us)
    unfolding sync_users
    sync_users-Updates uuids = sync_kind-Updates (kind_of i) refl uuids
