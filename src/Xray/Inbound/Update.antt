-- ===== src/Xray/Inbound/Update.antt =====
-- updateUser and removeUser of backend/xray/config.go: what they do to the view of an inbound.
use node_nats.Prelude.{String, ◌≡◌, refl, none, some, arith, str_eq, ok, if◌then◌else◌}
use node_nats.Common.User.{Bytes}
use node_nats.Xray.Account.{
  ShadowsocksAccount, Account, vmess, vless, trojan, shadowsocks, shadowsocks_tcp, get_email,
}
use node_nats.Xray.Inbound.{
  Packages, Inbound, Kind, vmess_kind, vless_kind, trojan_kind, shadowsocks_kind,
  shadowsocks_tcp_kind, other_kind, read_setting, method_text, kind_of, check_shadowsocks_2022,
  remove_client, remove_user, update_user, shadowsocks_variant,
}
use node_nats.Xray.Inbound.View.{client, IsReady, Updates}
use node_nats.Xray.Inbound.Slice.{
  vmess_slice, vless_slice, trojan_slice, shadowsocks_slice, shadowsocks_tcp_slice, slice-removed,
  slice-updated,
}

-- An account of the type that an inbound of the kind holds.
abbrev pub Suits : Account → Kind → Type 0
Suits (vmess a) vmess_kind = Unit
Suits (vless a) vless_kind = Unit
Suits (trojan a) trojan_kind = Unit
Suits (shadowsocks_tcp a) shadowsocks_tcp_kind = Unit
Suits (shadowsocks a) (shadowsocks_kind method) = Unit
Suits _ _ = ⊥

-- The account that updateUser stores: a Shadowsocks 2022 password is prepared for the method.
abbrev pub stored : Packages → Kind → Account → Account
stored pkg (shadowsocks_kind method) (shadowsocks a) =
    shadowsocks (check_shadowsocks_2022 pkg.sha256 method a)
stored pkg _ a = a

kind_of-method :
    (i : Inbound) (method : String)
    → kind_of i ≡ shadowsocks_kind method
    → method_text (read_setting "method" i.settings) ≡ some method
unfolding kind_of shadowsocks_variant
kind_of-method i method h = ground arith

email_of-check :
    (sha256 : Bytes → Bytes) (method : String) (a : ShadowsocksAccount)
    → (check_shadowsocks_2022 sha256 method a).email ≡ a.email
unfolding check_shadowsocks_2022
email_of-check sha256 method a = refl

module _ (i : Inbound) (ready : IsReady i) where
  remove_client-Updates :
      (k : Kind) (email : String)
      → kind_of i ≡ k
      → (i' : Inbound) × (remove_client k i email ≡ ok i')
        × Updates i i' (λ j. if str_eq email j then none else client i j)
  unfolding remove_client
  remove_client-Updates vmess_kind email same = slice-removed vmess_slice i ready same email
  remove_client-Updates vless_kind email same = slice-removed vless_slice i ready same email
  remove_client-Updates trojan_kind email same = slice-removed trojan_slice i ready same email
  remove_client-Updates (shadowsocks_kind method) email same =
      slice-removed (shadowsocks_slice method) i ready same email
  remove_client-Updates shadowsocks_tcp_kind email same =
      slice-removed shadowsocks_tcp_slice i ready same email
  remove_client-Updates other_kind email same = absurd (ready.known same)

  -- removeUser on an inbound whose clients fit its kind returns, keeps that, and takes away the
  -- client of the email: no other email's client changes, and no field but the settings.
  pub remove_user-Updates :
      (email : String)
      → (i' : Inbound) × (remove_user i email ≡ ok i')
        × Updates i i' (λ j. if str_eq email j then none else client i j)
  unfolding remove_user
  remove_user-Updates email = remove_client-Updates (kind_of i) email refl

  update_kind-Updates :
      (pkg : Packages) (k : Kind) (a : Account)
      → kind_of i ≡ k
      → Suits a k
      → (i' : Inbound) × (update_user pkg i a ≡ ok i')
        × Updates i i' (λ j. if str_eq (get_email a) j then some (stored pkg k a) else client i j)
  unfolding update_user
  update_kind-Updates pkg vmess_kind (vmess a) same h = slice-updated vmess_slice i ready same a
  update_kind-Updates pkg vless_kind (vless a) same h = slice-updated vless_slice i ready same a
  update_kind-Updates pkg trojan_kind (trojan a) same h = slice-updated trojan_slice i ready same a
  update_kind-Updates pkg shadowsocks_tcp_kind (shadowsocks_tcp a) same h =
      slice-updated shadowsocks_tcp_slice i ready same a
  update_kind-Updates pkg (shadowsocks_kind method) (shadowsocks a) same h =
      rw (kind_of-method i method same) (
        slice-updated (shadowsocks_slice method) i ready same
          (check_shadowsocks_2022 pkg.sha256 method a))
  update_kind-Updates pkg _ a same h = ground arith

  -- updateUser with an account of the inbound's kind returns, keeps the clients fit, and makes the
  -- account, its password prepared for the method, the only client of its email: no other email's
  -- client changes, and no field but the settings.
  pub update_user-Updates :
      (pkg : Packages) (a : Account)
      → Suits a (kind_of i)
      → (i' : Inbound) × (update_user pkg i a ≡ ok i')
        × Updates i i'
            (λ j. if str_eq (get_email a) j then some (stored pkg (kind_of i) a) else client i j)
  update_user-Updates pkg a suits = update_kind-Updates pkg (kind_of i) a refl suits
