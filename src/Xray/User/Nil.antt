-- ===== src/Xray/User/Nil.antt =====
-- syncUsers of backend/xray/config.go with an id that is no UUID: the constructor of the account
-- answers a nil pointer, and the loop goes on with it.
use node_nats.Prelude.{
  String, ◌≡◌, ◌≢◌, ap, ◌∙◌, Option, none, some, List, ◌∷◌, true, arith, mem, ok, panic, ◌>>=◌,
}
use node_nats.Common.User.{User, Vmess, Vless, get_vmess, get_vless}
use node_nats.Xray.Account.{VmessAccount, new_vmess_account, new_vless_account}
use node_nats.Xray.Inbound.{
  Packages, Inbound, vmess_kind, vless_kind, vmess_clients, kind_of, clients_of, as_vmess,
  vmess_accounts, vless_accounts, put_clients, sync_kind, sync_users, remove_client, remove_user,
}
use node_nats.Xray.Inbound.Clients.{drop_client}
use node_nats.Xray.Inbound.View.{written, put_clients-written, clients_of-written, kind_of-written}

remove_user_nil :
    (i : Inbound) (email : String) (cs : List (Option VmessAccount))
    → kind_of i ≡ vmess_kind
    → clients_of i ≡ some (vmess_clients (none ∷ cs))
    → remove_user i email ≡ panic
unfolding remove_user remove_client drop_client
remove_user_nil i email cs kind e =
    ap (λ k. remove_client k i email) kind
    ∙ ap
        (λ o.
          drop_client (λ c. c.email) email (as_vmess o)
          >>= (λ kept. put_clients (vmess_clients kept) i))
        e

module _ (pkg : Packages) (i : Inbound) (u : User) (us : List User)
    (granted : mem u.inbounds i.tag ≡ true) where
  vmess_nil :
      (v : Vmess)
      → get_vmess u ≡ some v
      → new_vmess_account pkg.parse_uuid u ≡ none
      → vmess_accounts pkg.parse_uuid i.tag (u ∷ us) ≡ none ∷ vmess_accounts pkg.parse_uuid i.tag us
  unfolding vmess_accounts
  vmess_nil v has bad = ground arith

  -- For a Vmess inbound with settings, a first user whose id is no UUID leaves a nil client: the
  -- synchronisation returns, and after it removing any user panics.
  pub remove_user_panics_after_nil :
      (v : Vmess) (email : String)
      → kind_of i ≡ vmess_kind
      → i.settings ≢ none
      → get_vmess u ≡ some v
      → new_vmess_account pkg.parse_uuid u ≡ none
      → (i' : Inbound) × (sync_users pkg (u ∷ us) i ≡ ok i') × (remove_user i' email ≡ panic)
  unfolding sync_users sync_kind
  remove_user_panics_after_nil v email kind present has bad =
      let s = vmess_clients (vmess_accounts pkg.parse_uuid i.tag (u ∷ us)) in
      (
        written s i,
        rw kind (put_clients-written s i present),
        remove_user_nil (written s i) email (vmess_accounts pkg.parse_uuid i.tag us)
            (kind_of-written s i present ∙ kind)
            (clients_of-written s i present
              ∙ ap (λ cs. some (vmess_clients cs)) (vmess_nil v has bad)),
      )

  -- For a Vless inbound the same id makes the synchronisation itself panic.
  pub sync_users_panics_on_nil :
      (v : Vless)
      → kind_of i ≡ vless_kind
      → get_vless u ≡ some v
      → new_vless_account pkg.parse_uuid u ≡ none
      → sync_users pkg (u ∷ us) i ≡ panic
  unfolding sync_users sync_kind vless_accounts
  sync_users_panics_on_nil v kind has bad = ground arith
