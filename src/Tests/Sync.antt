-- ===== src/Tests/Sync.antt =====
-- The synchronisation of users of backend/xray at concrete users and inbounds.
use node_nats.Prelude.{
  String, ◌≡◌, refl, inl, inr, Option, none, some, List, [], ◌∷◌, true, false, arith, lookup,
  eq_iff, contains, All, ok,
}
use node_nats.Common.User.{User}
use node_nats.Xray.Account.{new_vmess_account}
use node_nats.Xray.Flow.{text, end}
use node_nats.Xray.Inbound.{Inbound, json, kind_of, vmess_kind, shadowsocks_kind}
use node_nats.Xray.Inbound.View.{IsReady}
use node_nats.Xray.User.{Call, sync_user, sync_config}
use node_nats.Xray.User.Grants.{HasDistinctEmails, HasUuids}
use node_nats.Xray.User.Round.{Each, Round, IsSyncable, Accepts, sync_user-Round}
use node_nats.Xray.User.Agreement.{SameClients, HasCipher, sync_user_agrees}
use node_nats.Xray.User.Put.{put_user}
use node_nats.Tests.Digest.{packages, counting-IsDigest}

abbrev pub ann : User
ann = record {
  email = "ann";
  proxies = some (record {
    vmess = some (record { id = "id-1" });
    vless = none;
    trojan = none;
    shadowsocks = some (record { password = 112 ∷ []; method = "aes-128-gcm" });
  });
  inbounds = "VM" ∷ "SS" ∷ [];
}

abbrev pub bob : User
bob = record ann { email = "bob"; inbounds = "VM" ∷ [] }

abbrev pub bare : Inbound
bare = record {
  tag = "VM";
  listen = "0.0.0.0";
  port = none;
  protocol = "vmess";
  settings = some [];
  stream_settings = end;
  sniffing = none;
  allocation = end;
  exclude = false;
}

abbrev pub secret : Inbound
secret = record bare {
  tag = "SS";
  protocol = "shadowsocks";
  settings = some (("method", json (text "2022-blake3-aes-128-gcm")) ∷ []);
}

abbrev pub hidden : Inbound
hidden = record bare { tag = "TR"; protocol = "trojan"; exclude = true }

abbrev door : Inbound
door = record bare { tag = "API_INBOUND"; protocol = "dokodemo-door" }

abbrev pub inbounds : List Inbound
inbounds = door ∷ bare ∷ secret ∷ hidden ∷ []

kind_of-bare : kind_of bare ≡ vmess_kind
unfolding kind_of
kind_of-bare = refl

kind_of-secret : kind_of secret ≡ shadowsocks_kind "2022-blake3-aes-128-gcm"
unfolding kind_of lookup
kind_of-secret = refl

pub bare-IsReady : IsReady bare
unfolding kind_of lookup
bare-IsReady = record { present = cc; known = cc; fits = tt }

pub secret-IsReady : IsReady secret
unfolding kind_of lookup
secret-IsReady = record { present = cc; known = cc; fits = tt }

pub inbounds-IsSyncable : All IsSyncable inbounds
unfolding kind_of
inbounds-IsSyncable =
    (inl (inr refl), (inr (refl, bare-IsReady), (inr (refl, secret-IsReady), (inl (inl refl), tt))))

pub ciphers : All (λ i. HasCipher (kind_of i)) inbounds
unfolding kind_of lookup contains
ciphers = (tt, (tt, (refl, (tt, tt))))

pub distinct : HasDistinctEmails (ann ∷ bob ∷ [])
distinct = ((ground (arith, eq_iff "bob" "ann"), tt), (tt, tt))

pub ann-HasUuids : HasUuids packages ann
unfolding new_vmess_account
ann-HasUuids = (inr cc, inl refl)

pub bob-HasUuids : HasUuids packages bob
unfolding new_vmess_account
bob-HasUuids = (inr cc, inl refl)

sync_user-Round_example :
    (is' : List Inbound) × (calls : List Call) × (error : Option String) × (sync_user packages
        (λ tag a. none)
        ann
        inbounds
      ≡ ok (is', calls, error))
    × Each (Round packages ann) inbounds is'
    × (Accepts (λ tag a. none) → error ≡ none)
sync_user-Round_example = sync_user-Round packages (λ tag a. none) ann inbounds inbounds-IsSyncable

sync_user_agrees_example :
    (is₁ is₂ is₃ : List Inbound) × (calls : List Call) × (error : Option String) × (sync_config
        packages
        (bob ∷ [])
        inbounds
      ≡ ok is₁)
    × (sync_user packages (λ tag a. some "refused") ann is₁ ≡ ok (is₂, calls, error))
    × (sync_config packages (put_user ann (bob ∷ [])) inbounds ≡ ok is₃)
    × Each SameClients is₂ is₃
sync_user_agrees_example =
    sync_user_agrees packages (λ tag a. some "refused") ann (bob ∷ []) inbounds counting-IsDigest
      (tt, tt) (bob-HasUuids, tt) ann-HasUuids inbounds-IsSyncable ciphers
