-- ===== src/Xray/User/Agreement.antt =====
-- The two ways of synchronising agree: SyncUser after a full synchronisation leaves what a full
-- synchronisation of the changed user list leaves.
use mathlib.Core.Option
use node_nats.Prelude.{
  String, ◌≡◌, refl, ap, sym, ◌∙◌, Option, none, List, [], ◌∷◌, true, false, ◌⊎◌, arith, All, mem,
  ok, if◌then◌else◌, Option-cases, Bool-cases, inl, inr,
}
use node_nats.Common.User.{User}
use node_nats.Common.Password.Laws.{IsDigest, names_cipher, ensure_base64_password_idempotent}
use node_nats.Xray.Account.{Account, ShadowsocksAccount}
use node_nats.Xray.Inbound.{
  Packages, Inbound, Kind, vmess_kind, vless_kind, trojan_kind, shadowsocks_kind,
  shadowsocks_tcp_kind, other_kind, kind_of, check_shadowsocks_2022, sync_kind, sync_users,
}
use node_nats.Xray.Inbound.View.{client, Updates}
use node_nats.Xray.Inbound.Update.{stored}
use node_nats.Xray.User.{
  ProxySettings, setup_user_account, active_account, is_active_inbound, Call, sync_user,
  sync_config,
}
use node_nats.Xray.User.Grants.{granted, entitled, HasDistinctEmails, HasUuids}
use node_nats.Xray.User.Put.{
  put_user, entitled-put_user, put_user-HasDistinctEmails, put_user-HasUuids,
}
use node_nats.Xray.User.Full.{sync_users-Updates}
use node_nats.Xray.User.Round.{Round, Each, IsPassive, IsSyncable, sync_user-Round}

-- A method of a Shadowsocks 2022 inbound is one that the protocol has.
abbrev pub HasCipher : Kind → Type 0
HasCipher (shadowsocks_kind method) = names_cipher method ≡ true
HasCipher _ = Unit

module _ (pkg : Packages) (digest : IsDigest pkg.sha256) where
  check_twice :
      (method : String) (a : ShadowsocksAccount)
      → names_cipher method ≡ true
      → check_shadowsocks_2022 pkg.sha256 method (check_shadowsocks_2022 pkg.sha256 method a)
        ≡ check_shadowsocks_2022 pkg.sha256 method a
  unfolding check_shadowsocks_2022
  check_twice method a h =
      ground (arith, ensure_base64_password_idempotent pkg.sha256 digest method a.password h)

  stored-active :
      (k : Kind) (i : Inbound) (settings : ProxySettings)
      → HasCipher k
      → Option.map (stored pkg k) (active_account pkg k i settings)
        ≡ active_account pkg k i settings
  unfolding active_account
  stored-active (shadowsocks_kind method) i settings h =
      elim (Option-cases settings.shadowsocks2022) [
        | inl e ↦ simp e
        | inr (a, e) ↦ simp (e, check_twice method a h)
      ]
  stored-active vmess_kind i settings h = ground arith
  stored-active vless_kind i settings h = ground arith
  stored-active trojan_kind i settings h = ground arith
  stored-active shadowsocks_tcp_kind i settings h = ground arith
  stored-active other_kind i settings h = refl

  pub stored-granted :
      (i : Inbound) (user : User)
      → HasCipher (kind_of i)
      → Option.map (stored pkg (kind_of i)) (granted pkg i user) ≡ granted pkg i user
  unfolding is_active_inbound
  stored-granted i user h =
      ground (arith, stored-active (kind_of i) i (setup_user_account pkg user) h)

  active-stream :
      (k : Kind) (i i' : Inbound) (settings : ProxySettings)
      → i'.stream_settings ≡ i.stream_settings
      → active_account pkg k i' settings ≡ active_account pkg k i settings
  unfolding active_account
  active-stream vless_kind i i' settings e = simp e
  active-stream vmess_kind i i' settings e = refl
  active-stream _ i i' settings e = refl

  -- What an inbound grants does not depend on its clients.
  pub granted-Updates :
      {i i' : Inbound} {view : String → Option Account} (user : User)
      → Updates i i' view
      → granted pkg i' user ≡ granted pkg i user
  unfolding is_active_inbound
  granted-Updates {i} {i'} user new =
      let settings = setup_user_account pkg user in
      simp (new.kind, ap (λ (n : Inbound). n.tag) new.others)
        (ap (λ o. if mem user.inbounds i.tag then o else none)
          (active-stream (kind_of i) i i' settings
            (ap (λ (n : Inbound). n.stream_settings) new.others)))

-- A full synchronisation of one inbound: an excluded one stays as it is.
abbrev pub FullSync : Packages → List User → Inbound → Inbound → Type 0
FullSync pkg us i i' =
    (IsPassive i × (i' ≡ i))
    ⊎ ((i.exclude ≡ false) × Updates i i' (λ j. entitled (granted pkg i) j us))

sync_users-other :
    (pkg : Packages) (us : List User) (i : Inbound)
    → kind_of i ≡ other_kind
    → sync_users pkg us i ≡ ok i
unfolding sync_users sync_kind
sync_users-other pkg us i e = rw e refl

module _ (pkg : Packages) (us : List User) (distinct : HasDistinctEmails us)
    (uuids : All (HasUuids pkg) us) where
  -- For users with distinct emails and UUIDs as ids, Config.syncUsers returns, leaves the inbounds
  -- without users as they are, and in every other one gives each email exactly the account that
  -- isActiveInbound grants its user; the clients fit the inbound's kind and no field but the settings changes.
  pub sync_config-FullSync :
      (is : List Inbound)
      → All IsSyncable is
      → (is' : List Inbound) × (sync_config pkg us is ≡ ok is') × Each (FullSync pkg us) is is'
  unfolding sync_config
  sync_config-FullSync [] h = ([], refl, tt)
  sync_config-FullSync (i ∷ is) (inl passive, h) = elim (Bool-cases i.exclude) [
    | inl out ↦
        let (is', done, each) = sync_config-FullSync is h in
        (i ∷ is', simp (out, done), (inl (passive, refl), each))
    | inr kept ↦
        let (is', done, each) = sync_config-FullSync is h in
        let other : kind_of i ≡ other_kind = ground arith in
        (i ∷ is', simp (kept, sync_users-other pkg us i other, done), (inl (passive, refl), each))
  ]
  sync_config-FullSync (i ∷ is) (inr (kept, ready), h) =
      let (is', done, each) = sync_config-FullSync is h in
      let (i', run, new) = sync_users-Updates pkg i ready us distinct uuids in
      (i' ∷ is', simp (kept, run, done), (inr (kept, new), each))

module _ (pkg : Packages) (us : List User) where
  FullSync-IsSyncable : (i i' : Inbound) → FullSync pkg us i i' → IsSyncable i'
  FullSync-IsSyncable i i' (inl (passive, same)) = inl (rw same passive)
  FullSync-IsSyncable i i' (inr (kept, new)) =
      inr (ap (λ (n : Inbound). n.exclude) new.others ∙ kept, new.ready)

  pub Each-IsSyncable : (is is' : List Inbound) → Each (FullSync pkg us) is is' → All IsSyncable is'
  Each-IsSyncable [] [] h = tt
  Each-IsSyncable (i ∷ is) (i' ∷ is') (one, h) =
      (FullSync-IsSyncable i i' one, Each-IsSyncable is is' h)
  Each-IsSyncable [] (_ ∷ _) h = absurd h
  Each-IsSyncable (_ ∷ _) [] h = absurd h

-- Every email has the same account in both.
abbrev pub SameClients : Inbound → Inbound → Type 0
SameClients i i' = (j : String) → client i j ≡ client i' j

module _ (i i' : Inbound) {view : String → Option Account} (kept : i.exclude ≡ false)
    (new : Updates i i' view) where
  pub not-IsPassive : ¬ IsPassive i
  not-IsPassive (inl out) = absurd (ground arith)
  not-IsPassive (inr other) = new.ready.known (new.kind ∙ other)

  pub not-IsPassive_after : ¬ IsPassive i'
  not-IsPassive_after (inl out) =
      let e = ap (λ (n : Inbound). n.exclude) new.others in absurd (ground arith)
  not-IsPassive_after (inr other) = new.ready.known other

FullSync-SameClients :
    (pkg : Packages) (us : List User) (i i₂ i₃ : Inbound)
    → FullSync pkg us i i₂
    → FullSync pkg us i i₃
    → SameClients i₂ i₃
FullSync-SameClients pkg us i i₂ i₃ (inl (_, e₂)) (inl (_, e₃)) j =
    ap (λ n. client n j) (e₂ ∙ sym e₃)
FullSync-SameClients pkg us i i₂ i₃ (inr (_, b)) (inr (_, d)) j = b.found j ∙ sym (d.found j)
FullSync-SameClients pkg us i i₂ i₃ (inl (out, _)) (inr (kept, d)) j =
    absurd (not-IsPassive i i₃ kept d out)
FullSync-SameClients pkg us i i₂ i₃ (inr (kept, b)) (inl (out, _)) j =
    absurd (not-IsPassive i i₂ kept b out)

Each-SameClients :
    (pkg : Packages) (us : List User) (is is₂ is₃ : List Inbound)
    → Each (FullSync pkg us) is is₂
    → Each (FullSync pkg us) is is₃
    → Each SameClients is₂ is₃
Each-SameClients pkg us [] [] [] a b = tt
Each-SameClients pkg us (i ∷ is) (i₂ ∷ is₂) (i₃ ∷ is₃) (ai, a) (bi, b) =
    (FullSync-SameClients pkg us i i₂ i₃ ai bi, Each-SameClients pkg us is is₂ is₃ a b)
Each-SameClients pkg us [] (_ ∷ _) is₃ a b = absurd a
Each-SameClients pkg us [] [] (_ ∷ _) a b = absurd b
Each-SameClients pkg us (_ ∷ _) [] is₃ a b = absurd a
Each-SameClients pkg us (_ ∷ _) (_ ∷ _) [] a b = absurd b

module _ (pkg : Packages) (digest : IsDigest pkg.sha256) (u : User) (us : List User) where
  -- One SyncUser takes an inbound from the accounts of a list of users to those of the list with the
  -- user put in.
  pub FullSync-Round :
      (i i₁ i₂ : Inbound)
      → HasCipher (kind_of i)
      → FullSync pkg us i i₁
      → Round pkg u i₁ i₂
      → FullSync pkg (put_user u us) i i₂
  FullSync-Round i i₁ i₂ c (inl (out, e₁)) (inl (_, e₂)) = inl (out, e₂ ∙ e₁)
  FullSync-Round i i₁ i₂ c (inr (kept, a)) (inr (_, b)) =
      let same = granted-Updates pkg digest u a in
      let once = stored-granted pkg digest i u c in
      inr (
        kept,
        record {
          ready = b.ready;
          found = λ j.
              b.found j
              ∙ rw (a.kind, same, once, a.found j) (sym (entitled-put_user (granted pkg i) u j us));
          kind = b.kind ∙ a.kind;
          others = b.others ∙ ap (λ (n : Inbound). record n { settings = i₂.settings }) a.others;
        },
      )
  FullSync-Round i i₁ i₂ c (inl (out, e₁)) (inr (kept, b)) =
      absurd (not-IsPassive i₁ i₂ kept b (rw e₁ out))
  FullSync-Round i i₁ i₂ c (inr (kept, a)) (inl (out, _)) =
      absurd (not-IsPassive_after i i₁ kept a out)

  pub Each-Round :
      (is is₁ is₂ : List Inbound)
      → All (λ i. HasCipher (kind_of i)) is
      → Each (FullSync pkg us) is is₁
      → Each (Round pkg u) is₁ is₂
      → Each (FullSync pkg (put_user u us)) is is₂
  Each-Round [] [] [] c a b = tt
  Each-Round (i ∷ is) (i₁ ∷ is₁) (i₂ ∷ is₂) (ci, c) (ai, a) (bi, b) =
      (FullSync-Round i i₁ i₂ ci ai bi, Each-Round is is₁ is₂ c a b)
  Each-Round [] [] (_ ∷ _) c a b = absurd b
  Each-Round [] (_ ∷ _) is₂ c a b = absurd a
  Each-Round (_ ∷ _) [] is₂ c a b = absurd a
  Each-Round (_ ∷ _) (_ ∷ _) [] c a b = absurd b

-- SyncUser agrees with SyncUsers. For users with distinct emails and UUIDs as ids, on inbounds that
-- have no users or whose clients fit their kind, where each Shadowsocks 2022 method names a cipher:
-- a full synchronisation followed by SyncUser of a user, and a full synchronisation of the list
-- with that user put in, both return, and every email has the same account in every inbound.
pub sync_user_agrees :
    (pkg : Packages) (answers : String → Account → Option String) (u : User) (us : List User)
    (is : List Inbound)
    → IsDigest pkg.sha256
    → HasDistinctEmails us
    → All (HasUuids pkg) us
    → HasUuids pkg u
    → All IsSyncable is
    → All (λ i. HasCipher (kind_of i)) is
    → (is₁ is₂ is₃ : List Inbound) × (calls : List Call) × (error : Option String) × (sync_config
          pkg us is
        ≡ ok is₁)
      × (sync_user pkg answers u is₁ ≡ ok (is₂, calls, error))
      × (sync_config pkg (put_user u us) is ≡ ok is₃)
      × Each SameClients is₂ is₃
sync_user_agrees pkg answers u us is digest distinct uuids uuid ready ciphers =
    let (is₁, run₁, a) = sync_config-FullSync pkg us distinct uuids is ready in
    let (is₂, calls, error, run₂, b, _) =
      sync_user-Round pkg answers u is₁ (Each-IsSyncable pkg us is is₁ a) in
    let (is₃, run₃, d) =
      sync_config-FullSync pkg (put_user u us) (put_user-HasDistinctEmails u us distinct)
        (put_user-HasUuids pkg u us uuid uuids) is ready in
    (
      is₁,
      is₂,
      is₃,
      calls,
      error,
      run₁,
      run₂,
      run₃,
      Each-SameClients pkg (put_user u us) is is₂ is₃
          (Each-Round pkg digest u us is is₁ is₂ ciphers a b) d,
    )
