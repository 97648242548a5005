-- ===== src/Xray/User/Round.antt =====
-- SyncUser of backend/xray/user.go: what one synchronisation does to each inbound.
use mathlib.Core.Option
use node_nats.Prelude.{
  String, ◌≡◌, refl, sym, ap, ◌∙◌, ◌⊎◌, inl, inr, Option, none, some, List, [], ◌∷◌, ◌++◌, true,
  false, arith, str_eq, mem, All, ok, if◌then◌else◌, Bool-cases,
}
use node_nats.Common.User.{User}
use node_nats.Xray.Account.{
  Account, get_email, new_vmess_account, new_vless_account, new_trojan_account,
  new_shadowsocks_account, new_shadowsocks_tcp_account,
}
use node_nats.Xray.Flow.{check_vless}
use node_nats.Xray.Inbound.{
  Packages, Inbound, Kind, vmess_kind, vless_kind, trojan_kind, shadowsocks_kind,
  shadowsocks_tcp_kind, other_kind, kind_of, check_shadowsocks_2022, remove_client, remove_user,
}
use node_nats.Xray.Inbound.View.{client, IsReady, Updates}
use node_nats.Xray.Inbound.Update.{Suits, stored, update_user-Updates, remove_user-Updates}
use node_nats.Xray.User.{
  setup_user_account, active_account, is_active_inbound, Call, remove_inbound_user,
  add_inbound_user, Synced, error_text, join, sync_error, sync_inbound, sync_inbounds, sync_user,
}
use node_nats.Xray.User.Grants.{granted}

module _ (pkg : Packages) where
  active-Suits :
      (k : Kind) (i : Inbound) (user : User) (a : Account)
      → active_account pkg k i (setup_user_account pkg user) ≡ some a
      → Suits a k × (get_email a ≡ user.email)
  unfolding active_account setup_user_account new_vmess_account new_vless_account new_trojan_account
      new_shadowsocks_account new_shadowsocks_tcp_account check_vless check_shadowsocks_2022
  active-Suits vmess_kind i user a h = ground arith
  active-Suits vless_kind i user a h = ground arith
  active-Suits trojan_kind i user a h = ground arith
  active-Suits (shadowsocks_kind method) i user a h = ground arith
  active-Suits shadowsocks_tcp_kind i user a h = ground arith
  active-Suits other_kind i user a h = cc

  -- An account that isActiveInbound answers is of the inbound's kind and has the user's email.
  granted-Suits :
      (i : Inbound) (user : User) (a : Account)
      → granted pkg i user ≡ some a
      → Suits a (kind_of i) × (get_email a ≡ user.email)
  unfolding is_active_inbound
  granted-Suits i user a h = active-Suits (kind_of i) i user a (ground arith)

-- What a round leaves in the view of an inbound: the user's account, or none, and all else as it was.
abbrev pub round_view : Packages → User → Inbound → String → Option Account
round_view pkg user i j =
    if str_eq user.email j
    then Option.map (stored pkg (kind_of i)) (granted pkg i user)
    else client i j

-- An inbound without users: an excluded one, or one of a protocol that has none, such as the API's.
abbrev pub IsPassive : Inbound → Type 0
IsPassive i = (i.exclude ≡ true) ⊎ (kind_of i ≡ other_kind)

-- One round: an inbound without users stays as it is, any other has the user's account and no other
-- change.
abbrev pub Round : Packages → User → Inbound → Inbound → Type 0
Round pkg user i i' =
    (IsPassive i × (i' ≡ i)) ⊎ ((i.exclude ≡ false) × Updates i i' (round_view pkg user i))

abbrev pub Each : (Inbound → Inbound → Type 0) → List Inbound → List Inbound → Type 0
Each P [] [] = Unit
Each P (i ∷ is) (i' ∷ is') = P i i' × Each P is is'
Each P _ _ = ⊥

-- An inbound without users, or one whose clients fit its kind.
abbrev pub IsSyncable : Inbound → Type 0
IsSyncable i = IsPassive i ⊎ ((i.exclude ≡ false) × IsReady i)

-- The core accepts every user that it gets.
abbrev pub Accepts : (String → Account → Option String) → Type 0
Accepts answers = (tag : String) (a : Account) → answers tag a ≡ none

-- The call that adds a user, where there is an account.
abbrev pub added : String → Option Account → List Call
added tag none = []
added tag (some a) = add_inbound_user tag a ∷ []

-- The calls for one inbound: the user is removed, and added again where it has an account.
abbrev pub asked_of : User → Inbound → Option Account → List Call
asked_of user i o = if i.exclude then [] else remove_inbound_user i.tag user.email ∷ added i.tag o

abbrev pub asked : Packages → User → List Inbound → List Call
asked pkg user [] = []
asked pkg user (i ∷ is) = asked_of user i (granted pkg i user) ++ asked pkg user is

pub granted-other :
    (pkg : Packages) (i : Inbound) (user : User)
    → kind_of i ≡ other_kind
    → granted pkg i user ≡ none
unfolding is_active_inbound active_account
granted-other pkg i user e = rw e (ground arith)

module _ (pkg : Packages) (answers : String → Account → Option String) (user : User) where
  sync_inbound-Updates :
      (i : Inbound) (o : Option Account)
      → granted pkg i user ≡ o
      → IsReady i
      → (i' : Inbound) × (calls : List Call) × (message : String) × (sync_inbound pkg answers user i
            o
          ≡ ok (i', calls, message))
        × Updates i i' (round_view pkg user i)
        × (calls ≡ remove_inbound_user i.tag user.email ∷ added i.tag o)
        × (Accepts answers → message ≡ "")
  unfolding sync_inbound
  sync_inbound-Updates i none e ready =
      let (i', done, new) = remove_user-Updates i ready user.email in
      (
        i',
        remove_inbound_user i.tag user.email ∷ [],
        "",
        rw done refl,
        record {
          ready = new.ready;
          found = λ j. rw e (new.found j);
          kind = new.kind;
          others = new.others;
        },
        refl,
        λ q. refl,
      )
  sync_inbound-Updates i (some a) e ready =
      let (suits, email) = granted-Suits pkg i user a e in
      let (i', done, new) = update_user-Updates i ready pkg a suits in
      let calls = remove_inbound_user i.tag user.email ∷ add_inbound_user i.tag a ∷ [] in
      (
        i',
        calls,
        error_text (answers i.tag a),
        rw done refl,
        record {
          ready = new.ready;
          found = λ j. rw (e, ← email) (new.found j);
          kind = new.kind;
          others = new.others;
        },
        refl,
        λ q. ap error_text (q i.tag a),
      )

  sync_inbound-other :
      (i : Inbound)
      → kind_of i ≡ other_kind
      → sync_inbound pkg answers user i (granted pkg i user)
        ≡ ok (i, remove_inbound_user i.tag user.email ∷ [], "")
  unfolding sync_inbound is_active_inbound active_account remove_user remove_client
  sync_inbound-other i e = elim (Bool-cases (mem user.inbounds i.tag)) [
    | inl named ↦ rw (named, e) (rw e refl)
    | inr other ↦ rw other (rw e refl)
  ]

  asked_of_kept :
      (i : Inbound) (o : Option Account)
      → i.exclude ≡ false
      → asked_of user i o ≡ remove_inbound_user i.tag user.email ∷ added i.tag o
  asked_of_kept i o kept = rw kept refl

  asked_of-other :
      (i : Inbound)
      → i.exclude ≡ false
      → kind_of i ≡ other_kind
      → asked_of user i (granted pkg i user) ≡ remove_inbound_user i.tag user.email ∷ []
  asked_of-other i kept other =
      ap (asked_of user i) (granted-other pkg i user other) ∙ asked_of_kept i none kept

  pub sync_inbounds-Round :
      (is : List Inbound)
      → All IsSyncable is
      → (r : Synced) × (sync_inbounds pkg answers user (setup_user_account pkg user) is ≡ ok r)
        × Each (Round pkg user) is r.inbounds
        × (r.calls ≡ asked pkg user is)
        × (Accepts answers → r.message ≡ "")
  unfolding sync_inbounds
  sync_inbounds-Round [] h = (_, refl, tt, refl, λ q. refl)
  sync_inbounds-Round (i ∷ is) (inl passive, h) = elim (Bool-cases i.exclude) [
    | inl out ↦
        let (r, done, each, said, quiet) = sync_inbounds-Round is h in
        (
          record r { inbounds = i ∷ r.inbounds },
          simp (out, done),
          (inl (passive, refl), each),
          rw out said,
          quiet,
        )
    | inr kept ↦
        let (r, done, each, said, quiet) = sync_inbounds-Round is h in
        let other : kind_of i ≡ other_kind = ground arith in
        (
          record {
            inbounds = i ∷ r.inbounds;
            calls = remove_inbound_user i.tag user.email ∷ r.calls;
            message = join "" r.message;
          },
          simp (kept, sync_inbound-other i other, done),
          (inl (passive, refl), each),
          ap (λ cs. remove_inbound_user i.tag user.email ∷ cs) said
              ∙ ap (λ cs. cs ++ asked pkg user is) (sym (asked_of-other i kept other)),
          λ q. ap (join "") (quiet q),
        )
  ]
  sync_inbounds-Round (i ∷ is) (inr (kept, ready), h) =
      let (r, done, each, said, quiet) = sync_inbounds-Round is h in
      let (i', calls, message, run, new, one, hushed) =
        sync_inbound-Updates i (granted pkg i user) refl ready in
      (
        record {
          inbounds = i' ∷ r.inbounds;
          calls = calls ++ r.calls;
          message = join message r.message;
        },
        simp (kept, run, done),
        (inr (kept, new), each),
        ap (λ cs. cs ++ r.calls) one
            ∙ ap
                (λ cs.
                  remove_inbound_user i.tag user.email ∷ added i.tag (granted pkg i user) ++ cs)
                said
            ∙ ap (λ cs. cs ++ asked pkg user is) (sym (asked_of_kept i (granted pkg i user) kept)),
        λ q. rw (hushed q, quiet q) refl,
      )

  -- SyncUser returns on inbounds that have no users (the excluded ones, and those of a protocol
  -- without users, such as the API's) or whose clients fit their kinds. It leaves the former as they are; in every other one the user's email has the account that isActiveInbound grants (its
  -- Shadowsocks 2022 password prepared), or none where it grants none, every other email has the
  -- account it had, the clients still fit, and no field but the settings changes. It returns no error
  -- where the core accepts every user that it gets.
  pub sync_user-Round :
      (is : List Inbound)
      → All IsSyncable is
      → (is' : List Inbound) × (calls : List Call) × (error : Option String) × (sync_user pkg
            answers user is
          ≡ ok (is', calls, error))
        × Each (Round pkg user) is is'
        × (Accepts answers → error ≡ none)
  unfolding sync_user
  sync_user-Round is h =
      let (r, done, each, said, quiet) = sync_inbounds-Round is h in
      (r.inbounds, r.calls, sync_error r.message, rw done refl, each, λ q. ap sync_error (quiet q))
