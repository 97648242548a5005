-- ===== src/Xray/User/Grants.antt =====
-- Which account a user has in an inbound, and the loops of syncUsers as one: for each user the
-- account that it is granted.
use node_nats.Prelude.{
  String, ◌≡◌, refl, ◌≢◌, ◌⊎◌, Option, none, some, List, [], ◌∷◌, arith, str_eq, eq_iff, All,
  if◌then◌else◌, Option-cases, inl, inr,
}
use node_nats.Common.User.{User, get_vmess, get_vless}
use node_nats.Xray.Account.{Account, new_vmess_account, new_vless_account}
use node_nats.Xray.Inbound.{Packages, Inbound}
use node_nats.Xray.Inbound.Clients.{find_client, IsDistinct}
use node_nats.Xray.User.{setup_user_account, is_active_inbound}

-- The account that a user has in an inbound, as isActiveInbound decides it.
abbrev pub granted : Packages → Inbound → User → Option Account
granted pkg i user = is_active_inbound pkg i user.inbounds (setup_user_account pkg user)

-- The account of an email, by the first user that has it.
abbrev pub entitled : {A : Type 0} → (User → Option A) → String → List User → Option A
entitled grant j [] = none
entitled grant j (u ∷ us) = if str_eq u.email j then grant u else entitled grant j us

abbrev pub HasDistinctEmails : List User → Type 0
HasDistinctEmails [] = Unit
HasDistinctEmails (u ∷ us) = All (λ v. v.email ≢ u.email) us × HasDistinctEmails us

-- The ids of a user's Vmess and Vless proxies are UUIDs.
abbrev pub HasUuids : Packages → User → Type 0
HasUuids pkg u =
    ((get_vmess u ≡ none) ⊎ (new_vmess_account pkg.parse_uuid u ≢ none))
    × ((get_vless u ≡ none) ⊎ (new_vless_account pkg.parse_uuid u ≢ none))

module _ {A : Type 0} (email_of : A → String) (grant : User → Option A) where
  abbrev pub granted_list : List User → List (Option A)
  granted_list [] = []
  granted_list (u ∷ us) =
      let later = granted_list us in elim (grant u) [ none ↦ later | some a ↦ some a ∷ later ]

  granted_list-none :
      (u : User) (us : List User) → grant u ≡ none → granted_list (u ∷ us) ≡ granted_list us
  granted_list-none u us e = rw (e, granted_list)

  granted_list-some :
      (u : User) (us : List User) (a : A)
      → grant u ≡ some a
      → granted_list (u ∷ us) ≡ some a ∷ granted_list us
  granted_list-some u us a e = rw (e, granted_list)

  -- A granted account carries the email of its user.
  abbrev pub KeepsEmail : Type 0
  KeepsEmail = (u : User) (a : A) → grant u ≡ some a → email_of a ≡ u.email

  module _ (keeps : KeepsEmail) where
    find_client-absent :
        (j : String) (us : List User)
        → All (λ v. v.email ≢ j) us
        → find_client email_of j (granted_list us) ≡ none
    find_client-absent j [] h = refl
    find_client-absent j (u ∷ us) (other, h) = elim (Option-cases (grant u)) [
      | inl e ↦ ground (arith, e, find_client-absent j us h)
      | inr (a, e) ↦ ground (arith, keeps u a e, find_client-absent j us h, eq_iff (email_of a) j)
    ]

    pub granted_list-IsDistinct :
        (us : List User) → HasDistinctEmails us → IsDistinct email_of (granted_list us)
    granted_list-IsDistinct [] h = tt
    granted_list-IsDistinct (u ∷ us) (fresh, h) = elim (Option-cases (grant u)) [
      | inl e ↦ rw (granted_list-none u us e) (granted_list-IsDistinct us h)
      | inr (a, e) ↦
          rw (granted_list-some u us a e)
            (rw (keeps u a e) (find_client-absent u.email us fresh), granted_list-IsDistinct us h)
    ]

    pub find_client-granted_list :
        (j : String) (us : List User)
        → HasDistinctEmails us
        → find_client email_of j (granted_list us) ≡ entitled grant j us
    find_client-granted_list j [] h = refl
    find_client-granted_list j (u ∷ us) (fresh, h) = elim (Option-cases (grant u)) [
      | inl e ↦ ground (
        arith,
        find_client-granted_list j us h,
        find_client-absent u.email us fresh,
        eq_iff u.email j,
        e,
      )
      | inr (a, e) ↦ ground (arith, keeps u a e, find_client-granted_list j us h)
    ]
