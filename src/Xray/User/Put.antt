-- ===== src/Xray/User/Put.antt =====
-- A user put into a list of users, which has one user for an email.
use node_nats.Prelude.{
  String, ◌≡◌, refl, ◌≢◌, Option, List, [], ◌∷◌, arith, str_eq, eq_iff, All, if◌then◌else◌,
}
use node_nats.Common.User.{User}
use node_nats.Xray.Inbound.{Packages}
use node_nats.Xray.User.Grants.{entitled, HasDistinctEmails, HasUuids}

-- The user list with one user put in place of the one with its email, or at the end.
unfoldable pub put_user : User → List User → List User
put_user u [] = u ∷ []
put_user u (v ∷ vs) = if str_eq v.email u.email then u ∷ vs else v ∷ put_user u vs

pub entitled-put_user :
    {A : Type 0} (grant : User → Option A) (u : User) (j : String) (us : List User)
    → entitled grant j (put_user u us) ≡ (if str_eq u.email j then grant u else entitled grant j us)
unfolding put_user
entitled-put_user grant u j [] = refl
entitled-put_user grant u j (v ∷ vs) = ground (
  arith,
  entitled-put_user grant u j vs,
  eq_iff v.email u.email,
  eq_iff v.email j,
  eq_iff u.email j,
)

fresh-put_user :
    (e : String) (u : User) (us : List User)
    → u.email ≢ e
    → All (λ v. v.email ≢ e) us
    → All (λ v. v.email ≢ e) (put_user u us)
unfolding put_user
fresh-put_user e u [] other h = (other, tt)
fresh-put_user e u (v ∷ vs) other (first, h) = ground (arith, fresh-put_user e u vs other h)

replaced :
    (e : String) (f : String) (us : List User)
    → f ≡ e
    → All (λ v. v.email ≢ f) us
    → All (λ v. v.email ≢ e) us
replaced e f us same h = rw (← same) h

pub put_user-HasDistinctEmails :
    (u : User) (us : List User) → HasDistinctEmails us → HasDistinctEmails (put_user u us)
unfolding put_user
put_user-HasDistinctEmails u [] h = (tt, tt)
put_user-HasDistinctEmails u (v ∷ vs) (fresh, h) = ground (
  arith,
  put_user-HasDistinctEmails u vs h,
  replaced u.email v.email vs,
  fresh-put_user v.email u vs,
  eq_iff v.email u.email,
)

pub put_user-HasUuids :
    (pkg : Packages) (u : User) (us : List User)
    → HasUuids pkg u
    → All (HasUuids pkg) us
    → All (HasUuids pkg) (put_user u us)
unfolding put_user
put_user-HasUuids pkg u [] hu h = (hu, tt)
put_user-HasUuids pkg u (v ∷ vs) hu (hv, h) = ground (arith, put_user-HasUuids pkg u vs hu h)
