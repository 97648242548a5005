-- ===== src/Xray/Stats/Online.antt =====
-- GetUserOnlineStats and GetUserOnlineIpListStats of backend/xray/api/stats.go. The core's answers are arguments: its
-- error, or the value; a client that is closed is dereferenced, once there is an email.
use node_nats.Prelude.{
  ℕ, ◌⊎◌, inl, inr, String, Option, none, some, List, str_eq, if◌then◌else◌, Result, ok, panic,
}
use node_nats.Common.Codes.{CallError, plain}
use node_nats.Xray.User.{join}

abbrev pub online_name : String → String
online_name email = join (join "user>>>" email) ">>>online"

-- The answer under the email, or the error.
abbrev pub Online : Type 0 → Type 0
Online A = CallError ⊎ (String × A)

abbrev pub named : {A : Type 0} → String → CallError ⊎ A → Online A
named email (inl e) = inl e
named email (inr a) = inr (email, a)

abbrev pub ask : {A : Type 0} → (String → CallError ⊎ A) → Option ℕ → String → Result (Online A)
ask core none email = panic
ask core (some port) email = ok (named email (core (online_name email)))

-- Both requests, which differ in the call of the core that they make.
unfoldable pub get_online :
    {A : Type 0} → (String → CallError ⊎ A) → Option ℕ → String → Result (Online A)
get_online core client email =
    if str_eq email "" then ok (inl (plain "email required")) else ask core client email

-- GetStat().GetValue(), where a missing counter is 0
abbrev pub stat_value : CallError ⊎ Option ℕ → CallError ⊎ ℕ
stat_value (inl e) = inl e
stat_value (inr none) = inr 0
stat_value (inr (some value)) = inr value

unfoldable pub get_user_online_stats :
    (String → CallError ⊎ Option ℕ) → Option ℕ → String → Result (Online ℕ)
unfolding get_online
get_user_online_stats core client email = get_online (λ name. stat_value (core name)) client email

unfoldable pub get_user_online_ip_list_stats :
    (String → CallError ⊎ List (String × ℕ))
    → Option ℕ
    → String
    → Result (Online (List (String × ℕ)))
unfolding get_online
get_user_online_ip_list_stats core client email = get_online core client email
