-- ===== src/Tests/Client.antt =====
-- The client of the core's API, the logs of GetLogs and the system's statistics at concrete inputs.
use node_nats.Prelude.{
  ◌≡◌, refl, inl, inr, String, Option, none, some, [], ◌∷◌, true, false, Result, ok, fail, panic,
}
use node_nats.Common.User.{Bytes}
use node_nats.Common.Codes.{plain}
use node_nats.Xray.Account.{Account, trojan}
use node_nats.Xray.User.{remove_inbound_user, add_inbound_user}
use node_nats.Xray.Client.{
  Message, trojan_account, add_user_operation, Protobuf, cipher_of, AlterInbound, perform,
  perform_all,
}
use node_nats.Xray.Stats.Online.{get_user_online_stats}
use node_nats.Tools.{counters, read, unreadable, Machine, no_stats, get_system_stats}
use node_nats.Controller.Logs.{line, closed, finished, rpc_logs, rest_logs}
use node_nats.Controller.Handlers.{record_system_stats}

-- A marshaller that refuses an empty password.
abbrev marshal : Message → Result Bytes
marshal (trojan_account []) = fail "no password"
marshal (trojan_account password) = ok password
marshal (add_user_operation level email account) = ok (level ∷ account.value)
marshal _ = ok (7 ∷ [])

abbrev protobuf : Protobuf
protobuf = record { marshal = marshal; message_name = λ m. "message"; uuid_text = λ id. "" }

abbrev core : AlterInbound → Option String
core r = some "no such inbound"

abbrev account : Bytes → Account
account password = trojan (record { email = "ann"; level = 0; password = password })

added :
    perform protobuf core (some 20000) (add_inbound_user "TR" (account (9 ∷ [])))
    ≡ ok (
      some (record { tag = "TR"; operation = record { type = "message"; value = 0 ∷ 9 ∷ [] } }),
      some "no such inbound",
    )
unfolding perform
added = refl

unmarshalled :
    perform protobuf core (some 20000) (add_inbound_user "TR" (account []))
    ≡ ok (none, some "no password")
unfolding perform
unmarshalled = refl

closed_client : perform_all protobuf core none (remove_inbound_user "TR" "ann" ∷ []) ≡ panic
unfolding perform_all
closed_client = refl

ciphers : (cipher_of "xchacha20-poly1305" ≡ 8) × (cipher_of "rc4" ≡ 0)
unfolding cipher_of
ciphers = (refl, refl)

online :
    (get_user_online_stats (λ name. inr (some 3)) (some 20000) "ann" ≡ ok (inr ("ann", 3)))
    × (get_user_online_stats (λ name. inr none) (some 20000) "ann" ≡ ok (inr ("ann", 0)))
    × (get_user_online_stats (λ name. inr none) none "" ≡ ok (inl (plain "email required")))
unfolding get_user_online_stats
online = (refl, refl, refl)

abbrev machine : Machine
machine = record {
  memory = read (100, 40);
  cores = read 4;
  percentages = unreadable "no /proc/stat";
  first = counters [];
  second = counters [];
}

partial :
    get_system_stats machine
    ≡ (record no_stats { mem_total = 100; mem_used = 40; cpu_cores = 4 }, some "no /proc/stat")
unfolding get_system_stats
partial = refl

not_recorded : record_system_stats false machine none ≡ none
unfolding record_system_stats
not_recorded = refl

streamed :
    (rpc_logs (line "a" none ∷ closed ∷ []) ≡ ("a" ∷ [], finished (some "log channel closed")))
    × (rest_logs true (line "a" none ∷ closed ∷ []) ≡ ("a\n" ∷ [], finished none))
    × (rest_logs false [] ≡ ([], finished (some "Streaming unsupported")))
unfolding rpc_logs rest_logs
streamed = (refl, refl, refl)
