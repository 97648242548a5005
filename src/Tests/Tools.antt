-- ===== src/Tests/Tools.antt =====
-- The tools of tools/ at concrete machines.
use node_nats.Prelude.{ℕ, ◌≡◌, refl, none, List, [], ◌∷◌, Bool, false, arith, ltb, lookup, insert}
use node_nats.Tools.{find_free_port, Counters, counters, snapshot, get_bandwidth_speed}
use node_nats.Tools.Port.{IsFirstFree, find_free_port-IsFirstFree}
use node_nats.Tools.Bandwidth.{total, get_bandwidth_speed_exact}

-- The ports below 10003 are taken.
abbrev is_free : ℕ → Bool
is_free port = ltb 10002 port

find_free_port-IsFirstFree_example : IsFirstFree is_free 10001 (find_free_port is_free 1)
find_free_port-IsFirstFree_example = find_free_port-IsFirstFree is_free 1 (omega arith)

none_free : find_free_port (λ port. false) 49999 ≡ 65536
unfolding find_free_port
none_free = refl

abbrev counted_first : List Counters
counted_first =
    record { name = "eth0"; bytes_recv = 100; bytes_sent = 7 }
    ∷ record { name = "lo"; bytes_recv = 1; bytes_sent = 1 }
    ∷ []

abbrev counted_later : List Counters
counted_later =
    record { name = "lo"; bytes_recv = 5; bytes_sent = 5 }
    ∷ record { name = "eth0"; bytes_recv = 150; bytes_sent = 10 }
    ∷ record { name = "tun0"; bytes_recv = 9; bytes_sent = 9 }
    ∷ []

speeds : get_bandwidth_speed (counters counted_first) (counters counted_later) ≡ (54, 7, none)
unfolding get_bandwidth_speed
speeds = refl

get_bandwidth_speed_exact_example :
    get_bandwidth_speed (counters counted_first) (counters counted_later) ≡ (
      total (λ k. k.bytes_recv) (snapshot counted_first []) counted_later,
      total (λ k. k.bytes_sent) (snapshot counted_first []) counted_later,
      none,
    )
unfolding snapshot lookup insert
get_bandwidth_speed_exact_example =
    get_bandwidth_speed_exact counted_first counted_later (omega arith) (omega arith) (omega arith)
