-- ===== src/Xray/Stats.antt =====
-- The traffic counters of backend/xray/api/stats.go and the dispatch of backend/xray/stats.go.
-- Names are bytes, as strings.Split cuts them. The query to the core is an argument: its error, or
-- the counters that it answers. A value is only carried on, so ℕ stands for the int64.
pub mod Split
pub mod Fields
pub mod Online
use node_nats.Prelude.{
  ℕ, String, List, [], ◌∷◌, ◌++◌, Bool, true, false, ◌&&◌, ◌==◌, if◌then◌else◌, get_elem?, Option,
  none, some, Result, ok, fail, panic, ◌>>=◌,
}
use node_nats.Common.User.{Bytes}

-- strings.Split(data, ">>>"): `cur` is the part that is being read.
unfoldable pub split_from : Bytes → Bytes → List Bytes
split_from cur [] = cur ∷ []
split_from cur (a ∷ []) = (cur ++ a ∷ []) ∷ []
split_from cur (a ∷ b ∷ []) = ((cur ++ a ∷ []) ++ b ∷ []) ∷ []
split_from cur (a ∷ b ∷ c ∷ s) =
    let closed = cur ∷ split_from [] s in
    let longer = split_from (cur ++ a ∷ []) (b ∷ c ∷ s) in
    if a == b'>' && b == b'>' && c == b'>' then closed else longer

unfoldable pub split : Bytes → List Bytes
unfolding split_from
split text = split_from [] text

pub record RawStat : Type 0 where
  pub name : Bytes
  pub value : ℕ

pub record Stat : Type 0 where
  pub name : Bytes
  pub type : Bytes
  pub link : Bytes
  pub value : ℕ

-- parts[n]; an index out of range panics
abbrev pub at : Option Bytes → Result Bytes
at none = panic
at (some part) = ok part

-- The loop body of GetUsersStats, GetInboundsStats and GetOutboundsStats, after the split.
unfoldable pub all_parts : List Bytes → ℕ → Result Stat
all_parts parts value = do
  name ← at (get_elem? parts 1)
  link ← at (get_elem? parts 2)
  type ← at (get_elem? parts 3)
  ok (record { name = name; type = type; link = link; value = value })

unfoldable pub all_stat : RawStat → Result Stat
unfolding all_parts split
all_stat raw = all_parts (split raw.name) raw.value

-- The loop body of GetUserStats, GetInboundStats and GetOutboundStats, after the split.
unfoldable pub one_parts : List Bytes → ℕ → Result Stat
one_parts parts value = do
  name ← at (get_elem? parts 1)
  type ← at (get_elem? parts 2)
  link ← at (get_elem? parts 3)
  ok (record { name = name; type = type; link = link; value = value })

unfoldable pub one_stat : RawStat → Result Stat
unfolding one_parts split
one_stat raw = one_parts (split raw.name) raw.value

unfoldable pub collect : (RawStat → Result Stat) → List RawStat → Result (List Stat)
collect parse [] = ok []
collect parse (raw ∷ raws) = do stat ← parse raw; stats ← collect parse raws; ok (stat ∷ stats)

-- The core's QueryStats, at a pattern and the flag that resets the counters.
abbrev pub Query : Type 0
Query = Bytes → Bool → Result (List RawStat)

abbrev pub separator : Bytes
separator = b'>' ∷ b'>' ∷ b'>' ∷ []

abbrev pub user_scope : Bytes
user_scope = b'u' ∷ b's' ∷ b'e' ∷ b'r' ∷ []

abbrev pub inbound_scope : Bytes
inbound_scope = b'i' ∷ b'n' ∷ b'b' ∷ b'o' ∷ b'u' ∷ b'n' ∷ b'd' ∷ []

abbrev pub outbound_scope : Bytes
outbound_scope = b'o' ∷ b'u' ∷ b't' ∷ b'b' ∷ b'o' ∷ b'u' ∷ b'n' ∷ b'd' ∷ []

-- The plural requests, and the singular ones, which want a name.
unfoldable pub scope_stats : Query → Bytes → Bool → Result (List Stat)
unfolding collect
scope_stats query scope reset = query (scope ++ separator) reset >>= collect all_stat

unfoldable pub named_stats : Query → String → Bytes → Bytes → Bool → Result (List Stat)
unfolding collect
named_stats query required scope [] reset = fail required
named_stats query required scope (c ∷ name) reset =
    query (scope ++ (separator ++ ((c ∷ name) ++ separator))) reset >>= collect one_stat

pub data StatType : Type 0 where
  outbounds outbound inbounds inbound users_stat user_stat : StatType
  unknown : ℕ → StatType

pub record StatRequest : Type 0 where
  pub name : Bytes
  pub reset : Bool
  pub type : StatType

-- GetStats
unfoldable pub get_stats_of : Query → StatType → Bytes → Bool → Result (List Stat)
unfolding scope_stats named_stats
get_stats_of query outbounds name reset = scope_stats query outbound_scope reset
get_stats_of query outbound name reset = named_stats query "tag required" outbound_scope name reset
get_stats_of query inbounds name reset = scope_stats query inbound_scope reset
get_stats_of query inbound name reset = named_stats query "tag required" inbound_scope name reset
get_stats_of query users_stat name reset = scope_stats query user_scope reset
get_stats_of query user_stat name reset = named_stats query "email required" user_scope name reset
get_stats_of query (unknown n) name reset = fail "not implemented stat type"

unfoldable pub get_stats : Query → StatRequest → Result (List Stat)
unfolding get_stats_of
get_stats query request = get_stats_of query request.type request.name request.reset
