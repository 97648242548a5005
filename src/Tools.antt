-- ===== src/Tools.antt =====
-- tools/port.go and tools/sys.go. Whether a port is free, the drawn number and what the machine answers are
-- arguments. Counters and sums are unsigned 64-bit words.
pub mod Port
pub mod Bandwidth
pub mod Certificates
use node_nats.Prelude.{
  ℕ, zero, suc, ◌+◌, ◌-◌, ◌%◌, String, Option, none, some, List, [], ◌∷◌, Bool, true, false, ltb,
  str_eq, lookup, insert, if◌then◌else◌,
}

-- The loop of FindFreePort, from a port on. Fuel is the number of ports that are left to try.
unfoldable pub find_from : (ℕ → Bool) → ℕ → ℕ → ℕ
find_from is_free zero port = port
find_from is_free (suc fuel) port =
    let later = find_from is_free fuel (port + 1) in
    if ltb port 65536 then (if is_free port then port else later) else port

-- FindFreePort, at the number that rand.Intn(50000) draws
unfoldable pub find_free_port : (ℕ → Bool) → ℕ → ℕ
unfolding find_from
find_free_port is_free drawn = let start = drawn + 10000 in find_from is_free (65536 - start) start

pub record Counters : Type 0 where
  pub name : String
  pub bytes_recv : ℕ
  pub bytes_sent : ℕ

abbrev pub word : ℕ
word = 18446744073709551616

abbrev pub add64 : ℕ → ℕ → ℕ
add64 a b = (a + b) % word

abbrev pub sub64 : ℕ → ℕ → ℕ
sub64 a b = (a + word - b) % word

-- prev: the last snapshot of an interface counts
unfoldable pub snapshot : List Counters → List (String × Counters) → List (String × Counters)
unfolding insert
snapshot [] prev = prev
snapshot (c ∷ cs) prev = snapshot cs (insert c.name c prev)

abbrev pub add_delta : Option Counters → Counters → ℕ × ℕ → ℕ × ℕ
add_delta none c totals = totals
add_delta (some p) c (rx, tx) =
    (add64 rx (sub64 c.bytes_recv p.bytes_recv), add64 tx (sub64 c.bytes_sent p.bytes_sent))

-- The loop over the second snapshot.
unfoldable pub add_deltas : List (String × Counters) → List Counters → ℕ × ℕ → ℕ × ℕ
unfolding lookup
add_deltas prev [] totals = totals
add_deltas prev (c ∷ cs) totals = add_deltas prev cs (add_delta (lookup c.name prev) c totals)

pub data Snapshot : Type 0 where
  counters : List Counters → Snapshot
  unread : String → Snapshot

abbrev pub speed_between : List Counters → List Counters → ℕ × ℕ
speed_between first second = add_deltas (snapshot first []) second (0, 0)

-- getBandwidthSpeed
unfoldable pub get_bandwidth_speed : Snapshot → Snapshot → ℕ × ℕ × Option String
unfolding snapshot add_deltas
get_bandwidth_speed (unread message) second = (0, 0, some message)
get_bandwidth_speed (counters first) (unread message) = (0, 0, some message)
get_bandwidth_speed (counters first) (counters second) =
    let (rx, tx) = speed_between first second in (rx, tx, none)

-- What the machine answers: an error's text, or a value.
pub data Reading (A : Type 0) : Type 0 where
  read : A → Reading A
  unreadable : String → Reading A

-- SystemStatsResponse; the float of cpu_usage is carried as its bits, of which 0 are 0.0.
pub record SystemStats : Type 0 where
  pub mem_total : ℕ
  pub mem_used : ℕ
  pub cpu_cores : ℕ
  pub cpu_usage : ℕ
  pub incoming_bandwidth_speed : ℕ
  pub outgoing_bandwidth_speed : ℕ

pub record Machine : Type 0 where
  pub memory : Reading (ℕ × ℕ)
  pub cores : Reading ℕ
  pub percentages : Reading (List ℕ)
  pub first : Snapshot
  pub second : Snapshot

abbrev pub no_stats : SystemStats
no_stats = record {
  mem_total = 0;
  mem_used = 0;
  cpu_cores = 0;
  cpu_usage = 0;
  incoming_bandwidth_speed = 0;
  outgoing_bandwidth_speed = 0;
}

-- An error ends the reading, with what has been read before it.
abbrev pub read_into :
    {A : Type 0}
    → Reading A
    → SystemStats
    → (A → SystemStats × Option String)
    → SystemStats × Option String
read_into (read a) stats k = k a
read_into (unreadable message) stats k = (stats, some message)

abbrev pub first_or : List ℕ → ℕ → ℕ
first_or [] fallback = fallback
first_or (p ∷ ps) fallback = p

abbrev pub add_bandwidth : ℕ × ℕ × Option String → SystemStats → SystemStats × Option String
add_bandwidth (rx, sent, none) stats =
    (record stats { incoming_bandwidth_speed = rx; outgoing_bandwidth_speed = sent }, none)
add_bandwidth (rx, sent, some message) stats = (stats, some message)

-- GetSystemStats
unfoldable pub get_system_stats : Machine → SystemStats × Option String
unfolding get_bandwidth_speed
get_system_stats m = read_into m.memory no_stats (λ (total, used).
    let stats : SystemStats = record no_stats { mem_total = total; mem_used = used } in
    read_into m.cores stats (λ cores.
      let stats : SystemStats = record stats { cpu_cores = cores } in
      read_into m.percentages stats (λ percentages.
        let stats : SystemStats = record stats {
          cpu_usage = first_or percentages stats.cpu_usage;
        } in
        add_bandwidth (get_bandwidth_speed m.first m.second) stats)))
