-- ===== src/Tools/Bandwidth.antt =====
-- The speeds of tools/sys.go, where no counter has wrapped or been reset.
use node_nats.Prelude.{
  ℕ, ◌+◌, ◌-◌, ◌≤◌, ◌<◌, ◌≡◌, ap, ◌∙◌, String, Option, none, some, List, [], ◌∷◌, arith, lookup,
  All,
}
use node_nats.Tools.{
  Counters, word, add64, sub64, add_delta, add_deltas, snapshot, counters, get_bandwidth_speed,
}

-- How far a counter has grown; 0 where the interface was not in the first snapshot.
abbrev pub growth : (Counters → ℕ) → Option Counters → Counters → ℕ
growth f none c = 0
growth f (some p) c = f c - f p

abbrev pub total : (Counters → ℕ) → List (String × Counters) → List Counters → ℕ
total f prev [] = 0
total f prev (c ∷ cs) = growth f (lookup c.name prev) c + total f prev cs

-- The counters of an interface are words, and have not gone back.
abbrev pub HasGrown : Option Counters → Counters → Type 0
HasGrown none c = Unit
HasGrown (some p) c =
    (p.bytes_recv ≤ c.bytes_recv)
    × (c.bytes_recv < word)
    × (p.bytes_sent ≤ c.bytes_sent)
    × (c.bytes_sent < word)

grown :
    (sum now before : ℕ)
    → before ≤ now
    → now < word
    → sum + (now - before) < word
    → add64 sum (sub64 now before) ≡ sum + (now - before)
grown sum now before le fits room = omega (arith, le, fits, room)

delta :
    (o : Option Counters) (c : Counters) (rx tx : ℕ)
    → HasGrown o c
    → rx + growth (λ k. k.bytes_recv) o c < word
    → tx + growth (λ k. k.bytes_sent) o c < word
    → add_delta o c (rx, tx)
      ≡ (rx + growth (λ k. k.bytes_recv) o c, tx + growth (λ k. k.bytes_sent) o c)
delta none c rx tx h u v = ground arith
delta (some p) c rx tx h u v =
    let (gr, wr, gs, ws) = h in
    ground (
      arith,
      grown rx c.bytes_recv p.bytes_recv gr wr u,
      grown tx c.bytes_sent p.bytes_sent gs ws v,
    )

deltas :
    (prev : List (String × Counters)) (cs : List Counters) (rx tx : ℕ)
    → All (λ c. HasGrown (lookup c.name prev) c) cs
    → rx + total (λ k. k.bytes_recv) prev cs < word
    → tx + total (λ k. k.bytes_sent) prev cs < word
    → add_deltas prev cs (rx, tx)
      ≡ (rx + total (λ k. k.bytes_recv) prev cs, tx + total (λ k. k.bytes_sent) prev cs)
unfolding add_deltas
deltas prev [] rx tx h u v = ground arith
deltas prev (c ∷ cs) rx tx (one, h) u v =
    let rx' = rx + growth (λ k. k.bytes_recv) (lookup c.name prev) c in
    let tx' = tx + growth (λ k. k.bytes_sent) (lookup c.name prev) c in
    rw (delta (lookup c.name prev) c rx tx one (omega (arith, u)) (omega (arith, v)))
      (deltas prev cs rx' tx' h (omega (arith, u)) (omega (arith, v)) ∙ ground arith)

-- Where both snapshots are read, no counter has gone back and the sums fit 64 bits, the speeds are the sums of how far the
-- counters of the interfaces in both have grown.
pub get_bandwidth_speed_exact :
    (first second : List Counters)
    → let prev = snapshot first [] in
      All (λ c. HasGrown (lookup c.name prev) c) second
      → total (λ k. k.bytes_recv) prev second < word
      → total (λ k. k.bytes_sent) prev second < word
      → get_bandwidth_speed (counters first) (counters second)
        ≡ (total (λ k. k.bytes_recv) prev second, total (λ k. k.bytes_sent) prev second, none)
unfolding get_bandwidth_speed
get_bandwidth_speed_exact first second h u v =
    ap (λ (r : ℕ × ℕ). (r.0, r.1, none))
      (deltas (snapshot first []) second 0 0 h (omega (arith, u)) (omega (arith, v)))
    ∙ ground arith
