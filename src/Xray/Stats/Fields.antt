-- ===== src/Xray/Stats/Fields.antt =====
-- What the requests of backend/xray/api/stats.go make of the core's counters.
use node_nats.Prelude.{
  ℕ, String, ◌≡◌, refl, ◌<◌, ◌↔◌, ap, List, [], ◌∷◌, ◌++◌, Bool, All, map, length, arith, Result,
  ok, panic,
}
use node_nats.Common.User.{Bytes}
use node_nats.Xray.Stats.{
  RawStat, Stat, split, separator, all_parts, one_parts, all_stat, one_stat, collect, Query,
  scope_stats, named_stats,
}
use node_nats.Xray.Stats.Split.{IsPart, join, split-join}

-- A counter of the core: scope>>>owner>>>traffic>>>direction, its parts without ">".
pub record Counter : Type 0 where
  pub scope : Bytes
  pub owner : Bytes
  pub kind : Bytes
  pub direction : Bytes
  pub value : ℕ

abbrev pub IsCounter : Counter → Type 0
IsCounter c = IsPart c.scope × IsPart c.owner × IsPart c.kind × IsPart c.direction

abbrev pub raw : Counter → RawStat
raw c = record { name = join c.scope (c.owner ∷ c.kind ∷ c.direction ∷ []); value = c.value }

split-raw :
    (c : Counter) → IsCounter c → split (raw c).name ≡ c.scope ∷ c.owner ∷ c.kind ∷ c.direction ∷ []
split-raw c (hs, ho, hk, hd) =
    split-join c.scope (c.owner ∷ c.kind ∷ c.direction ∷ []) hs (ho, (hk, (hd, tt)))

-- The plural requests put the counter's third part into the link and the fourth into the type.
abbrev pub plural : Counter → Stat
plural c = record { name = c.owner; type = c.direction; link = c.kind; value = c.value }

-- The singular requests put them the other way round.
abbrev pub singular : Counter → Stat
singular c = record { name = c.owner; type = c.kind; link = c.direction; value = c.value }

-- For the same well-formed counter the two loop bodies return, with the type and the link exchanged.
pub stat_fields :
    (c : Counter)
    → IsCounter c
    → (all_stat (raw c) ≡ ok (plural c)) × (one_stat (raw c) ≡ ok (singular c))
unfolding all_stat one_stat
stat_fields c h = (
  ap (λ parts. all_parts parts c.value) (split-raw c h),
  ap (λ parts. one_parts parts c.value) (split-raw c h),
)

collect-map :
    (parse : RawStat → Result Stat) (stat : Counter → Stat) (cs : List Counter)
    → All (λ c. parse (raw c) ≡ ok (stat c)) cs
    → collect parse (map raw cs) ≡ ok (map stat cs)
unfolding collect
collect-map parse stat [] h = refl
collect-map parse stat (c ∷ cs) (one, h) = rw (one, collect-map parse stat cs h) refl

plural_read :
    (cs : List Counter) → All IsCounter cs → All (λ c. all_stat (raw c) ≡ ok (plural c)) cs
plural_read [] h = tt
plural_read (c ∷ cs) (one, h) = ((stat_fields c one).0, plural_read cs h)

singular_read :
    (cs : List Counter) → All IsCounter cs → All (λ c. one_stat (raw c) ≡ ok (singular c)) cs
singular_read [] h = tt
singular_read (c ∷ cs) (one, h) = ((stat_fields c one).1, singular_read cs h)

module _ (query : Query) (scope : Bytes) (reset : Bool) (cs : List Counter)
    (counters : All IsCounter cs) where
  -- Where the core answers well-formed counters, a plural request returns one statistic for each, in order,
  -- with its owner and its value.
  pub scope_stats-plural :
      query (scope ++ separator) reset ≡ ok (map raw cs)
      → scope_stats query scope reset ≡ ok (map plural cs)
  unfolding scope_stats
  scope_stats-plural answer = rw answer (collect-map all_stat plural cs (plural_read cs counters))

  -- Where the core answers well-formed counters, a singular request with a name returns one statistic for each, in
  -- order, with its owner and its value.
  pub named_stats-singular :
      (required : String) (c : ℕ) (name : Bytes)
      → query (scope ++ (separator ++ ((c ∷ name) ++ separator))) reset ≡ ok (map raw cs)
      → named_stats query required scope (c ∷ name) reset ≡ ok (map singular cs)
  unfolding named_stats
  named_stats-singular required c name answer =
      rw answer (collect-map one_stat singular cs (singular_read cs counters))

all_parts_panics_iff :
    (parts : List Bytes) (value : ℕ) → (all_parts parts value ≡ panic) ↔ (length parts < 4)
unfolding all_parts
all_parts_panics_iff [] value = ground arith
all_parts_panics_iff (_ ∷ []) value = ground arith
all_parts_panics_iff (_ ∷ _ ∷ []) value = ground arith
all_parts_panics_iff (_ ∷ _ ∷ _ ∷ []) value = ground arith
all_parts_panics_iff (_ ∷ _ ∷ _ ∷ _ ∷ _) value = ground arith

one_parts_panics_iff :
    (parts : List Bytes) (value : ℕ) → (one_parts parts value ≡ panic) ↔ (length parts < 4)
unfolding one_parts
one_parts_panics_iff [] value = ground arith
one_parts_panics_iff (_ ∷ []) value = ground arith
one_parts_panics_iff (_ ∷ _ ∷ []) value = ground arith
one_parts_panics_iff (_ ∷ _ ∷ _ ∷ []) value = ground arith
one_parts_panics_iff (_ ∷ _ ∷ _ ∷ _ ∷ _) value = ground arith

-- Reading a counter panics exactly where its name has fewer than four parts.
pub stat_panics_iff :
    (r : RawStat)
    → ((all_stat r ≡ panic) ↔ (length (split r.name) < 4))
      × ((one_stat r ≡ panic) ↔ (length (split r.name) < 4))
unfolding all_stat one_stat
stat_panics_iff r =
    (all_parts_panics_iff (split r.name) r.value, one_parts_panics_iff (split r.name) r.value)
