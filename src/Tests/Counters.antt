-- ===== src/Tests/Counters.antt =====
-- The counters of backend/xray/api/stats.go at concrete names.
use node_nats.Prelude.{◌≡◌, refl, [], ◌∷◌, true, arith, ok}
use node_nats.Common.User.{Bytes}
use node_nats.Xray.Stats.{scope_stats, user_scope}
use node_nats.Xray.Stats.Split.{IsPart}
use node_nats.Xray.Stats.Fields.{Counter, IsCounter, raw, plural, scope_stats-plural}

abbrev uplink : Bytes
uplink = b'u' ∷ b'p' ∷ []

abbrev traffic : Bytes
traffic = b't' ∷ []

abbrev ann : Bytes
ann = b'a' ∷ b'n' ∷ []

abbrev counter : Counter
counter = record { scope = user_scope; owner = ann; kind = traffic; direction = uplink; value = 42 }

uplink-IsPart : IsPart uplink
uplink-IsPart = ground arith

traffic-IsPart : IsPart traffic
traffic-IsPart = ground arith

ann-IsPart : IsPart ann
ann-IsPart = ground arith

scope-IsPart : IsPart user_scope
scope-IsPart = ground arith

counter-IsCounter : IsCounter counter
counter-IsCounter = (scope-IsPart, ann-IsPart, traffic-IsPart, uplink-IsPart)

scope_stats-plural_example :
    scope_stats (λ pattern reset. ok (raw counter ∷ [])) user_scope true ≡ ok (plural counter ∷ [])
scope_stats-plural_example =
    scope_stats-plural (λ pattern reset. ok (raw counter ∷ [])) user_scope true (counter ∷ [])
      (counter-IsCounter, tt) refl
