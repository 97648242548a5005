-- ===== src/Controller/Races/Overlaps.antt =====
-- What overlapping handlers of a session leave.
use node_nats.Prelude.{ℕ, ◌≡◌, refl, none, some, [], ◌∷◌, true, arith}
use node_nats.Prelude.Threads.{here, next}
use node_nats.Controller.{Backend, Tracker, Controller, connect, launched, Start, is_overdue}
use node_nats.Controller.Session.{IsClosed, found}
use node_nats.Controller.Races.{
  cancel_context, drop_backend, store, then_start, then_end, then_sleep, idle, asks, stops,
  sees_none, sees_some, cancels, drops, launches, connects, wakes, reads_late, System, pick, Reach,
  quiet, everyone, only_first,
}

abbrev opened : Start → ℕ → Tracker
opened s context = record { context = context; keep_alive = s.keep_alive }

-- Threads 0 and 1 have ended what they did.
abbrev pub BothIdle : System → Type 0
BothIdle t = (t.pc 0 ≡ idle) × (t.pc 1 ≡ idle)

-- On a closed session, two starts whose backends both start can overlap so that the first backend is overwritten: after both
-- have returned, and a stop, no backend is left and one runs that nothing shuts down, with the goroutines of the
-- first session.
pub two_starts_lose_backend :
    (c : Controller) (s s' : Start) (b b' : Backend) (port : ℕ)
    → IsClosed c
    → s.launch ≡ launched b
    → s'.launch ≡ launched b'
    → (t : System) × Reach everyone (quiet c) t
      × BothIdle t
      × (t.shared.session.backend ≡ none)
      × (t.shared.lost ≡ 1)
      × (t.shared.session.live ≡ opened s c.made ∷ [])
unfolding store connect drop_backend cancel_context
two_starts_lose_backend c s s' b b' port (closed, live, _) answer answer' =
    let asked = next (next here (pick 0 (asks s refl))) (pick 1 (asks s' refl)) in
    let seen = next (next asked (pick 0 (sees_none s closed))) (pick 1 (sees_none s' closed)) in
    let one = next (next seen (pick 0 (launches s b answer))) (pick 0 (connects s)) in
    let two = next (next one (pick 1 (launches s' b' answer'))) (pick 1 (connects s')) in
    (
      _,
      next (next (next two (pick 0 stops)) (pick 0 (cancels then_end)))
          (pick 0 (drops then_end port)),
      (refl, refl),
      refl,
      rw closed refl,
      rw live (ground arith),
    )

-- On an open session, a wake of its tracker that finds it overdue can overlap with a start whose backend starts, also where
-- the starts are served one after the other: Disconnect runs for the start and then for the wake, and not else, and both
-- return; the new backend is shut down, and the goroutines of the new session run without a backend.
pub late_wake_ends_start :
    (c : Controller) (s : Start) (b old : Backend) (k now port : ℕ)
    → c.backend ≡ some old
    → c.live ≡ record { context = c.cancel; keep_alive = k } ∷ []
    → is_overdue k c.last_request now ≡ true
    → s.launch ≡ launched b
    → (t : System) × Reach only_first (quiet c) t
      × BothIdle t
      × (t.shared.left ≡ then_sleep c.cancel ∷ then_start s ∷ [])
      × (t.shared.session.backend ≡ none)
      × (t.shared.session.live ≡ opened s c.made ∷ [])
unfolding store connect drop_backend cancel_context
late_wake_ends_start c s b old k now port running live late answer =
    let alive = found c.cancel k c.live live in
    let woken =
      next (next here (pick 1 (wakes c.cancel k alive)))
        (pick 1 (reads_late c.cancel k now late)) in
    let left =
      next (next (next woken (pick 0 (asks s refl))) (pick 0 (sees_some s old running)))
        (pick 0 (cancels (then_start s))) in
    let stored =
      next (next left (pick 0 (drops (then_start s) s.free_port))) (pick 0 (launches s b answer)) in
    let ended =
      next (next stored (pick 1 (cancels (then_sleep c.cancel))))
        (pick 1 (drops (then_sleep c.cancel) port)) in
    (_, next ended (pick 0 (connects s)), (refl, refl), refl, refl, rw live (ground arith))
