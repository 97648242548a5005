-- ===== src/Controller/Uses/Stops.antt =====
-- What a Stop does to a handler that is under way.
use mathlib.Core.Path.{subst}
use node_nats.Prelude.{
  ℕ, zero, suc, ◌+◌, ◌≡◌, refl, sym, ap, ◌∙◌, none, some, true, false, arith, ◌==◌, ==_iff,
}
use node_nats.Prelude.Threads.{put, here, next}
use node_nats.Controller.Uses.{
  Shared, Pc, outside, holding, crashed, Panic, nil_backend, nil_client, fetches_nil, dropped, Move,
  drops, passes, fetches, calls, calls_nil, receives, System, Step, pick, Reach, unused,
}

abbrev moved : System → ℕ → Shared → Pc → System
moved s i m p = record { shared = m; pc = put s.pc i p }

-- A step from where a thread is known to be.
from :
    (s : System) (i : ℕ) {q : Pc} {m : Shared} {p : Pc}
    → s.pc i ≡ q
    → Move s.shared q m p
    → Step s (moved s i m p)
from s i {m} {p} e mv = pick i (subst (λ r. Move s.shared r m p) (sym e) mv)

dropped-closed : (m : Shared) (b : ℕ) → m.backend ≡ some b → (dropped m).shut b ≡ true
dropped-closed m b e = let same : (b == b) ≡ true = (==_iff b b).1 refl in rw e (rw same refl)

-- Thread 0 has the backend of the field, which is open, after some calls, and thread 1 does nothing.
abbrev IsStreaming : ℕ → Shared → ℕ → System → Type 0
IsStreaming k m b t =
    (t.shared ≡ record m { called = k + m.called }) × (t.pc 0 ≡ holding b) × (t.pc 1 ≡ outside)

-- SyncUser after the first users of its stream.
streamed :
    (k : ℕ) (m : Shared) (b : ℕ)
    → m.backend ≡ some b
    → m.shut b ≡ false
    → (t : System) × Reach (unused m) t × IsStreaming k m b t
streamed zero m b field alive = (
  _,
  next (next here (pick 0 (passes b field))) (pick 0 (fetches b field)),
  (ap (λ n. record m { called = n }) (omega arith), refl, refl),
)
streamed (suc k) m b field alive =
    let (t, r, (same, at, other)) = streamed k m b field alive in
    let called = next r (from t 0 at (calls b (ap (λ (n : Shared). n.shut b) same ∙ alive))) in
    let again = ap (λ (n : Shared). n.backend) same ∙ field in
    (
      _,
      next (next called (pick 0 (receives b))) (pick 0 (fetches b again)),
      (
        ap (λ (n : Shared). record n { called = suc n.called }) same
            ∙ ap (λ n. record m { called = n }) (omega arith),
        refl,
        other,
      ),
    )

-- After the given number of answered calls and a Stop, thread 0 is in a panic, and no backend is left.
abbrev pub HasPanicked : Shared → ℕ → Panic → System → Type 0
HasPanicked m k panic t =
    Reach (unused m) t
    × (t.pc 0 ≡ crashed panic)
    × (t.shared.backend ≡ none)
    × (t.shared.called ≡ k + m.called)

-- On a node with an open backend: after any number of answered calls of a stream of SyncUser, a Stop can come in so that the
-- handler's next call of the core is on that backend's nil client and panics, and it can come in so that the handler's next
-- fetch finds no backend and its call panics; no backend is left.
pub stop_crashes_stream :
    (k : ℕ) (m : Shared) (b : ℕ)
    → m.backend ≡ some b
    → m.shut b ≡ false
    → ((t : System) × HasPanicked m k (nil_client b) t)
      × ((t : System) × HasPanicked m k nil_backend t)
stop_crashes_stream k m b field alive =
    let (t, r, (same, at, other)) = streamed k m b field alive in
    let count = ap (λ (n : Shared). n.called) same in
    let stopped = next r (from t 1 other drops) in
    let gone = dropped-closed t.shared b (ap (λ (n : Shared). n.backend) same ∙ field) in
    let fetching = next (next r (from t 0 at (receives b))) (from _ 1 other drops) in
    (
      (_, (next stopped (from _ 0 at (calls_nil b gone)), refl, refl, count)),
      (_, (next fetching (pick 0 (fetches_nil refl)), refl, refl, count)),
    )
