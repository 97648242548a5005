-- ===== src/Controller/Races/Serial.antt =====
-- Where one thread serves the requests to start, no backend is overwritten, however stops, other requests and
-- wakes come in.
use node_nats.Prelude.{
  ℕ, zero, suc, ◌≡◌, ◌≢◌, refl, sym, ap, ◌∙◌, inl, inr, none, Bool, true, false, arith, ◌==◌,
  Bool-cases,
}
use node_nats.Prelude.Threads.{put, here, next}
use node_nats.Controller.{Controller, new_request}
use node_nats.Controller.Races.{
  cancel_context, drop_backend, Shared, then_start, then_end, then_sleep, Pc, idle, asked, leaving,
  dropping, starting, connecting, reading, Move, asks, stops, requests, sees_none, sees_some,
  cancels, drops, launches, fails, connects, wakes, reads_late, reads_early, System, Step, pick,
  Reach, quiet, only_first,
}

abbrev pub at_starting : Pc → Bool
at_starting (starting s) = true
at_starting _ = false

-- In a request to start.
abbrev in_start : Pc → Bool
in_start (asked s) = true
in_start (leaving (then_start s)) = true
in_start (dropping (then_start s)) = true
in_start (starting s) = true
in_start (connecting s) = true
in_start _ = false

Move-elsewhere :
    {b : Bool} {m m' : Shared} {p p' : Pc}
    → Move b m p m' p'
    → b ≡ false
    → in_start p ≡ false
    → in_start p' ≡ false
Move-elsewhere (asks s may) is_not h = absurd (cc)
Move-elsewhere stops is_not h = refl
Move-elsewhere (requests now) is_not h = refl
Move-elsewhere (sees_none s e) is_not h = absurd (cc)
Move-elsewhere (sees_some s x e) is_not h = h
Move-elsewhere (cancels (then_start s)) is_not h = h
Move-elsewhere (cancels then_end) is_not h = h
Move-elsewhere (cancels (then_sleep context)) is_not h = h
Move-elsewhere (drops (then_start s) port) is_not h = h
Move-elsewhere (drops then_end port) is_not h = h
Move-elsewhere (drops (then_sleep context) port) is_not h = h
Move-elsewhere (launches s x e) is_not h = h
Move-elsewhere (fails s message e) is_not h = refl
Move-elsewhere (connects s) is_not h = refl
Move-elsewhere (wakes context k e) is_not h = refl
Move-elsewhere (reads_late context k now e) is_not h = refl
Move-elsewhere (reads_early context k now e) is_not h = refl

Move-free :
    {b : Bool} {m m' : Shared} {p p' : Pc}
    → Move b m p m' p'
    → at_starting p' ≡ true
    → m'.session.backend ≡ none
unfolding drop_backend
Move-free (sees_none s e) h = e
Move-free (drops (then_start s) port) h = refl
Move-free (drops then_end port) h = refl
Move-free (drops (then_sleep context) port) h = refl
Move-free (asks s may) h = absurd (cc)
Move-free stops h = absurd (cc)
Move-free (requests now) h = absurd (cc)
Move-free (sees_some s x e) h = absurd (cc)
Move-free (cancels after) h = absurd (cc)
Move-free (launches s x e) h = absurd (cc)
Move-free (fails s message e) h = absurd (cc)
Move-free (connects s) h = absurd (cc)
Move-free (wakes context k e) h = absurd (cc)
Move-free (reads_late context k now e) h = absurd (cc)
Move-free (reads_early context k now e) h = absurd (cc)

Move-none :
    {b : Bool} {m m' : Shared} {p p' : Pc}
    → Move b m p m' p'
    → in_start p ≡ false
    → m.session.backend ≡ none
    → m'.session.backend ≡ none
unfolding drop_backend cancel_context new_request
Move-none (asks s may) h e = e
Move-none stops h e = e
Move-none (requests now) h e = e
Move-none (sees_none s f) h e = e
Move-none (sees_some s x f) h e = e
Move-none (cancels after) h e = e
Move-none (drops after port) h e = refl
Move-none (launches s x f) h e = absurd (cc)
Move-none (fails s message f) h e = e
Move-none (connects s) h e = absurd (cc)
Move-none (wakes context k f) h e = e
Move-none (reads_late context k now f) h e = e
Move-none (reads_early context k now f) h e = e

Move-lost :
    {b : Bool} {m m' : Shared} {p p' : Pc}
    → Move b m p m' p'
    → (at_starting p ≡ true → m.session.backend ≡ none)
    → m.lost ≡ 0
    → m'.lost ≡ 0
Move-lost (launches s x e) free h = rw (free refl) h
Move-lost (asks s may) free h = h
Move-lost stops free h = h
Move-lost (requests now) free h = h
Move-lost (sees_none s e) free h = h
Move-lost (sees_some s x e) free h = h
Move-lost (cancels after) free h = h
Move-lost (drops after port) free h = h
Move-lost (fails s message e) free h = h
Move-lost (connects s) free h = h
Move-lost (wakes context k e) free h = h
Move-lost (reads_late context k now e) free h = h
Move-lost (reads_early context k now e) free h = h

pub record IsSerial (s : System) : Type 0 where
  pub none_lost : s.shared.lost ≡ 0
  pub elsewhere : (i : ℕ) → i ≢ 0 → in_start (s.pc i) ≡ false
  pub free : at_starting (s.pc 0) ≡ true → s.shared.session.backend ≡ none

not-eq : (i j : ℕ) → i ≢ j → (i == j) ≡ false
not-eq i j h = ground arith

starting-in_start : (p : Pc) → in_start p ≡ false → at_starting p ≡ true → ⊥
starting-in_start (starting s) h e = absurd (cc)
starting-in_start idle h e = absurd (cc)
starting-in_start (asked s) h e = absurd (cc)
starting-in_start (leaving after) h e = absurd (cc)
starting-in_start (dropping after) h e = absurd (cc)
starting-in_start (connecting s) h e = absurd (cc)
starting-in_start (reading context k) h e = absurd (cc)

first-IsSerial :
    (s : System) {m : Shared} {p : Pc}
    → Move true s.shared (s.pc 0) m p
    → IsSerial s
    → IsSerial (record { shared = m; pc = put s.pc 0 p })
first-IsSerial s mv h = record {
  none_lost = Move-lost mv h.free h.none_lost;
  elsewhere = λ i ne. rw (not-eq i 0 ne) (h.elsewhere i ne);
  free = λ at. Move-free mv at;
}

other-IsSerial :
    (s : System) (i : ℕ) {m : Shared} {p : Pc}
    → i ≢ 0
    → Move false s.shared (s.pc i) m p
    → IsSerial s
    → IsSerial (record { shared = m; pc = put s.pc i p })
other-IsSerial s i {m} {p} ne mv h = record {
  none_lost = Move-lost mv (λ at. absurd (starting-in_start (s.pc i) quiet_i at)) h.none_lost;
  elsewhere = λ j ne'. elim (Bool-cases (j == i)) [
    | inl same ↦ rw same (Move-elsewhere mv refl quiet_i)
    | inr other ↦ rw other (h.elsewhere j ne')
  ];
  free = λ at.
      let first : put s.pc i p 0 ≡ s.pc 0 = rw (not-eq 0 i (λ e. ne (sym e))) refl in
      Move-none mv quiet_i (h.free (sym (ap at_starting first) ∙ at));
}
  where
    quiet_i : in_start (s.pc i) ≡ false
    quiet_i = h.elsewhere i ne

Step-IsSerial : {s t : System} → Step only_first s t → IsSerial s → IsSerial t
Step-IsSerial {s} (pick zero mv) h = first-IsSerial s mv h
Step-IsSerial {s} (pick (suc i) mv) h = other-IsSerial s (suc i) (λ e. absurd (cc)) mv h

-- While one thread serves the requests to start, one after the other, and stops, other requests and wakes of trackers come
-- in at any point of it: no running backend is ever overwritten, and none is there when StartBackend is called.
pub Reach-IsSerial : (c : Controller) {s : System} → Reach only_first (quiet c) s → IsSerial s
Reach-IsSerial c here = record {
  none_lost = refl;
  elsewhere = λ i ne. refl;
  free = λ at. absurd (cc);
}
Reach-IsSerial c (next r st) = Step-IsSerial st (Reach-IsSerial c r)
