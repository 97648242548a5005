-- ===== src/Xray/Core/Steps/Single.antt =====
-- Restart excludes itself, in every interleaving.
use node_nats.Prelude.{
  ℕ, ◌≡◌, ◌≢◌, refl, sym, ap, ◌∙◌, ◌⊎◌, inl, inr, String, Option, none, some, Bool, true, false,
  Bool-cases,
}
use node_nats.Prelude.Threads.{put, at-put, here, next}
use node_nats.Xray.Config.{Config}
use node_nats.Xray.Core.{LogFiles, Core, Answers, started, launch_free, launch, stop}
use node_nats.Xray.Core.Steps.{
  Shared, Pc, idle, flagged, preparing, locking, resetting, returned, Move, exits, stops, starts,
  refuses, restarts, kills, misses, prepares, gives_up, launches, resets, System, Step, pick, Reach,
  quiet,
}
use node_nats.Xray.Core.Steps.Logged.{Move-HasLogger}

abbrev pub in_restart : Pc → Bool
in_restart idle = false
in_restart flagged = true
in_restart (preparing r) = r
in_restart (locking r files config) = r
in_restart resetting = true

in_restart-returned : (r : Bool) → in_restart (returned r) ≡ r
in_restart-returned true = refl
in_restart-returned false = refl

stop-restarting : (c : Core) → (stop c).restarting ≡ c.restarting
unfolding stop
stop-restarting c = elim (Bool-cases (started c)) [ inl up ↦ rw up refl | inr down ↦ rw down refl ]

launch_free-restarting :
    (pipes log_file command : Option String) (files : LogFiles) (config : Config) (c : Core)
    → (launch_free pipes log_file command files config c).0.restarting ≡ c.restarting
launch_free-restarting (some message) log_file command files config c = refl
launch_free-restarting none (some message) command files config c = refl
launch_free-restarting none none (some message) files config c = refl
launch_free-restarting none none none files config c = refl

launch-restarting :
    (a : Answers) (files : LogFiles) (config : Config) (c : Core)
    → (launch a files config c).0.restarting ≡ c.restarting
launch-restarting a files config c = elim (Bool-cases (started c)) [
  | inl up ↦ rw up refl
  | inr down ↦ rw down (
      launch_free-restarting a.pipes a.log_file a.command files config
        (record c { process = none }))
]

-- What a step of a thread does to its place and to the flag.
abbrev Keeps : Shared → Pc → Shared → Pc → Type 0
Keeps m p m' p' = (m'.core.restarting ≡ m.core.restarting) × (in_restart p' ≡ in_restart p)

abbrev Enters : Shared → Pc → Shared → Pc → Type 0
Enters m p m' p' =
    (m.core.restarting ≡ false) × (m'.core.restarting ≡ true) × (in_restart p' ≡ true)

abbrev Leaves : Shared → Pc → Shared → Pc → Type 0
Leaves m p m' p' = (m'.core.restarting ≡ false) × (in_restart p ≡ true) × (in_restart p' ≡ false)

abbrev Effect : Shared → Pc → Shared → Pc → Type 0
Effect m p m' p' = Keeps m p m' p' ⊎ (Enters m p m' p' ⊎ Leaves m p m' p')

Move-Effect : {m m' : Shared} {p p' : Pc} → Move m p m' p' → Effect m p m' p'
Move-Effect exits = inl (refl, refl)
Move-Effect {m} stops = inl (stop-restarting m.core, refl)
Move-Effect starts = inl (refl, refl)
Move-Effect (refuses e) = inl (refl, refl)
Move-Effect (restarts e) = inr (inl (e, refl, refl))
Move-Effect {m} kills = inl (stop-restarting m.core, refl)
Move-Effect (misses r e) = inl (refl, in_restart-returned r)
Move-Effect (prepares r l e) = inl (refl, refl)
Move-Effect (gives_up r files config) = inl (refl, in_restart-returned r)
Move-Effect {m} (launches r files config a) =
    inl (launch-restarting a files config m.core, in_restart-returned r)
Move-Effect resets = inr (inr (refl, refl, refl))

abbrev pub InRestart : System → ℕ → Type 0
InRestart s i = in_restart (s.pc i) ≡ true

-- At most one thread is in Restart, the flag is set exactly where one is, and a running process has a logger.
pub record IsExclusive (s : System) : Type 0 where
  pub sole : (i j : ℕ) → InRestart s i → InRestart s j → i ≡ j
  pub flagged : (i : ℕ) → InRestart s i → s.shared.core.restarting ≡ true
  pub taken : s.shared.core.restarting ≡ true → (i : ℕ) × InRestart s i
  pub logged : started s.shared.core ≡ true → s.shared.core.logger ≢ none

abbrev moved : System → ℕ → Shared → Pc → System
moved s i m p = record { shared = m; pc = put s.pc i p }

module _ (s : System) (i : ℕ) (m : Shared) (p : Pc) (h : IsExclusive s)
    (logged : started m.core ≡ true → m.core.logger ≢ none) where
  keep-IsExclusive : Keeps s.shared (s.pc i) m p → IsExclusive (moved s i m p)
  keep-IsExclusive (same_flag, same_place) = record {
    sole = λ j k at_j at_k. h.sole j k (sym (same j) ∙ at_j) (sym (same k) ∙ at_k);
    flagged = λ j at. same_flag ∙ h.flagged j (sym (same j) ∙ at);
    taken = λ set. let (j, at) = h.taken (sym same_flag ∙ set) in (j, same j ∙ at);
    logged = logged;
  }
    where
      same : (j : ℕ) → in_restart (put s.pc i p j) ≡ in_restart (s.pc j)
      same j = elim (at-put s.pc i p j) [
        | inl (back, e) ↦ ap in_restart e ∙ same_place ∙ ap (λ k. in_restart (s.pc k)) (sym back)
        | inr (away, e) ↦ ap in_restart e
      ]

  enter-IsExclusive : Enters s.shared (s.pc i) m p → IsExclusive (moved s i m p)
  enter-IsExclusive (clear, set, inside) = record {
    sole = λ j k at_j at_k. only j at_j ∙ sym (only k at_k);
    flagged = λ j at. set;
    taken = λ _. (i, new);
    logged = logged;
  }
    where
      only : (j : ℕ) → InRestart (moved s i m p) j → j ≡ i
      only j at = elim (at-put s.pc i p j) [
        | inl (back, e) ↦ back
        | inr (away, e) ↦ let set_before = h.flagged j (sym (ap in_restart e) ∙ at) in absurd (cc)
      ]

      new : InRestart (moved s i m p) i
      new = elim (at-put s.pc i p i) [
        | inl (back, e) ↦ ap in_restart e ∙ inside
        | inr (away, e) ↦ absurd (away refl)
      ]

  leave-IsExclusive : Leaves s.shared (s.pc i) m p → IsExclusive (moved s i m p)
  leave-IsExclusive (clear, inside, outside) = record {
    sole = λ j k at_j at_k. absurd (nobody j at_j);
    flagged = λ j at. absurd (nobody j at);
    taken = λ set. absurd (cc);
    logged = logged;
  }
    where
      nobody : (j : ℕ) → InRestart (moved s i m p) j → ⊥
      nobody j at = elim (at-put s.pc i p j) [
        | inl (back, e) ↦ let out = ap in_restart e ∙ outside in absurd (cc)
        | inr (away, e) ↦ away (h.sole j i (sym (ap in_restart e) ∙ at) inside)
      ]

Step-IsExclusive : {s t : System} → Step s t → IsExclusive s → IsExclusive t
Step-IsExclusive {s} (pick i mv) h =
    let logged = Move-HasLogger mv h.logged in
    elim (Move-Effect mv) [
      | inl same ↦ keep-IsExclusive s i _ _ h logged same
      | inr (inl enters) ↦ enter-IsExclusive s i _ _ h logged enters
      | inr (inr leaves) ↦ leave-IsExclusive s i _ _ h logged leaves
    ]

-- From a core that is not being restarted and has a logger where it runs, however starts, stops, restarts and exits of the
-- process overlap: at most one thread is in Restart, the flag is set exactly where one is, and a running process
-- has a logger.
pub Reach-IsExclusive :
    (m : Shared)
    → m.core.restarting ≡ false
    → (started m.core ≡ true → m.core.logger ≢ none)
    → {s : System} → Reach (quiet m) s
    → IsExclusive s
Reach-IsExclusive m clear logged here = record {
  sole = λ i j at_i at_j. absurd (cc);
  flagged = λ i at. absurd (cc);
  taken = λ set. absurd (cc);
  logged = logged;
}
Reach-IsExclusive m clear logged (next r st) =
    Step-IsExclusive st (Reach-IsExclusive m clear logged r)
