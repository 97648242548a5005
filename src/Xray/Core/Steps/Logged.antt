-- ===== src/Xray/Core/Steps/Logged.antt =====
-- A running process has a logger, after every step.
use node_nats.Prelude.{
  ◌≡◌, ◌≢◌, refl, sym, ◌∙◌, inl, inr, String, Option, none, some, Bool, true, false, Bool-cases,
}
use node_nats.Xray.Config.{Config}
use node_nats.Xray.Core.{Process, LogFiles, Core, Answers, started, launch_free, launch, stop}
use node_nats.Xray.Core.Steps.{
  Shared, Pc, ended, exit, Move, exits, stops, starts, refuses, restarts, kills, misses, prepares,
  gives_up, launches, resets,
}

-- The running process has a logger.
abbrev pub HasLogger : Core → Type 0
HasLogger c = started c ≡ true → c.logger ≢ none

pub ended-down :
    (process : Option Process) (c : Core) → started (record c { process = ended process }) ≡ false
unfolding started
ended-down none c = refl
ended-down (some p) c = refl

exit-HasLogger : (c : Core) → HasLogger (exit c)
exit-HasLogger c up = let down = ended-down c.process c in absurd (cc)

stop-HasLogger : (c : Core) → HasLogger c → HasLogger (stop c)
unfolding stop started
stop-HasLogger c h = elim (Bool-cases (started c)) [
  | inl up ↦ rw up (λ e. absurd (cc))
  | inr down ↦ rw down h
]

launch_free-HasLogger :
    (pipes log_file command : Option String) (files : LogFiles) (config : Config) (c : Core)
    → started c ≡ false
    → HasLogger (launch_free pipes log_file command files config c).0
unfolding started
launch_free-HasLogger (some message) log_file command files config c down up = absurd (cc)
launch_free-HasLogger none (some message) command files config c down up = λ e. absurd (cc)
launch_free-HasLogger none none (some message) files config c down up = λ e. absurd (cc)
launch_free-HasLogger none none none files config c down up = λ e. absurd (cc)

none-down : (c : Core) → started (record c { process = none }) ≡ false
unfolding started
none-down c = refl

launch-HasLogger :
    (a : Answers) (files : LogFiles) (config : Config) (c : Core)
    → HasLogger c
    → HasLogger (launch a files config c).0
launch-HasLogger a files config c h = elim (Bool-cases (started c)) [
  | inl up ↦ rw up h
  | inr down ↦ rw down (
      launch_free-HasLogger a.pipes a.log_file a.command files config (record c { process = none })
        (none-down c))
]

pub started-restarting : (b : Bool) (c : Core) → started (record c { restarting = b }) ≡ started c
unfolding started
started-restarting b c = refl

flag-HasLogger : (b : Bool) (c : Core) → HasLogger c → HasLogger (record c { restarting = b })
flag-HasLogger b c h = λ up. h (sym (started-restarting b c) ∙ up)

pub Move-HasLogger :
    {m m' : Shared} {p p' : Pc} → Move m p m' p' → HasLogger m.core → HasLogger m'.core
Move-HasLogger {m} exits h = exit-HasLogger m.core
Move-HasLogger {m} stops h = stop-HasLogger m.core h
Move-HasLogger starts h = h
Move-HasLogger (refuses e) h = h
Move-HasLogger {m} (restarts e) h = flag-HasLogger true m.core h
Move-HasLogger {m} kills h = stop-HasLogger m.core h
Move-HasLogger (misses r e) h = h
Move-HasLogger (prepares r l e) h = h
Move-HasLogger (gives_up r files config) h = h
Move-HasLogger {m} (launches r files config a) h = launch-HasLogger a files config m.core h
Move-HasLogger {m} resets h = flag-HasLogger false m.core h
