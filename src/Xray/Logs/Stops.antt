-- ===== src/Xray/Logs/Stops.antt =====
-- A reader of the core's output, and Stop of backend/xray/core.go.
use node_nats.Prelude.{◌≡◌, refl, ◌≢◌, ◌⊎◌, inl, inr, String, none, List, [], ◌∷◌, true, arith}
use node_nats.Xray.Logs.{
  Reader, scanning, gone, crashed, holding, sent, Reading, Event, line_read, pipe_closed, go_on,
  stopped, taken, read_line, close_pipe, continue, step, run,
}

-- The reader has no line in hand.
abbrev pub IsIdle : Reader → Type 0
IsIdle scanning = Unit
IsIdle gone = Unit
IsIdle _ = ⊥

-- A reader whose Stop has not come, or has come with no line in hand.
abbrev pub IsSafe : Reading → Type 0
IsSafe r = ((r.logger ≢ none) × (r.reader ≢ crashed)) ⊎ ((r.cancelled ≡ true) × IsIdle r.reader)

-- Every Stop of the events comes while the reader has no line in hand.
abbrev pub CalmStops : List Event → Reading → Type 0
CalmStops [] r = Unit
CalmStops (stopped ∷ es) r = IsIdle r.reader × CalmStops es (step stopped r)
CalmStops (e ∷ es) r = CalmStops es (step e r)

read-IsSafe :
    (line : String) (reader : Reader) (r : Reading)
    → r.reader ≡ reader
    → IsSafe r
    → IsSafe (read_line line reader r)
read-IsSafe line scanning r e h = ground arith
read-IsSafe line gone r e h = h
read-IsSafe line crashed r e h = h
read-IsSafe line (holding l) r e h = h
read-IsSafe line (sent l) r e h = h

close-IsSafe :
    (reader : Reader) (r : Reading) → r.reader ≡ reader → IsSafe r → IsSafe (close_pipe reader r)
close-IsSafe scanning r e h = ground arith
close-IsSafe gone r e h = h
close-IsSafe crashed r e h = h
close-IsSafe (holding l) r e h = h
close-IsSafe (sent l) r e h = h

continue-IsSafe :
    (reader : Reader) (r : Reading) → r.reader ≡ reader → IsSafe r → IsSafe (continue reader r)
continue-IsSafe scanning r e h = h
continue-IsSafe gone r e h = h
continue-IsSafe crashed r e h = h
continue-IsSafe (holding l) r e h = ground arith
continue-IsSafe (sent l) r e h = ground arith

step-IsSafe :
    (e : Event) (r : Reading) → (e ≡ stopped → IsIdle r.reader) → IsSafe r → IsSafe (step e r)
unfolding step
step-IsSafe (line_read line) r calm h = read-IsSafe line r.reader r refl h
step-IsSafe pipe_closed r calm h = close-IsSafe r.reader r refl h
step-IsSafe go_on r calm h = continue-IsSafe r.reader r refl h
step-IsSafe stopped r calm h = inr (refl, calm refl)
step-IsSafe taken r calm h = h

IsSafe-run : (es : List Event) (r : Reading) → CalmStops es r → IsSafe r → IsSafe (run es r)
IsSafe-run [] r calm h = h
IsSafe-run (line_read line ∷ es) r calm h =
    IsSafe-run es (step (line_read line) r) calm (step-IsSafe (line_read line) r (λ e. cc) h)
IsSafe-run (pipe_closed ∷ es) r calm h =
    IsSafe-run es (step pipe_closed r) calm (step-IsSafe pipe_closed r (λ e. cc) h)
IsSafe-run (go_on ∷ es) r calm h =
    IsSafe-run es (step go_on r) calm (step-IsSafe go_on r (λ e. cc) h)
IsSafe-run (stopped ∷ es) r (idle, calm) h =
    IsSafe-run es (step stopped r) calm (step-IsSafe stopped r (λ e. idle) h)
IsSafe-run (taken ∷ es) r calm h =
    IsSafe-run es (step taken r) calm (step-IsSafe taken r (λ e. cc) h)

not_crashed : (r : Reading) → IsSafe r → r.reader ≢ crashed
not_crashed r (inl (_, h)) = h
not_crashed r (inr (_, h)) = λ e. ground arith

-- A reader with a logger that has not crashed, and any events in which each Stop comes while it has no line in hand: it
-- does not call a nil logger.
pub CalmStops-do_not_crash :
    (es : List Event) (r : Reading)
    → r.logger ≢ none
    → r.reader ≢ crashed
    → CalmStops es r
    → (run es r).reader ≢ crashed
CalmStops-do_not_crash es r has fine calm =
    not_crashed (run es r) (IsSafe-run es r calm (inl (has, fine)))

-- A Stop that comes while the reader has a line in hand ends the node: the line is sent, and then the
-- logger's method is called on nil.
pub stop_crashes :
    (r : Reading) (line : String)
    → r.reader ≡ holding line
    → (run (stopped ∷ go_on ∷ go_on ∷ []) r).reader ≡ crashed
unfolding step
stop_crashes r line e = rw e refl
