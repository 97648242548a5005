-- ===== src/Logger/Routing.antt =====
-- Which line goes where: runs of Log between SetLogFile and Close.
use node_nats.Prelude.{
  ℕ, ◌+◌, String, ◌≡◌, refl, sym, ap, ◌∙◌, ◌≢◌, Option, none, some, List, [], ◌∷◌, ◌++◌, Bool, true,
  false, not, ◌==◌, str_eq, arith, if◌then◌else◌,
}
use mathlib.Core.List.{append_assoc, append-nil}
use node_nats.Logger.{
  LogLevel, debug, info, warning, error, critical, Disk, Logger, new_logger, update, set_log_file,
  log, close, print_to,
}

abbrev pub Message : Type 0
Message = LogLevel × String

abbrev pub is_error : LogLevel → Bool
is_error error = true
is_error critical = true
is_error _ = false

-- The texts of the messages that pass a test, in order.
abbrev pub texts : (LogLevel → Bool) → List Message → List String
texts p [] = []
texts p ((level, message) ∷ ms) = let rest = texts p ms in if p level then message ∷ rest else rest

abbrev pub run : Logger → List Message → Disk → Disk × List String
run l [] d = (d, [])
run l ((level, message) ∷ ms) d =
    let (d', printed) = log l level message d in
    let (d'', later) = run l ms d' in (d'', printed ++ later)

-- Two handles, both open.
pub record IsOpen (a e : ℕ) (l : Logger) (d : Disk) : Type 0 where
  pub access_logger : l.access_logger ≡ some a
  pub error_logger : l.error_logger ≡ some e
  pub other : a ≢ e
  pub access_open : (d.file a).is_open ≡ true
  pub error_open : (d.file e).is_open ≡ true

print_to-file :
    (h k : ℕ) (message : String) (d : Disk)
    → (d.file h).is_open ≡ true
    → (print_to (some h) message d).file k ≡ (
        if h == k then record (d.file k) { lines = (d.file k).lines ++ message ∷ [] } else d.file k)
print_to-file h k message d up = ground arith

-- One line: in the error file, or in the access file.
pub record Logged (a e : ℕ) (level : LogLevel) (message : String) (d d' : Disk) : Type 0 where
  pub access_lines :
      (d'.file a).lines
      ≡ (if is_error level then (d.file a).lines else (d.file a).lines ++ message ∷ [])
  pub error_lines :
      (d'.file e).lines
      ≡ (if is_error level then (d.file e).lines ++ message ∷ [] else (d.file e).lines)
  pub access_open : (d'.file a).is_open ≡ true
  pub error_open : (d'.file e).is_open ≡ true

Logged-access :
    (a e : ℕ) (level : LogLevel) (message : String) (d : Disk)
    → a ≢ e
    → (d.file a).is_open ≡ true
    → (d.file e).is_open ≡ true
    → is_error level ≡ false
    → Logged a e level message d (print_to (some a) message d)
Logged-access a e level message d other up_a up_e plain =
    ground (arith, print_to-file a a message d, print_to-file a e message d)

Logged-error :
    (a e : ℕ) (level : LogLevel) (message : String) (d : Disk)
    → a ≢ e
    → (d.file a).is_open ≡ true
    → (d.file e).is_open ≡ true
    → is_error level ≡ true
    → Logged a e level message d (print_to (some e) message d)
Logged-error a e level message d other up_a up_e plain =
    ground (arith, print_to-file e a message d, print_to-file e e message d)

-- The two loggers have handles of their own.
pub record HasLoggers (a e : ℕ) (l : Logger) : Type 0 where
  pub access : l.access_logger ≡ some a
  pub error : l.error_logger ≡ some e
  pub other : a ≢ e

log-Logged :
    (a e : ℕ) (l : Logger) (level : LogLevel) (message : String) (d : Disk)
    → HasLoggers a e l
    → (d.file a).is_open ≡ true
    → (d.file e).is_open ≡ true
    → Logged a e level message d (log l level message d).0
unfolding log
log-Logged a e l debug message d h u v =
    rw (h.access) (Logged-access a e debug message d h.other u v refl)
log-Logged a e l info message d h u v =
    rw (h.access) (Logged-access a e info message d h.other u v refl)
log-Logged a e l warning message d h u v =
    rw (h.access) (Logged-access a e warning message d h.other u v refl)
log-Logged a e l error message d h u v =
    rw (h.error) (Logged-error a e error message d h.other u v refl)
log-Logged a e l critical message d h u v =
    rw (h.error) (Logged-error a e critical message d h.other u v refl)

put :
    (b : Bool) (old : List String) (message : String) (rest : List String)
    → (if b then old ++ message ∷ [] else old) ++ rest ≡ old ++ (if b then message ∷ rest else rest)
put true old message rest = append_assoc old (message ∷ []) rest
put false old message rest = refl

put_other :
    (b : Bool) (old : List String) (message : String) (rest : List String)
    → (if b then old else old ++ message ∷ []) ++ rest
      ≡ old ++ (if not b then message ∷ rest else rest)
put_other true old message rest = refl
put_other false old message rest = append_assoc old (message ∷ []) rest

module _ (a e : ℕ) (l : Logger) (h : HasLoggers a e l) where
  run-lines :
      (ms : List Message) (d : Disk)
      → (d.file a).is_open ≡ true
      → (d.file e).is_open ≡ true
      → (((run l ms d).0.file a).lines
          ≡ (d.file a).lines ++ texts (λ level. not (is_error level)) ms)
        × (((run l ms d).0.file e).lines ≡ (d.file e).lines ++ texts is_error ms)
        × (((run l ms d).0.file a).is_open ≡ true)
        × (((run l ms d).0.file e).is_open ≡ true)
  run-lines [] d u v = (sym (append-nil _), sym (append-nil _), u, v)
  run-lines ((level, message) ∷ ms) d u v =
      let one = log-Logged a e l level message d h u v in
      let ih = run-lines ms (log l level message d).0 one.access_open one.error_open in
      (
        ih.0
            ∙ ap (λ ls. ls ++ texts (λ k. not (is_error k)) ms) one.access_lines
            ∙ put_other (is_error level) (d.file a).lines message
                (texts (λ k. not (is_error k)) ms),
        ih.1
            ∙ ap (λ ls. ls ++ texts is_error ms) one.error_lines
            ∙ put (is_error level) (d.file e).lines message (texts is_error ms),
        ih.2,
        ih.3,
      )

  run-printed :
      (ms : List Message) (d : Disk)
      → (run l ms d).1 ≡ (if l.output_logs then texts (λ level. true) ms else [])
  unfolding log
  run-printed [] d = ground arith
  run-printed ((level, message) ∷ ms) d = ground (arith, run-printed ms (log l level message d).0)

-- The files of a new logger, opened without an error.
abbrev opened : String → String → Disk → Disk
opened access_path error_path d = record d {
  made = d.made + 1 + 1;
  file =
      update (update d.file d.made (record { path = access_path; is_open = true; lines = [] }))
        (d.made + 1) (record { path = error_path; is_open = true; lines = [] });
}

abbrev ready : Bool → ℕ → Logger
ready output a = record {
  output_logs = output;
  access_log_file = some a;
  error_log_file = some (a + 1);
  access_logger = some a;
  error_logger = some (a + 1);
}

set_log_file-opened :
    (system : String → Option String) (access_path error_path : String) (output : Bool) (d : Disk)
    → system access_path ≡ none
    → system error_path ≡ none
    → str_eq access_path "" ≡ false
    → str_eq error_path "" ≡ false
    → set_log_file system access_path error_path d (new_logger output)
      ≡ (opened access_path error_path d, ready output d.made, none)
unfolding set_log_file
set_log_file-opened system access_path error_path output d pass pass' named named' =
    simp (pass, pass', named, named')

log-closed :
    (a e : ℕ) (l : Logger) (level : LogLevel) (message : String) (d : Disk)
    → l.access_logger ≡ some a
    → l.error_logger ≡ some e
    → (d.file a).is_open ≡ false
    → (d.file e).is_open ≡ false
    → (log l level message d).0 ≡ d
unfolding log
log-closed a e l debug message d ha he u v = rw (ha) (ground arith)
log-closed a e l info message d ha he u v = rw (ha) (ground arith)
log-closed a e l warning message d ha he u v = rw (ha) (ground arith)
log-closed a e l error message d ha he u v = rw (he) (ground arith)
log-closed a e l critical message d ha he u v = rw (he) (ground arith)

run-closed :
    (a e : ℕ) (l : Logger) (ms : List Message) (d : Disk)
    → l.access_logger ≡ some a
    → l.error_logger ≡ some e
    → (d.file a).is_open ≡ false
    → (d.file e).is_open ≡ false
    → (run l ms d).0 ≡ d
run-closed a e l [] d ha he u v = refl
run-closed a e l ((level, message) ∷ ms) d ha he u v =
    let same = log-closed a e l level message d ha he u v in
    rw same (run-closed a e l ms d ha he u v)

close-closed :
    (output : Bool) (a : ℕ) (d : Disk)
    → let r = close d (ready output a) in
      ((r.0.file a).is_open ≡ false)
      × ((r.0.file (a + 1)).is_open ≡ false)
      × ((r.0.file a).lines ≡ (d.file a).lines)
      × ((r.0.file (a + 1)).lines ≡ (d.file (a + 1)).lines)
unfolding close
close-closed output a d = ground arith

-- SetLogFile on a new logger with two paths that open, then any calls of Log, then Close, then any calls of Log: the
-- access file gets the messages whose level is neither Error nor Critical, the error file the
-- others, each in order; what comes after Close is in no file; each message before Close is printed where
-- the logger prints.
pub logger_routes :
    (system : String → Option String) (access_path error_path : String) (output : Bool) (d : Disk)
    (ms late : List Message)
    → system access_path ≡ none
    → system error_path ≡ none
    → str_eq access_path "" ≡ false
    → str_eq error_path "" ≡ false
    → (d₁ d₂ d₃ d₄ : Disk) × (l l' : Logger) × (printed printed' : List String) × (set_log_file
          system access_path error_path d
          (new_logger output)
        ≡ (d₁, l, none))
      × (run l ms d₁ ≡ (d₂, printed))
      × (close d₂ l ≡ (d₃, l'))
      × (run l' late d₃ ≡ (d₄, printed'))
      × ((d₄.file d.made).lines ≡ texts (λ level. not (is_error level)) ms)
      × ((d₄.file (d.made + 1)).lines ≡ texts is_error ms)
      × (printed ≡ (if output then texts (λ level. true) ms else []))
unfolding close
logger_routes system access_path error_path output d ms late pass pass' named named' =
    let a = d.made in
    let l = ready output a in
    let d₁ = opened access_path error_path d in
    let has : HasLoggers a (a + 1) l = record {
      access = refl;
      error = refl;
      other = λ e. omega (arith, e);
    } in
    let u : (d₁.file a).is_open ≡ true = ground arith in
    let v : (d₁.file (a + 1)).is_open ≡ true = ground arith in
    let u' : (d₁.file a).lines ≡ [] = ground arith in
    let v' : (d₁.file (a + 1)).lines ≡ [] = ground arith in
    let written = run-lines a (a + 1) l has ms d₁ u v in
    let d₂ = (run l ms d₁).0 in
    let shut = close-closed output a d₂ in
    let r = close d₂ l in
    let still = run-closed a (a + 1) r.1 late r.0 refl refl shut.0 shut.1 in
    (
      d₁,
      d₂,
      r.0,
      (run r.1 late r.0).0,
      l,
      r.1,
      (run l ms d₁).1,
      (run r.1 late r.0).1,
      set_log_file-opened system access_path error_path output d pass pass' named named',
      refl,
      refl,
      refl,
      ap (λ (k : Disk). (k.file a).lines) still
          ∙ shut.2
          ∙ written.0
          ∙ ap (λ ls. ls ++ texts (λ level. not (is_error level)) ms) u',
      ap (λ (k : Disk). (k.file (a + 1)).lines) still
          ∙ shut.3
          ∙ written.1
          ∙ ap (λ ls. ls ++ texts is_error ms) v',
      run-printed a (a + 1) l has ms d₁,
    )
