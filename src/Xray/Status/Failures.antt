-- ===== src/Xray/Status/Failures.antt =====
-- The lines that report a failure of the core to checkXrayStatus of backend/xray/jobs.go.
use Prim.Native.String.{String}
use node_nats.Prelude.{
  ◌≡◌, refl, sym, ◌∙◌, ◌⊎◌, inl, inr, Option, none, some, Bool, true, false, ◌||◌, arith, str_eq,
  eq_iff, contains, Bool-cases, Option-cases, if◌then◌else◌, ◌↔◌,
}
use node_nats.Xray.Status.Entries.{IsEntry, log_fields-IsEntry, IsEntry-log_fields}
use node_nats.Xray.Status.{log_fields, failure, failure_of}

-- A line reports a failure: an entry whose level is Error or whose message has "Failed to start", or a line that is no
-- entry and has it.
abbrev pub Reports : String → Type 0
Reports line =
    ((level : String) × (message : String) × IsEntry line level message
      × ((level ≡ "Error") ⊎ (contains message "Failed to start" ≡ true)))
    ⊎ (¬ ((level : String) × (message : String) × IsEntry line level message)
        × (contains line "Failed to start" ≡ true))

failing : String → String → Bool
failing level message = str_eq level "Error" || contains message "Failed to start"

failing_iff :
    (level message : String)
    → (failing level message ≡ true)
      ↔ ((level ≡ "Error") ⊎ (contains message "Failed to start" ≡ true))
unfolding failing
failing_iff level message = (
  λ e. elim (Bool-cases (str_eq level "Error")) [
    | inl same ↦ inl ((eq_iff level "Error").0 same)
    | inr other ↦ inr (ground (arith, e, other))
  ],
  λ h. elim h [
    | inl same ↦ rw ((eq_iff level "Error").1 same) refl
    | inr found ↦ ground (arith, found)
  ],
)

failure_of_entry :
    (line level message : String)
    → log_fields line ≡ some (level, message)
    → failure_of line ≡ (if failing level message then failure message else none)
unfolding failure_of failing
failure_of_entry line level message e = rw (e, failure_of) refl

failure_of_other :
    (line : String)
    → log_fields line ≡ none
    → failure_of line ≡ (if contains line "Failed to start" then failure line else none)
unfolding failure_of
failure_of_other line e = rw (e, failure_of) refl

if_none : (b : Bool) (text : String) → (if b then failure text else none) ≡ none → ¬ (b ≡ true)
if_none true text e f = absurd (cc)
if_none false text e f = absurd (cc)

none_if : (b : Bool) (text : String) → ¬ (b ≡ true) → (if b then failure text else none) ≡ none
none_if true text h = absurd (h refl)
none_if false text h = refl

none-ne-some : {A : Type 0} {o : Option A} {a : A} → o ≡ none → o ≡ some a → ⊥
none-ne-some e f = absurd (cc)

failure_of_silent : (line : String) → failure_of line ≡ none → ¬ Reports line
failure_of_silent line e (inl (level, message, entry, fails)) =
    if_none (failing level message) message
      (sym (failure_of_entry line level message (IsEntry-log_fields line level message entry)) ∙ e)
      ((failing_iff level message).1 fails)
failure_of_silent line e (inr (no_entry, found)) = elim (Option-cases (log_fields line)) [
  | inl other ↦
      if_none (contains line "Failed to start") line (sym (failure_of_other line other) ∙ e) found
  | inr ((level, message), fields) ↦
      no_entry (level, message, log_fields-IsEntry line level message fields)
]

silent_failure_of : (line : String) → ¬ Reports line → failure_of line ≡ none
silent_failure_of line h = elim (Option-cases (log_fields line)) [
  | inl other ↦
      failure_of_other line other
      ∙ none_if (contains line "Failed to start") line (λ found. h (
          inr (
            (λ (level, message, entry).
                none-ne-some other (IsEntry-log_fields line level message entry)),
            found,
          )))
  | inr ((level, message), fields) ↦
      failure_of_entry line level message fields
      ∙ none_if (failing level message) message (λ fails. h (
          inl (
            level,
            message,
            log_fields-IsEntry line level message fields,
            (failing_iff level message).0 fails,
          )))
]

pub failure_of_iff : (line : String) → (failure_of line ≡ none) ↔ (¬ Reports line)
failure_of_iff line = (failure_of_silent line, silent_failure_of line)
