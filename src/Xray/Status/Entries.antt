-- ===== src/Xray/Status/Entries.antt =====
-- The log pattern of checkXrayStatus of backend/xray/jobs.go: the lines that it matches, by their parts.
use Prim.Native.Char.{Char}
use Prim.Native.String.{String, [], ◌∷◌}
use node_nats.Prelude.{◌≡◌, ◌≢◌, refl, sym, ap, ◌∙◌, inl, inr, Option, none, some, arith}
use node_nats.Xray.Status.Pieces.{
  Fits, Without, ahead, some-inj, after_sound, after_complete, to_bracket_sound,
  to_bracket_complete, Without-is_line, message_of-some,
}
use node_nats.Xray.Status.{after, to_bracket, message_of, level_and_message, log_fields}

-- A line of the core's log: a time, a level in brackets and a message.
pub record IsEntry (line level message : String) : Type 0 where
  pub time : String
  pub closing : String
  pub times : Fits "dddd/dd/dd dd:dd:dd [" time
  pub closes : Fits "] " closing
  pub levels : (level ≢ []) × Without b']' level
  pub messages : (message ≢ []) × Without 10 message
  pub parts : line ≡ ahead time (ahead level (ahead closing message))

-- What level_and_message takes apart.
abbrev IsTaken : Option (String × String) → String → String → Type 0
IsTaken o l m =
    (r : String) × (gap : String) × (o ≡ some (l, r))
    × (l ≢ [])
    × Fits " " gap
    × (r ≡ ahead gap m)
    × (m ≢ [])
    × Without 10 m

abbrev with_message : String → Option String → Option (String × String)
with_message l none = none
with_message l (some message) = some (l, message)

abbrev with_text : String → Option String → Option (String × String)
with_text l none = none
with_text l (some text) = with_message l (message_of text)

level_and_message-with_text :
    (c : Char) (l r : String)
    → level_and_message (some (c ∷ l, r)) ≡ with_text (c ∷ l) (after " " r)
level_and_message-with_text c l r = go (after " " r)
  where
    go :
        (a : Option String)
        → elim a [
          | none ↦ none
          | some text ↦ elim (message_of text) [
            | none ↦ none
            | some message ↦ some (c ∷ l, message)
          ]
        ]
          ≡ with_text (c ∷ l) a
    go none = refl
    go (some text) = inner (message_of text)
      where
        inner :
            (b : Option String)
            → elim b [ none ↦ none | some message ↦ some (c ∷ l, message) ] ≡ with_message (c ∷ l) b
        inner none = refl
        inner (some message) = refl

with_message-some :
    (l : String) (o : Option String) (l' m : String)
    → with_message l o ≡ some (l', m)
    → (o ≡ some m) × (l ≡ l')
with_message-some l none l' m e = absurd (cc)
with_message-some l (some message) l' m e =
    let same = some-inj e in
    (ap (λ (q : String × String). some q.1) same, ap (λ (q : String × String). q.0) same)

with_text-IsTaken :
    (l r : String) (a : Option String) (l' m : String)
    → l ≢ []
    → after " " r ≡ a
    → with_text l a ≡ some (l', m)
    → IsTaken (some (l, r)) l' m
with_text-IsTaken l r none l' m ne at e = absurd (cc)
with_text-IsTaken l r (some text) l' m ne at e =
    let (found, same) = with_message-some l (message_of text) l' m e in
    let (gap, fits, parts) = after_sound " " r text at in
    let (text_m, m_ne, free) = message_of-some text m found in
    (
      r,
      gap,
      ap (λ q. some (q, r)) same,
      (λ f. ne (same ∙ f)),
      fits,
      parts ∙ ap (ahead gap) text_m,
      m_ne,
      free,
    )

level_and_message_sound :
    (o : Option (String × String)) (l m : String)
    → level_and_message o ≡ some (l, m)
    → IsTaken o l m
level_and_message_sound none l m e = absurd (cc)
level_and_message_sound (some ([], r)) l m e = absurd (cc)
level_and_message_sound (some (c ∷ l₀, r)) l m e =
    with_text-IsTaken (c ∷ l₀) r (after " " r) l m (λ f. absurd (cc)) refl
      (sym (level_and_message-with_text c l₀ r) ∙ e)

abbrev fields_after : Option String → Option (String × String)
fields_after none = none
fields_after (some rest) = level_and_message (to_bracket rest)

log_fields-fields_after :
    (line : String) → log_fields line ≡ fields_after (after "dddd/dd/dd dd:dd:dd [" line)
unfolding log_fields
log_fields-fields_after line = go (after "dddd/dd/dd dd:dd:dd [" line)
  where
    go :
        (a : Option String)
        → elim a [ none ↦ none | some rest ↦ level_and_message (to_bracket rest) ] ≡ fields_after a
    go none = refl
    go (some rest) = refl

pub log_fields-IsEntry : (line l m : String) → log_fields line ≡ some (l, m) → IsEntry line l m
log_fields-IsEntry line l m e =
    go (after "dddd/dd/dd dd:dd:dd [" line) refl (sym (log_fields-fields_after line) ∙ e)
  where
    go :
        (a : Option String)
        → after "dddd/dd/dd dd:dd:dd [" line ≡ a
        → fields_after a ≡ some (l, m)
        → IsEntry line l m
    go none at e = absurd (cc)
    go (some rest) at e =
        let (time, times, start) = after_sound "dddd/dd/dd dd:dd:dd [" line rest at in
        let (r, gap, bracket, l_ne, fits, r_parts, m_ne, free) =
          level_and_message_sound (to_bracket rest) l m e in
        let (no_bracket, (c, closes, rest_parts)) = to_bracket_sound rest l r bracket in
        record {
          time = time;
          closing = c ∷ gap;
          times = times;
          closes = (inr ((λ f. absurd (omega (arith, f))), sym closes), fits);
          levels = (l_ne, no_bracket);
          messages = (m_ne, free);
          parts = start ∙ ap (ahead time) (rest_parts ∙ ap (λ q. ahead l (c ∷ q)) r_parts);
        }

message_of_line : (c : Char) (m : String) → Without 10 (c ∷ m) → message_of (c ∷ m) ≡ some (c ∷ m)
message_of_line c m free = rw (Without-is_line (c ∷ m) free) refl

pub IsEntry-log_fields : (line l m : String) → IsEntry line l m → log_fields line ≡ some (l, m)
IsEntry-log_fields line l m h =
    ap log_fields h.parts ∙ go l h.closing m h.closes h.levels h.messages
  where
    go :
        (l closing m : String)
        → Fits "] " closing
        → (l ≢ []) × Without b']' l
        → (m ≢ []) × Without 10 m
        → log_fields (ahead h.time (ahead l (ahead closing m))) ≡ some (l, m)
    go [] closing m closes (ne, free) message = absurd (ne refl)
    go (d ∷ l) closing [] closes levels (ne, line_free) = absurd (ne refl)
    go (d ∷ l) [] (e ∷ m) closes levels messages = absurd closes
    go (d ∷ l) (c ∷ gap) (e ∷ m) (inl (is_d, _, _), fits) levels messages =
        absurd (omega (arith, is_d))
    go (d ∷ l) (c ∷ gap) (e ∷ m) (inr (_, same), fits) (l_ne, free) (m_ne, line_free) =
        log_fields-fields_after (ahead h.time (ahead (d ∷ l) (ahead (c ∷ gap) (e ∷ m))))
        ∙ ap fields_after (after_complete "dddd/dd/dd dd:dd:dd [" h.time _ h.times)
        ∙ ap level_and_message (to_bracket_complete (d ∷ l) (ahead gap (e ∷ m)) c free (sym same))
        ∙ level_and_message-with_text d l (ahead gap (e ∷ m))
        ∙ ap (with_text (d ∷ l)) (after_complete " " gap (e ∷ m) fits)
        ∙ ap (with_message (d ∷ l)) (message_of_line e m line_free)
