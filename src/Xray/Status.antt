-- ===== src/Xray/Status.antt =====
-- checkXrayStatus of backend/xray/jobs.go: the wait for the core's message that it has started. The lines
-- are those that the loop receives before its deadline of ten seconds; after the last one it runs out.
pub mod Pieces
pub mod Entries
pub mod Failures
pub mod Laws
use Prim.Native.Char.{Char, code}
use Prim.Native.String.{String, [], ◌∷◌}
use node_nats.Prelude.{
  ℕ, Option, none, some, List, Bool, true, false, ◌&&◌, ◌||◌, leb, ◌==◌, str_eq, contains,
  if◌then◌else◌,
}
use node_nats.Xray.User.{join}

abbrev pub is_digit : Char → Bool
is_digit c = leb b'0' (code c) && leb (code c) b'9'

-- One place of a template: `d` stands for \d, any other character for itself.
abbrev pub fits_template : Char → Char → Bool
fits_template d c = if code d == b'd' then is_digit c else code d == code c

-- What follows a template's match at the line's beginning.
unfoldable pub after : String → String → Option String
after [] line = some line
after (d ∷ template) [] = none
after (d ∷ template) (c ∷ line) =
    let later = after template line in if fits_template d c then later else none

-- ([^]]+): the text before the first bracket, and what follows it; the text is not empty
abbrev pub grown : Char → Option (String × String) → Option (String × String)
grown c none = none
grown c (some (level, rest)) = some (c ∷ level, rest)

unfoldable pub to_bracket : String → Option (String × String)
to_bracket [] = none
to_bracket (c ∷ s) =
    let later = grown c (to_bracket s) in if code c == b']' then some ([], s) else later

-- (.+)$: a text that is not empty, without a line feed
unfoldable pub is_line : String → Bool
is_line [] = true
is_line (c ∷ s) = let rest = is_line s in if code c == 10 then false else rest

abbrev pub message_of : String → Option String
message_of [] = none
message_of (c ∷ s) = if is_line (c ∷ s) then some (c ∷ s) else none

abbrev pub level_and_message : Option (String × String) → Option (String × String)
level_and_message (some (c ∷ level, rest)) = elim (after " " rest) [
  | none ↦ none
  | some text ↦ elim (message_of text) [ none ↦ none | some message ↦ some (c ∷ level, message) ]
]
level_and_message _ = none

-- The second and third group of ^(\d{4}/\d{2}/\d{2} \d{2}:\d{2}:\d{2}) \[([^]]+)] (.+)$
unfoldable pub log_fields : String → Option (String × String)
unfolding after to_bracket is_line
log_fields line = elim (after "dddd/dd/dd dd:dd:dd [" line) [
  | none ↦ none
  | some rest ↦ level_and_message (to_bracket rest)
]

abbrev pub started_text : String → String
started_text version = join "Xray " (join version " started")

abbrev pub failure : String → Option String
failure message = some (join "failed to start xray: " message)

-- The failure that a line reports.
unfoldable pub failure_of : String → Option String
unfolding log_fields contains
failure_of line = elim (log_fields line) [
  | some (level, message) ↦
      if str_eq level "Error" || contains message "Failed to start" then failure message else none
  | none ↦ if contains line "Failed to start" then failure line else none
]

-- The loop: the error, or none where the core has started.
unfoldable pub check_status : String → List String → Option String
unfolding failure_of contains
check_status version List.[] = some "failed to start xray: context timeout"
check_status version (List.◌∷◌ line lines) =
    let later = check_status version lines in
    if contains line (started_text version)
    then none
    else elim (failure_of line) [ some message ↦ some message | none ↦ later ]
