-- ===== src/Xray/Logs.antt =====
-- backend/xray/log.go: the goroutine that reads a pipe of the core's process, and the channel that it fills,
-- with the methods that meddle: Stop of backend/xray/core.go and the receivers of Logs. A pattern is the list of
-- what can be left of a text after its match, so that a search tries each of them.
pub mod Buffer
pub mod Stops
use Prim.Native.Char.{Char, code}
use Prim.Native.String.{String, [], ◌∷◌}
use node_nats.Prelude.{
  ℕ, Option, none, some, List, Bool, true, false, ◌&&◌, ◌||◌, ◌++◌, leb, ltb, ◌==◌, length,
  if◌then◌else◌,
}
use node_nats.Logger.{LogLevel, info, error, Disk, Logger, log, close}
use node_nats.Xray.Status.{is_digit}

abbrev pub Pattern : Type 0
Pattern = String → List String

abbrev pub literal : String → Pattern
literal [] s = List.◌∷◌ s List.[]
literal (p ∷ ps) [] = List.[]
literal (p ∷ ps) (c ∷ s) = let rest = literal ps s in if code p == code c then rest else List.[]

-- .+
abbrev pub any_text : Pattern
any_text [] = List.[]
any_text (c ∷ s) = let more = any_text s in if code c == 10 then List.[] else List.◌∷◌ s more

-- \d+
abbrev pub digits : Pattern
digits [] = List.[]
digits (c ∷ s) = let more = digits s in if is_digit c then List.◌∷◌ s more else List.[]

abbrev pub each : Pattern → List String → List String
each q List.[] = List.[]
each q (List.◌∷◌ s rest) = q s ++ each q rest

infixr 60 ◌then_match◌
abbrev pub ◌then_match◌ : Pattern → Pattern → Pattern
(p then_match q) s = each q (p s)

abbrev pub either : Pattern → Pattern → Pattern
either p q s = p s ++ q s

abbrev pub is_found : List String → Bool
is_found List.[] = false
is_found (List.◌∷◌ s rest) = true

-- MatchString: a match from some position on
unfoldable pub matches : Pattern → String → Bool
matches p [] = is_found (p [])
matches p (c ∷ s) = let later = matches p s in if is_found (p (c ∷ s)) then true else later

-- from .+:\d+ accepted (tcp|udp):.+:\d+ \[.+\] email: .+
unfoldable pub access_log_pattern : Pattern
access_log_pattern =
    literal "from "
    then_match any_text
    then_match literal ":"
    then_match digits
    then_match literal " accepted "
    then_match either (literal "tcp") (literal "udp")
    then_match literal ":"
    then_match any_text
    then_match literal ":"
    then_match digits
    then_match literal " ["
    then_match any_text
    then_match literal "] email: "
    then_match any_text

-- The level that detectLogType gives a line.
unfoldable pub detect_log_type : String → LogLevel
unfolding matches access_log_pattern
detect_log_type line = if matches access_log_pattern line then info else error

-- A buffered channel, its oldest entry first.
pub record Channel : Type 0 where
  pub capacity : ℕ
  pub buffer : List String

-- The send of a select with a default: a full channel skips the line.
unfoldable pub send : String → Channel → Channel
send line c =
    if ltb (length c.buffer) c.capacity
    then record c { buffer = c.buffer ++ List.◌∷◌ line List.[] }
    else c

unfoldable pub receive : Channel → Option (String × Channel)
receive c = elim c.buffer [
  | List.[] ↦ none
  | List.◌∷◌ line rest ↦ some (line, record c { buffer = rest })
]

-- The goroutine: before its scan, with a line past the select on its context, with a line that is sent,
-- or gone; or it has called the method of a nil logger, which ends the node.
pub data Reader : Type 0 where
  scanning gone crashed : Reader
  holding : String → Reader
  sent : String → Reader

-- `logger` is the core's, nil after Stop; `cancelled` is the goroutine's context.
pub record Reading : Type 0 where
  pub channel : Channel
  pub logger : Option Logger
  pub cancelled : Bool
  pub disk : Disk
  pub reader : Reader

abbrev pub after_scan : Bool → String → Reader
after_scan true line = gone
after_scan false line = holding line

abbrev pub logged : Option Logger → String → Reading → Reading
logged none line r = record r { reader = crashed }
logged (some l) line r = record r {
  reader = scanning;
  disk = (log l (detect_log_type line) line r.disk).0;
}

-- What happens: the process writes a line or ends, the goroutine goes on, Stop comes in, a client takes a line.
pub data Event : Type 0 where
  line_read : String → Event
  pipe_closed go_on stopped taken : Event

abbrev pub read_line : String → Reader → Reading → Reading
read_line line scanning r = record r { reader = after_scan r.cancelled line }
read_line line other r = r

abbrev pub close_pipe : Reader → Reading → Reading
close_pipe scanning r = record r { reader = gone }
close_pipe other r = r

abbrev pub continue : Reader → Reading → Reading
continue (holding line) r = record r { reader = sent line; channel = send line r.channel }
continue (sent line) r = logged r.logger line r
continue other r = r

abbrev pub left_by : Option (String × Channel) → Channel → Channel
left_by none c = c
left_by (some (line, c')) c = c'

-- Stop closes the logger that there is.
abbrev pub closed_by : Option Logger → Disk → Disk
closed_by none d = d
closed_by (some l) d = (close d l).0

unfoldable pub step : Event → Reading → Reading
unfolding send receive log close detect_log_type
step (line_read line) r = read_line line r.reader r
step pipe_closed r = close_pipe r.reader r
step go_on r = continue r.reader r
step stopped r = record r { logger = none; cancelled = true; disk = closed_by r.logger r.disk }
step taken r = record r { channel = left_by (receive r.channel) r.channel }

abbrev pub run : List Event → Reading → Reading
run List.[] r = r
run (List.◌∷◌ e es) r = run es (step e r)
