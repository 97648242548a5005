-- ===== src/Tests/Logs.antt =====
-- The logger, and the reader of the core's output, at concrete lines.
use node_nats.Prelude.{
  ◌+◌, ◌≡◌, ◌≢◌, refl, none, some, String, List, [], ◌∷◌, true, false, not, if◌then◌else◌,
}
use node_nats.Logger.{info, error, warning, critical, Disk, Logger, new_logger, set_log_file, close}
use node_nats.Logger.Routing.{Message, is_error, texts, run, logger_routes}
use node_nats.Xray.Logs
use node_nats.Xray.Logs.{
  Channel, detect_log_type, Reader, scanning, crashed, holding, Reading, line_read, go_on, stopped,
  taken, pipe_closed,
}
use node_nats.Xray.Logs.Buffer
use node_nats.Xray.Logs.Buffer.{Use, put, get}
use node_nats.Xray.Logs.Stops.{CalmStops-do_not_crash}

abbrev access_line : String
access_line = "2025/01/02 from 10.0.0.1:5000 accepted tcp:example.com:443 [VM >> DIRECT] email: ann"

access_line_level : detect_log_type access_line ≡ info
unfolding detect_log_type
access_line_level = refl

other_line_level :
    detect_log_type "from 10.0.0.1:x accepted tcp:example.com:443 [VM] email: ann" ≡ error
unfolding detect_log_type
other_line_level = refl

abbrev disk : Disk
disk = record { made = 3; file = λ h. record { path = ""; is_open = false; lines = [] } }

abbrev messages : List Message
messages = (info, "a") ∷ (error, "b") ∷ (warning, "c") ∷ []

logger_routes_example :
    (d₁ d₂ d₃ d₄ : Disk) × (l l' : Logger) × (printed printed' : List String) × (set_log_file
        (λ path. none)
        "access.log"
        "error.log"
        disk
        (new_logger true)
      ≡ (d₁, l, none))
    × (run l messages d₁ ≡ (d₂, printed))
    × (close d₂ l ≡ (d₃, l'))
    × (run l' ((critical, "d") ∷ []) d₃ ≡ (d₄, printed'))
    × ((d₄.file 3).lines ≡ texts (λ level. not (is_error level)) messages)
    × ((d₄.file (3 + 1)).lines ≡ texts is_error messages)
    × (printed ≡ (if true then texts (λ level. true) messages else []))
logger_routes_example =
    logger_routes (λ path. none) "access.log" "error.log" true disk messages ((critical, "d") ∷ [])
      refl refl refl refl

abbrev channel : Channel
channel = record { capacity = 1; buffer = [] }

abbrev uses : List Use
uses = put "a" ∷ put "b" ∷ get ∷ put "c" ∷ []

abbrev reading : Reading
reading = record {
  channel = channel;
  logger = some (new_logger false);
  cancelled = false;
  disk = disk;
  reader = scanning;
}

CalmStops-do_not_crash_example :
    (Logs.run (line_read "a" ∷ go_on ∷ go_on ∷ stopped ∷ line_read "b" ∷ go_on ∷ []) reading).reader
    ≢ crashed
unfolding Logs.step
CalmStops-do_not_crash_example =
    CalmStops-do_not_crash (line_read "a" ∷ go_on ∷ go_on ∷ stopped ∷ line_read "b" ∷ go_on ∷ [])
      reading (λ e. cc e) (λ e. cc e) (tt, tt)
