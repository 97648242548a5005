-- ===== src/Logger.antt =====
-- logger/logger.go. A file is a handle: what has been written through it, while it is open. Opening is the
-- system's, by its error for a path; the mutex makes each method one step.
pub mod Routing
use node_nats.Prelude.{
  ℕ, ◌+◌, String, Option, none, some, List, [], ◌∷◌, ◌++◌, Bool, true, false, ◌==◌, str_eq,
  if◌then◌else◌,
}
use node_nats.Xray.User.{join}

pub data LogLevel : Type 0 where
  debug info warning error critical : LogLevel

pub record File : Type 0 where
  pub path : String
  pub is_open : Bool
  pub lines : List String

pub record Disk : Type 0 where
  pub made : ℕ
  pub file : ℕ → File

-- A log.Logger writes to the handle that it was made for, also after the file is closed.
pub record Logger : Type 0 where
  pub output_logs : Bool
  pub access_log_file : Option ℕ
  pub error_log_file : Option ℕ
  pub access_logger : Option ℕ
  pub error_logger : Option ℕ

abbrev pub new_logger : Bool → Logger
new_logger output_logs = record {
  output_logs = output_logs;
  access_log_file = none;
  error_log_file = none;
  access_logger = none;
  error_logger = none;
}

abbrev pub update : (ℕ → File) → ℕ → File → ℕ → File
update file h f k = if h == k then f else file k

-- openLogFile: its error, or a new handle, or nil for no path
pub data Opened : Type 0 where
  no_file : Opened
  at_handle : ℕ → Disk → Opened
  not_opened : String → Opened

abbrev pub open_path : Option String → String → Disk → Opened
open_path (some message) path d = not_opened message
open_path none path d = at_handle d.made (record {
  made = d.made + 1;
  file = update d.file d.made (record { path = path; is_open = true; lines = [] });
})

abbrev pub open_log_file : (String → Option String) → String → Disk → Opened
open_log_file system path d = if str_eq path "" then no_file else open_path (system path) path d

-- The second half of SetLogFile.
abbrev pub set_error_file : Opened → Disk → Logger → Disk × Logger × Option String
set_error_file no_file d l = (d, record l { error_log_file = none }, none)
set_error_file (at_handle h d') d l =
    (d', record l { error_log_file = some h; error_logger = some h }, none)
set_error_file (not_opened message) d l =
    (d, record l { error_log_file = none }, some (join "failed to open error log: " message))

abbrev pub set_access_file :
    Opened → (String → Option String) → String → Disk → Logger → Disk × Logger × Option String
set_access_file no_file system error_path d l =
    set_error_file (open_log_file system error_path d) d (record l { access_log_file = none })
set_access_file (at_handle h d') system error_path d l =
    set_error_file (open_log_file system error_path d') d'
      (record l { access_log_file = some h; access_logger = some h })
set_access_file (not_opened message) system error_path d l =
    (d, record l { access_log_file = none }, some (join "failed to open access log: " message))

unfoldable pub set_log_file :
    (String → Option String) → String → String → Disk → Logger → Disk × Logger × Option String
set_log_file system access_path error_path d l =
    set_access_file (open_log_file system access_path d) system error_path d l

-- Println: a write to a closed file fails, and its error is ignored.
abbrev pub print_to : Option ℕ → String → Disk → Disk
print_to none message d = d
print_to (some h) message d =
    if (d.file h).is_open
    then record d {
      file = update d.file h (record (d.file h) { lines = (d.file h).lines ++ message ∷ [] });
    }
    else d

abbrev pub logger_of : LogLevel → Logger → Option ℕ
logger_of error l = l.error_logger
logger_of critical l = l.error_logger
logger_of _ l = l.access_logger

-- Log, with the lines that it prints
unfoldable pub log : Logger → LogLevel → String → Disk → Disk × List String
log l level message d =
    (print_to (logger_of level l) message d, if l.output_logs then message ∷ [] else [])

abbrev pub close_file : Option ℕ → Disk → Disk
close_file none d = d
close_file (some h) d = record d { file = update d.file h (record (d.file h) { is_open = false }) }

unfoldable pub close : Disk → Logger → Disk × Logger
close d l = (
  close_file l.error_log_file (close_file l.access_log_file d),
  record l { access_log_file = none; error_log_file = none },
)
