-- ===== src/Logging/Level.antt =====
-- The levels, the names that stand for them in a line, and the global variables of Logging.cc.
use multi_thread_log.Common.{ℕ, none, List, codes}
use multi_thread_log.TimeZone.Zone.{TimeZone}

pub data LogLevel : Type 0 where
  trace debug info warn error fatal : LogLevel

-- The numbers of the levels.
abbrev pub level_number : LogLevel → ℕ
level_number trace = 0
level_number debug = 1
level_number info = 2
level_number warn = 3
level_number error = 4
level_number fatal = 5

-- `LogLevelName`
abbrev pub log_level_name : LogLevel → List ℕ
log_level_name trace = codes "TRACE "
log_level_name debug = codes "DEBUG "
log_level_name info = codes "INFO  "
log_level_name warn = codes "WARN  "
log_level_name error = codes "ERROR "
log_level_name fatal = codes "FATAL "

-- An output or a flush function: the default one, or one of the program's.
pub data Handler : Type 0 where
  default_handler : Handler
  custom : ℕ → Handler

-- The global variables.
pub record Globals : Type 0 where
  pub log_level : LogLevel
  pub output : Handler
  pub flush : Handler
  pub log_time_zone : TimeZone

abbrev pub start_globals : Globals
start_globals = record {
  log_level = info;
  output = default_handler;
  flush = default_handler;
  log_time_zone = none;
}

unfoldable pub set_log_level : LogLevel → Globals → Globals
set_log_level level g = record g { log_level = level }

unfoldable pub set_flush : Handler → Globals → Globals
set_flush flush g = record g { flush = flush }

unfoldable pub set_output : Handler → Globals → Globals
set_output output g = record g { output = output }

unfoldable pub set_default_output : Globals → Globals
set_default_output g = record g { output = default_handler }

unfoldable pub set_time_zone : TimeZone → Globals → Globals
set_time_zone tz g = record g { log_time_zone = tz }
