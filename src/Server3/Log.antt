-- ===== src/Server3/Log.antt =====
-- Log.cpp of 3.0/server: which messages are printed.
use as3chat.Common.{ℕ, Option, none, some, List, [], ◌∷◌, ◌++◌}
use as3chat.Common.Tests.{leb, if◌then◌else◌}
use as3chat.Common.Text.{Bytes}

pub data LogLevel : Type 0 where
  log_paranoid : LogLevel
  log_debug : LogLevel
  log_info : LogLevel
  log_warning : LogLevel
  log_error : LogLevel

abbrev pub number : LogLevel → ℕ
number log_paranoid = 0
number log_debug = 1
number log_info = 2
number log_warning = 3
number log_error = 4

-- `Log::level`, and what stands on stderr.
pub record Log : Type 0 where
  pub level : LogLevel
  pub lines : List Bytes

pub quiet_log : Log
quiet_log = record { level = log_debug; lines = [] }

pub set_log_level : LogLevel → Log → Log
set_log_level level log = record log { level = level }

-- A message that `none` stands for is NULL; another one comes here as it is formatted.
pub print : LogLevel → Option Bytes → Log → Log
print level none log = log
print level (some line) log =
    if leb (number log.level) (number level)
    then record log { lines = log.lines ++ line ∷ [] }
    else log

pub debug : Option Bytes → Log → Log
debug = print log_debug

pub error : Option Bytes → Log → Log
error = print log_error
