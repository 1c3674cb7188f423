-- ===== src/Log.antt =====
-- core/log/log.c: the level and the lines that are written, oldest first. A message is the text that
-- `vfprintf` makes of the format and its arguments; the reading of the clock, as `localtime_r` splits
-- it, is an argument.
pub mod Level
pub mod Run
use psdk_orangepi.Prelude.{
  ℕ, zero, suc, ◌+◌, ◌-◌, ◌/◌, ◌%◌, Bool, List, [], ◌∷◌, ◌++◌, length, replicate, ltb, leb,
  if◌then◌else◌,
}
use psdk_orangepi.Prelude.Text.{Bytes, codes, concat, print_unsigned}

-- The values of the enumeration are those of an `unsigned`.
abbrev pub LogLevel : Type 0
LogLevel = ℕ

abbrev pub level_debug : LogLevel
level_debug = 0

abbrev pub level_info : LogLevel
level_info = 1

abbrev pub level_warn : LogLevel
level_warn = 2

abbrev pub level_error : LogLevel
level_error = 3

pub data Stream : Type 0 where
  stdout stderr : Stream

-- One line, in the order of the calls that print it before its `fflush`.
pub record Written : Type 0 where
  pub stream : Stream
  pub text : Bytes

-- `g_level`, and what has been printed.
pub record Log : Type 0 where
  pub g_level : LogLevel
  pub written : List Written

abbrev pub log_start : Log
log_start = record { g_level = level_info; written = [] }

-- The members of `struct tm` that are printed, and `tv_nsec`.
pub record LocalTime : Type 0 where
  pub hour : ℕ
  pub minute : ℕ
  pub second : ℕ
  pub nsec : ℕ

unfoldable pub log_set_level : LogLevel → Log → Log
log_set_level level log = record log { g_level = level }

unfoldable pub level_str : LogLevel → Bytes
level_str zero = codes "DBG"
level_str (suc zero) = codes "INF"
level_str (suc (suc zero)) = codes "WRN"
level_str (suc (suc (suc zero))) = codes "ERR"
level_str (suc (suc (suc (suc n)))) = codes "???"

-- `%02d` and `%03ld` for a number that is not negative: zeros in front, up to a width.
unfoldable pub print_padded : ℕ → ℕ → Bytes
unfolding print_unsigned
print_padded width n = replicate (width - length (print_unsigned n)) b'0' ++ print_unsigned n

-- `strftime` with "%H:%M:%S"
unfoldable pub time_text : LocalTime → Bytes
unfolding print_padded
time_text t = concat (
    print_padded 2 t.hour
    ∷ codes ":"
    ∷ print_padded 2 t.minute
    ∷ codes ":"
    ∷ print_padded 2 t.second
    ∷ [])

-- What the three calls that print give: "[%s.%03ld] [%s] [%s] ", the message, a newline.
unfoldable pub line_text : LocalTime → LogLevel → Bytes → Bytes → Bytes
unfolding time_text print_padded level_str
line_text t level tag msg = concat (
    codes "["
    ∷ time_text t
    ∷ codes "."
    ∷ print_padded 3 (t.nsec / 1_000_000)
    ∷ codes "] ["
    ∷ level_str level
    ∷ codes "] ["
    ∷ tag
    ∷ codes "] "
    ∷ msg
    ∷ codes "\n"
    ∷ [])

unfoldable pub log_write : LocalTime → LogLevel → Bytes → Bytes → Log → Log
unfolding line_text
log_write t level tag msg log = if ltb level log.g_level then log else record log {
  written =
      log.written
      ++ (record {
        stream = if leb level_warn level then stderr else stdout;
        text = line_text t level tag msg;
      })
        ∷ [];
}

unfoldable pub log_debug : LocalTime → Bytes → Bytes → Log → Log
unfolding log_write
log_debug t tag msg log = log_write t level_debug tag msg log

unfoldable pub log_info : LocalTime → Bytes → Bytes → Log → Log
unfolding log_write
log_info t tag msg log = log_write t level_info tag msg log

unfoldable pub log_warn : LocalTime → Bytes → Bytes → Log → Log
unfolding log_write
log_warn t tag msg log = log_write t level_warn tag msg log

unfoldable pub log_error : LocalTime → Bytes → Bytes → Log → Log
unfolding log_write
log_error t tag msg log = log_write t level_error tag msg log
