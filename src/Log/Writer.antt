-- ===== src/Log/Writer.antt =====
-- The log itself: `open_log`, `set_log_level`, `log_to_stdout`, `close_log` and `print2log` of
-- src/log.c, with the two streams as the bytes that were written so far.
pub mod Filter
use ichatd.Common.{
  ℕ, Bool, true, false, ◌||◌, List, [], ◌∷◌, ◌++◌, Option, none, some, Bytes, codes, ltb,
  if◌then◌else◌,
}
use ichatd.Config.{LogLevel, none_level, fatal_level, warn_level, note_level, debug_level}

-- The value of a level.
unfoldable pub rank : LogLevel → ℕ
rank none_level = 0
rank fatal_level = 1
rank warn_level = 2
rank note_level = 3
rank debug_level = 4

-- The static variables, with what the open file and the standard output hold.
pub record Log : Type 0 where
  pub log_file : Option Bytes
  pub log_level : LogLevel
  pub log_write_stdout : Bool
  pub stdout : Bytes

abbrev pub initial_log : Log
initial_log = record {
  log_file = none;
  log_level = debug_level;
  log_write_stdout = true;
  stdout = [];
}

-- `open_log`, with what `fopen` gives: the file is opened for appending. The result is 0 if it is open.
unfoldable pub open_log : Option Bytes → Log → ℕ × Log
open_log none l = (1, record l { log_file = none })
open_log (some contents) l = (0, record l { log_file = some contents })

unfoldable pub set_log_level : LogLevel → Log → LogLevel × Log
set_log_level level l = (l.log_level, record l { log_level = level })

unfoldable pub log_to_stdout : Bool → Log → Bool × Log
log_to_stdout whether_to_write l =
    (l.log_write_stdout, record l { log_write_stdout = whether_to_write })

unfoldable pub close_log : Log → Log
close_log l = record l { log_file = none }

-- What `print2log` writes to a stream: the time without its line end, the process, the message.
unfoldable pub log_line : Bytes → Bytes → Bytes → Bytes
log_line ts tid msg = ts ++ codes " ichatd[" ++ tid ++ codes "]: " ++ msg ++ codes "\n"

abbrev written : Bytes → Log → Bytes → Log
written line l contents = record l {
  log_file = some (contents ++ line);
  stdout = (if l.log_write_stdout then l.stdout ++ line else l.stdout);
}

-- `print2log`, with the text of the time and of the process and the message that `vfprintf` makes.
unfoldable pub print2log : Bytes → Bytes → LogLevel → Bytes → Log → Log
print2log ts tid level msg l = elim l.log_file [
  | none ↦ l
  | some contents ↦
      if ltb (rank l.log_level) (rank level) then l else written (log_line ts tid msg) l contents
]
