-- ===== src/Daemon/Quiet.antt =====
-- What a daemon logs, and where: the log through the start, the detaching and the end of src/server.c.
use ichatd.Common.{
  ◌≡◌, refl, sym, ◌∙◌, ap, ap₂, true, false, Bool-cases, inl, inr, ltb, List, [], ◌∷◌, ◌++◌,
  append-nil, append_assoc, Option, some, Bytes, codes,
}
use ichatd.Config.{Config, LogLevel, note_level}
use ichatd.Log.Writer.{
  Log, initial_log, rank, open_log, set_log_level, log_to_stdout, close_log, print2log, log_line,
}
use ichatd.Log.Writer.Filter.{Message, opened, print_all, lines_for, print_all_lem}
use ichatd.Daemon.{server_init_log_subsystem, server_close_log_subsystem, detach_log}

-- The first message.
abbrev pub started : Bytes → Bytes → Message
started ts tid = record {
  ts = ts;
  tid = tid;
  level = note_level;
  msg = codes "log subsystem initialized";
}

lines_for-cons :
    (level : LogLevel) (m : Message) (ms : List Message)
    → lines_for level (m ∷ ms) ≡ lines_for level (m ∷ []) ++ lines_for level ms
lines_for-cons level m ms = elim (Bool-cases (ltb (rank level) (rank m.level))) [
  | inl k ↦ rw (lines_for, k) refl
  | inr k ↦
      rw (lines_for, k)
        (ap (λ r. r ++ lines_for level ms) (sym (append-nil (log_line m.ts m.tid m.msg))))
]

init_log :
    (ts tid : Bytes) (fopen : Bytes → Option Bytes) (c : Config) (old : Bytes)
    → fopen c.log_file ≡ some old
    → server_init_log_subsystem ts tid fopen c initial_log
      ≡ opened c.log_level true
          (old ++ lines_for c.log_level (started ts tid ∷ []))
          (lines_for c.log_level (started ts tid ∷ []))
unfolding server_init_log_subsystem open_log set_log_level
init_log ts tid fopen c old file =
    rw file (print_all_lem (started ts tid ∷ []) c.log_level true old [])

detached :
    (ts tid : Bytes) (c : Config) (contents out : Bytes)
    → c.foreground_mode ≡ false
    → detach_log ts tid c (opened c.log_level true contents out)
      ≡ opened c.log_level false contents out
unfolding detach_log log_to_stdout
detached ts tid c contents out background = rw background refl

closed_silent : (ms : List Message) (l : Log) → print_all ms (close_log l) ≡ close_log l
unfolding print2log close_log
closed_silent [] l = refl
closed_silent (m ∷ ms) l = closed_silent ms l

-- A server that goes into the background, with a log file that can be opened: the file gets, behind
-- what it held, the line that the log is initialized and the lines of all messages that follow, as
-- far as the level of the configuration lets them through, and the standard output only that first
-- line; behind the end of the log no message is written.
pub daemon_log :
    (ts tid last : Bytes) (fopen : Bytes → Option Bytes) (c : Config) (old : Bytes)
    (ms late : List Message)
    → fopen c.log_file ≡ some old
    → c.foreground_mode ≡ false
    → (print_all ms (detach_log ts tid c (server_init_log_subsystem ts tid fopen c initial_log))
        ≡ opened c.log_level false
            (old ++ lines_for c.log_level (started ts tid ∷ ms))
            (lines_for c.log_level (started ts tid ∷ [])))
      × ((l : Log)
          → print_all late (server_close_log_subsystem last tid l)
            ≡ server_close_log_subsystem last tid l)
unfolding server_close_log_subsystem
daemon_log ts tid last fopen c old ms late file background =
    let first = lines_for c.log_level (started ts tid ∷ []) in
    let start =
      ap (detach_log ts tid c) (init_log ts tid fopen c old file)
      ∙ detached ts tid c (old ++ first) first background in
    let text : (old ++ first) ++ lines_for c.log_level ms
        ≡ old ++ lines_for c.log_level (started ts tid ∷ ms) =
      append_assoc old first (lines_for c.log_level ms)
      ∙ ap (λ r. old ++ r) (sym (lines_for-cons c.log_level (started ts tid) ms)) in
    (
      ap (print_all ms) start
          ∙ print_all_lem ms c.log_level false (old ++ first) first
          ∙ ap₂ (opened c.log_level false) text (append-nil first),
      λ l. closed_silent late _,
    )
