-- ===== src/Daemon.antt =====
-- The process around the server: `server_init_log_subsystem`, `server_close_log_subsystem`,
-- `server_detach` and `server_cleanup_dispatcher` of src/server.c. The answers of `fopen`, `getppid` and
-- `fork`, and the texts of the time and of the process, are arguments.
pub mod Quiet
use ichatd.Common.{
  ℕ, Bool, true, false, List, [], ◌∷◌, Option, none, some, Bytes, codes, ◌==◌, if◌then◌else◌,
}
use ichatd.Config.{Config, note_level}
use ichatd.Log.Writer.{Log, open_log, set_log_level, log_to_stdout, close_log, print2log}

-- `server_init_log_subsystem`, with what `fopen` gives for the file of the configuration.
unfoldable pub server_init_log_subsystem :
    Bytes → Bytes → (Bytes → Option Bytes) → Config → Log → Log
server_init_log_subsystem ts tid fopen c l =
    let (_, l₁) = open_log (fopen c.log_file) l in
    let (_, l₂) = set_log_level c.log_level l₁ in
    print2log ts tid note_level (codes "log subsystem initialized") l₂

-- `server_close_log_subsystem`.
unfoldable pub server_close_log_subsystem : Bytes → Bytes → Log → Log
server_close_log_subsystem ts tid l =
    close_log (print2log ts tid note_level (codes "closing log subsystem") l)

-- The answer of `fork`.
pub data Forked : Type 0 where
  fork_failed father child : Forked

-- The signals that a daemon gets from its terminal.
pub data Signal : Type 0 where
  sigttin sigttou sigtstp : Signal

-- What `server_detach` did to the process: which signals are ignored, and whether it has a session of
-- its own; and how it ended, with 0, with 1, or by exit (0).
pub data End : Type 0 where
  returned_0 returned_1 went_away : End

pub record Detached : Type 0 where
  pub ignored : List Signal
  pub own_session : Bool
  pub end : End

abbrev signals : List Signal
signals = sigttin ∷ sigttou ∷ sigtstp ∷ []

abbrev pub after_fork : Forked → Detached
after_fork fork_failed = record { ignored = signals; own_session = false; end = returned_1 }
after_fork father = record { ignored = signals; own_session = false; end = went_away }
after_fork child = record { ignored = signals; own_session = true; end = returned_0 }

abbrev pub untouched : Detached
untouched = record { ignored = []; own_session = false; end = returned_0 }

-- `server_detach` without its calls of the log.
unfoldable pub detach : Config → ℕ → Forked → Detached
detach c ppid forked =
    if c.foreground_mode then untouched else if ppid == 1 then untouched else after_fork forked

-- What `server_detach` does to the log.
unfoldable pub detach_log : Bytes → Bytes → Config → Log → Log
detach_log ts tid c l =
    if c.foreground_mode
    then print2log ts tid note_level (codes "stay foreground") l
    else (log_to_stdout false l).1

-- `server_detach`.
unfoldable pub server_detach : Bytes → Bytes → Config → ℕ → Forked → Log → Detached × Log
unfolding detach detach_log
server_detach ts tid c ppid forked l = (detach c ppid forked, detach_log ts tid c l)

-- `server_cleanup_dispatcher`: nothing is to be done.
abbrev pub server_cleanup_dispatcher : ℕ
server_cleanup_dispatcher = 0
