-- ===== src/Run.antt =====
-- The life of the process: `server_alloc`, `server_configure`, `server_run`, `server_shutdown` and
-- the main loop of src/server.c, as `main` of src/main.c calls them. Of the log and the daemon, which
-- are in Daemon, only the end of the father process is of effect here.
pub mod Shutdown
pub mod Main
use ichatd.Common.{
  length, ℕ, zero, suc, ◌+◌, Bool, true, false, List, [], ◌∷◌, Option, none, some, Bytes,
  if◌then◌else◌,
}
use ichatd.Config.{Config, config_alloc}
use ichatd.Sockets.{BindAnswers}
use ichatd.Task.{TimedTask, server_pop_task}
use ichatd.Client.{Client}
use ichatd.Server.{Server}
use ichatd.Command.{
  CommandOption, Configured, server_ok, Settings, def_config_file, server_configure,
}
use ichatd.World.{World}
use ichatd.Link.{client_destroy}
use ichatd.Accept.{server_bind_ports}
use ichatd.Schedule.{server_register_heartbeats, server_register_s2s_links, server_schedule}
use ichatd.Poller.{Answers, server_poll}
use ichatd.Daemon.{Forked, End, returned_0, returned_1, went_away, detach}

-- `server_alloc`; 0 is no address.
unfoldable pub server_alloc : Server
server_alloc = record {
  config = config_alloc;
  clist = [];
  task_queue = [];
  shutdown = false;
  next_ptr = 1;
  ticks = 0;
  closed = [];
}

-- `server_run` up to the main loop.
unfoldable pub start_up : World → BindAnswers → BindAnswers → BindAnswers → Server → Server
start_up w user s2s ctl s =
    server_register_s2s_links w (server_register_heartbeats w (server_bind_ports user s2s ctl s))

-- Where the main loop stands: it was asked to stop, or an assertion failed, or it goes on.
pub data MainLoop : Type 0 where
  stop_requested running : Server → MainLoop
  aborted : MainLoop

-- `server_start_dispatcher`, for as many rounds as there are answers. (`POLL_ERROR` is never
-- returned.) `fuel` bounds the tasks of one round.
unfoldable pub server_start_dispatcher : World → ℕ → List Answers → Server → MainLoop
server_start_dispatcher w fuel [] s = running s
server_start_dispatcher w fuel (a ∷ rounds) s = elim (server_poll w a s) [
  | none ↦ aborted
  | some s' ↦ elim s'.shutdown [
    | true ↦ stop_requested s'
    | false ↦ server_start_dispatcher w fuel rounds (server_schedule w fuel s')
  ]
]

-- The loop `while (server->clist)` of `server_close_clients`.
unfoldable pub close_all : World → ℕ → Server → Server
close_all w zero s = s
close_all w (suc fuel) s = elim s.clist [
  | [] ↦ s
  | c ∷ cs ↦ close_all w fuel (client_destroy w c (record s { clist = cs }))
]

-- `server_close_clients`; every round takes a client off the list.
abbrev pub server_close_clients : World → Server → Server
server_close_clients w s = close_all w (length s.clist) s

-- The loop of `server_kill_tasks`; no task has a destructor.
unfoldable pub kill_all : List TimedTask → List TimedTask
kill_all [] = []
kill_all (task ∷ queue) = kill_all queue

-- `server_kill_tasks`.
abbrev pub server_kill_tasks : Server → Server
server_kill_tasks s = record s { task_queue = kill_all s.task_queue }

-- `server_shutdown`.
unfoldable pub server_shutdown : World → Server → Server
server_shutdown w s = server_kill_tasks (server_close_clients w s)

-- `server_run` and `server_shutdown`, for the rounds that there are; a loop that goes on has not
-- come to its end.
abbrev pub ended : World → MainLoop → MainLoop
ended w (stop_requested s) = stop_requested (server_shutdown w s)
ended w (running s) = running s
ended w aborted = aborted

-- How the process ends: EXIT_FAILURE where the configuration failed (or the end behind --help), or
-- exit (0) as the father of a daemon, else what came of the run.
pub data Process : Type 0 where
  not_configured : Configured → Process
  father_left : Config → Process
  ran : MainLoop → Process

-- `server_run` goes on whether `server_detach` returned 0 or 1.
abbrev pub behind_detach : End → Config → Process → Process
behind_detach returned_0 c p = p
behind_detach returned_1 c p = p
behind_detach went_away c p = father_left c

-- `server_run`, with the answers of `getppid` and `fork`.
unfoldable pub server_run :
    World
    → ℕ
    → ℕ
    → Forked
    → BindAnswers
    → BindAnswers
    → BindAnswers
    → List Answers
    → Server
    → Process
server_run w fuel ppid forked user s2s ctl rounds s =
    behind_detach (detach s.config ppid forked).end s.config
      (ran (ended w (server_start_dispatcher w fuel rounds (start_up w user s2s ctl s))))

abbrev pub run_configured :
    World
    → ℕ
    → ℕ
    → Forked
    → BindAnswers
    → BindAnswers
    → BindAnswers
    → List Answers
    → Configured × Settings
    → Process
run_configured w fuel ppid forked user s2s ctl rounds (server_ok, c) =
    server_run w fuel ppid forked user s2s ctl rounds (record server_alloc { config = c.config })
run_configured w fuel ppid forked user s2s ctl rounds (bad, c) = not_configured bad

abbrev pub default_settings : Settings
default_settings = record { config = config_alloc; config_filename = def_config_file }

-- `main`.
unfoldable pub main :
    World
    → ℕ
    → (Bytes → Option Bytes)
    → (ℕ → Bytes)
    → List CommandOption
    → Bool
    → ℕ
    → Forked
    → BindAnswers
    → BindAnswers
    → BindAnswers
    → List Answers
    → Process
main w fuel files stale opts more ppid forked user s2s ctl rounds =
    run_configured w fuel ppid forked user s2s ctl rounds
      (server_configure files stale opts more default_settings)
