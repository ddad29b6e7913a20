-- ===== src/Schedule.antt =====
-- Timed tasks at work: `task_run` (src/task.c), `heartbeat`, `server_register_heartbeats`,
-- `server_register_s2s_links` and `server_schedule` (src/server.c).
pub mod Enough
use ichatd.Common.{
  ℕ, zero, suc, ◌+◌, ◌*◌, Bool, true, false, List, [], ◌∷◌, Option, none, some, leb, ◌==◌,
  if◌then◌else◌,
}
use ichatd.Config.{Config, S2sBlock, s2s_heartbeat_delta}
use ichatd.Task.{Job, TimedTask, heartbeat, start_link, server_pop_task}
use ichatd.Server.{Server}
use ichatd.World.{World}
use ichatd.Link.{register_task, start_ichat_s2s_link}

-- `server_register_heartbeats`.
abbrev pub server_register_heartbeats : World → Server → Server
server_register_heartbeats w s = register_task w (1000 * s2s_heartbeat_delta) heartbeat s

-- task->fun (task->data), with `heartbeat` and `task_start_ichat_s2s_link`. `task_run` then calls
-- `task_destroy`, which has no destructor to call.
unfoldable pub task_run : World → Job → Server → Server
task_run w heartbeat s = server_register_heartbeats w s
task_run w (start_link b) s = start_ichat_s2s_link w b s

-- The loop of `server_register_s2s_links` over the configured servers.
unfoldable pub register_links : World → List S2sBlock → Server → Server
register_links w [] s = s
register_links w (b ∷ bs) s =
    register_links w bs (if b.port == 0 then s else start_ichat_s2s_link w b s)

-- `server_register_s2s_links`.
abbrev pub server_register_s2s_links : World → Server → Server
server_register_s2s_links w s = register_links w s.config.s2s_queue s

-- The clock is read once for each task that is looked at.
abbrev pub asked : Server → Server
asked s = record s { ticks = s.ticks + 1 }

abbrev pub popped : List TimedTask → Server → Server
popped rest s = record s { task_queue = rest }

-- `server_schedule`.
unfoldable pub server_schedule : World → ℕ → Server → Server
server_schedule w zero s = s
server_schedule w (suc fuel) s = elim (server_pop_task s.task_queue) [
  | none ↦ s
  | some (task, rest) ↦ elim (leb task.time (w.clock s.ticks)) [
    | true ↦ server_schedule w fuel (task_run w task.job (popped rest (asked s)))
    | false ↦ asked s
  ]
]
