-- ===== src/Task.antt =====
-- Timed tasks: src/task.c and src/task.h, with the task queue of src/server.c
-- (`server_add_task`, `server_pop_task`). Times are `unsigned long long` milliseconds.
pub mod Order
pub mod Jobs
pub mod Due
use ichatd.Common.{
  ℕ, ◌+◌, ◌%◌, ◌^◌, Bool, true, false, List, [], ◌∷◌, ◌++◌, Option, none, some, ltb, if◌then◌else◌,
}
use ichatd.Config.{S2sBlock}

-- The functions that the program puts into a task, with their `data`: `heartbeat` of src/server.c
-- and `task_start_ichat_s2s_link`. Both have no destructor.
pub data Job : Type 0 where
  heartbeat : Job
  start_link : S2sBlock → Job

-- `struct timed_task`, without the link to the next task.
pub record TimedTask : Type 0 where
  pub time : ℕ
  pub job : Job

-- `task_create`, at the time `now` that `GetTimerMS` gives.
unfoldable pub task_create : ℕ → ℕ → Job → TimedTask
task_create now delta job = record { time = (now + delta) % 2 ^ 64; job = job }

-- The walk of `server_add_task` from the entry `cur` with `rest` behind it: on as long as the next
-- entry is earlier, then behind or before the entry that was reached.
place : TimedTask → TimedTask → List TimedTask → List TimedTask
place task cur [] = if ltb cur.time task.time then cur ∷ task ∷ [] else task ∷ cur ∷ []
place task cur (next ∷ rest) =
    let further = cur ∷ place task next rest in
    if ltb next.time task.time
    then further
    else if ltb cur.time task.time
    then cur ∷ task ∷ next ∷ rest
    else task ∷ cur ∷ next ∷ rest

-- `server_add_task`, on the queue.
unfoldable pub server_add_task : List TimedTask → TimedTask → List TimedTask
unfolding place
server_add_task [] task = task ∷ []
server_add_task (head ∷ queue) task = place task head queue

-- `server_pop_task`.
unfoldable pub server_pop_task : List TimedTask → Option (TimedTask × List TimedTask)
server_pop_task [] = none
server_pop_task (head ∷ queue) = some (head, queue)
