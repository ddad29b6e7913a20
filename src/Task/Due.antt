-- ===== src/Task/Due.antt =====
-- How many tasks of the queue are before a time.
use ichatd.Common.{ℕ, ◌+◌, ◌≤◌, ◌≡◌, List, [], ◌∷◌, arith, ltb, if◌then◌else◌}
use ichatd.Task.{TimedTask, place, server_add_task}

abbrev pub due : ℕ → List TimedTask → ℕ
due limit [] = 0
due limit (t ∷ ts) = if ltb t.time limit then due limit ts + 1 else due limit ts

place-due :
    (limit : ℕ) (task cur : TimedTask) (rest : List TimedTask)
    → limit ≤ task.time
    → due limit (place task cur rest) ≡ due limit (cur ∷ rest)
unfolding place
place-due limit task cur [] h = ground arith
place-due limit task cur (next ∷ rest) h = ground (arith, place-due limit task next rest h)

-- A task that is added at that time or later does not count.
pub due-add :
    (limit : ℕ) (queue : List TimedTask) (task : TimedTask)
    → limit ≤ task.time
    → due limit (server_add_task queue task) ≡ due limit queue
unfolding server_add_task
due-add limit [] task h = ground arith
due-add limit (head ∷ queue) task h = place-due limit task head queue h
