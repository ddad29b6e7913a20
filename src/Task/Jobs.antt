-- ===== src/Task/Jobs.antt =====
-- The jobs that wait in the task queue: `server_add_task` of src/server.c loses none.
use ichatd.Common.{◌≡◌, ◌⊎◌, List, [], ◌∷◌, Bool-cases, inl, inr, ltb}
use ichatd.Task.{Job, TimedTask, place, server_add_task}

-- A task of the queue has this job.
abbrev pub HasTask : Job → List TimedTask → Type 0
HasTask job [] = ⊥
HasTask job (t ∷ ts) = (t.job ≡ job) ⊎ HasTask job ts

-- A task of `a ∷ b ∷ rest` is one of `b ∷ a ∷ rest`, and of `b ∷ queue` where `queue` has those of
-- `a ∷ rest`.
swapped :
    (job : Job) (t u : TimedTask) (rest : List TimedTask)
    → HasTask job (t ∷ u ∷ rest)
    → HasTask job (u ∷ t ∷ rest)
swapped job t u rest (inl e) = inr (inl e)
swapped job t u rest (inr (inl e)) = inl e
swapped job t u rest (inr (inr h)) = inr (inr h)

under :
    (job : Job) (u : TimedTask) (xs ys : List TimedTask)
    → (HasTask job xs → HasTask job ys)
    → HasTask job (u ∷ xs)
    → HasTask job (u ∷ ys)
under job u xs ys k (inl e) = inl e
under job u xs ys k (inr h) = inr (k h)

place-HasTask :
    (job : Job) (task cur : TimedTask) (rest : List TimedTask)
    → HasTask job (task ∷ cur ∷ rest)
    → HasTask job (place task cur rest)
unfolding place
place-HasTask job task cur [] h = elim (Bool-cases (ltb cur.time task.time)) [
  | inl e ↦ rw e (swapped job task cur [] h)
  | inr e ↦ rw e h
]
place-HasTask job task cur (next ∷ rest) h =
    let over = swapped job task cur (next ∷ rest) h in
    let ih = place-HasTask job task next rest in
    elim (Bool-cases (ltb next.time task.time)) [
      | inl e ↦ rw e (under job cur (task ∷ next ∷ rest) (place task next rest) ih over)
      | inr e ↦ elim (Bool-cases (ltb cur.time task.time)) [
        | inl e' ↦ rw (e, e') over
        | inr e' ↦ rw (e, e') h
      ]
    ]

-- A task that is added is in the queue, and so are the others.
pub add-HasTask :
    (job : Job) (queue : List TimedTask) (task : TimedTask)
    → HasTask job (task ∷ queue)
    → HasTask job (server_add_task queue task)
unfolding server_add_task
add-HasTask job [] task h = h
add-HasTask job (head ∷ queue) task h = place-HasTask job task head queue h
