-- ===== src/Task/Order.antt =====
-- The task queue is kept in the order of the tasks' times.
use mathlib.Core.List.{Perm}
use mathlib.Core.List.Perm
use ichatd.Common.{
  ℕ, ◌≤◌, ◌≡◌, refl, List, [], ◌∷◌, ◌++◌, arith, ltb, if◌then◌else◌, Bool-cases, inl, inr,
}
use ichatd.Task.{TimedTask, place, server_add_task}

-- Every task of the list is at `t` or later.
abbrev pub NotBefore : ℕ → List TimedTask → Type 0
NotBefore t [] = Unit {0}
NotBefore t (x ∷ xs) = (t ≤ x.time) × NotBefore t xs

-- In the order of time.
abbrev pub IsSorted : List TimedTask → Type 0
IsSorted [] = Unit {0}
IsSorted (x ∷ xs) = NotBefore x.time xs × IsSorted xs

-- The tasks at the front that are earlier than `t`, and those from the first that is not.
abbrev pub earlier : ℕ → List TimedTask → List TimedTask
earlier t [] = []
earlier t (x ∷ xs) = if ltb x.time t then x ∷ earlier t xs else []

abbrev pub from_time : ℕ → List TimedTask → List TimedTask
from_time t [] = []
from_time t (x ∷ xs) = if ltb x.time t then from_time t xs else x ∷ xs

place_lem :
    (task cur : TimedTask) (rest : List TimedTask)
    → IsSorted (cur ∷ rest)
    → place task cur rest
      ≡ earlier task.time (cur ∷ rest) ++ task ∷ from_time task.time (cur ∷ rest)
unfolding place
place_lem task cur [] s = ground arith
place_lem task cur (next ∷ rest) s = ground (arith, place_lem task next rest s.1)

-- In a sorted queue `server_add_task` puts the task behind all that are earlier and before all
-- others, those of the same time included; the other tasks stay in their order.
pub server_add_task_lem :
    (queue : List TimedTask) (task : TimedTask)
    → IsSorted queue
    → server_add_task queue task ≡ earlier task.time queue ++ task ∷ from_time task.time queue
unfolding server_add_task
server_add_task_lem [] task s = refl
server_add_task_lem (head ∷ queue) task s = place_lem task head queue s

NotBefore-weaken : (s t : ℕ) (xs : List TimedTask) → s ≤ t → NotBefore t xs → NotBefore s xs
NotBefore-weaken s t [] h n = tt
NotBefore-weaken s t (x ∷ xs) h n = (omega arith, NotBefore-weaken s t xs h n.1)

NotBefore-place :
    (s : ℕ) (task cur : TimedTask) (rest : List TimedTask)
    → s ≤ task.time
    → NotBefore s (cur ∷ rest)
    → NotBefore s (place task cur rest)
unfolding place
NotBefore-place s task cur [] h n = ground arith
NotBefore-place s task cur (next ∷ rest) h n =
    ground (arith, NotBefore-place s task next rest h n.1)

IsSorted-place :
    (task cur : TimedTask) (rest : List TimedTask)
    → IsSorted (cur ∷ rest)
    → IsSorted (place task cur rest)
unfolding place
IsSorted-place task cur [] s = ground arith
IsSorted-place task cur (next ∷ rest) s = elim (Bool-cases (ltb next.time task.time)) [
  | inl e ↦
      let later = NotBefore-place cur.time task next rest (ground arith) s.0 in
      rw e (later, IsSorted-place task next rest s.1)
  | inr e ↦ rw e (
      ground (
        arith,
        NotBefore-weaken task.time next.time rest (ground arith) s.1.0,
        NotBefore-weaken task.time cur.time rest,
      ))
]

-- `server_add_task` keeps a queue that is in the order of time in that order.
pub server_add_task-IsSorted :
    (queue : List TimedTask) (task : TimedTask)
    → IsSorted queue
    → IsSorted (server_add_task queue task)
unfolding server_add_task
server_add_task-IsSorted [] task s = (tt, tt)
server_add_task-IsSorted (head ∷ queue) task s = IsSorted-place task head queue s

place-perm :
    (task cur : TimedTask) (rest : List TimedTask) → Perm (place task cur rest) (task ∷ cur ∷ rest)
unfolding place
place-perm task cur [] = elim (Bool-cases (ltb cur.time task.time)) [
  | inl e ↦ rw e (Perm.swap task cur [])
  | inr e ↦ rw e (Perm.refl _)
]
place-perm task cur (next ∷ rest) = elim (Bool-cases (ltb next.time task.time)) [
  | inl e ↦
      rw e
        (Perm.trans (Perm.cons cur (place-perm task next rest)) (Perm.swap task cur (next ∷ rest)))
  | inr e ↦ elim (Bool-cases (ltb cur.time task.time)) [
    | inl e' ↦ rw (e, e') (Perm.swap task cur (next ∷ rest))
    | inr e' ↦ rw (e, e') (Perm.refl _)
  ]
]

-- `server_add_task` loses no task and doubles none, also in a queue that is not sorted.
pub server_add_task-perm :
    (queue : List TimedTask) (task : TimedTask) → Perm (server_add_task queue task) (task ∷ queue)
unfolding server_add_task
server_add_task-perm [] task = Perm.refl _
server_add_task-perm (head ∷ queue) task = place-perm task head queue
