-- ===== src/Schedule/Enough.antt =====
-- `server_schedule` (src/server.c) comes to its end: a task that is run plans no task whose time has
-- come already, as long as the clock does not run away while the tasks are run.
use ichatd.Common.{
  ℕ, zero, suc, ◌+◌, ◌*◌, ◌%◌, ◌^◌, ◌≤◌, ◌<◌, ◌≡◌, ◌∙◌, refl, sym, ap, subst, true, false, List, [],
  ◌∷◌, none, some, arith, leb, ltb, Bool-cases, inl, inr,
}
use ichatd.Config.{s2s_heartbeat_delta}
use ichatd.Task.{Job, TimedTask, heartbeat, start_link, task_create, server_pop_task}
use ichatd.Task.Due.{due, due-add}
use ichatd.Server.{Server}
use ichatd.World.{World}
use ichatd.Link.{register_task, start_ichat_s2s_link}
use ichatd.Schedule.{server_schedule, task_run, asked, popped}

-- The readings of the clock from one to another are within the time of one heartbeat, far from the
-- greatest number.
pub record Slow (w : World) (start first last : ℕ) : Type 0 where
  pub not_before : (n : ℕ) → first ≤ n → n ≤ last → start ≤ w.clock n
  pub not_after : (n : ℕ) → first ≤ n → n ≤ last → w.clock n < start + 1000 * s2s_heartbeat_delta
  pub small : start + 2 * (1000 * s2s_heartbeat_delta) < 2 ^ 64

abbrev limit : ℕ → ℕ
limit start = start + 1000 * s2s_heartbeat_delta

-- The first task of the queue is later than `now`.
abbrev pub IsQuiet : ℕ → List TimedTask → Type 0
IsQuiet now [] = Unit {0}
IsQuiet now (t ∷ ts) = now < t.time

later :
    (w : World) (start first last first' : ℕ)
    → first ≤ first'
    → Slow w start first last
    → Slow w start first' last
later w start first last first' le h = record {
  not_before = λ n a b. h.not_before n (omega arith) b;
  not_after = λ n a b. h.not_after n (omega arith) b;
  small = h.small;
}

task_run-due :
    (w : World) (start last : ℕ) (job : Job) (s : Server)
    → Slow w start s.ticks last
    → s.ticks ≤ last
    → due (limit start) (task_run w job s).task_queue ≡ due (limit start) s.task_queue
unfolding task_run register_task start_ichat_s2s_link task_create
task_run-due w start last heartbeat s h le =
    let now = w.clock s.ticks in
    let task = task_create now (1000 * s2s_heartbeat_delta) heartbeat in
    let at_least = h.not_before s.ticks (omega arith) le in
    let below = h.not_after s.ticks (omega arith) le in
    due-add (limit start) s.task_queue task (late now at_least below h.small)
  where
    late :
        (now : ℕ)
        → start ≤ now
        → now < start + 300000
        → start + 600000 < 2 ^ 64
        → start + 300000 ≤ (now + 300000) % 2 ^ 64
    late now a b c = omega arith
task_run-due w start last (start_link b) s h le = refl

task_run-ticks : (w : World) (job : Job) (s : Server) → (task_run w job s).ticks ≡ s.ticks + 1
unfolding task_run register_task start_ichat_s2s_link
task_run-ticks w heartbeat s = refl
task_run-ticks w (start_link b) s = refl

-- More fuel makes no difference, and the first task that is left is later than a reading.
record Ended (w : World) (fuel more last : ℕ) (s : Server) : Type 0 where
  same : server_schedule w (fuel + more) s ≡ server_schedule w fuel s
  reading : ℕ
  made : (s.ticks ≤ reading) × (reading ≤ last)
  quiet : IsQuiet (w.clock reading) (server_schedule w fuel s).task_queue

-- One turn of the loop that runs a task leaves one task less to run.
turn :
    (w : World) (start last : ℕ) (task : TimedTask) (rest : List TimedTask) (s : Server)
    → Slow w start s.ticks last
    → s.ticks + 2 * due (limit start) s.task_queue ≤ last
    → s.task_queue ≡ task ∷ rest
    → leb task.time (w.clock s.ticks) ≡ true
    → let t = task_run w task.job (popped rest (asked s)) in
      (t.ticks ≡ s.ticks + 2)
      × (due (limit start) t.task_queue + 1 ≡ due (limit start) s.task_queue)
turn w start last task rest s h room e soon =
    let le : s.ticks ≤ last = omega arith in
    let below = h.not_after s.ticks (omega arith) le in
    let counted : ltb task.time (limit start) ≡ true = ground arith in
    let count : due (limit start) s.task_queue ≡ due (limit start) rest + 1 =
      ap (due (limit start)) e ∙ rw counted refl in
    let u = popped rest (asked s) in
    let slow = later w start s.ticks last (s.ticks + 1) (omega arith) h in
    let same = task_run-due w start last task.job u slow (omega arith) in
    (omega (arith, task_run-ticks w task.job u), omega arith)

-- What one turn of the loop makes of the state.
module _ (w : World) (fuel : ℕ) (s : Server) where
  schedule_empty : s.task_queue ≡ [] → server_schedule w (suc fuel) s ≡ s
  unfolding server_schedule server_pop_task
  schedule_empty e =
      let k : server_pop_task s.task_queue ≡ none = ap server_pop_task e in
      rw (server_schedule, k) refl

  schedule_late :
      (task : TimedTask) (rest : List TimedTask)
      → s.task_queue ≡ task ∷ rest
      → leb task.time (w.clock s.ticks) ≡ false
      → server_schedule w (suc fuel) s ≡ asked s
  unfolding server_schedule server_pop_task
  schedule_late task rest e late =
      let k : server_pop_task s.task_queue ≡ some (task, rest) = ap server_pop_task e in
      rw (server_schedule, k, late) refl

  schedule_soon :
      (task : TimedTask) (rest : List TimedTask)
      → s.task_queue ≡ task ∷ rest
      → leb task.time (w.clock s.ticks) ≡ true
      → server_schedule w (suc fuel) s
        ≡ server_schedule w fuel (task_run w task.job (popped rest (asked s)))
  unfolding server_schedule server_pop_task
  schedule_soon task rest e soon =
      let k : server_pop_task s.task_queue ≡ some (task, rest) = ap server_pop_task e in
      rw (server_schedule, k, soon) refl

-- The same for the fuel that `Ended` compares.
both :
    (w : World) (fuel more last : ℕ) (s t : Server)
    → ((n : ℕ) → server_schedule w (suc n) s ≡ t)
    → (n : ℕ) → (s.ticks ≤ n) × (n ≤ last)
    → IsQuiet (w.clock n) t.task_queue
    → Ended w (suc fuel) more last s
both w fuel more last s t e n made q = record {
  same = ap (λ k. server_schedule w k s) plus ∙ e (fuel + more) ∙ sym (e fuel);
  reading = n;
  made = made;
  quiet = subst (λ u. IsQuiet (w.clock n) u.task_queue) (sym (e fuel)) q;
}
  where
    plus : suc fuel + more ≡ suc (fuel + more)
    plus = omega arith

after :
    (w : World) (fuel more last : ℕ) (s t : Server)
    → ((n : ℕ) → server_schedule w (suc n) s ≡ server_schedule w n t)
    → s.ticks ≤ t.ticks
    → Ended w fuel more last t
    → Ended w (suc fuel) more last s
after w fuel more last s t e le r = record {
  same = ap (λ k. server_schedule w k s) plus ∙ e (fuel + more) ∙ r.same ∙ sym (e fuel);
  reading = r.reading;
  made = (let m = r.made.0 in omega arith, r.made.1);
  quiet = subst (λ u. IsQuiet (w.clock r.reading) u.task_queue) (sym (e fuel)) r.quiet;
}
  where
    plus : suc fuel + more ≡ suc (fuel + more)
    plus = omega arith

schedule-Ended :
    (w : World) (start last fuel more : ℕ) (s : Server)
    → Slow w start s.ticks last
    → s.ticks + 2 * due (limit start) s.task_queue ≤ last
    → due (limit start) s.task_queue < fuel
    → Ended w fuel more last s
schedule-Ended w start last zero more s h room enough = absurd (omega arith)
schedule-Ended w start last (suc fuel) more s h room enough =
    by_queue (λ t h room enough. schedule-Ended w start last fuel more t h room enough) s.task_queue
      refl
  where
    le : s.ticks ≤ last
    le = omega arith

    now : (s.ticks ≤ s.ticks) × (s.ticks ≤ last)
    now = (omega arith, le)

    by_queue :
        ((t : Server)
          → Slow w start t.ticks last
          → t.ticks + 2 * due (limit start) t.task_queue ≤ last
          → due (limit start) t.task_queue < fuel
          → Ended w fuel more last t)
        → (queue : List TimedTask) → s.task_queue ≡ queue
        → Ended w (suc fuel) more last s
    by_queue ih [] e =
        both w fuel more last s s (λ n. schedule_empty w n s e) s.ticks now
          (subst (IsQuiet (w.clock s.ticks)) (sym e) tt)
    by_queue ih (task ∷ rest) e = elim (Bool-cases (leb task.time (w.clock s.ticks))) [
      | inl soon ↦
          let t = task_run w task.job (popped rest (asked s)) in
          let (ticks, count) = turn w start last task rest s h room e soon in
          let slow = later w start s.ticks last t.ticks (omega arith) h in
          after w fuel more last s t (λ n. schedule_soon w n s task rest e soon) (omega arith)
            (ih t slow (omega arith) (omega arith))
      | inr late ↦
          let q : w.clock s.ticks < task.time = ground arith in
          both w fuel more last s (asked s) (λ n. schedule_late w n s task rest e late) s.ticks now
            (subst (IsQuiet (w.clock s.ticks)) (sym e) q)
    ]

-- Where all readings of the clock that the loop can make are within the time of one heartbeat, far
-- from the greatest number, and the fuel exceeds the number of tasks that are before the end of
-- that time, more fuel makes no difference, and the first task that is left, if any, is later than
-- a reading of the clock that the loop made.
pub server_schedule_enough :
    (w : World) (start fuel more : ℕ) (s : Server)
    → let n = due (start + 1000 * s2s_heartbeat_delta) s.task_queue in
      Slow w start s.ticks (s.ticks + 2 * n)
      → n < fuel
      → (server_schedule w (fuel + more) s ≡ server_schedule w fuel s)
        × ((reading : ℕ) × (s.ticks ≤ reading)
            × (reading ≤ s.ticks + 2 * n)
            × IsQuiet (w.clock reading) (server_schedule w fuel s).task_queue)
server_schedule_enough w start fuel more s h enough =
    let n = due (limit start) s.task_queue in
    let r = schedule-Ended w start (s.ticks + 2 * n) fuel more s h (omega arith) enough in
    (r.same, (r.reading, r.made.0, r.made.1, r.quiet))
