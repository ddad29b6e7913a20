-- ===== src/Steps/Heartbeat.antt =====
-- The heartbeat goes on: `heartbeat` and `server_register_heartbeats` of src/server.c.
use ichatd.Common.{ℕ, ◌*◌, ◌≡◌, ◌⊎◌, refl, sym, subst, List, inl, inr}
use ichatd.Config.{S2sBlock, s2s_heartbeat_delta}
use ichatd.Task.{Job, heartbeat, start_link}
use ichatd.Task.Jobs.{HasTask, add-HasTask}
use ichatd.Sockets.{BindAnswers}
use ichatd.Client.{Client}
use ichatd.Server.{Server}
use ichatd.World.{World}
use ichatd.Schedule.{server_register_heartbeats}
use ichatd.Accept.{server_bind_ports}
use ichatd.Poller.{Answers}
use ichatd.Run.{start_up, server_start_dispatcher}
use ichatd.Steps.{
  Planned, Done, Replaced, Step, touched, accepted, planned, left, ran, Steps, here, next,
}
use ichatd.Steps.Rounds.{register_task-Planned}
use ichatd.Steps.Invariant.{removed_lem}
use ichatd.Steps.Running.{
  InState, Reached-InState, register_links-Steps, server_start_dispatcher-Reached,
}

-- A heartbeat waits in the task queue.
abbrev pub IsBeating : Server → Type 0
IsBeating s = HasTask heartbeat s.task_queue

Planned-IsBeating :
    (job : Job) (s s' : Server) → Planned job s s' → (job ≡ heartbeat) ⊎ IsBeating s → IsBeating s'
Planned-IsBeating job s s' h t =
    subst (HasTask heartbeat) (sym h.tasks) (add-HasTask heartbeat s.task_queue _ t)

Replaced-IsBeating : (c : Client) (s s' : Server) → Replaced c s s' → IsBeating s → IsBeating s'
Replaced-IsBeating c s s' (inl (h, e)) t = subst (HasTask heartbeat) (sym h.same_tasks) t
Replaced-IsBeating c s s' (inr (b, n, h)) t = Planned-IsBeating (start_link b) s s' h (inr t)

not_heartbeat : (b : S2sBlock) (s : Server) → (start_link b ≡ heartbeat) ⊎ IsBeating s → IsBeating s
not_heartbeat b s (inl e) = cc
not_heartbeat b s (inr t) = t

-- The heartbeat that is run plans the next.
Done-IsBeating :
    (job : Job) (s s' : Server) → Done job s s' → (job ≡ heartbeat) ⊎ IsBeating s → IsBeating s'
Done-IsBeating heartbeat s s' h t = Planned-IsBeating heartbeat s s' h (inl refl)
Done-IsBeating (start_link b) s s' (c, n, h) t =
    subst (HasTask heartbeat) (sym h.same_tasks) (not_heartbeat b s t)

Step-IsBeating : (s s' : Server) → Step s s' → IsBeating s → IsBeating s'
Step-IsBeating s s' (touched h) t = subst (HasTask heartbeat) (sym h.same_tasks) t
Step-IsBeating s s' (accepted c h) t = subst (HasTask heartbeat) (sym h.same_tasks) t
Step-IsBeating s s' (planned job h) t = Planned-IsBeating job s s' h (inr t)
Step-IsBeating s s' (left ptr c u e h) t =
    let (ds, r, same) = removed_lem ptr s c u e in
    Replaced-IsBeating c u s' h (subst IsBeating same t)
Step-IsBeating s s' (ran task rest u e same h) t =
    Done-IsBeating task.job u s' h
      (subst (λ x. (task.job ≡ heartbeat) ⊎ IsBeating x) (sym same) (subst (HasTask heartbeat) e t))

Steps-IsBeating : (s s' : Server) → Steps s s' → IsBeating s → IsBeating s'
Steps-IsBeating s s' here t = t
Steps-IsBeating s s' (next {t = u} h k) t = Step-IsBeating u s' k (Steps-IsBeating s u h t)

start_up-IsBeating :
    (w : World) (user s2s ctl : BindAnswers) (s : Server) → IsBeating (start_up w user s2s ctl s)
unfolding start_up
start_up-IsBeating w user s2s ctl s =
    let t = server_bind_ports user s2s ctl s in
    let u = server_register_heartbeats w t in
    let p = register_task-Planned w (1000 * s2s_heartbeat_delta) heartbeat t in
    Steps-IsBeating u _ (register_links-Steps w u.config.s2s_queue u)
      (Planned-IsBeating heartbeat t u p (inl refl))

-- Whatever the clients send and the system answers: wherever the main loop stands after the start,
-- as long as no assertion fails, a heartbeat waits in the task queue.
pub server_start_dispatcher-IsBeating :
    (w : World) (fuel : ℕ) (user s2s ctl : BindAnswers) (rounds : List Answers) (s : Server)
    → InState IsBeating (server_start_dispatcher w fuel rounds (start_up w user s2s ctl s))
server_start_dispatcher-IsBeating w fuel user s2s ctl rounds s =
    let t = start_up w user s2s ctl s in
    Reached-InState IsBeating t (server_start_dispatcher w fuel rounds t) (Steps-IsBeating t)
      (start_up-IsBeating w user s2s ctl s) (server_start_dispatcher-Reached w fuel rounds t)
