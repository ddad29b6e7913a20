-- ===== src/Steps/Running.antt =====
-- The server makes steps only, from its start to the end of its main loop: `server_run`,
-- `server_schedule` and `server_start_dispatcher` of src/server.c.
use ichatd.Common.{
  ℕ, zero, suc, ◌+◌, ◌*◌, ◌==◌, ◌≡◌, refl, true, List, [], ◌∷◌, Option, none, some, leb, eq_of_some,
  arith, Bool-cases, inl, inr,
}
use ichatd.Config.{S2sBlock, s2s_heartbeat_delta}
use ichatd.Task.{Job, TimedTask, heartbeat, start_link, server_pop_task}
use ichatd.Sockets.{BindAnswers, ic_bind_server_socket}
use ichatd.Client.{client_create}
use ichatd.Server.{Server}
use ichatd.World.{World}
use ichatd.Link.{start_ichat_s2s_link}
use ichatd.Client.{Client}
use ichatd.Steps.{Newborn}
use ichatd.Accept.{
  ctl_server_create, ichat_server_create, ichat_s2s_server_create, listening, bound, bind_port,
  server_bind_ports,
}
use ichatd.Schedule.{
  server_register_heartbeats, register_links, server_schedule, task_run, asked, popped,
}
use ichatd.Poller.{Answers, server_poll}
use ichatd.Run.{MainLoop, stop_requested, running, aborted, server_start_dispatcher, start_up}
use ichatd.Steps.{Done, touched, accepted, ran, planned, Steps, here}
use ichatd.Steps.Clients.{Touched-clients, AllKept-refl}
use ichatd.Steps.Rounds.{Steps-trans, one-Step, register_task-Planned, start_ichat_s2s_link-Joined}
use ichatd.Steps.Polling.{server_poll-Steps}
use ichatd.Steps.Accepting.{accepted-Step, newborn, some_fd}

task_run-Done : (w : World) (job : Job) (s : Server) → Done job s (task_run w job s)
unfolding task_run
task_run-Done w heartbeat s = register_task-Planned w (1000 * s2s_heartbeat_delta) heartbeat s
task_run-Done w (start_link b) s = start_ichat_s2s_link-Joined w b s

asked-Steps : (s : Server) → Steps s (asked s)
asked-Steps s =
    one-Step s _ (touched (Touched-clients s s.clist (s.ticks + 1) (AllKept-refl s.clist)))

pop_eq :
    (queue : List TimedTask) (task : TimedTask) (rest : List TimedTask)
    → server_pop_task queue ≡ some (task, rest)
    → queue ≡ task ∷ rest
unfolding server_pop_task
pop_eq [] task rest h = cc
pop_eq (t ∷ ts) task rest h = let e = eq_of_some h in ground (e, arith)

-- Running the tasks whose time has come makes steps only.
pub server_schedule-Steps : (w : World) (fuel : ℕ) (s : Server) → Steps s (server_schedule w fuel s)
unfolding server_schedule
server_schedule-Steps w zero s = here
server_schedule-Steps w (suc fuel) s =
    by_first (λ t. server_schedule-Steps w fuel t) (server_pop_task s.task_queue) refl
  where
    by_first :
        ((t : Server) → Steps t (server_schedule w fuel t))
        → (first : Option (TimedTask × List TimedTask)) → server_pop_task s.task_queue ≡ first
        → Steps s (server_schedule w (suc fuel) s)
    by_first ih none e = rw (server_schedule, e) here
    by_first ih (some (task, rest)) e = elim (Bool-cases (leb task.time (w.clock s.ticks))) [
      | inl soon ↦
          let t = popped rest (asked s) in
          let u = task_run w task.job t in
          let step =
            ran task rest t (pop_eq s.task_queue task rest e) refl (task_run-Done w task.job t) in
          rw (server_schedule, e, soon) (Steps-trans s u _ (one-Step s u step) (ih u))
      | inr later ↦ rw (server_schedule, e, later) (asked-Steps s)
    ]

-- Where the main loop stands, seen from the state `s` at its start.
abbrev pub Reached : Server → MainLoop → Type 0
Reached s (running t) = Steps s t
Reached s (stop_requested t) = Steps s t × (t.shutdown ≡ true)
Reached s aborted = Unit {0}

Reached-trans : (s t : Server) (m : MainLoop) → Steps s t → Reached t m → Reached s m
Reached-trans s t (running u) h r = Steps-trans s t u h r
Reached-trans s t (stop_requested u) h (r, down) = (Steps-trans s t u h r, down)
Reached-trans s t aborted h r = tt

-- Every state of the main loop comes by steps from the state at its start.
pub server_start_dispatcher-Reached :
    (w : World) (fuel : ℕ) (rounds : List Answers) (s : Server)
    → Reached s (server_start_dispatcher w fuel rounds s)
unfolding server_start_dispatcher
server_start_dispatcher-Reached w fuel [] s = here
server_start_dispatcher-Reached w fuel (a ∷ rounds) s =
    by_round (λ t. server_start_dispatcher-Reached w fuel rounds t) (server_poll w a s) refl
  where
    by_round :
        ((t : Server) → Reached t (server_start_dispatcher w fuel rounds t))
        → (o : Option Server) → server_poll w a s ≡ o
        → Reached s (server_start_dispatcher w fuel (a ∷ rounds) s)
    by_round ih none e = rw (server_start_dispatcher, e) tt
    by_round ih (some t) e = elim (Bool-cases t.shutdown) [
      | inl down ↦ rw (server_start_dispatcher, e, down) (server_poll-Steps w a s t e, down)
      | inr up ↦
          let u = server_schedule w fuel t in
          let first =
            Steps-trans s t u (server_poll-Steps w a s t e) (server_schedule-Steps w fuel t) in
          rw (server_start_dispatcher, e, up) (Reached-trans s u _ first (ih u))
    ]

-- What a listener is as it is made.
abbrev IsListener : (ℕ → ℕ → Client) → Type 0
IsListener create = (ptr fd : ℕ) → Newborn (create ptr fd) × ((create ptr fd).ptr ≡ ptr)

bind_port-Steps :
    (create : ℕ → ℕ → Client) (port : ℕ) (a : BindAnswers) (s : Server)
    → IsListener create
    → Steps s (bind_port create port a s)
bind_port-Steps create port a s made = elim (Bool-cases (port == 0)) [
  | inl e ↦ rw e here
  | inr e ↦ rw e (by_socket (ic_bind_server_socket port a).fd)
]
  where
    listening-Steps : (fd : ℕ) → Steps s (listening create fd s)
    listening-Steps fd =
        let (c, e) = made s.next_ptr fd in accepted-Step (create s.next_ptr fd) s c e

    by_socket : (o : Option ℕ) → Steps s (bound create s o)
    by_socket none = here
    by_socket (some fd) = elim (Bool-cases (fd == 0)) [
      | inl e ↦ rw e here
      | inr e ↦ rw e (listening-Steps fd)
    ]

server_bind_ports-Steps :
    (user s2s ctl : BindAnswers) (s : Server) → Steps s (server_bind_ports user s2s ctl s)
unfolding server_bind_ports client_create
server_bind_ports-Steps user s2s ctl s =
    let t = bind_port ichat_server_create s.config.user_port user s in
    let u = bind_port ichat_s2s_server_create s.config.s2s_me.port s2s t in
    let first =
      bind_port-Steps ichat_server_create s.config.user_port user s
        (λ ptr fd. (newborn (ichat_server_create ptr fd) refl (some_fd fd), refl)) in
    let second =
      bind_port-Steps ichat_s2s_server_create s.config.s2s_me.port s2s t
        (λ ptr fd. (newborn (ichat_s2s_server_create ptr fd) refl (some_fd fd), refl)) in
    let third =
      bind_port-Steps ctl_server_create s.config.ctl_port ctl u
        (λ ptr fd. (newborn (ctl_server_create ptr fd) refl (some_fd fd), refl)) in
    Steps-trans s t _ first (Steps-trans t u _ second third)

pub register_links-Steps :
    (w : World) (bs : List S2sBlock) (s : Server) → Steps s (register_links w bs s)
unfolding register_links
register_links-Steps w [] s = here
register_links-Steps w (b ∷ bs) s = elim (Bool-cases (b.port == 0)) [
  | inl e ↦ rw e (register_links-Steps w bs s)
  | inr e ↦
      let (c, l, j) = start_ichat_s2s_link-Joined w b s in
      let t = start_ichat_s2s_link w b s in
      rw e (Steps-trans s t _ (one-Step s t (accepted c j)) (register_links-Steps w bs t))
]

-- The start up to the links.
pub before_links-Steps :
    (w : World) (user s2s ctl : BindAnswers) (s : Server)
    → Steps s (server_register_heartbeats w (server_bind_ports user s2s ctl s))
before_links-Steps w user s2s ctl s =
    let t = server_bind_ports user s2s ctl s in
    let u = server_register_heartbeats w t in
    let p = register_task-Planned w (1000 * s2s_heartbeat_delta) heartbeat t in
    Steps-trans s t u (server_bind_ports-Steps user s2s ctl s) (one-Step t u (planned heartbeat p))

-- The server starts with steps.
pub start_up-Steps :
    (w : World) (user s2s ctl : BindAnswers) (s : Server) → Steps s (start_up w user s2s ctl s)
unfolding start_up
start_up-Steps w user s2s ctl s =
    let u = server_register_heartbeats w (server_bind_ports user s2s ctl s) in
    Steps-trans s u _ (before_links-Steps w user s2s ctl s)
      (register_links-Steps w u.config.s2s_queue u)

-- The state that the main loop stands in.
abbrev pub InState : (Server → Type 0) → MainLoop → Type 0
InState P (running s) = P s
InState P (stop_requested s) = P s
InState P aborted = Unit {0}

-- What steps keep and the start establishes holds where the main loop stands.
pub Reached-InState :
    (P : Server → Type 0) (s : Server) (m : MainLoop)
    → ((t : Server) → Steps s t → P s → P t)
    → P s
    → Reached s m
    → InState P m
Reached-InState P s (running t) keeps p r = keeps t r p
Reached-InState P s (stop_requested t) keeps p r = keeps t r.0 p
Reached-InState P s aborted keeps p r = tt
