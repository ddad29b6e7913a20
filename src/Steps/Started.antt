-- ===== src/Steps/Started.antt =====
-- Every configured server is linked after the start, and stays so (src/server.c,
-- src/ichat/s2s_client/ichat_s2s_link.c).
use ichatd.Common.{
  ℕ, ◌==◌, ◌≡◌, ◌≢◌, ◌∙◌, refl, sym, ap, subst, false, List, [], ◌∷◌, some, arith, inl, inr,
  if◌then◌else◌,
}
use mathlib.Core.List.{Memᴰ}
use ichatd.Config.{S2sBlock}
use ichatd.Task.{Job, heartbeat, start_link}
use ichatd.Sockets.{BindAnswers}
use ichatd.Client.{Client}
use ichatd.Server.{Server}
use ichatd.World.{World}
use ichatd.Link.{start_ichat_s2s_link}
use ichatd.Schedule.{register_links, server_register_heartbeats}
use ichatd.Accept.{server_bind_ports}
use ichatd.Poller.{Answers}
use ichatd.Run.{start_up, server_start_dispatcher}
use ichatd.Steps.{Done, Replaced, Step, touched, accepted, planned, left, ran, Steps, here, next}
use ichatd.Steps.Rounds.{start_ichat_s2s_link-Joined}
use ichatd.Steps.Running.{
  InState, Reached-InState, before_links-Steps, register_links-Steps,
  server_start_dispatcher-Reached,
}
use ichatd.Steps.Invariant.{removed_lem}
use ichatd.Steps.Links.{IsLinked, Joined-IsLinked, Steps-IsLinked}

-- The configuration is never changed once the server runs.
Replaced-config : (c : Client) (s s' : Server) → Replaced c s s' → s'.config ≡ s.config
Replaced-config c s s' (inl (h, e)) = h.same_config
Replaced-config c s s' (inr (b, n, h)) = h.same_config

Done-config : (job : Job) (s s' : Server) → Done job s s' → s'.config ≡ s.config
Done-config heartbeat s s' h = h.same_config
Done-config (start_link b) s s' (c, n, h) = h.same_config

Step-config : (s s' : Server) → Step s s' → s'.config ≡ s.config
Step-config s s' (touched h) = h.same_config
Step-config s s' (accepted c h) = h.same_config
Step-config s s' (planned job h) = h.same_config
Step-config s s' (left ptr c t e h) =
    let (ds, r, same) = removed_lem ptr s c t e in
    Replaced-config c t s' h ∙ ap (λ u. u.config) (sym same)
Step-config s s' (ran task rest t e same h) = Done-config task.job t s' h ∙ ap (λ u. u.config) same

pub Steps-config : (s s' : Server) → Steps s s' → s'.config ≡ s.config
Steps-config s s' here = refl
Steps-config s s' (next {t = t} h k) = Step-config t s' k ∙ Steps-config s t h

register_links-IsLinked :
    (w : World) (b : S2sBlock) (bs : List S2sBlock) (s : Server)
    → Memᴰ b bs
    → b.port ≢ 0
    → IsLinked b (register_links w bs s)
unfolding register_links
register_links-IsLinked w b [] s m n = elim m [ ]
register_links-IsLinked w b (x ∷ bs) s (Memᴰ.tail m) n =
    register_links-IsLinked w b bs (if x.port == 0 then s else start_ichat_s2s_link w x s) m n
register_links-IsLinked w b (x ∷ bs) s (Memᴰ.head e) n =
    let (c, l, j) = start_ichat_s2s_link-Joined w x s in
    let t = start_ichat_s2s_link w x s in
    let first = Joined-IsLinked b c s t j (inl (l ∙ ap some (sym e))) in
    let port : (x.port == 0) ≡ false = ground (arith, ap (λ y. y.port) e) in
    rw (register_links, port) (Steps-IsLinked b t _ (register_links-Steps w bs t) first)

start_up-IsLinked :
    (w : World) (user s2s ctl : BindAnswers) (s : Server) (b : S2sBlock)
    → Memᴰ b s.config.s2s_queue
    → b.port ≢ 0
    → IsLinked b (start_up w user s2s ctl s)
unfolding start_up
start_up-IsLinked w user s2s ctl s b m n =
    let t = server_register_heartbeats w (server_bind_ports user s2s ctl s) in
    let same : t.config ≡ s.config = Steps-config s t (before_links-Steps w user s2s ctl s) in
    register_links-IsLinked w b t.config.s2s_queue t (subst (λ c. Memᴰ b c.s2s_queue) (sym same) m)
      n

-- For every configured server whose port is not 0, whatever the clients send and the system
-- answers: wherever the main loop stands after the start, as long as no assertion fails, there is a
-- client that keeps the link to this server up, or a task in the queue that will start it again, or
-- the server was asked to stop.
pub server_start_dispatcher-IsLinked :
    (w : World) (fuel : ℕ) (user s2s ctl : BindAnswers) (rounds : List Answers) (s : Server)
    (b : S2sBlock)
    → Memᴰ b s.config.s2s_queue
    → b.port ≢ 0
    → InState (IsLinked b) (server_start_dispatcher w fuel rounds (start_up w user s2s ctl s))
server_start_dispatcher-IsLinked w fuel user s2s ctl rounds s b m n =
    let t = start_up w user s2s ctl s in
    Reached-InState (IsLinked b) t (server_start_dispatcher w fuel rounds t) (Steps-IsLinked b t)
      (start_up-IsLinked w user s2s ctl s b m n) (server_start_dispatcher-Reached w fuel rounds t)
