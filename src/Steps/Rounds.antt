-- ===== src/Steps/Rounds.antt =====
-- The main loop makes steps only: `server_poll` (src/poller.c), `server_schedule` and the start of the
-- server (src/server.c).
use ichatd.Common.{
  ℕ, ◌+◌, ◌*◌, ◌%◌, ◌^◌, ◌≡◌, refl, ap, subst, Bool, true, false, List, Option, none, some, ◌==◌,
  if◌then◌else◌, Bool-cases, Option-cases, inl, inr, >>=-eq-some, eq_of_some,
}
use ichatd.Config.{S2sBlock, s2s_reconnect_delta}
use ichatd.Task.{Job, start_link, task_create}
use ichatd.Queue.{Queue, Written, error, count, buffer_queue_write, buffer_queue_size}
use ichatd.Queue.Stream
use ichatd.Queue.Write.{buffer_queue_write-IsValid}
use ichatd.Sockets.{ic_nonblock_connect}
use ichatd.Client.S2s.{ichat_s2s_client_create_impl}
use ichatd.Client.{
  client_create, is_none, Client, Impl, ctl_client, ichat_client, s2s_client, out_auth,
}
use ichatd.Server.{Server, remove, with_rest, server_remove_client, corrupted}
use ichatd.Dispatch.Delivery.{queue}
use ichatd.Output.{write_op, set_queue, after_write}
use ichatd.World.{World}
use ichatd.Link.{
  link_of, join_client, register_task, start_ichat_s2s_link, reconnect, client_destroy, close_fd,
  ichat_s2s_client_create,
}
use ichatd.Poller.{first_corrupt, evict, destroy_removed}
use ichatd.Steps.{Touched, Kept, Newborn, Joined, Planned, Replaced, Step, left, Steps, here, next}
use ichatd.Steps.Clients.{AllKept-refl, Kept-refl, Kept-trans, corrupted-Kept}

pub Steps-trans : (s t u : Server) → Steps s t → Steps t u → Steps s u
Steps-trans s t u h here = h
Steps-trans s t u h (next {t = v} k st) = next (Steps-trans s t v h k) st

pub one-Step : (s t : Server) → Step s t → Steps s t
one-Step s t st = next here st

set_queue-Kept :
    (c : Client) (q : Queue)
    → (Stream.IsValid (queue c) → Stream.IsValid q)
    → Kept c (set_queue q c)
set_queue-Kept c q keep = by_impl c.impl keep
  where
    by_impl :
        (impl : Impl)
        → let d : Client = record c { impl = impl } in
          (Stream.IsValid (queue d) → Stream.IsValid q) → Kept d (set_queue q d)
    by_impl (ctl_client i) k = record {
      same_ptr = refl;
      same_fd = refl;
      same_link = refl;
      stays_corrupt = λ h. h;
      keeps_queue = k;
    }
    by_impl (ichat_client i) k = record {
      same_ptr = refl;
      same_fd = refl;
      same_link = refl;
      stays_corrupt = λ h. h;
      keeps_queue = k;
    }
    by_impl (s2s_client i) k = record {
      same_ptr = refl;
      same_fd = refl;
      same_link = refl;
      stays_corrupt = λ h. h;
      keeps_queue = k;
    }
    by_impl impl k = Kept-refl (record c { impl = impl })

after_write-Kept :
    (c : Client) (r : Written × Queue)
    → (Stream.IsValid (queue c) → Stream.IsValid r.1)
    → Kept c (after_write c r)
after_write-Kept c (error, q) keep =
    Kept-trans c (set_queue q c) (corrupted (set_queue q c)) (set_queue-Kept c q keep)
      (corrupted-Kept (set_queue q c))
after_write-Kept c (count n, q) keep = elim (Bool-cases (n == 0)) [
  | inl e ↦ rw e (
      Kept-trans c (set_queue q c) (corrupted (set_queue q c)) (set_queue-Kept c q keep)
        (corrupted-Kept (set_queue q c)))
  | inr e ↦ rw e (set_queue-Kept c q keep)
]

pub write_op-Kept :
    (c : Client) (answer : Written) (c' : Client) → write_op c answer ≡ some c' → Kept c c'
unfolding write_op
write_op-Kept c answer c' h = elim (Bool-cases (buffer_queue_size (queue c) == 0)) [
  | inl e ↦ subst (Kept c) (eq_of_some (rw e at h)) (Kept-refl c)
  | inr e ↦
      let (r, sent, last) = >>=-eq-some (buffer_queue_write (queue c) answer) _ (rw e at h) in
      subst (Kept c) (eq_of_some last)
        (after_write-Kept c r (λ v. buffer_queue_write-IsValid (queue c) answer r v sent))
]

pub join_client-Joined :
    (c : Client) (s : Server) (n : ℕ)
    → Newborn c
    → c.ptr ≡ s.next_ptr
    → Joined c s (record (join_client c s) { ticks = n })
join_client-Joined c s n b e = record {
  newborn = b;
  address = e;
  clients = refl;
  same_config = refl;
  same_tasks = refl;
  next_address = refl;
  same_down = refl;
}

pub start_ichat_s2s_link-Joined :
    (w : World) (b : S2sBlock) (s : Server)
    → (c : Client) × (link_of c ≡ some b) × Joined c s (start_ichat_s2s_link w b s)
unfolding start_ichat_s2s_link ichat_s2s_client_create ichat_s2s_client_create_impl client_create
start_ichat_s2s_link-Joined w b s =
    let remote = (ic_nonblock_connect (w.sockets s.ticks b)).fd in
    let c =
      ichat_s2s_client_create s.next_ptr remote out_auth s.config.s2s_me.host
        (w.stamp s.ticks s.next_ptr) b in
    let broken : c.fd ≡ none → c.corrupt ≡ true = remote_none remote in
    (
      c,
      refl,
      join_client-Joined c s (s.ticks + 1) (record { valid = inl refl; broken = broken }) refl,
    )
  where
    remote_none : (o : Option ℕ) → o ≡ none → is_none o ≡ true
    remote_none none e = refl
    remote_none (some fd) e = cc

pub register_task-Planned :
    (w : World) (delta : ℕ) (job : Job) (s : Server) → Planned job s (register_task w delta job s)
unfolding register_task task_create
register_task-Planned w delta job s = record {
  time = (w.clock s.ticks + delta) % 2 ^ 64;
  tasks = refl;
  same_clients = refl;
  same_config = refl;
  same_next = refl;
  same_down = refl;
}

close_fd-Touched : (c : Client) (s : Server) → Touched s (close_fd c s)
close_fd-Touched c s = record {
  clients = AllKept-refl s.clist;
  same_config = refl;
  same_tasks = refl;
  same_next = refl;
  stays_down = λ h. h;
}

close_fd-Planned :
    (c : Client) (job : Job) (s t : Server) → Planned job (close_fd c s) t → Planned job s t
close_fd-Planned c job s t p = record {
  time = p.time;
  tasks = p.tasks;
  same_clients = p.same_clients;
  same_config = p.same_config;
  same_next = p.same_next;
  same_down = p.same_down;
}

reconnect-Replaced :
    (w : World) (c : Client) (s : Server) (o : Option S2sBlock)
    → link_of c ≡ o
    → Replaced c s (reconnect w (close_fd c s) o)
reconnect-Replaced w c s none e = inl (close_fd-Touched c s, inl e)
reconnect-Replaced w c s (some b) e = by_down s.shutdown refl
  where
    planned : Server
    planned = register_task w (1000 * s2s_reconnect_delta) (start_link b) (close_fd c s)

    by_down :
        (down : Bool) → s.shutdown ≡ down → Replaced c s (if down then close_fd c s else planned)
    by_down true down = inl (close_fd-Touched c s, inr down)
    by_down false up =
        let p =
          register_task-Planned w (1000 * s2s_reconnect_delta) (start_link b) (close_fd c s) in
        inr (b, e, close_fd-Planned c (start_link b) s planned p)

client_destroy-Replaced :
    (w : World) (c : Client) (s : Server) → Replaced c s (client_destroy w c s)
unfolding client_destroy
client_destroy-Replaced w c s = reconnect-Replaced w c s (link_of c) refl

not_removed : (ptr : ℕ) (s t : Server) → server_remove_client ptr s ≡ (none, t) → s ≡ t
unfolding server_remove_client
not_removed ptr s t h = elim (Option-cases (remove ptr s.clist)) [
  | inl e ↦ ap (λ x. x.1) (rw e at h)
  | inr (r, e) ↦ absurd (some_none r (rw e at h))
]
  where
    some_none : (r : Client × List Client) → with_rest s (some r) ≡ (none, t) → ⊥
    some_none (c, cs) k = some_is_not (ap (λ x. x.0) k)
      where
        some_is_not : {c : Client} → some c ≡ none → ⊥
        some_is_not k = cc

pub evict-Steps : (w : World) (s : Server) → Steps s (evict w s)
unfolding evict
evict-Steps w s = elim (Option-cases (first_corrupt s.clist)) [
  | inl e ↦ rw e here
  | inr (ptr, e) ↦ rw e (by_removed ptr (server_remove_client ptr s) refl)
]
  where
    by_removed :
        (ptr : ℕ) (r : Option Client × Server)
        → server_remove_client ptr s ≡ r
        → Steps s (destroy_removed w r)
    by_removed ptr (none, t) e = subst (Steps s) (not_removed ptr s t e) here
    by_removed ptr (some c, t) e = one-Step s _ (left ptr c t e (client_destroy-Replaced w c t))
