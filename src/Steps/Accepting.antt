-- ===== src/Steps/Accepting.antt =====
-- New clients: the `read` operations of the listening sockets
-- (src/ctl/server/ctl_server_ops.c, src/ichat/server/ichat_server_ops.c,
-- src/ichat/s2s_server/ichat_s2s_server_ops.c).
use ichatd.Common.{ℕ, ◌≡◌, ◌≢◌, arith, refl, Option, none, some}
use ichatd.Queue.Stream
use ichatd.Client.{Client, client_create}
use ichatd.Client.S2s.{ichat_s2s_client_create_impl}
use ichatd.Server.{Server}
use ichatd.Dispatch.Delivery.{queue}
use ichatd.Queue.Stream.{stream-append}
use ichatd.Queue.{buffer_queue_alloc}
use ichatd.World.{World}
use ichatd.Link.{
  join_client, ichat_client_create, ctl_client_create, ichat_s2s_client_create, def_ctl_banner,
}
use ichatd.Accept.{ichat_server_read_op, ctl_server_read_op, ichat_s2s_server_read_op, incoming}
use ichatd.Steps.{Newborn, Touched, touched, accepted, Steps, here}
use ichatd.Steps.Rounds.{one-Step, join_client-Joined}

pub Touched-Step : (s t : Server) → Touched s t → Steps s t
Touched-Step s t h = one-Step s t (touched h)

-- A client that is made for a descriptor joins the list.
pub accepted-Step :
    (c : Client) (s : Server) → Newborn c → c.ptr ≡ s.next_ptr → Steps s (join_client c s)
accepted-Step c s b e = one-Step s _ (accepted c (join_client-Joined c s s.ticks b e))

pub newborn : (c : Client) → Stream.IsValid (queue c) → (c.fd ≢ none) → Newborn c
newborn c v n = record { valid = v; broken = λ e. absurd (n e) }

pub some_fd : (fd : ℕ) → some fd ≢ none
some_fd fd = ground arith

pub accept_ichat : (s : Server) (o : Option ℕ) → Steps s (ichat_server_read_op s o)
unfolding ichat_client_create client_create
accept_ichat s none = here
accept_ichat s (some fd) =
    let c = ichat_client_create s.next_ptr (some fd) in
    accepted-Step c s (newborn c refl (some_fd fd)) refl

pub accept_ctl : (s : Server) (o : Option ℕ) → Steps s (ctl_server_read_op s o)
unfolding ctl_client_create client_create
accept_ctl s none = here
accept_ctl s (some fd) =
    let c = ctl_client_create s.next_ptr (some fd) in
    let v = (stream-append buffer_queue_alloc def_ctl_banner refl).1 in
    accepted-Step c s (newborn c v (some_fd fd)) refl

pub accept_s2s : (w : World) (s : Server) (o : Option ℕ) → Steps s (ichat_s2s_server_read_op w s o)
unfolding ichat_s2s_client_create ichat_s2s_client_create_impl client_create
accept_s2s w s none = here
accept_s2s w s (some fd) =
    accepted-Step (incoming w s fd) s (newborn (incoming w s fd) refl (some_fd fd)) refl
