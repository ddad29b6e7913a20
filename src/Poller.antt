-- ===== src/Poller.antt =====
-- One round of the poller: `server_poll` of src/poller.c. `none` is a failed assertion.
pub mod Evict
pub mod Operations
pub mod Serve
pub mod Round
pub mod Sets
use ichatd.Common.{
  ℕ, ◌+◌, ◌-◌, ◌*◌, ◌%◌, ◌^◌, Bool, true, false, ◌&&◌, ◌||◌, not, List, [], ◌∷◌, Option, none, some,
  Bytes, leb, ◌==◌, if◌then◌else◌, map, ◌>>=◌,
}
use ichatd.Task.{TimedTask}
use ichatd.Queue.{Written}
use ichatd.Client.{
  Client, Impl, ctl_server, ichat_server, s2s_server, ctl_client, ichat_client, s2s_client,
  can_read, can_write,
}
use ichatd.Server.{Server, server_remove_client, find_client, update_client, at_client, corrupted}
use ichatd.Input.{Read}
use ichatd.Input.Chat.{ichat_client_read_op}
use ichatd.Input.S2s.{ichat_s2s_client_read_op}
use ichatd.Ctl.{ctl_client_read_op}
use ichatd.Output.{op_write}
use ichatd.Errors.{op_error}
use ichatd.World.{World}
use ichatd.Link.{client_destroy}
use ichatd.Accept.{ichat_server_read_op, ctl_server_read_op, ichat_s2s_server_read_op}

-- The first client that is corrupt.
unfoldable pub first_corrupt : List Client → Option ℕ
first_corrupt [] = none
first_corrupt (c ∷ cs) = if c.corrupt then some c.ptr else first_corrupt cs

abbrev pub destroy_removed : World → Option Client × Server → Server
destroy_removed w (none, s) = s
destroy_removed w (some c, s) = client_destroy w c s

abbrev pub evict_at : World → Server → Option ℕ → Server
evict_at w s none = s
evict_at w s (some ptr) = destroy_removed w (server_remove_client ptr s)

-- The first loop: it ends with the first corrupt client, since that is taken off the list.
unfoldable pub evict : World → Server → Server
evict w s = evict_at w s (first_corrupt s.clist)

-- The descriptors that are set for `select`.
pub record Interest : Type 0 where
  pub rd : List ℕ
  pub wr : List ℕ
  pub ex : List ℕ

abbrev no_interest : Interest
no_interest = record { rd = []; wr = []; ex = [] }

abbrev set_if : Bool → ℕ → List ℕ → List ℕ
set_if true fd fds = fd ∷ fds
set_if false fd fds = fds

-- `FD_SET` for one client: every kind of client has an `error` operation.
abbrev interested : Client → ℕ → Interest → Interest
interested c fd i = record {
  rd = set_if (can_read c) fd i.rd;
  wr = set_if (can_write c) fd i.wr;
  ex = fd ∷ i.ex;
}

-- The loop that fills the sets, with `assert (clnt->fd >= 0)`.
unfoldable pub fill : List Client → Option Interest
fill [] = some no_interest
fill (c ∷ cs) = do fd ← c.fd; i ← fill cs; some (interested c fd i)

-- `ptv`, in microseconds; `none` waits without an end.
unfoldable pub timeout : ℕ → List TimedTask → Option ℕ
timeout curr [] = none
timeout curr (head ∷ queue) =
    if leb head.time curr then some (10 * 1000) else some ((head.time - curr) * 1000 % 2 ^ 64)

-- What `select` does: it fails with EINTR, or with another error, or it gives the ready sets.
pub data Selected : Type 0 where
  interrupted failed_select : Selected
  ready : Interest → Selected

-- What the clients' sockets answer in this round, by the client's address.
pub record Answers : Type 0 where
  pub select : Interest → Option ℕ → Selected
  pub read : ℕ → Read
  pub accept : ℕ → Option ℕ
  pub write : ℕ → Written

-- FD_ISSET
abbrev pub is_set : ℕ → List ℕ → Bool
is_set fd [] = false
is_set fd (x ∷ fds) = x == fd || is_set fd fds

module _ (w : World) (a : Answers) where
  -- clnt->op.read
  abbrev pub read_client : Server → Client → Option Server
  read_client s c = elim c.impl [
    | ctl_server ↦ some (ctl_server_read_op s (a.accept c.ptr))
    | ichat_server ↦ some (ichat_server_read_op s (a.accept c.ptr))
    | s2s_server ↦ some (ichat_s2s_server_read_op w s (a.accept c.ptr))
    | ctl_client i ↦ some (ctl_client_read_op s c.ptr (a.read c.ptr))
    | ichat_client i ↦ ichat_client_read_op w.stamp s c.ptr (a.read c.ptr)
    | s2s_client i ↦ ichat_s2s_client_read_op w.stamp s c.ptr (a.read c.ptr)
  ]

  -- clnt->op.write; a listening socket has none, and is never in the set.
  abbrev pub write_client : Server → Client → Option Server
  write_client s c = do c' ← op_write c (a.write c.ptr); some (at_client c.ptr (λ d. c') s)

  -- clnt->op.error
  abbrev pub error_client : Server → Client → Option Server
  error_client s c = some (at_client c.ptr (op_error c.impl) s)

  -- if (FD_ISSET (clnt->fd, …) && !clnt->corrupt) with one of the three operations.
  abbrev pub on_set :
      List ℕ → (Server → Client → Option Server) → Server → Option Client → Option Server
  on_set fds op s none = some s
  on_set fds op s (some c) = elim c.fd [
    | none ↦ some s
    | some fd ↦ if is_set fd fds && not c.corrupt then op s c else some s
  ]

  abbrev pub try_op : List ℕ → (Server → Client → Option Server) → ℕ → Server → Option Server
  try_op fds op ptr s = on_set fds op s (find_client ptr s.clist)

  -- The body of the last loop for the client at an address.
  unfoldable pub serve : Interest → ℕ → Server → Option Server
  serve i ptr s = do
    s1 ← try_op i.rd read_client ptr s
    s2 ← try_op i.wr write_client ptr s1
    try_op i.ex error_client ptr s2

  -- The last loop. New clients are put before the one that is served, and none is removed, so it
  -- visits the clients that were there at its start.
  unfoldable pub serve_all : Interest → List ℕ → Server → Option Server
  serve_all i [] s = some s
  serve_all i (ptr ∷ ptrs) s = do s' ← serve i ptr s; serve_all i ptrs s'

  abbrev pub ptrs : List Client → List ℕ
  ptrs [] = []
  ptrs (c ∷ cs) = c.ptr ∷ ptrs cs

  -- Behind `select`: an error other than EINTR ends the round, and EINTR leaves the sets as they
  -- were filled.
  abbrev pub after_select : Server → Interest → Selected → Option Server
  after_select s asked interrupted = serve_all asked (ptrs s.clist) s
  after_select s asked failed_select = some s
  after_select s asked (ready i) = serve_all i (ptrs s.clist) s

  -- The clock is read only if a task waits.
  abbrev pub clock_read : Server → Server
  clock_read s = elim s.task_queue [ [] ↦ s | t ∷ ts ↦ record s { ticks = s.ticks + 1 } ]

  -- `server_poll`; the value that it returns is always `POLL_OK`.
  unfoldable pub server_poll : Server → Option Server
  server_poll s =
      let s0 = evict w s in
      (do
        asked ← fill s0.clist
        after_select (clock_read s0) asked
            (a.select asked (timeout (w.clock s0.ticks) s0.task_queue)))
