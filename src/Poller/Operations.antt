-- ===== src/Poller/Operations.antt =====
-- The three operations that a round may call for a client (src/poller.c): when they are called, and
-- what they do where the connection is broken.
use ichatd.Common.{
  ℕ, ◌≡◌, refl, ap, ◌&&◌, not, Bool, true, false, List, Option, none, some, Bytes, ◌==◌, inl, inr,
  ◌⊎◌, if◌then◌else◌,
}
use ichatd.Queue.{error, buffer_queue_size}
use ichatd.Queue.Write.{buffer_queue_write_error}
use ichatd.Client.{
  Client, Impl, ctl_server, ichat_server, s2s_server, ctl_client, ichat_client, s2s_client,
}
use ichatd.Server.{Server, find_client, at_client, corrupted}
use ichatd.Dispatch.Delivery.{queue}
use ichatd.Input.{Read, failed, eof, got, read_op}
use ichatd.Ctl.{ctl_client_read_op}
use ichatd.Output.{write_op, op_write}
use ichatd.World.{World}
use ichatd.Poller.{Answers, read_client, error_client, try_op, is_set}

-- What the socket of a broken connection answers.
abbrev pub IsBroken : Read → Type 0
IsBroken failed = Unit {0}
IsBroken eof = Unit {0}
IsBroken (got bytes) = ⊥

-- A client that is read from, and not a listening socket.
abbrev pub IsConnection : Impl → Type 0
IsConnection (ctl_client i) = Unit {0}
IsConnection (ichat_client i) = Unit {0}
IsConnection (s2s_client i) = Unit {0}
IsConnection _ = ⊥

-- The test in front of an operation.
abbrev guarded : List ℕ → Option Server → Option Server → Bool → Option ℕ → Option Server
guarded fds x y corrupt o = elim o [
  | none ↦ y
  | some fd ↦ if is_set fd fds && not corrupt then x else y
]

guarded_skips :
    (fds : List ℕ) (x y : Option Server) (corrupt : Bool) (o : Option ℕ) (fd : ℕ)
    → o ≡ some fd
    → (is_set fd fds ≡ false) ⊎ (corrupt ≡ true)
    → guarded fds x y corrupt o ≡ y
guarded_skips fds x y corrupt o fd e (inl h) = rw (e, h) refl
guarded_skips fds x y corrupt o fd e (inr h) = rw (e, h) (by_set (is_set fd fds))
  where
    by_set : (b : Bool) → (if b && false then x else y) ≡ y
    by_set true = refl
    by_set false = refl

guarded_calls :
    (fds : List ℕ) (x y : Option Server) (corrupt : Bool) (o : Option ℕ) (fd : ℕ)
    → o ≡ some fd
    → is_set fd fds ≡ true
    → corrupt ≡ false
    → guarded fds x y corrupt o ≡ x
guarded_calls fds x y corrupt o fd e h k = rw (e, h, k) refl

module _ (w : World) (a : Answers) where
  -- The operation is not called.
  pub skipped :
      (fds : List ℕ) (op : Server → Client → Option Server) (s : Server) (c : Client) (fd : ℕ)
      → find_client c.ptr s.clist ≡ some c
      → c.fd ≡ some fd
      → (is_set fd fds ≡ false) ⊎ (c.corrupt ≡ true)
      → try_op w a fds op c.ptr s ≡ some s
  skipped fds op s c fd found has_fd h =
      rw found (guarded_skips fds (op s c) (some s) c.corrupt c.fd fd has_fd h)

  pub called :
      (fds : List ℕ) (op : Server → Client → Option Server) (s : Server) (c : Client) (fd : ℕ)
      → find_client c.ptr s.clist ≡ some c
      → c.fd ≡ some fd
      → is_set fd fds ≡ true
      → c.corrupt ≡ false
      → try_op w a fds op c.ptr s ≡ op s c
  called fds op s c fd found has_fd set fine =
      rw found (guarded_calls fds (op s c) (some s) c.corrupt c.fd fd has_fd set fine)

  read_op-broken :
      (process : Server → ℕ → Bytes → Option Server) (s : Server) (ptr : ℕ) (r : Read)
      → IsBroken r
      → read_op process s ptr r ≡ some (at_client ptr corrupted s)
  unfolding read_op
  read_op-broken process s ptr failed b = refl
  read_op-broken process s ptr eof b = refl
  read_op-broken process s ptr (got bytes) b = absurd b

  ctl_client_read_op-broken :
      (s : Server) (ptr : ℕ) (r : Read)
      → IsBroken r
      → ctl_client_read_op s ptr r ≡ at_client ptr corrupted s
  unfolding ctl_client_read_op
  ctl_client_read_op-broken s ptr failed b = refl
  ctl_client_read_op-broken s ptr eof b = refl
  ctl_client_read_op-broken s ptr (got bytes) b = absurd b

  pub read_client-broken :
      (s : Server) (c : Client)
      → IsConnection c.impl
      → IsBroken (a.read c.ptr)
      → read_client w a s c ≡ some (at_client c.ptr corrupted s)
  read_client-broken s c k b = by_impl c.impl k
    where
      by_impl :
          (impl : Impl)
          → IsConnection impl
          → read_client w a s (record c { impl = impl }) ≡ some (at_client c.ptr corrupted s)
      by_impl (ctl_client i) k = ap some (ctl_client_read_op-broken s c.ptr (a.read c.ptr) b)
      by_impl (ichat_client i) k = read_op-broken _ s c.ptr (a.read c.ptr) b
      by_impl (s2s_client i) k = read_op-broken _ s c.ptr (a.read c.ptr) b
      by_impl ctl_server k = absurd k
      by_impl ichat_server k = absurd k
      by_impl s2s_server k = absurd k

  pub write_op-failed :
      (c : Client)
      → IsConnection c.impl
      → (buffer_queue_size (queue c) == 0) ≡ false
      → op_write c error ≡ some (corrupted c)
  unfolding write_op
  write_op-failed c k waits = by_impl c.impl k waits
    where
      by_impl :
          (impl : Impl)
          → IsConnection impl
          → let d : Client = record c { impl = impl } in
            (buffer_queue_size (queue d) == 0) ≡ false → op_write d error ≡ some (corrupted d)
      by_impl (ctl_client i) k waits = rw (waits, buffer_queue_write_error i.bo) refl
      by_impl (ichat_client i) k waits = rw (waits, buffer_queue_write_error i.bo) refl
      by_impl (s2s_client i) k waits = rw (waits, buffer_queue_write_error i.bo) refl
      by_impl ctl_server k waits = absurd k
      by_impl ichat_server k waits = absurd k
      by_impl s2s_server k waits = absurd k

  pub error_client_lem :
      (s : Server) (c : Client) → error_client w a s c ≡ some (at_client c.ptr corrupted s)
  error_client_lem s c = by_impl c.impl
    where
      by_impl :
          (impl : Impl)
          → error_client w a s (record c { impl = impl }) ≡ some (at_client c.ptr corrupted s)
      by_impl ctl_server = refl
      by_impl ichat_server = refl
      by_impl s2s_server = refl
      by_impl (ctl_client i) = refl
      by_impl (ichat_client i) = refl
      by_impl (s2s_client i) = refl
