-- ===== src/Output.antt =====
-- `ichat_client_write_op`, `ichat_s2s_client_write_op` and `ctl_client_write_op`: the same function
-- for the three kinds of client, over `buffer_queue_write`.
pub mod Empty
use ichatd.Common.{
  ℕ, ◌^◌, length-append, ◌≤◌, ◌<◌, ◌≡◌, refl, ap, true, false, List, Option, some, arith, Bytes,
  length, drop, ◌>>=◌, if◌then◌else◌, ◌==◌,
}
use ichatd.Queue.{Queue, buffer_queue_size, offered, Written, error, count, buffer_queue_write}
use ichatd.Queue.Stream
use ichatd.Queue.Stream.{stream, join, buffer_queue_size_lem}
use ichatd.Queue.Write.{buffer_queue_write_lem, offered_lem, buffer_queue_write_error}
use ichatd.Client.{
  Client, Impl, ctl_server, ichat_server, s2s_server, ctl_client, ichat_client, s2s_client,
}
use ichatd.Server.{corrupted}
use ichatd.Dispatch.Delivery.{queue}

-- impl->bo = q
abbrev with_queue : Queue → Impl → Impl
with_queue q ctl_server = ctl_server
with_queue q ichat_server = ichat_server
with_queue q s2s_server = s2s_server
with_queue q (ctl_client i) = ctl_client (record i { bo = q })
with_queue q (ichat_client i) = ichat_client (record i { bo = q })
with_queue q (s2s_client i) = s2s_client (record i { bo = q })

abbrev pub set_queue : Queue → Client → Client
set_queue q c = record c { impl = with_queue q c.impl }

-- The switch over the result: -1 and 0 corrupt the client.
abbrev pub after_write : Client → Written × Queue → Client
after_write c (error, q) = corrupted (set_queue q c)
after_write c (count r, q) = if r == 0 then corrupted (set_queue q c) else set_queue q c

-- `write_op`, with the answer of the socket. `none` is a failed assertion.
unfoldable pub write_op : Client → Written → Option Client
write_op c answer =
    let written = (do r ← buffer_queue_write (queue c) answer; some (after_write c r)) in
    if buffer_queue_size (queue c) == 0 then some c else written

-- The three operations that are this function.
abbrev ctl_client_write_op : Client → Written → Option Client
ctl_client_write_op = write_op

abbrev ichat_client_write_op : Client → Written → Option Client
ichat_client_write_op = write_op

abbrev ichat_s2s_client_write_op : Client → Written → Option Client
ichat_s2s_client_write_op = write_op

-- `op.write`, which a listening socket does not have: nothing asks for it.
abbrev pub op_write : Client → Written → Option Client
op_write c answer = elim c.impl [
  | ctl_server ↦ some c
  | ichat_server ↦ some c
  | s2s_server ↦ some c
  | ctl_client i ↦ ctl_client_write_op c answer
  | ichat_client i ↦ ichat_client_write_op c answer
  | s2s_client i ↦ ichat_s2s_client_write_op c answer
]

-- When bytes wait in a valid queue, fewer than 2 ^ 64 in all buffers, and the socket takes `r` of
-- those that it was offered, at least one, exactly the first `r` are gone, the rest waits in its
-- order in a valid queue, and nothing else of the client changes.
pub write_op_lem :
    (c : Client) (iov : List Bytes) (r : ℕ)
    → Stream.IsValid (queue c)
    → offered (queue c) ≡ some iov
    → length (join (queue c).entries) < 2 ^ 64
    → 0 < r
    → r ≤ length (join iov)
    → (q : Queue) × (write_op c (count r) ≡ some (set_queue q c))
      × (stream q ≡ drop r (stream (queue c)))
      × Stream.IsValid q
unfolding write_op
write_op_lem c iov r v o small some_sent fits =
    let (q, e, left, w) = buffer_queue_write_lem (queue c) iov r v o fits in
    let ((rest, split), waits) = offered_lem (queue c) iov o in
    let size = buffer_queue_size_lem (queue c) v small in
    let not_empty : (buffer_queue_size (queue c) == 0) ≡ false =
      ground (arith, ap length split, length-append (join iov) rest) in
    let sent : (r == 0) ≡ false = ground arith in (q, rw (not_empty, e, sent) refl, left, w)

-- For a valid queue of fewer than 2 ^ 64 bytes in all buffers: when nothing waits, nothing happens;
-- when bytes wait and the write fails, the client becomes corrupt, and what waits stays.
pub write_op_failed :
    (c : Client) (answer : Written)
    → Stream.IsValid (queue c)
    → length (join (queue c).entries) < 2 ^ 64
    → ((length (stream (queue c)) ≡ 0) → write_op c answer ≡ some c)
      × ((0 < length (stream (queue c)))
          → write_op c error ≡ some (corrupted (set_queue (queue c) c)))
unfolding write_op
write_op_failed c answer v small =
    let size = buffer_queue_size_lem (queue c) v small in
    (
      λ nothing.
          let empty : (buffer_queue_size (queue c) == 0) ≡ true = ground arith in rw empty refl,
      λ something.
          let not_empty : (buffer_queue_size (queue c) == 0) ≡ false = ground arith in
          rw (not_empty, buffer_queue_write_error (queue c)) refl,
    )
