-- ===== src/Output/Empty.antt =====
-- What becomes of a chat client that is sent a message with empty data
-- (src/ichat/client/ichat_client_ops.c, src/buffer_queue.c).
use ichatd.Common.{◌+◌, ◌<◌, ◌≡◌, refl, ap, [], ◌∷◌, some, arith, Bytes, length, length-append}
use ichatd.Decimal.{decimal, number_len}
use ichatd.Buffer.{resized}
use ichatd.Libc.{sprintf, sprintf-decimal}
use ichatd.Proto.Icc2s.{Icc2s}
use ichatd.Queue.{Queue, buffer_queue_alloc, buffer_queue_write, Written, error, count}
use ichatd.Queue.Empty.{buffer_queue_write_to_empty}
use ichatd.Queue.Stream.{stream}
use ichatd.Queue.Write.{buffer_queue_write_stuck}
use ichatd.Client.Chat.{enqueue}

-- When a message with empty data is the only one that waits for a chat client, and the socket takes
-- all of it, then after the next message, whatever it is, every `buffer_queue_write` returns -1 and
-- sends nothing, whatever the socket would answer.
pub enqueue_empty_data :
    (sender command receiver : Bytes) (n : Icc2s)
    → let m : Icc2s = record {
      sender = sender;
      command = command;
      receiver = receiver;
      msg_data = [];
    } in
      let q = enqueue m buffer_queue_alloc in
      (q' : Queue) × (buffer_queue_write q (count (length (stream q)))
        ≡ some (count (length (stream q)), q'))
      × (stream q' ≡ [])
      × ((answer : Written) → buffer_queue_write (enqueue n q') answer ≡ some (error, enqueue n q'))
unfolding enqueue
enqueue_empty_data sender command receiver n =
    let size = length command + 1 + 0 in
    let head = sprintf (decimal size) (resized (number_len size + 1) []) in
    let some_head : 0 < length head =
      omega (arith, ap length (sprintf-decimal size), length-append (decimal size) (0 ∷ [])) in
    (
      record { entries = [] ∷ []; offset = 0 },
      buffer_queue_write_to_empty head command (0 ∷ []) _ some_head (omega arith) refl,
      refl,
      λ answer. buffer_queue_write_stuck _ answer,
    )
