-- ===== src/Tests/State.antt =====
-- Buffers, queues, tasks and the list of clients at concrete inputs.
use ichatd.Common.{
  ℕ, ◌≡◌, refl, false, [], ◌∷◌, some, arith, Bytes, length, drop, replicate, length-replicate, inr,
}
use ichatd.Buffer.{Buffer}
use ichatd.Buffer.Laws
use ichatd.Buffer.Laws.{
  buffer_set_size_lem, buffer_reserve_lem, buffer_read_lem, buffer_reserve_shrinks,
}
use ichatd.Queue.{Queue, get_buffer_queue_iovec, offered, count, buffer_queue_write}
use ichatd.Queue.Stream
use ichatd.Queue.Stream.{stream, join, buffer_queue_size_lem}
use ichatd.Queue.Write.{buffer_queue_write_lem}
use ichatd.Task.{TimedTask, heartbeat, server_add_task}
use ichatd.Task.Order.{IsSorted, server_add_task-IsSorted}
use ichatd.Config.{config_alloc}
use ichatd.Client.{Client, ctl_client}
use ichatd.Server.{Server}
use ichatd.Output.{write_op, write_op_lem, set_queue}

abbrev junk : ℕ → Bytes
junk n = replicate n 170

junk_enough : (n : ℕ) → length (junk n) ≡ n
junk_enough n = length-replicate n 170

abbrev two : Buffer
two = record { rc = 1; len = 2; capacity = 0; block = 7 ∷ 8 ∷ 9 ∷ [] }

two-IsValid : Laws.IsValid two
two-IsValid = record { referenced = omega arith; in_block = omega arith; recorded = omega arith }

abbrev waiting : Queue
waiting = record { entries = (1 ∷ 2 ∷ 3 ∷ []) ∷ (4 ∷ []) ∷ []; offset = 1 }

waiting-IsValid : Stream.IsValid waiting
waiting-IsValid = inr (omega arith)

waiting-offered : offered waiting ≡ some ((2 ∷ 3 ∷ []) ∷ (4 ∷ []) ∷ [])
unfolding offered get_buffer_queue_iovec
waiting-offered = refl

buffer_queue_write_lem_example :
    (q : Queue) × (buffer_queue_write waiting (count 2) ≡ some (count 2, q))
    × (stream q ≡ drop 2 (stream waiting))
    × Stream.IsValid q
buffer_queue_write_lem_example =
    buffer_queue_write_lem waiting ((2 ∷ 3 ∷ []) ∷ (4 ∷ []) ∷ []) 2 waiting-IsValid waiting-offered
      (omega arith)

abbrev operator : Client
operator = record {
  ptr = 3;
  fd = some 5;
  corrupt = false;
  impl = ctl_client (record { bi = []; bo = waiting });
}

write_op_lem_example :
    (q : Queue) × (write_op operator (count 2) ≡ some (set_queue q operator))
    × (stream q ≡ drop 2 (stream waiting))
    × Stream.IsValid q
write_op_lem_example =
    write_op_lem operator ((2 ∷ 3 ∷ []) ∷ (4 ∷ []) ∷ []) 2 waiting-IsValid waiting-offered
      (omega arith) (omega arith) (omega arith)

abbrev idle : Server
idle = record {
  config = config_alloc;
  clist = operator ∷ [];
  task_queue = [];
  shutdown = false;
  next_ptr = 9;
  ticks = 0;
  closed = [];
}

abbrev soon : TimedTask
soon = record { time = 5; job = heartbeat }

abbrev late : TimedTask
late = record { time = 9; job = heartbeat }

abbrev new_task : TimedTask
new_task = record { time = 7; job = heartbeat }

in_order : IsSorted (soon ∷ late ∷ [])
in_order = ((omega arith, tt), (tt, tt))

server_add_task-IsSorted_example : IsSorted (server_add_task (soon ∷ late ∷ []) new_task)
server_add_task-IsSorted_example = server_add_task-IsSorted (soon ∷ late ∷ []) new_task in_order
