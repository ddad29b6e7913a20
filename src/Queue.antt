-- ===== src/Queue.antt =====
-- src/buffer_queue.c: the queue of buffers that wait to be written to a socket. A queue is its
-- list of entries, each the contents of its buffer, with the offset of what is already written of
-- the first. Sizes are `size_t`.
pub mod Stream
pub mod Write
pub mod Empty
use ichatd.Common.{
  ℕ, zero, suc, ◌+◌, ◌-◌, ◌*◌, ◌%◌, ◌^◌, Bool, true, false, List, [], ◌∷◌, ◌++◌, Option, none, some,
  Bytes, length, take, drop, ltb, leb, ◌==◌, if◌then◌else◌, ◌>>=◌, ◌>>◌, assert,
}
use ichatd.Buffer.{Attempt, failed, done, try_again}

-- `struct buffer_queue`, with the list behind `head` and `last`.
pub record Queue : Type 0 where
  pub entries : List Bytes
  pub offset : ℕ

-- `buffer_queue_alloc`.
abbrev pub buffer_queue_alloc : Queue
buffer_queue_alloc = record { entries = []; offset = 0 }

pub total : List Bytes → ℕ
total [] = 0
total (b ∷ bs) = length b + total bs

-- `buffer_queue_size`.
unfoldable pub buffer_queue_size : Queue → ℕ
unfolding total
buffer_queue_size q = (total q.entries + 2 ^ 64 - q.offset) % 2 ^ 64

-- `buffer_queue_append`.
abbrev pub buffer_queue_append : Queue → Bytes → Queue
buffer_queue_append q b = record q { entries = q.entries ++ b ∷ [] }

-- `buffer_queue_prepend`.
abbrev pub buffer_queue_prepend : Queue → Bytes → Queue
buffer_queue_prepend q b = record q { entries = b ∷ q.entries }

-- `buffer_queue_peek_front`.
unfoldable pub buffer_queue_peek_front : Queue → Option Bytes
buffer_queue_peek_front q = elim q.entries [ [] ↦ none | b ∷ bs ↦ some b ]

-- `buffer_queue_pop_front`: the entry, and the queue without it.
abbrev pop : List Bytes → ℕ → Option (Bytes × Queue)
pop [] offset = none
pop (b ∷ bs) offset = some (b, record { entries = bs; offset = offset })

unfoldable pub buffer_queue_pop_front : Queue → Option (Bytes × Queue)
buffer_queue_pop_front q = pop q.entries q.offset

-- The loop of `buffer_queue_advance_offset`. `none` is the failed `assert (b)` at an empty queue.
unfoldable pub advance : List Bytes → ℕ → Option Queue
advance [] delta = if delta == 0 then some (record { entries = []; offset = 0 }) else none
advance (b ∷ bs) delta =
    let popped = advance bs (delta - length b) in
    if delta == 0
    then some (record { entries = b ∷ bs; offset = 0 })
    else if leb (length b) delta
    then popped
    else some (record { entries = b ∷ bs; offset = delta })

-- `buffer_queue_advance_offset`.
unfoldable pub buffer_queue_advance_offset : Queue → ℕ → Option Queue
unfolding advance
buffer_queue_advance_offset q delta = advance q.entries (delta + q.offset)

abbrev pub conf_iov_max : ℕ
conf_iov_max = 128

-- `get_buffer_queue_iovec`: the buffers that go into one `writev`.
unfoldable pub get_buffer_queue_iovec : Queue → List Bytes
get_buffer_queue_iovec q = take conf_iov_max q.entries

-- What `buffer_queue_write` hands to `writev`, the first buffer from the offset on; `none` where it
-- returns -1 without a call.
abbrev pub from_offset : List Bytes → ℕ → Option (List Bytes)
from_offset [] offset = none
from_offset (b ∷ bs) offset = if leb (length b) offset then none else some (drop offset b ∷ bs)

unfoldable pub offered : Queue → Option (List Bytes)
unfolding get_buffer_queue_iovec
offered q = from_offset (get_buffer_queue_iovec q) q.offset

-- The result of `writev`: -1, or the number of bytes that it took.
pub data Written : Type 0 where
  error : Written
  count : ℕ → Written

-- `buffer_queue_write`, with the answer of `writev` behind its `try_again`: the value that is
-- returned (`error` is -1), and the queue. `none` is a failed assertion.
abbrev pub settle : Queue → Option (List Bytes) → Written → Option (Written × Queue)
settle q none answer = some (error, q)
settle q (some iov) error = some (error, q)
settle q (some iov) (count r) = do q' ← buffer_queue_advance_offset q r; some (count r, q')

unfoldable pub buffer_queue_write : Queue → Written → Option (Written × Queue)
unfolding offered buffer_queue_advance_offset
buffer_queue_write q answer = settle q (offered q) answer
