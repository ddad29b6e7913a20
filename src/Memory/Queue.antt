-- ===== src/Memory/Queue.antt =====
-- src/buffer_queue.c over shared buffers: the queue of pointers, whose entries hold a reference
-- each. `none` is a failed assertion or a use of a buffer that is not there.
use ichatd.Common.{
  ℕ, ◌-◌, Bool, true, false, List, [], ◌∷◌, ◌++◌, Option, none, some, Bytes, take, leb, ◌==◌, ◌+◌,
  if◌then◌else◌, ◌>>=◌,
}
use ichatd.Queue.{Written, error, count, conf_iov_max, from_offset}
use ichatd.Memory.{Memory, ref_at, unref_at, size_at, text}

-- `struct buffer_queue`, with the pointers `data` of the entries behind `head` and `last`.
pub record Pointers : Type 0 where
  pub entries : List ℕ
  pub offset : ℕ

-- `buffer_queue_append` with `queue_entry_alloc`: the entry takes a reference to its buffer. The
-- flag says whether `malloc` had the memory for the entry; if not, nothing is added.
unfoldable pub append_entry : Bool → ℕ → Pointers → Memory → Option (Pointers × Memory)
append_entry false p q m = some (q, m)
append_entry true p q m = do m' ← ref_at p m; some (record q { entries = q.entries ++ p ∷ [] }, m')

-- `buffer_queue_prepend`.
unfoldable pub prepend_entry : Bool → ℕ → Pointers → Memory → Option (Pointers × Memory)
prepend_entry false p q m = some (q, m)
prepend_entry true p q m = do m' ← ref_at p m; some (record q { entries = p ∷ q.entries }, m')

-- What `buffer_queue_pop_front` does to the buffer of the first entry: the caller's reference is
-- taken before `queue_entry_free` gives up the entry's.
unfoldable pub pop_at : ℕ → Memory → Option Memory
pop_at p m = do m' ← ref_at p m; unref_at p m'

-- buffer_unref (buffer_queue_pop_front (q)).
unfoldable pub drop_at : ℕ → Memory → Option Memory
unfolding pop_at
drop_at p m = do m' ← pop_at p m; unref_at p m'

-- The loop of `buffer_queue_advance_offset`.
unfoldable pub advance_entries : List ℕ → ℕ → Memory → Option (Pointers × Memory)
unfolding drop_at
advance_entries [] delta m =
    if delta == 0 then some (record { entries = []; offset = 0 }, m) else none
advance_entries (p ∷ ps) delta m =
    if delta == 0 then some (record { entries = p ∷ ps; offset = 0 }, m) else do
      size ← size_at p m
      elim (leb size delta) [
        | true ↦ do m' ← drop_at p m; advance_entries ps (delta - size) m'
        | false ↦ some (record { entries = p ∷ ps; offset = delta }, m)
      ]

-- The loop of `buffer_queue_free`, each entry by `queue_entry_free`.
unfoldable pub free_entries : List ℕ → Memory → Option Memory
free_entries [] m = some m
free_entries (p ∷ ps) m = do m' ← unref_at p m; free_entries ps m'

-- `get_buffer_queue_iovec`: what `buffer_data` and `buffer_size` of the first buffers say.
unfoldable pub read_entries : List ℕ → Memory → Option (List Bytes)
read_entries [] m = some []
read_entries (p ∷ ps) m = do b ← text m p; bs ← read_entries ps m; some (b ∷ bs)

abbrev pub settle_entries :
    Pointers → Memory → Option (List Bytes) → Written → Option (Written × Pointers × Memory)
settle_entries q m none answer = some (error, q, m)
settle_entries q m (some iov) error = some (error, q, m)
settle_entries q m (some iov) (count r) = do
  (q', m') ← advance_entries q.entries (r + q.offset) m
  some (count r, q', m')

-- `buffer_queue_write` with the answer of `writev` behind its `try_again`.
unfoldable pub write_entries : Pointers → Written → Memory → Option (Written × Pointers × Memory)
unfolding read_entries advance_entries
write_entries q answer m = do
  bs ← read_entries (take conf_iov_max q.entries) m
  settle_entries q m (from_offset bs q.offset) answer
