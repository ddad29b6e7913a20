-- ===== src/Memory.antt =====
-- The memory behind the buffers of src/buffer.c: a buffer stands at an address and is shared by
-- counting its references. `none` is a failed assertion or a use of a buffer that is not there. No
-- address is given out twice, so that every use behind a `free` is such a fault.
pub mod Counts
pub mod Queue
pub mod Refine
pub mod Advance
pub mod Write
pub mod Fill
pub mod Messages
pub mod Send
pub mod Sharing
pub mod Impl
pub mod Deliver
pub mod Sent
pub mod Writing
pub mod Delivered
pub mod Dispatched
pub mod Reading
pub mod Control
pub mod Forwarding
pub mod Forwarded
pub mod Life
pub mod Broadcast
pub mod Told
pub mod Everyone
use ichatd.Common.{
  ℕ, ◌+◌, ◌≤◌, ◌<◌, ◌≡◌, List, [], ◌∷◌, Option, none, some, map, Bytes, length, ◌==◌, if◌then◌else◌,
  ◌>>=◌,
}
use mathlib.Core.Option
use ichatd.Buffer.{
  Buffer, contents, write_at, buffer_alloc, buffer_ref, buffer_unref, buffer_size, buffer_set_size,
}

-- The buffers by address, and the address that the next `malloc` answers with.
pub record Memory : Type 0 where
  pub next : ℕ
  pub cell : ℕ → Option Buffer

abbrev pub update : (ℕ → Option Buffer) → ℕ → Option Buffer → ℕ → Option Buffer
update f p v q = if p == q then v else f q

abbrev pub store : ℕ → Option Buffer → Memory → Memory
store p v m = record m { cell = update m.cell p v }

-- `buffer_alloc`: the pointer, and the memory with the new buffer.
unfoldable pub alloc_at : Memory → ℕ × Memory
alloc_at m = (m.next, record { next = m.next + 1; cell = update m.cell m.next (some buffer_alloc) })

-- `buffer_ref` through a pointer.
unfoldable pub ref_at : ℕ → Memory → Option Memory
ref_at p m = do b ← m.cell p; b' ← buffer_ref b; some (store p (some b') m)

-- `buffer_unref` through a pointer: behind the last reference `buffer_free` takes the buffer away.
unfoldable pub unref_at : ℕ → Memory → Option Memory
unref_at p m = do b ← m.cell p; rest ← buffer_unref b; some (store p rest m)

-- `buffer_size` through a pointer.
unfoldable pub size_at : ℕ → Memory → Option ℕ
size_at p m = do b ← m.cell p; buffer_size b

-- buffer_set_size (p, size) and memcpy (buffer_data (p), bytes, size); `junk` is what `realloc`
-- leaves in a new block.
unfoldable pub fill_at : (ℕ → Bytes) → ℕ → ℕ → Bytes → Memory → Option Memory
fill_at junk p size bytes m = do
  b ← m.cell p
  b' ← buffer_set_size junk b size
  some (store p (some (record b' { block = write_at 0 bytes b'.block })) m)

-- What stands in the buffer at an address.
abbrev pub text : Memory → ℕ → Option Bytes
text m p = Option.map contents (m.cell p)

abbrev pub texts : Memory → List ℕ → List (Option Bytes)
texts m ps = map (text m) ps

-- How often an address stands among the references.
abbrev pub count : ℕ → List ℕ → ℕ
count p [] = 0
count p (q ∷ qs) = (if p == q then 1 else 0) + count p qs

-- A cell is in use just when there is a reference to it, and counts the references; its contents lie
-- in its block.
abbrev pub CountedAt : Option Buffer → ℕ → Type 0
CountedAt none n = n ≡ 0
CountedAt (some b) n = (b.rc ≡ n) × (0 < n) × (b.len ≤ length b.block)

-- Every buffer counts the references in the list, and the addresses to come are free.
unfoldable pub Counted : Memory → List ℕ → Type 0
Counted m held =
    ((p : ℕ) → CountedAt (m.cell p) (count p held)) × ((p : ℕ) → m.next ≤ p → count p held ≡ 0)

-- The buffers that are referred to have the contents that they had.
pub Kept : Memory → Memory → List ℕ → Type 0
Kept m m' held = (q : ℕ) → 0 < count q held → text m' q ≡ text m q
