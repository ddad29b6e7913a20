-- ===== src/Buffer.antt =====
-- src/buffer.c: reference-counted byte buffers. A buffer is its struct with the block behind `data`
-- as the bytes of the allocation; `none` is a failed `assert`. What `realloc` leaves in the new
-- part of a block is not specified: the section's parameter `junk` gives it.
pub mod Laws
use ichatd.Common.{
  ℕ, suc, ◌+◌, ◌-◌, ◌≤◌, ◌<◌, ◌≡◌, refl, Bool, true, false, List, [], ◌∷◌, ◌++◌, Option, none, some,
  Bytes, length, take, drop, replicate, ltb, leb, ◌==◌, if◌then◌else◌, ◌>>=◌, ◌>>◌, assert,
}

-- `struct buffer`.
pub record Buffer : Type 0 where
  pub rc : ℕ
  pub len : ℕ
  pub capacity : ℕ
  pub block : Bytes

-- `buffer_alloc`: one reference, no block (`malloc` is taken to succeed).
unfoldable pub buffer_alloc : Buffer
buffer_alloc = record { rc = 1; len = 0; capacity = 0; block = [] }

-- `buffer_ref`.
unfoldable pub buffer_ref : Buffer → Option Buffer
buffer_ref b = do assert (ltb 0 b.rc); some (record b { rc = b.rc + 1 })

-- `buffer_unref`: `some none` when the last reference went and `buffer_free` ran.
unfoldable pub buffer_unref : Buffer → Option (Option Buffer)
buffer_unref b = do
  assert (ltb 0 b.rc)
  some (if b.rc - 1 == 0 then none else some (record b { rc = b.rc - 1 }))

-- `buffer_size`.
unfoldable pub buffer_size : Buffer → Option ℕ
buffer_size b = do assert (ltb 0 b.rc); some b.len

-- What a reader of `buffer_data` and `buffer_size` sees.
abbrev pub contents : Buffer → Bytes
contents b = take b.len b.block

-- Contents of another size: cut off, or filled up with zeros.
abbrev pub resized : ℕ → Bytes → Bytes
resized n bytes = take n bytes ++ replicate (n - length bytes) 0

-- memset (p + at, 0, n) and memcpy (p + at, bytes, n) inside a block.
abbrev pub write_at : ℕ → Bytes → Bytes → Bytes
write_at at bytes block = take at block ++ bytes ++ drop (at + length bytes) block

-- The answer of one `read` or `write` call: -1, or a count with `errno == EINTR` behind it.
pub data Attempt : Type 0 where
  failed : Attempt
  done : Bytes → Bool → Attempt

-- `try_again`: a call that returned 0 with EINTR is made again. The list holds the answers of the
-- calls to come; behind its end the last answer stands.
unfoldable pub try_again : Attempt → List Attempt → Attempt
try_again failed rest = failed
try_again (done bytes eintr) [] = done bytes eintr
try_again (done [] true) (next ∷ rest) = try_again next rest
try_again (done [] false) (next ∷ rest) = done [] false
try_again (done (x ∷ bytes) eintr) (next ∷ rest) = done (x ∷ bytes) eintr

module _ (junk : ℕ → Bytes) where
  -- `realloc (p, n)`: the old bytes as far as both blocks reach, then `junk`.
  realloc : Bytes → ℕ → Bytes
  realloc block n = take n (block ++ take (n - length block) (junk n))

  -- `buffer_enlarge`. It leaves `capacity` as it is.
  unfoldable pub buffer_enlarge : Buffer → ℕ → Option Buffer
  unfolding realloc
  buffer_enlarge b new_size = do
    assert (ltb 0 b.rc)
    some (record b { block = realloc b.block new_size })

  -- `buffer_reserve`.
  unfoldable pub buffer_reserve : Buffer → ℕ → Option Buffer
  unfolding buffer_enlarge
  buffer_reserve b new_size = do
    assert (ltb 0 b.rc)
    if leb new_size b.capacity then some b else buffer_enlarge b new_size

  -- The branch of `buffer_set_size` that zero-fills the new bytes.
  grow : Buffer → ℕ → Option Buffer
  unfolding buffer_reserve
  grow b new_size = do
    b' ← buffer_reserve b new_size
    let block' = write_at b.len (replicate (new_size - b.len) 0) b'.block
    some (record b' { block = block'; len = new_size })

  -- `buffer_set_size`.
  unfoldable pub buffer_set_size : Buffer → ℕ → Option Buffer
  unfolding grow
  buffer_set_size b new_size = do
    assert (ltb 0 b.rc)
    if ltb b.len new_size then grow b new_size else some (record b { len = new_size })

  -- What the result of `read` makes of the buffer: -1 or the count is returned.
  abbrev store_read : Buffer → Attempt → Option Bytes × Buffer
  store_read b failed = (none, b)
  store_read b (done bytes _) =
      (some bytes, record b { block = write_at b.len bytes b.block; len = b.len + length bytes })

  -- `buffer_read`: the room is made first, then what `read` put behind the contents is counted.
  unfoldable pub buffer_read : Buffer → ℕ → Attempt → List Attempt → Option (Option Bytes × Buffer)
  unfolding buffer_reserve try_again
  buffer_read b size first rest = do
    assert (ltb 0 b.rc)
    b' ← buffer_reserve b (b.len + size)
    some (store_read b' (try_again first rest))

-- `buffer_write`: the bytes that are handed to `write` from offset `off`.
unfoldable pub buffer_write : Buffer → ℕ → ℕ → Option Bytes
buffer_write b off size = do
  assert (ltb 0 b.rc)
  assert (leb (off + size) b.len)
  some (take size (drop off b.block))
