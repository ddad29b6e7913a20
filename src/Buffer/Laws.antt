-- ===== src/Buffer/Laws.antt =====
-- Well-formed buffers, and what each operation of src/buffer.c does to the contents.
use ichatd.Common.{
  ℕ, ◌+◌, ◌-◌, ◌≤◌, ◌<◌, ◌≡◌, refl, sym, ◌∙◌, ap, ap₂, Bool, List, ◌++◌, append-nil, none, some,
  arith, Bytes, length, take, drop, replicate, length-append, length-take, length-drop,
  take-append_le, take-length, take-length_le, take-take, length-replicate, leb, ◌↔◌, Bool-cases,
  inl, inr, dec_lt,
}
use ichatd.Buffer.{
  Buffer, resized, grow, buffer_ref, buffer_unref, contents, write_at, Attempt, done, try_again,
  realloc, buffer_reserve, buffer_set_size, buffer_read,
}

-- A live buffer: a reference is held, the contents and the recorded capacity lie in the block.
pub record IsValid (b : Buffer) : Type 0 where
  pub referenced : 0 < b.rc
  pub in_block : b.len ≤ length b.block
  pub recorded : b.capacity ≤ length b.block

pub length-write_at :
    (at : ℕ) (bytes block : Bytes)
    → at + length bytes ≤ length block
    → length (write_at at bytes block) ≡ length block
length-write_at at bytes block h = omega (
  arith,
  length-append (take at block ++ bytes) (drop (at + length bytes) block),
  length-append (take at block) bytes,
  length-take at block,
  length-drop (at + length bytes) block,
)

-- The contents up to the end of what was written.
pub take-write_at :
    (at n : ℕ) (bytes block : Bytes)
    → at ≤ length block
    → n ≡ at + length bytes
    → take n (write_at at bytes block) ≡ take at block ++ bytes
take-write_at at n bytes block h e =
    let front = take at block ++ bytes in
    let size : n ≡ length front =
      omega (arith, length-append (take at block) bytes, length-take at block) in
    take-append_le n front (drop (at + length bytes) block) (omega arith) ∙ take-length front n size

module _ (junk : ℕ → Bytes) (enough : (n : ℕ) → length (junk n) ≡ n) where
  length-realloc : (block : Bytes) (n : ℕ) → length (realloc junk block n) ≡ n
  unfolding realloc
  length-realloc block n = omega (
    arith,
    length-take n (block ++ take (n - length block) (junk n)),
    length-append block (take (n - length block) (junk n)),
    length-take (n - length block) (junk n),
    enough n,
  )

  take-realloc :
      (k : ℕ) (block : Bytes) (n : ℕ)
      → k ≤ n
      → k ≤ length block
      → take k (realloc junk block n) ≡ take k block
  unfolding realloc
  take-realloc k block n p q = take-take k n _ p ∙ take-append_le k block _ q

  -- `buffer_reserve` of a well-formed buffer for a size that is not below the contents: it
  -- succeeds, the block has at least that size, and the buffer is well-formed with the contents,
  -- the references and the length as before.
  pub buffer_reserve_lem :
      (b : Buffer) (n : ℕ)
      → IsValid b
      → b.len ≤ n
      → (b' : Buffer) × (buffer_reserve junk b n ≡ some b')
        × IsValid b'
        × (n ≤ length b'.block)
        × (contents b' ≡ contents b)
        × (b'.len ≡ b.len)
        × (b'.rc ≡ b.rc)
  unfolding buffer_reserve
  buffer_reserve_lem b n v h = elim (Bool-cases (leb n b.capacity)) [
    | inl e ↦ (b, ground arith, v, ground arith, refl, refl, refl)
    | inr e ↦ (
      record b { block = realloc junk b.block n },
      ground arith,
      ground (arith, length-realloc b.block n),
      ground (arith, length-realloc b.block n),
      take-realloc b.len b.block n h v.in_block,
      refl,
      refl,
    )
  ]

  grow_lem :
      (b : Buffer) (n : ℕ)
      → IsValid b
      → b.len < n
      → (b' : Buffer) × (grow junk b n ≡ some b')
        × IsValid b'
        × (contents b' ≡ contents b ++ replicate (n - b.len) 0)
        × (b'.len ≡ n)
        × (b'.rc ≡ b.rc)
  unfolding grow
  grow_lem b n v h =
      let (r, e, w, room, same, same_len, same_rc) = buffer_reserve_lem b n v (omega arith) in
      let zeros : Bytes = replicate (n - b.len) 0 in
      let zeros_len : length zeros ≡ n - b.len = length-replicate (n - b.len) 0 in
      let inside : b.len ≤ length r.block = omega (arith, w.in_block) in
      let size = length-write_at b.len zeros r.block (omega arith) in
      (
        record r { block = write_at b.len zeros r.block; len = n },
        ground (arith, e),
        ground arith,
        take-write_at b.len n zeros r.block inside (omega arith)
            ∙ ap (λ x. x ++ zeros) (ap (λ k. take k r.block) (sym same_len) ∙ same),
        refl,
        same_rc,
      )

  length-contents : (b : Buffer) → IsValid b → length (contents b) ≡ b.len
  length-contents b v = omega (arith, length-take b.len b.block)

  -- `buffer_set_size` of a well-formed buffer succeeds for every size; the contents are cut off or
  -- filled up with zeros, the buffer stays well-formed, and the number of references stays.
  pub buffer_set_size_lem :
      (b : Buffer) (n : ℕ)
      → IsValid b
      → (b' : Buffer) × (buffer_set_size junk b n ≡ some b')
        × IsValid b'
        × (contents b' ≡ resized n (contents b))
        × (b'.len ≡ n)
        × (b'.rc ≡ b.rc)
  unfolding buffer_set_size
  buffer_set_size_lem b n v = elim (dec_lt b.len n) [
    | yes more ↦
        let (b', e, w, grown, size, refs) = grow_lem b n v more in
        let all = take-length_le n (contents b) (omega (arith, length-contents b v)) in
        let gap : n - b.len ≡ n - length (contents b) = omega (arith, length-contents b v) in
        (
          b',
          ground (arith, e),
          w,
          grown ∙ ap₂ (λ x k. x ++ replicate k 0) (sym all) gap,
          size,
          refs,
        )
    | no less ↦
        let gap : 0 ≡ n - length (contents b) = omega (arith, length-contents b v) in
        (
          record b { len = n },
          ground arith,
          ground arith,
          sym (take-take n b.len b.block (omega arith))
              ∙ (sym (append-nil _) ∙ ap (λ k. take n (contents b) ++ replicate k 0) gap),
          refl,
          refl,
        )
  ]

  -- For a well-formed buffer: when `read`, tried again after interruptions, gives at most `size`
  -- bytes, `buffer_read` puts them behind the contents and returns them, and the number of
  -- references stays.
  pub buffer_read_lem :
      (b : Buffer) (size : ℕ) (bytes : Bytes) (eintr : Bool) (first : Attempt) (rest : List Attempt)
      → IsValid b
      → length bytes ≤ size
      → try_again first rest ≡ done bytes eintr
      → (b' : Buffer) × (buffer_read junk b size first rest ≡ some (some bytes, b'))
        × IsValid b'
        × (contents b' ≡ contents b ++ bytes)
        × (b'.rc ≡ b.rc)
  unfolding buffer_read
  buffer_read_lem b size bytes eintr first rest v fits answer =
      let (r, e, w, room, same, same_len, same_rc) =
        buffer_reserve_lem b (b.len + size) v (omega arith) in
      let inside : r.len ≤ length r.block = omega (arith, w.in_block) in
      let whole = length-write_at r.len bytes r.block (omega arith) in
      (
        record r { block = write_at r.len bytes r.block; len = r.len + length bytes },
        ground (arith, e, answer),
        ground arith,
        take-write_at r.len (r.len + length bytes) bytes r.block inside refl
            ∙ ap (λ x. x ++ bytes) same,
        same_rc,
      )

  -- A well-formed buffer whose capacity was never recorded, and a size above 0 and below the
  -- contents: `buffer_reserve` leaves a buffer that is not well-formed.
  pub buffer_reserve_shrinks :
      (b : Buffer) (n : ℕ)
      → IsValid b
      → b.capacity ≡ 0
      → 0 < n
      → n < b.len
      → (b' : Buffer) × (buffer_reserve junk b n ≡ some b') × (¬ IsValid b')
  unfolding buffer_reserve
  buffer_reserve_shrinks b n v unrecorded p q = (
    record b { block = realloc junk b.block n },
    ground arith,
    λ w. omega (arith, length-realloc b.block n, w.in_block),
  )

-- Taking and dropping references: `buffer_ref` then `buffer_unref` gives the buffer back, and
-- `buffer_unref` frees exactly at the last reference.
pub buffer_unref_lem :
    (b : Buffer)
    → 0 < b.rc
    → ((b' : Buffer) × (buffer_ref b ≡ some b') × (buffer_unref b' ≡ some (some b)))
      × ((buffer_unref b ≡ some none) ↔ (b.rc ≡ 1))
unfolding buffer_ref buffer_unref
buffer_unref_lem b h = (
  (record b { rc = b.rc + 1 }, ground arith, ground arith),
  (λ e. ground arith, λ e. ground arith),
)
