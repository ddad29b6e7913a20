-- ===== src/Queue/Empty.antt =====
-- A queue of src/buffer_queue.c that is written as a whole, up to an empty buffer at its end.
use ichatd.Common.{
  ℕ, ◌+◌, ◌-◌, ◌≤◌, ◌<◌, ◌≡◌, refl, true, false, List, [], ◌∷◌, ◌++◌, some, arith, Bytes, length,
  length-append, leb, ◌==◌,
}
use ichatd.Queue.{
  advance, buffer_queue_advance_offset, buffer_queue_write, count, offered, get_buffer_queue_iovec,
}
use ichatd.Queue.Stream.{join}

advance_to_empty :
    (bs : List Bytes) (last : Bytes) (delta : ℕ)
    → 0 < length last
    → delta ≡ length (join (bs ++ last ∷ []))
    → advance (bs ++ last ∷ [] ∷ []) delta ≡ some (record { entries = [] ∷ []; offset = 0 })
unfolding advance
advance_to_empty [] last delta h e = ground (arith, length-append last [])
advance_to_empty (b ∷ bs) last delta h e =
    let size = length-append b (join (bs ++ last ∷ [])) in
    let more : length last ≤ length (join (bs ++ last ∷ [])) = last_fits bs last in
    let others = advance_to_empty bs last (delta - length b) h (omega arith) in
    let not_zero : (delta == 0) ≡ false = ground arith in
    let whole : leb (length b) delta ≡ true = ground arith in rw (not_zero, whole) others
  where
    last_fits : (cs : List Bytes) (x : Bytes) → length x ≤ length (join (cs ++ x ∷ []))
    last_fits [] x = omega (arith, length-append x [])
    last_fits (c ∷ cs) x = omega (arith, length-append c (join (cs ++ x ∷ [])), last_fits cs x)

-- `buffer_queue_write` of everything leaves the empty buffer.
pub buffer_queue_write_to_empty :
    (head cmd last : Bytes) (r : ℕ)
    → 0 < length head
    → 0 < length last
    → r ≡ length (join (head ∷ cmd ∷ last ∷ []))
    → buffer_queue_write (record { entries = head ∷ cmd ∷ last ∷ [] ∷ []; offset = 0 }) (count r)
      ≡ some (count r, record { entries = [] ∷ []; offset = 0 })
unfolding buffer_queue_write offered get_buffer_queue_iovec buffer_queue_advance_offset
buffer_queue_write_to_empty head cmd last r some_head some_last e =
    let starts : leb (length head) 0 ≡ false = ground arith in
    let gone = advance_to_empty (head ∷ cmd ∷ []) last (r + 0) some_last (omega arith) in
    rw (starts, gone) refl
