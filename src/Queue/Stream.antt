-- ===== src/Queue/Stream.antt =====
-- A queue stands for the bytes that are still to be written.
use ichatd.Common.{
  ℕ, ◌^◌, ◌≤◌, ◌<◌, ◌≡◌, refl, sym, ap, ◌∙◌, List, [], ◌∷◌, ◌++◌, append_assoc, append-nil, arith,
  Bytes, length, length-append, length-drop, drop, drop-append_le, ◌⊎◌, inl,
}
use ichatd.Queue.{Queue, total, buffer_queue_size, buffer_queue_append, buffer_queue_prepend}

abbrev pub join : List Bytes → Bytes
join [] = []
join (b ∷ bs) = b ++ join bs

-- The bytes that wait, in the order in which they go out.
abbrev pub stream : Queue → Bytes
stream q = drop q.offset (join q.entries)

-- The offset lies in the first buffer, before its last byte, unless it is 0.
abbrev pub InFirst : List Bytes → ℕ → Type 0
InFirst [] offset = offset ≡ 0
InFirst (b ∷ bs) offset = (offset ≡ 0) ⊎ (offset < length b)

abbrev pub IsValid : Queue → Type 0
IsValid q = InFirst q.entries q.offset

pub length-join : (bs : List Bytes) → length (join bs) ≡ total bs
unfolding total
length-join [] = refl
length-join (b ∷ bs) = omega (arith, length-append b (join bs), length-join bs)

pub join-append : (cs bs : List Bytes) → join (cs ++ bs) ≡ join cs ++ join bs
join-append [] bs = refl
join-append (c ∷ cs) bs =
    ap (λ r. c ++ r) (join-append cs bs) ∙ sym (append_assoc c (join cs) (join bs))

pub offset-le-length :
    (bs : List Bytes) (offset : ℕ) → InFirst bs offset → offset ≤ length (join bs)
offset-le-length [] offset v = omega arith
offset-le-length (b ∷ bs) offset v = omega (arith, length-append b (join bs))

InFirst-append : (bs cs : List Bytes) (offset : ℕ) → InFirst bs offset → InFirst (bs ++ cs) offset
InFirst-append [] [] offset v = v
InFirst-append [] (c ∷ cs) offset v = inl v
InFirst-append (b ∷ bs) cs offset v = v

-- `buffer_queue_append` puts the bytes behind those that wait, for every valid queue, and the
-- queue stays valid.
pub stream-append :
    (q : Queue) (b : Bytes)
    → IsValid q
    → (stream (buffer_queue_append q b) ≡ stream q ++ b) × IsValid (buffer_queue_append q b)
stream-append q b v = (
  ap (drop q.offset) (join-append q.entries (b ∷ []))
      ∙ drop-append_le q.offset (join q.entries) (b ++ []) (offset-le-length q.entries q.offset v)
      ∙ ap (λ r. stream q ++ r) (append-nil b),
  InFirst-append q.entries (b ∷ []) q.offset v,
)

-- `buffer_queue_size` of a valid queue is the number of bytes that wait, as long as the buffers
-- together stay below 2 ^ 64 bytes.
pub buffer_queue_size_lem :
    (q : Queue)
    → IsValid q
    → length (join q.entries) < 2 ^ 64
    → buffer_queue_size q ≡ length (stream q)
unfolding buffer_queue_size
buffer_queue_size_lem q v small = omega (
  arith,
  length-join q.entries,
  offset-le-length q.entries q.offset v,
  length-drop q.offset (join q.entries),
)

-- `buffer_queue_prepend` puts the bytes in front of those that wait, if nothing of the first
-- buffer has gone out.
pub stream-prepend :
    (q : Queue) (b : Bytes)
    → q.offset ≡ 0
    → (stream (buffer_queue_prepend q b) ≡ b ++ stream q) × IsValid (buffer_queue_prepend q b)
stream-prepend q b e = (
  ap (λ n. drop n (b ++ join q.entries)) e ∙ sym (ap (λ n. b ++ drop n (join q.entries)) e),
  inl e,
)

-- Several buffers, one behind the other.
abbrev pub append_all : Queue → List Bytes → Queue
append_all q [] = q
append_all q (b ∷ bs) = append_all (buffer_queue_append q b) bs

pub stream-append_all :
    (q : Queue) (bs : List Bytes)
    → IsValid q
    → (stream (append_all q bs) ≡ stream q ++ join bs) × IsValid (append_all q bs)
stream-append_all q [] v = (sym (append-nil (stream q)), v)
stream-append_all q (b ∷ bs) v =
    let (e, w) = stream-append q b v in
    let (e', w') = stream-append_all (buffer_queue_append q b) bs w in
    (e' ∙ ap (λ r. r ++ join bs) e ∙ append_assoc (stream q) b (join bs), w')
