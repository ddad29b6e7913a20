-- ===== src/Queue/Write.antt =====
-- `buffer_queue_write` sends the waiting bytes in their order.
use ichatd.Common.{
  ◌==◌, Option, none, Bool-cases, eq_of_some, >>=-eq-some, leb, ℕ, zero, suc, ◌+◌, ◌-◌, ◌≤◌, ◌<◌,
  ◌≡◌, ◌≢◌, refl, sym, ap, subst, ◌∙◌, List, [], ◌∷◌, ◌++◌, append_assoc, arith, Bytes, length,
  length-append, length-drop, take, drop, take-append-drop, drop-nil, drop-append_le,
  drop-append_ge, drop-drop, some, inl, inr, dec_le, ℕ_discrete,
}
use native.Mathlib.Nat.{add_comm}
use ichatd.Queue.{
  Queue, buffer_queue_advance_offset, settle, advance, get_buffer_queue_iovec, offered, from_offset,
  Written, error, count, buffer_queue_write, conf_iov_max,
}
use ichatd.Queue.Stream.{join, stream, IsValid, InFirst, join-append, offset-le-length}

-- Going on by no more than the queue holds never meets the assertion, drops that many bytes, and
-- leaves the offset in the first buffer.
advance_lem :
    (bs : List Bytes) (delta : ℕ)
    → delta ≤ length (join bs)
    → (q : Queue) × (advance bs delta ≡ some q) × (stream q ≡ drop delta (join bs)) × IsValid q
unfolding advance
advance_lem [] delta h =
    (record { entries = []; offset = 0 }, ground arith, sym (drop-nil delta), refl)
advance_lem (b ∷ bs) delta h = elim (ℕ_discrete delta 0) [
  | yes none_left ↦ (
    record { entries = b ∷ bs; offset = 0 },
    ground arith,
    ap (λ n. drop n (b ++ join bs)) (sym none_left),
    inl refl,
  )
  | no some_left ↦ elim (dec_le (length b) delta) [
    | yes whole ↦
        let rest : delta - length b ≤ length (join bs) = omega (arith, length-append b (join bs)) in
        let (q, e, s, v) = advance_lem bs (delta - length b) rest in
        (q, ground (arith, e), s ∙ sym (drop-append_ge delta b (join bs) whole), v)
    | no part ↦ (record { entries = b ∷ bs; offset = delta }, ground arith, refl, inr (omega arith))
  ]
]

-- No buffer is empty.
abbrev pub Filled : List Bytes → Type 0
Filled [] = Unit {0}
Filled (b ∷ bs) = (0 < length b) × Filled bs

Filled-front :
    (bs : List Bytes) (offset : ℕ)
    → InFirst bs offset
    → Filled bs
    → bs ≢ []
    → (iov : List Bytes) × (from_offset (take conf_iov_max bs) offset ≡ some iov)
Filled-front [] offset v f n = absurd (n refl)
Filled-front (b ∷ bs) offset v f n = (drop offset b ∷ take 127 bs, ground arith)

join-take-drop : (n : ℕ) (bs : List Bytes) → join bs ≡ join (take n bs) ++ join (drop n bs)
join-take-drop n bs = ap join (sym (take-append-drop n bs)) ∙ join-append (take n bs) (drop n bs)

front_of :
    (n : ℕ) (bs : List Bytes) (offset : ℕ) (iov : List Bytes)
    → from_offset (take n bs) offset ≡ some iov
    → ((rest : Bytes) × (drop offset (join bs) ≡ join iov ++ rest)) × (0 < length (join iov))
front_of zero bs offset iov h = cc
front_of (suc n) [] offset iov h = cc
front_of (suc n) (b ∷ bs) offset iov h = elim (dec_le (length b) offset) [
  | yes out ↦ ground arith
  | no more ↦
      let same : drop offset b ∷ take n bs ≡ iov = ground arith in
      let size = length-append (drop offset b) (join (take n bs)) in
      (
        (
          join (drop n bs),
          drop-append_le offset b (join bs) (omega arith)
              ∙ ap (λ r. drop offset b ++ r) (join-take-drop n bs)
              ∙ sym (append_assoc (drop offset b) (join (take n bs)) (join (drop n bs)))
              ∙ ap (λ x. join x ++ join (drop n bs)) same,
        ),
        subst (λ x. 0 < length (join x)) same (omega (arith, size, length-drop offset b)),
      )
]

-- What is offered to `writev` is a non-empty front part of the waiting bytes.
pub offered_lem :
    (q : Queue) (iov : List Bytes)
    → offered q ≡ some iov
    → ((rest : Bytes) × (stream q ≡ join iov ++ rest)) × (0 < length (join iov))
unfolding offered
offered_lem q iov h = front_of conf_iov_max q.entries q.offset iov h

-- When `writev` takes `r` of the bytes that it was offered from a valid queue, `buffer_queue_write`
-- returns `r` without meeting an assertion, exactly the first `r` waiting bytes are gone, and the
-- queue is valid again.
pub buffer_queue_write_lem :
    (q : Queue) (iov : List Bytes) (r : ℕ)
    → IsValid q
    → offered q ≡ some iov
    → r ≤ length (join iov)
    → (q' : Queue) × (buffer_queue_write q (count r) ≡ some (count r, q'))
      × (stream q' ≡ drop r (stream q))
      × IsValid q'
unfolding buffer_queue_write
buffer_queue_write_lem q iov r v o h =
    let ((rest, split), _) = offered_lem q iov o in
    let room : r + q.offset ≤ length (join q.entries) = omega (
      arith,
      ap length split,
      length-append (join iov) rest,
      length-drop q.offset (join q.entries),
      offset-le-length q.entries q.offset v,
    ) in
    let (q', e, s, w) = advance_lem q.entries (r + q.offset) room in
    (
      q',
      ground (arith, o, e),
      s
          ∙ ap (λ n. drop n (join q.entries)) (add_comm r q.offset)
          ∙ sym (drop-drop r q.offset (join q.entries)),
      w,
    )

-- An error of `writev` leaves the queue as it is, and is returned.
pub buffer_queue_write_error : (q : Queue) → buffer_queue_write q error ≡ some (error, q)
unfolding buffer_queue_write
buffer_queue_write_error q = ground arith

-- As long as no buffer of a valid queue is empty, something is offered to the socket whenever a
-- byte waits.
pub offered_nonempty :
    (q : Queue)
    → IsValid q
    → Filled q.entries
    → q.entries ≢ []
    → (iov : List Bytes) × (offered q ≡ some iov)
unfolding offered get_buffer_queue_iovec
offered_nonempty q v f n = Filled-front q.entries q.offset v f n

-- A queue whose first buffer is empty: `buffer_queue_write` returns -1 whatever the socket would
-- answer, and leaves the queue as it is.
pub buffer_queue_write_stuck :
    (bs : List Bytes) (answer : Written)
    → let q : Queue = record { entries = [] ∷ bs; offset = 0 } in
      buffer_queue_write q answer ≡ some (error, q)
unfolding buffer_queue_write get_buffer_queue_iovec
buffer_queue_write_stuck bs answer = refl

-- Wherever the offset comes to, it lies in the first buffer.
advance-IsValid : (bs : List Bytes) (delta : ℕ) (q : Queue) → advance bs delta ≡ some q → IsValid q
unfolding advance
advance-IsValid [] delta q h = elim (Bool-cases (delta == 0)) [
  | inl e ↦ subst IsValid (eq_of_some (rw e at h)) refl
  | inr e ↦ absurd (cc (rw e at h))
]
advance-IsValid (b ∷ bs) delta q h = elim (Bool-cases (delta == 0)) [
  | inl e ↦ subst IsValid (eq_of_some (rw e at h)) (inl refl)
  | inr e ↦ elim (Bool-cases (leb (length b) delta)) [
    | inl e' ↦ advance-IsValid bs (delta - length b) q (rw (e, e') at h)
    | inr e' ↦ subst IsValid (eq_of_some (rw (e, e') at h)) (inr (ground arith))
  ]
]

-- `buffer_queue_write` leaves a valid queue valid, whatever `writev` answers.
pub buffer_queue_write-IsValid :
    (q : Queue) (answer : Written) (r : Written × Queue)
    → IsValid q
    → buffer_queue_write q answer ≡ some r
    → IsValid r.1
unfolding buffer_queue_write
buffer_queue_write-IsValid q answer r v h = by_offer (offered q) answer h
  where
    by_offer :
        (o : Option (List Bytes)) (written : Written) → settle q o written ≡ some r → IsValid r.1
    by_offer none written e = subst (λ x. IsValid x.1) (eq_of_some e) v
    by_offer (some iov) error e = subst (λ x. IsValid x.1) (eq_of_some e) v
    by_offer (some iov) (count n) e =
        let (q', went, last) = >>=-eq-some (buffer_queue_advance_offset q n) _ e in
        subst (λ x. IsValid x.1) (eq_of_some last)
          (advance-IsValid q.entries (n + q.offset) q' went)
