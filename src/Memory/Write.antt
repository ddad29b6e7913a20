-- ===== src/Memory/Write.antt =====
-- Appending to a queue of shared buffers and writing from it, src/buffer_queue.c: the queue of
-- pointers stands for the queue of contents behind every operation.
use ichatd.Common.{
  ℕ, zero, suc, ◌+◌, ◌<◌, ◌≡◌, refl, sym, ◌∙◌, ap, ap₂, subst, true, Bool-cases, inl, inr, ◌==◌,
  List, [], ◌∷◌, ◌++◌, map, Option, none, some, arith, Bytes, take, ◌>>=◌, >>=-eq-some, eq_of_some,
}
use ichatd.Memory.{Memory, text, texts, count, Counted}
use ichatd.Memory.Counts.{count-append, Counted-reorder, ref_at_lem}
use ichatd.Memory.Queue.{Pointers, append_entry, read_entries, settle_entries, write_entries}
use ichatd.Memory.Refine.{Kept-texts, Kept-sub, Represents, Stands, Follows, still}
use ichatd.Memory.Advance.{advance_entries_lem}
use ichatd.Queue.{
  Queue, Written, error, count as written, buffer_queue_append, from_offset, conf_iov_max, advance,
  settle, buffer_queue_advance_offset, get_buffer_queue_iovec, offered, buffer_queue_write,
}

texts-append : (m : Memory) (ps qs : List ℕ) → texts m (ps ++ qs) ≡ texts m ps ++ texts m qs
texts-append m [] qs = refl
texts-append m (p ∷ ps) qs = ap (λ r. text m p ∷ r) (texts-append m ps qs)

some-append : (bs cs : List Bytes) → map some (bs ++ cs) ≡ map some bs ++ map some cs
some-append [] cs = refl
some-append (b ∷ bs) cs = ap (λ r. some b ∷ r) (some-append bs cs)

-- A reference of which there is another one is counted without it.
pub in_rest :
    (p r : ℕ) (ps held : List ℕ)
    → 0 < count p held
    → 0 < count r (ps ++ p ∷ [])
    → 0 < count r (ps ++ held)
in_rest p r ps held live at = elim (Bool-cases (r == p)) [
  | inl e ↦
      let same : p ≡ r = ground arith in
      omega (arith, count-append r ps held, subst (λ x. 0 < count x held) same live)
  | inr e ↦
      let other : count r (p ∷ []) ≡ 0 = ground arith in
      omega (arith, count-append r ps held, count-append r ps (p ∷ []), other)
]

-- Appending a buffer that is referred to, by the queue itself or by others: the queue stands for the
-- contents with the buffer's behind them, and every count is right.
pub append_entry_lem :
    (p : ℕ) (b : Bytes) (q : Pointers) (v : Queue) (held : List ℕ) (m : Memory)
    → Counted m (q.entries ++ held)
    → Represents m q v
    → 0 < count p held
    → text m p ≡ some b
    → Follows (append_entry true p q m) m (buffer_queue_append v b) held
unfolding append_entry Follows Represents
append_entry_lem p b q v held m c (t, o) live read =
    let (m', e, c', k) =
      ref_at_lem p m (q.entries ++ held) c (omega (arith, count-append p q.entries held)) in
    let more : texts m (q.entries ++ p ∷ []) ≡ map some (v.entries ++ b ∷ []) =
      texts-append m q.entries (p ∷ [])
      ∙ ap₂ (λ x y. x ++ y ∷ []) t read
      ∙ sym (some-append v.entries (b ∷ [])) in
    (
      record q { entries = q.entries ++ p ∷ [] },
      m',
      rw e refl,
      record {
        represents = (
          Kept-texts m m' (q.entries ++ p ∷ []) (q.entries ++ held) k
                (λ r. in_rest p r q.entries held live)
              ∙ more,
          o,
        );
        counted =
            Counted-reorder m' (p ∷ (q.entries ++ held)) ((q.entries ++ p ∷ []) ++ held)
              (λ r. omega (
                arith,
                count-append r (q.entries ++ p ∷ []) held,
                count-append r q.entries (p ∷ []),
                count-append r q.entries held,
              ))
              c';
        kept =
            Kept-sub m m' (q.entries ++ held) held k
              (λ r l. omega (arith, count-append r q.entries held));
      },
    )

read_entries_lem :
    (n : ℕ) (ps : List ℕ) (bs : List Bytes) (m : Memory)
    → texts m ps ≡ map some bs
    → read_entries (take n ps) m ≡ some (take n bs)
unfolding read_entries
read_entries_lem zero ps bs m t = refl
read_entries_lem (suc n) [] [] m t = refl
read_entries_lem (suc n) [] (b ∷ bs) m t = cc
read_entries_lem (suc n) (p ∷ ps) [] m t = cc
read_entries_lem (suc n) (p ∷ ps) (b ∷ bs) m t =
    let here : text m p ≡ some b = cc in
    let rest : read_entries (take n ps) m ≡ some (take n bs) = read_entries_lem n ps bs m cc in
    rw (here, ◌>>=◌, rest) refl

-- What `buffer_queue_write` answers and leaves.
unfoldable pub Wrote :
    Option (Written × Pointers × Memory) → Memory → Written × Queue → List ℕ → Type 0
Wrote r m x held =
    (q : Pointers) × (m' : Memory) × (r ≡ some (x.0, q, m')) × Stands m m' q (x.1) held

settle_entries_lem :
    (q : Pointers) (v : Queue) (iov : Option (List Bytes)) (answer : Written) (x : Written × Queue)
    (held : List ℕ) (m : Memory)
    → Counted m (q.entries ++ held)
    → Represents m q v
    → settle v iov answer ≡ some x
    → Wrote (settle_entries q m iov answer) m x held
unfolding Wrote Represents buffer_queue_advance_offset Follows
settle_entries_lem q v none answer x held m c r h =
    subst (λ y. Wrote (some (error, q, m)) m y held) (eq_of_some h)
      (q, m, refl, still q v m held c r)
settle_entries_lem q v (some iov) error x held m c r h =
    subst (λ y. Wrote (some (error, q, m)) m y held) (eq_of_some h)
      (q, m, refl, still q v m held c r)
settle_entries_lem q v (some iov) (written n) x held m c r h =
    let (v', e, same) =
      >>=-eq-some (advance v.entries (n + v.offset)) (λ v'. some (written n, v')) h in
    let e' : advance v.entries (n + q.offset) ≡ some v' =
      ap (λ k. advance v.entries (n + k)) (r.1) ∙ e in
    let (q', m', f, reached) =
      advance_entries_lem q.entries v.entries (n + q.offset) held m v' c (r.0) e' in
    subst (λ y. Wrote (settle_entries q m (some iov) (written n)) m y held) (eq_of_some same)
      (q', m', rw f refl, reached)

-- For a queue of pointers that stands for a queue of contents, with all references counted: where
-- the write of the contents meets no failed assertion, so does the write through the pointers. It
-- answers the same, uses no buffer that is not there, and leaves a queue that stands for the
-- contents that are left, every count right and every other reference reading what it read.
pub write_entries_lem :
    (q : Pointers) (v : Queue) (answer : Written) (x : Written × Queue) (held : List ℕ) (m : Memory)
    → Counted m (q.entries ++ held)
    → Represents m q v
    → buffer_queue_write v answer ≡ some x
    → Wrote (write_entries q answer m) m x held
unfolding write_entries Represents buffer_queue_write offered get_buffer_queue_iovec Wrote
write_entries_lem q v answer x held m c r h =
    let read = read_entries_lem conf_iov_max q.entries v.entries m (r.0) in
    let offset : from_offset (take conf_iov_max v.entries) q.offset
        ≡ from_offset (take conf_iov_max v.entries) v.offset =
      ap (from_offset (take conf_iov_max v.entries)) (r.1) in
    let (q', m', e, reached) =
      settle_entries_lem q v (from_offset (take conf_iov_max v.entries) v.offset) answer x held m c
        r h in
    (q', m', rw (read, ◌>>=◌, offset) e, reached)
