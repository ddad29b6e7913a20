-- ===== src/Memory/Writing.antt =====
-- Writing from a queue of shared buffers, src/buffer_queue.c, keeps every reference counted, whatever
-- the system says that it wrote.
use ichatd.Common.{
  ℕ, ◌+◌, ◌-◌, ◌<◌, ◌≡◌, refl, sym, ◌∙◌, subst, true, false, List, [], ◌∷◌, ◌++◌, Option, none,
  some, arith, Bytes, length, take, leb, ◌==◌, Bool-cases, inl, inr, ◌>>=◌, >>=-eq-some, eq_of_some,
}
use ichatd.Queue.{Written, error, count as written, from_offset, conf_iov_max}
use ichatd.Memory.{Memory, size_at, count, Counted}
use ichatd.Memory.Queue.{
  Pointers, drop_at, advance_entries, read_entries, settle_entries, write_entries,
}
use ichatd.Memory.Refine.{drop_at_lem, size_at_lem}
use ichatd.Memory.Sent.{counted_text}

-- Where a run over a queue ends: the references of the queue and all others are counted.
EndsCounted : List ℕ → Pointers × Memory → Type 0
EndsCounted held r = Counted (r.1) (r.0.entries ++ held)

counted_size :
    (p : ℕ) (m : Memory) (held : List ℕ)
    → Counted m held
    → 0 < count p held
    → (n : ℕ) × (size_at p m ≡ some n)
counted_size p m held c live =
    let (b, e) = counted_text p held m c live in (length b, size_at_lem p b m held c live e)

same_end :
    (o : Option (Pointers × Memory)) (a r : Pointers × Memory) (held : List ℕ)
    → o ≡ some a
    → o ≡ some r
    → EndsCounted held a
    → EndsCounted held r
same_end o a r held e h c = subst (EndsCounted held) (eq_of_some (sym e ∙ h)) c

-- `advance_entries` one buffer further, for a buffer of a size that is read.
dropped :
    (p : ℕ) (ps : List ℕ) (delta size : ℕ) (m : Memory) (r : Pointers × Memory)
    → (delta == 0) ≡ false
    → size_at p m ≡ some size
    → leb size delta ≡ true
    → advance_entries (p ∷ ps) delta m ≡ some r
    → (m' : Memory) × (drop_at p m ≡ some m') × (advance_entries ps (delta - size) m' ≡ some r)
unfolding advance_entries
dropped p ps delta size m r z s l h =
    >>=-eq-some (drop_at p m) (advance_entries ps (delta - size))
      (sym (rw (z, s, ◌>>=◌, l) refl) ∙ h)

within :
    (p : ℕ) (ps : List ℕ) (delta size : ℕ) (m : Memory)
    → (delta == 0) ≡ false
    → size_at p m ≡ some size
    → leb size delta ≡ false
    → advance_entries (p ∷ ps) delta m ≡ some (record { entries = p ∷ ps; offset = delta }, m)
unfolding advance_entries
within p ps delta size m z s l = rw (z, s, ◌>>=◌, l) refl

done :
    (ps : List ℕ) (delta : ℕ) (m : Memory)
    → (delta == 0) ≡ true
    → advance_entries ps delta m ≡ some (record { entries = ps; offset = 0 }, m)
unfolding advance_entries
done [] delta m z = rw z refl
done (p ∷ ps) delta m z = rw z refl

-- A queue that is at its end cannot be advanced.
past_end : (delta : ℕ) (m : Memory) → (delta == 0) ≡ false → advance_entries [] delta m ≡ none
unfolding advance_entries
past_end delta m z = rw z refl

-- Advancing a queue keeps all references counted, whatever the kernel says it wrote.
advance_entries-Counted :
    (ps : List ℕ) (delta : ℕ) (held : List ℕ) (m : Memory) (r : Pointers × Memory)
    → Counted m (ps ++ held)
    → advance_entries ps delta m ≡ some r
    → EndsCounted held r
unfolding EndsCounted
advance_entries-Counted [] delta held m r c h = elim (Bool-cases (delta == 0)) [
  | inl z ↦ same_end _ _ r held (done [] delta m z) h c
  | inr z ↦ let clash = sym (past_end delta m z) ∙ h in cc
]
advance_entries-Counted (p ∷ ps) delta held m r c h = elim (Bool-cases (delta == 0)) [
  | inl z ↦ same_end _ _ r held (done (p ∷ ps) delta m z) h c
  | inr z ↦
      let (size, s) = counted_size p m (p ∷ (ps ++ held)) c (ground arith) in
      elim (Bool-cases (leb size delta)) [
        | inl l ↦
            let (m', e, h') = dropped p ps delta size m r z s l h in
            let (m'', e', c', k') = drop_at_lem p (ps ++ held) m c in
            advance_entries-Counted ps (delta - size) held m' r
              (subst (λ x. Counted x (ps ++ held)) (eq_of_some (sym e' ∙ e)) c') h'
        | inr l ↦ same_end _ _ r held (within p ps delta size m z s l) h c
      ]
]

-- The same of a write, whose answer stands before the queue.
WriteCounted : List ℕ → Written × Pointers × Memory → Type 0
WriteCounted held x = Counted (x.2) (x.1.entries ++ held)

settle_entries-Counted :
    (q : Pointers) (iov : Option (List Bytes)) (answer : Written) (held : List ℕ) (m : Memory)
    (x : Written × Pointers × Memory)
    → Counted m (q.entries ++ held)
    → settle_entries q m iov answer ≡ some x
    → WriteCounted held x
unfolding WriteCounted EndsCounted
settle_entries-Counted q none answer held m x c h = subst (WriteCounted held) (eq_of_some h) c
settle_entries-Counted q (some iov) error held m x c h = subst (WriteCounted held) (eq_of_some h) c
settle_entries-Counted q (some iov) (written n) held m x c h =
    let (r, e, h') =
      >>=-eq-some (advance_entries q.entries (n + q.offset) m) (λ r. some (written n, r.0, r.1))
        h in
    subst (WriteCounted held) (eq_of_some h')
      (advance_entries-Counted q.entries (n + q.offset) held m r c e)

pub write_entries-Counted :
    (q q' : Pointers) (answer w : Written) (held : List ℕ) (m m' : Memory)
    → Counted m (q.entries ++ held)
    → write_entries q answer m ≡ some (w, q', m')
    → Counted m' (q'.entries ++ held)
unfolding write_entries WriteCounted
write_entries-Counted q q' answer w held m m' c h =
    let (bs, e, h') =
      >>=-eq-some (read_entries (take conf_iov_max q.entries) m)
        (λ bs. settle_entries q m (from_offset bs q.offset) answer) h in
    settle_entries-Counted q (from_offset bs q.offset) answer held m (w, q', m') c h'
