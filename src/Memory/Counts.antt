-- ===== src/Memory/Counts.antt =====
-- The counts of references of src/buffer.c: what allocating, taking and giving up a reference do
-- to the counts and to the contents.
use ichatd.Common.{
  ℕ, zero, suc, ◌+◌, ◌-◌, ◌≤◌, ◌<◌, ◌≡◌, refl, sym, subst, Bool, true, false, List, [], ◌∷◌, ◌++◌,
  Option, none, some, arith, length, ◌==◌, lt→ltb, Bool-cases, if◌then◌else◌, inl, inr, dec_lt,
}
use ichatd.Buffer.{Buffer, buffer_alloc, buffer_ref, buffer_unref}
use ichatd.Memory.{Memory, store, alloc_at, ref_at, unref_at, text, count, CountedAt, Counted, Kept}

pub count-append : (p : ℕ) (xs ys : List ℕ) → count p (xs ++ ys) ≡ count p xs + count p ys
count-append p [] ys = omega arith
count-append p (x ∷ xs) ys = omega (arith, count-append p xs ys)

-- Only the counts matter, not the order.
pub Counted-reorder :
    (m : Memory) (xs ys : List ℕ)
    → ((p : ℕ) → count p ys ≡ count p xs)
    → Counted m xs
    → Counted m ys
unfolding Counted
Counted-reorder m xs ys e (at, free) =
    (λ p. subst (CountedAt (m.cell p)) (sym (e p)) (at p), λ p le. omega (arith, e p, free p le))

-- A counted reference leads to a buffer.
pub held_cell :
    (o : Option Buffer) {n : ℕ}
    → CountedAt o n
    → 0 < n
    → (b : Buffer) × (o ≡ some b) × (b.rc ≡ n) × (b.len ≤ length b.block)
held_cell none e h = absurd (omega arith)
held_cell (some b) (e, _, fits) h = (b, refl, e, fits)

pub same : (p : ℕ) → (p == p) ≡ true
same p = ground arith

update_at :
    (o v : Option Buffer) (b : Bool) (n : ℕ)
    → (b ≡ true → CountedAt v n)
    → (b ≡ false → CountedAt o n)
    → CountedAt (if b then v else o) n
update_at o v true n new old = new refl
update_at o v false n new old = old refl

-- A write to one cell.
pub store-Counted :
    (p : ℕ) (v : Option Buffer) (m : Memory) (held held' : List ℕ)
    → Counted m held
    → p < m.next
    → CountedAt v (count p held')
    → ((q : ℕ) → (p == q) ≡ false → count q held' ≡ count q held)
    → Counted (store p v m) held'
unfolding Counted
store-Counted p v m held held' (at, free) low new old = (
  λ q.
      update_at (m.cell q) v (p == q) (count q held')
        (λ e. subst (λ r. CountedAt v (count r held')) (ground arith) new)
        (λ e. subst (CountedAt (m.cell q)) (sym (old q e)) (at q)),
  λ q le. omega (arith, old q (ground arith), free q le),
)

-- What is referred to lies below the addresses to come.
pub held_low : (p : ℕ) (m : Memory) (held : List ℕ) → Counted m held → 0 < count p held → p < m.next
unfolding Counted
held_low p m held (at, free) h = elim (dec_lt p m.next) [
  | yes low ↦ low
  | no high ↦ absurd (omega (arith, free p (omega arith)))
]

pub store-Kept :
    (p : ℕ) (v : Option Buffer) (m : Memory) (held : List ℕ)
    → (0 < count p held → text (store p v m) p ≡ text m p)
    → Kept m (store p v m) held
unfolding Kept
store-Kept p v m held h q live = elim (Bool-cases (p == q)) [
  | inl e ↦
      let same : p ≡ q = ground arith in
      subst (λ r. text (store p v m) r ≡ text m r) same
        (h (subst (λ r. 0 < count r held) (sym same) live))
  | inr e ↦ rw e
]

-- `buffer_alloc` gives a reference to an empty buffer that no one else has.
pub alloc_at-Counted :
    (m : Memory) (held : List ℕ) → Counted m held → Counted ((alloc_at m).1) ((alloc_at m).0 ∷ held)
unfolding alloc_at Counted buffer_alloc
alloc_at-Counted m held (at, free) = (
  λ q.
      update_at (m.cell q) (some buffer_alloc) (m.next == q) (count q (m.next ∷ held))
        (λ e. (ground (arith, free q), ground arith, omega arith))
        (λ e. subst (CountedAt (m.cell q)) (ground arith) (at q)),
  λ q le. ground (arith, free q),
)

pub alloc_at-Kept : (m : Memory) (held : List ℕ) → Counted m held → Kept m ((alloc_at m).1) held
unfolding alloc_at Counted Kept
alloc_at-Kept m held c =
    store-Kept m.next (some buffer_alloc) m held (λ live. absurd (omega (arith, c.1 m.next)))

ref_cell :
    (p : ℕ) (m : Memory) (b : Buffer)
    → m.cell p ≡ some b
    → 0 < b.rc
    → ref_at p m ≡ some (store p (some (record b { rc = b.rc + 1 })) m)
unfolding ref_at buffer_ref
ref_cell p m b here live = rw (here, lt→ltb 0 b.rc live)

unref_cell :
    (p : ℕ) (m : Memory) (b : Buffer)
    → m.cell p ≡ some b
    → 0 < b.rc
    → unref_at p m
      ≡ some (store p (if b.rc - 1 == 0 then none else some (record b { rc = b.rc - 1 })) m)
unfolding unref_at buffer_unref
unref_cell p m b here live = rw (here, lt→ltb 0 b.rc live)

-- Another count of references does not change what is in a buffer.
text_again :
    (p n : ℕ) (m : Memory) (b : Buffer)
    → m.cell p ≡ some b
    → text (store p (some (record b { rc = n })) m) p ≡ text m p
text_again p n m b here = rw (here, same p)

-- `buffer_ref` through a counted reference.
pub ref_at_lem :
    (p : ℕ) (m : Memory) (held : List ℕ)
    → Counted m held
    → 0 < count p held
    → (m' : Memory) × (ref_at p m ≡ some m') × Counted m' (p ∷ held) × Kept m m' held
unfolding Counted
ref_at_lem p m held c live =
    let (b, here, rc, fits) = held_cell (m.cell p) (c.0 p) live in
    let b' = record b { rc = b.rc + 1 } in
    (
      store p (some b') m,
      ref_cell p m b here (omega arith),
      store-Counted p (some b') m held (p ∷ held) c (held_low p m held c live)
          (ground arith, ground arith, fits) (λ q e. ground arith),
      store-Kept p (some b') m held (λ _. text_again p (b.rc + 1) m b here),
    )

-- The cell behind `buffer_unref`, with the count of the references that are left.
unref_cell-CountedAt :
    (b : Buffer) (n : ℕ)
    → b.rc ≡ suc n
    → b.len ≤ length b.block
    → CountedAt (if b.rc - 1 == 0 then none else some (record b { rc = b.rc - 1 })) n
unref_cell-CountedAt b zero e fits =
    let last : (b.rc - 1 == 0) ≡ true = ground arith in rw last refl
unref_cell-CountedAt b (suc n) e fits =
    let more : (b.rc - 1 == 0) ≡ false = ground arith in rw more (omega arith, omega arith, fits)

unref_again :
    (p n : ℕ) (m : Memory) (b : Buffer)
    → m.cell p ≡ some b
    → (n == 0) ≡ false
    → text (store p (if n == 0 then none else some (record b { rc = n })) m) p ≡ text m p
unref_again p n m b here more = rw (more, text_again p n m b here)

-- `buffer_unref` through a counted reference: the buffer stays as long as another one is left.
pub unref_at_lem :
    (p : ℕ) (m : Memory) (held : List ℕ)
    → Counted m (p ∷ held)
    → (m' : Memory) × (unref_at p m ≡ some m') × Counted m' held × Kept m m' held
unfolding Counted
unref_at_lem p m held c =
    let (b, here, rc, fits) = held_cell (m.cell p) (c.0 p) (ground arith) in
    let rest = if b.rc - 1 == 0 then none else some (record b { rc = b.rc - 1 }) in
    (
      store p rest m,
      unref_cell p m b here (ground arith),
      store-Counted p rest m (p ∷ held) held c (held_low p m (p ∷ held) c (ground arith))
          (unref_cell-CountedAt b (count p held) (ground arith) fits) (λ q e. ground arith),
      store-Kept p rest m held (λ live. unref_again p (b.rc - 1) m b here (ground arith)),
    )
