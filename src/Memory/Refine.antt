-- ===== src/Memory/Refine.antt =====
-- The queue of pointers of src/buffer_queue.c behaves as the queue of contents of Queue: no use of
-- a buffer that was freed, and counts that stay right.
use ichatd.Common.{
  ℕ, ◌<◌, ◌≡◌, refl, ◌∙◌, ap, ap₂, List, [], ◌∷◌, ◌++◌, map, Option, some, arith, Bytes, length,
  length-take, eq_of_some, subst, ◌≤◌, lt→ltb, ◌>>=◌,
}
use mathlib.Core.Option
use ichatd.Buffer.{Buffer, contents, buffer_size}
use ichatd.Memory.{Memory, size_at, text, texts, count, Counted, Kept}
use ichatd.Memory.Counts.{held_cell, count-append, ref_at_lem, unref_at_lem}
use ichatd.Memory.Queue.{Pointers, drop_at, free_entries}
use ichatd.Queue.{Queue}

pub Kept-trans :
    (m m' m'' : Memory) (xs ys zs : List ℕ)
    → Kept m m' xs
    → Kept m' m'' ys
    → ((q : ℕ) → 0 < count q zs → 0 < count q xs)
    → ((q : ℕ) → 0 < count q zs → 0 < count q ys)
    → Kept m m'' zs
unfolding Kept
Kept-trans m m' m'' xs ys zs f g in_x in_y q live = g q (in_y q live) ∙ f q (in_x q live)

pub Kept-sub :
    (m m' : Memory) (xs zs : List ℕ)
    → Kept m m' xs
    → ((q : ℕ) → 0 < count q zs → 0 < count q xs)
    → Kept m m' zs
unfolding Kept
Kept-sub m m' xs zs k sub q live = k q (sub q live)

-- What a list of references reads.
pub Kept-texts :
    (m m' : Memory) (ps held : List ℕ)
    → Kept m m' held
    → ((q : ℕ) → 0 < count q ps → 0 < count q held)
    → texts m' ps ≡ texts m ps
unfolding Kept
Kept-texts m m' [] held k in_held = refl
Kept-texts m m' (p ∷ ps) held k in_held =
    ap₂ (λ b bs. b ∷ bs) (k p (in_held p (ground arith)))
      (Kept-texts m m' ps held k (λ q live. in_held q (ground arith)))

-- `buffer_queue_free`: every reference of the queue is given up, and nothing else.
pub free_entries_lem :
    (ps held : List ℕ) (m : Memory)
    → Counted m (ps ++ held)
    → (m' : Memory) × (free_entries ps m ≡ some m') × Counted m' held × Kept m m' held
unfolding free_entries Kept
free_entries_lem [] held m c = (m, refl, c, λ q live. refl)
free_entries_lem (p ∷ ps) held m c =
    let (m₁, e₁, c₁, k₁) = unref_at_lem p m (ps ++ held) c in
    let (m₂, e₂, c₂, k₂) = free_entries_lem ps held m₁ c₁ in
    (
      m₂,
      rw (e₁, e₂, ◌>>=◌),
      c₂,
      Kept-trans m m₁ m₂ (ps ++ held) held held k₁ k₂
          (λ q live. omega (arith, count-append q ps held)) (λ q live. live),
    )

-- `buffer_size` is the size of the contents.
size_cell :
    (p : ℕ) (b : Bytes) (m : Memory) (buf : Buffer)
    → m.cell p ≡ some buf
    → 0 < buf.rc
    → buf.len ≤ length buf.block
    → text m p ≡ some b
    → size_at p m ≡ some (length b)
unfolding size_at buffer_size
size_cell p b m buf here live fits e =
    let same : contents buf ≡ b = eq_of_some (subst (λ o. Option.map contents o ≡ some b) here e) in
    let size : buf.len ≡ length b = omega (arith, length-take buf.len buf.block, ap length same) in
    rw (here, lt→ltb 0 buf.rc live, size, ◌>>=◌)

pub size_at_lem :
    (p : ℕ) (b : Bytes) (m : Memory) (held : List ℕ)
    → Counted m held
    → 0 < count p held
    → text m p ≡ some b
    → size_at p m ≡ some (length b)
unfolding Counted
size_at_lem p b m held c live e =
    let (buf, here, rc, fits) = held_cell (m.cell p) (c.0 p) live in
    size_cell p b m buf here (omega arith) fits e

-- buffer_unref (buffer_queue_pop_front (q)): the reference of the entry is given up.
pub drop_at_lem :
    (p : ℕ) (held : List ℕ) (m : Memory)
    → Counted m (p ∷ held)
    → (m' : Memory) × (drop_at p m ≡ some m') × Counted m' held × Kept m m' held
unfolding drop_at
drop_at_lem p held m c =
    let (m₁, e₁, c₁, k₁) = ref_at_lem p m (p ∷ held) c (ground arith) in
    let (m₂, e₂, c₂, k₂) = unref_at_lem p m₁ (p ∷ held) c₁ in
    let (m₃, e₃, c₃, k₃) = unref_at_lem p m₂ held c₂ in
    let k =
      Kept-trans m m₁ m₂ (p ∷ held) (p ∷ held) held k₁ k₂ (λ q live. ground arith)
        (λ q live. ground arith) in
    (
      m₃,
      rw (e₁, e₂, e₃),
      c₃,
      Kept-trans m m₂ m₃ held held held k k₃ (λ q live. live) (λ q live. live),
    )

-- The queue of pointers stands for the queue of contents.
unfoldable pub Represents : Memory → Pointers → Queue → Type 0
Represents m q v = (texts m q.entries ≡ map some v.entries) × (q.offset ≡ v.offset)

-- The memory and the queue of pointers that a run ends with: they stand for the queue of contents,
-- the references of the queue and all others are counted, and the others read what they read.
pub record Stands (m m' : Memory) (q : Pointers) (v : Queue) (held : List ℕ) : Type 0 where
  pub represents : Represents m' q v
  pub counted : Counted m' (q.entries ++ held)
  pub kept : Kept m m' held

abbrev pub pointers : List ℕ → ℕ → Pointers
pointers ps n = record { entries = ps; offset = n }

abbrev pub queue : List Bytes → ℕ → Queue
queue bs n = record { entries = bs; offset = n }

-- Where the run ends with what is at hand.
pub still :
    (q : Pointers) (v : Queue) (m : Memory) (held : List ℕ)
    → Counted m (q.entries ++ held)
    → Represents m q v
    → Stands m m q v held
unfolding Kept
still q v m held c r = record { represents = r; counted = c; kept = λ p live. refl }

-- A run from a later memory.
pub later :
    (m m₁ m' : Memory) (q : Pointers) (v : Queue) (held held₁ : List ℕ)
    → Kept m m₁ held₁
    → ((p : ℕ) → 0 < count p held → 0 < count p held₁)
    → Stands m₁ m' q v held
    → Stands m m' q v held
later m m₁ m' q v held held₁ k sub r = record {
  represents = r.represents;
  counted = r.counted;
  kept = Kept-trans m m₁ m' held₁ held held k r.kept sub (λ p live. live);
}

-- What a run over pointers answers: it meets no fault, and ends as the run over contents does.
unfoldable pub Follows : Option (Pointers × Memory) → Memory → Queue → List ℕ → Type 0
Follows r m v held = (q : Pointers) × (m' : Memory) × (r ≡ some (q, m')) × Stands m m' q v held
