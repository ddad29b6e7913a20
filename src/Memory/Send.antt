-- ===== src/Memory/Send.antt =====
-- What the `add_message` operations leave: src/ichat/client/ichat_client_ops.c,
-- src/ichat/s2s_client/ichat_s2s_client_ops.c and src/ctl/client/ctl_client_ops.c over shared buffers.
use ichatd.Common.{
  ℕ, ◌<◌, ◌≡◌, refl, ◌∙◌, ap₂, List, [], ◌∷◌, ◌++◌, map, some, arith, Bytes, length, ◌>>=◌,
}
use ichatd.Memory.{Memory, text, texts, count, Counted, Kept}
use ichatd.Memory.Counts.{count-append, Counted-reorder}
use ichatd.Memory.Queue.{Pointers}
use ichatd.Memory.Refine.{
  Represents, Follows, still, later, Kept-texts, Kept-trans, free_entries_lem,
}
use ichatd.Memory.Write.{append_entry_lem}
use ichatd.Memory.Fill.{new_buffer, new_buffer_lem}
use ichatd.Memory.Messages.{append_entries, send}
use ichatd.Queue.{Queue, buffer_queue_append}
use ichatd.Queue.Stream.{append_all}

-- Several appends: what is referred to goes into the queue, in order.
pub append_entries_lem :
    (ps : List ℕ) (bs : List Bytes) (q : Pointers) (v : Queue) (held : List ℕ) (m : Memory)
    → Counted m (q.entries ++ held)
    → Represents m q v
    → ((r : ℕ) → 0 < count r ps → 0 < count r held)
    → texts m ps ≡ map some bs
    → Follows (append_entries ps q m) m (append_all v bs) held
unfolding append_entries Follows
append_entries_lem [] [] q v held m c r sub t = (q, m, refl, still q v m held c r)
append_entries_lem [] (b ∷ bs) q v held m c r sub t = cc
append_entries_lem (p ∷ ps) [] q v held m c r sub t = cc
append_entries_lem (p ∷ ps) (b ∷ bs) q v held m c r sub t =
    let first : text m p ≡ some b = cc in
    let rest : texts m ps ≡ map some bs = cc in
    let (q₁, m₁, e₁, r₁) = append_entry_lem p b q v held m c r (sub p (ground arith)) first in
    let more = Kept-texts m m₁ ps held r₁.kept (λ x l. sub x (ground arith)) in
    let (q₂, m₂, e₂, r₂) =
      append_entries_lem ps bs q₁ (buffer_queue_append v b) held m₁ r₁.counted r₁.represents
        (λ x l. sub x (ground arith)) (more ∙ rest) in
    (
      q₂,
      m₂,
      rw (e₁, ◌>>=◌, e₂) refl,
      later m m₁ m₂ q₂ (append_all v (b ∷ bs)) held held r₁.kept (λ x l. l) r₂,
    )

-- The references of a function in the middle of its run: its own, with what they read, and the rest.
pub record Made (m₀ m : Memory) (own : List ℕ) (bs : List Bytes) (held : List ℕ) : Type 0 where
  pub counted : Counted m (own ++ held)
  pub kept : Kept m₀ m held
  pub read : texts m own ≡ map some bs

pub send_lem :
    (pieces own : List ℕ) (sent bs : List Bytes) (q : Pointers) (v : Queue) (held : List ℕ)
    (m₀ m : Memory)
    → Made m₀ m own bs (q.entries ++ held)
    → Represents m₀ q v
    → ((r : ℕ) → 0 < count r pieces → 0 < count r (own ++ held))
    → texts m pieces ≡ map some sent
    → Follows (send pieces own q m) m₀ (append_all v sent) held
unfolding send Follows Represents
send_lem pieces own sent bs q v held m₀ m made (t, o) sub read =
    let c₁ =
      Counted-reorder m (own ++ (q.entries ++ held)) (q.entries ++ (own ++ held))
        (λ r. omega (
          arith,
          count-append r own (q.entries ++ held),
          count-append r q.entries held,
          count-append r q.entries (own ++ held),
          count-append r own held,
        ))
        made.counted in
    let now =
      Kept-texts m₀ m q.entries (q.entries ++ held) made.kept
        (λ r l. omega (arith, count-append r q.entries held)) in
    let (q', m₁, e, r) =
      append_entries_lem pieces sent q v (own ++ held) m c₁ (now ∙ t, o) sub read in
    let c₂ =
      Counted-reorder m₁ (q'.entries ++ (own ++ held)) (own ++ (q'.entries ++ held))
        (λ r. omega (
          arith,
          count-append r own (q'.entries ++ held),
          count-append r q'.entries held,
          count-append r q'.entries (own ++ held),
          count-append r own held,
        ))
        r.counted in
    let (m₂, f, c₃, k₃) = free_entries_lem own (q'.entries ++ held) m₁ c₂ in
    let after =
      Kept-texts m₁ m₂ q'.entries (q'.entries ++ held) k₃
        (λ r l. omega (arith, count-append r q'.entries held)) in
    (
      q',
      m₂,
      rw (e, ◌>>=◌, f) refl,
      record {
        represents = (after ∙ r.represents.0, r.represents.1);
        counted = c₃;
        kept =
            Kept-trans m₀ m₁ m₂ held (q'.entries ++ held) held
              (Kept-trans m₀ m m₁ (q.entries ++ held) (own ++ held) held made.kept r.kept
                (λ r l. omega (arith, count-append r q.entries held))
                (λ r l. omega (arith, count-append r own held)))
              k₃ (λ r l. l) (λ r l. omega (arith, count-append r q'.entries held));
      },
    )

module _ (junk : ℕ → Bytes) (enough : (n : ℕ) → length (junk n) ≡ n) where
  pub new_buffer-Made :
      (m₀ m : Memory) (own : List ℕ) (bs : List Bytes) (held : List ℕ) (b : Bytes)
      → Made m₀ m own bs held
      → (p : ℕ) × (m' : Memory) × (new_buffer junk b m ≡ some (p, m'))
        × Made m₀ m' (p ∷ own) (b ∷ bs) held
  new_buffer-Made m₀ m own bs held b made =
      let (p, m', e, f) = new_buffer_lem junk enough b (own ++ held) m made.counted in
      let old =
        Kept-texts m m' own (own ++ held) f.kept (λ r l. omega (arith, count-append r own held)) in
      (
        p,
        m',
        e,
        record {
          counted = f.counted;
          kept =
              Kept-trans m₀ m m' held (own ++ held) held made.kept f.kept (λ r l. l)
                (λ r l. omega (arith, count-append r own held));
          read = ap₂ (λ x y. x ∷ y) f.reads (old ∙ made.read);
        },
      )
