-- ===== src/Memory/Fill.antt =====
-- New buffers with contents: `buffer_alloc`, `buffer_set_size` and `memcpy` of src/buffer.c, the way
-- that the source makes the pieces of a message.
use ichatd.Common.{ℕ, ◌≡◌, refl, ◌∙◌, ap, List, ◌∷◌, Option, some, arith, Bytes, length, ◌>>=◌}
use mathlib.Core.Option
use ichatd.Buffer.{Buffer, contents, write_at, buffer_alloc, buffer_set_size}
use ichatd.Buffer.Laws.{IsValid, buffer_set_size_lem, take-write_at, length-write_at}
use ichatd.Memory.{Memory, update, store, alloc_at, fill_at, text, count, Counted, Kept}
use ichatd.Memory.Counts.{alloc_at-Counted, alloc_at-Kept, store-Counted, store-Kept, same}
use ichatd.Memory.Refine.{Kept-trans}

-- struct buffer * b = buffer_alloc (); buffer_set_size (b, size); memcpy (buffer_data (b), bytes, size).
unfoldable pub new_buffer : (ℕ → Bytes) → Bytes → Memory → Option (ℕ × Memory)
new_buffer junk bytes m =
    let (p, m₁) = alloc_at m in do m₂ ← fill_at junk p (length bytes) bytes m₁; some (p, m₂)

-- What is known of a new buffer: one more reference, to a buffer with these contents that no one
-- else has; the other buffers read what they read.
pub record Fresh (bytes : Bytes) (m m' : Memory) (p : ℕ) (held : List ℕ) : Type 0 where
  pub counted : Counted m' (p ∷ held)
  pub kept : Kept m m' held
  pub reads : text m' p ≡ some bytes

update_here : (f : ℕ → Option Buffer) (p : ℕ) (v : Option Buffer) → update f p v p ≡ v
update_here f p v = rw (same p) refl

fill_cell :
    (junk : ℕ → Bytes) (p n : ℕ) (bytes : Bytes) (m : Memory) (b b' : Buffer)
    → m.cell p ≡ some b
    → buffer_set_size junk b n ≡ some b'
    → fill_at junk p n bytes m
      ≡ some (store p (some (record b' { block = write_at 0 bytes b'.block })) m)
unfolding fill_at
fill_cell junk p n bytes m b b' here e = rw (here, ◌>>=◌, e) refl

module _ (junk : ℕ → Bytes) (enough : (n : ℕ) → length (junk n) ≡ n) where
  pub new_buffer_lem :
      (bytes : Bytes) (held : List ℕ) (m : Memory)
      → Counted m held
      → (p : ℕ) × (m' : Memory) × (new_buffer junk bytes m ≡ some (p, m')) × Fresh bytes m m' p held
  unfolding new_buffer Counted buffer_alloc alloc_at
  new_buffer_lem bytes held m c =
      let p = m.next in
      let m₁ = (alloc_at m).1 in
      let valid : IsValid buffer_alloc = record {
        referenced = omega arith;
        in_block = omega arith;
        recorded = omega arith;
      } in
      let (b', e, v, shows, size, refs) =
        buffer_set_size_lem junk enough buffer_alloc (length bytes) valid in
      let b'' = record b' { block = write_at 0 bytes b'.block } in
      let none_else : count p held ≡ 0 = c.1 p (omega arith) in
      let fits = length-write_at 0 bytes (b'.block) (omega (arith, size, v.in_block)) in
      let c₁ = alloc_at-Counted m held c in
      (
        p,
        store p (some b'') m₁,
        rw
            (fill_cell junk p (length bytes) bytes m₁ buffer_alloc b'
              (update_here m.cell p (some buffer_alloc)) e)
            refl,
        record {
          counted =
              store-Counted p (some b'') m₁ (p ∷ held) (p ∷ held) c₁ (omega arith)
                (
                  ground (arith, none_else, refs),
                  ground arith,
                  omega (arith, fits, size, v.in_block, size),
                )
                (λ q e. refl);
          kept =
              Kept-trans m m₁ (store p (some b'') m₁) held held held (alloc_at-Kept m held c)
                (store-Kept p (some b'') m₁ held (λ live. absurd (omega arith))) (λ q l. l)
                (λ q l. l);
          reads =
              ap (Option.map contents) (update_here (m₁.cell) p (some b''))
              ∙ ap some
                  (take-write_at 0 (b'.len) bytes (b'.block) (omega arith) (omega (arith, size)));
        },
      )
