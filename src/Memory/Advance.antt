-- ===== src/Memory/Advance.antt =====
-- The loop of `buffer_queue_advance_offset` of src/buffer_queue.c over shared buffers.
use ichatd.Common.{
  ℕ, ◌-◌, ◌≡◌, refl, sym, ◌∙◌, true, false, List, [], ◌∷◌, ◌++◌, map, some, arith, Bytes, length,
  eq_of_some, subst, leb, Bool-cases, inl, inr, ◌==◌, ◌>>=◌,
}
use ichatd.Memory.{Memory, size_at, text, texts, Counted}
use ichatd.Memory.Counts.{count-append}
use ichatd.Memory.Queue.{drop_at, advance_entries}
use ichatd.Queue.{Queue, advance}
use ichatd.Memory.Refine.{
  Kept-texts, size_at_lem, drop_at_lem, Represents, Stands, Follows, pointers, queue, still, later,
}

-- The three ways of one step of the loop of `buffer_queue_advance_offset`.
advance_done :
    (b : Bytes) (bs : List Bytes) (delta : ℕ)
    → (delta == 0) ≡ true
    → advance (b ∷ bs) delta ≡ some (record { entries = b ∷ bs; offset = 0 })
unfolding advance
advance_done b bs delta z = rw z refl

advance_popped :
    (b : Bytes) (bs : List Bytes) (delta : ℕ)
    → (delta == 0) ≡ false
    → leb (length b) delta ≡ true
    → advance (b ∷ bs) delta ≡ advance bs (delta - length b)
unfolding advance
advance_popped b bs delta z l = rw (z, l) refl

advance_within :
    (b : Bytes) (bs : List Bytes) (delta : ℕ)
    → (delta == 0) ≡ false
    → leb (length b) delta ≡ false
    → advance (b ∷ bs) delta ≡ some (record { entries = b ∷ bs; offset = delta })
unfolding advance
advance_within b bs delta z l = rw (z, l) refl

entries_popped :
    (p : ℕ) (ps : List ℕ) (delta size : ℕ) (m m' : Memory)
    → (delta == 0) ≡ false
    → size_at p m ≡ some size
    → leb size delta ≡ true
    → drop_at p m ≡ some m'
    → advance_entries (p ∷ ps) delta m ≡ advance_entries ps (delta - size) m'
unfolding advance_entries
entries_popped p ps delta size m m' z s l e = rw (z, s, ◌>>=◌, l, e) refl

pub advance_entries_lem :
    (ps : List ℕ) (bs : List Bytes) (delta : ℕ) (held : List ℕ) (m : Memory) (v : Queue)
    → Counted m (ps ++ held)
    → texts m ps ≡ map some bs
    → advance bs delta ≡ some v
    → Follows (advance_entries ps delta m) m v held
unfolding advance_entries Follows Represents advance
advance_entries_lem [] [] delta held m v c t h = elim (Bool-cases (delta == 0)) [
  | inl z ↦
      let q = pointers [] 0 in (q, m, rw z refl, still q v m held c (ground arith, ground arith))
  | inr z ↦ absurd (ground arith)
]
advance_entries_lem [] (b ∷ bs) delta held m v c t h = cc
advance_entries_lem (p ∷ ps) [] delta held m v c t h = cc
advance_entries_lem (p ∷ ps) (b ∷ bs) delta held m v c t h =
    let first : text m p ≡ some b = cc in
    let rest : texts m ps ≡ map some bs = cc in
    let size = size_at_lem p b m (p ∷ (ps ++ held)) c (ground arith) first in
    elim (Bool-cases (delta == 0)) [
      | inl z ↦
          let q = pointers (p ∷ ps) 0 in
          let e : queue (b ∷ bs) 0 ≡ v = eq_of_some (sym (advance_done b bs delta z) ∙ h) in
          (q, m, rw z refl, subst (λ x. Stands m m q x held) e (still q _ m held c (t, refl)))
      | inr z ↦ elim (Bool-cases (leb (length b) delta)) [
        | inl l ↦
            let (m₁, e₁, c₁, k₁) = drop_at_lem p (ps ++ held) m c in
            let kept-rest =
              Kept-texts m m₁ ps (ps ++ held) k₁
                (λ q live. omega (arith, count-append q ps held)) in
            let (q, m', e, r) =
              advance_entries_lem ps bs (delta - length b) held m₁ v c₁ (kept-rest ∙ rest)
                (sym (advance_popped b bs delta z l) ∙ h) in
            (
              q,
              m',
              entries_popped p ps delta (length b) m m₁ z size l e₁ ∙ e,
              later m m₁ m' q v held (ps ++ held) k₁
                  (λ p live. omega (arith, count-append p ps held)) r,
            )
        | inr l ↦
            let q = pointers (p ∷ ps) delta in
            let e : queue (b ∷ bs) delta ≡ v =
              eq_of_some (sym (advance_within b bs delta z l) ∙ h) in
            (
              q,
              m,
              rw (z, size, ◌>>=◌, l) refl,
              subst (λ x. Stands m m q x held) e (still q _ m held c (t, refl)),
            )
      ]
    ]
