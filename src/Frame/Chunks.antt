-- ===== src/Frame/Chunks.antt =====
-- How the input arrives does not matter: the bytes of a message may come in any pieces.
use ichatd.Common.{
  ℕ, ◌+◌, ◌≤◌, ◌≡◌, refl, sym, ap, ◌∙◌, ◌∷◌, ◌++◌, append_assoc, Option, none, some, arith, Bytes,
  length, take, drop, length-append, length-drop, cut_at, cut_at_inv, inl, inr, take-append_le,
  drop-append_le, take-append-drop, dec_lt, ◌⊎◌, subst,
}
use ichatd.Decimal.{strtol}
use ichatd.Decimal.Local.{strtol_local}
use ichatd.Frame.RoundTrip.{long_enough}
use ichatd.Frame.{Round, wait, bad, message, header_size, body_at, behind_number, next_frame}

-- A verdict that more bytes do not change; a message leaves the new bytes behind it.
abbrev pub extend : Bytes → Round → Round
extend q wait = wait
extend q bad = bad
extend q (message body rest) = message body (rest ++ q)

abbrev Settled : Round → Type 0
Settled wait = ⊥
Settled bad = Unit {0}
Settled (message body rest) = Unit {0}

body_at-append :
    (p q : Bytes) (start : ℕ) (size : Option ℕ)
    → Settled (body_at p start size)
    → body_at (p ++ q) start size ≡ extend q (body_at p start size)
body_at-append p q start none h = refl
body_at-append p q start (some n) h = elim (dec_lt (length p) (n + start)) [
  | yes short ↦ absurd (ground arith)
  | no enough ↦ ground (
    arith,
    length-append p q,
    length-drop start p,
    drop-append_le start p q (omega arith),
    take-append_le n (drop start p) q (omega (arith, length-drop start p)),
    drop-append_le (n + start) p q (omega arith),
  )
]

strtol_prefix :
    (p q number rest : Bytes)
    → cut_at 0 (take 20 p) ≡ some (number, rest)
    → strtol (p ++ q) ≡ strtol p
strtol_prefix p q number rest h =
    let (split, _) = cut_at_inv 0 (take 20 p) number rest h in
    let whole : p ≡ number ++ 0 ∷ (rest ++ drop 20 p) =
      sym (take-append-drop 20 p)
      ∙ ap (λ r. r ++ drop 20 p) split
      ∙ append_assoc number (0 ∷ rest) (drop 20 p) in
    ap strtol (ap (λ r. r ++ q) whole ∙ append_assoc number (0 ∷ (rest ++ drop 20 p)) q)
    ∙ strtol_local number (rest ++ drop 20 p ++ q) (rest ++ drop 20 p)
    ∙ ap strtol (sym whole)

behind_number-append :
    (p q : Bytes) (cut : Option (Bytes × Bytes))
    → cut_at 0 (take 20 p) ≡ cut
    → Settled (behind_number p cut)
    → behind_number (p ++ q) cut ≡ extend q (behind_number p cut)
behind_number-append p q none e h = absurd h
behind_number-append p q (some (number, rest)) e h =
    rw (strtol_prefix p q number rest e)
      (body_at-append p q (length number + 1) (header_size (strtol p)) h)

-- A round of the loop waits for more input, or more input changes nothing of what it has found: a
-- bad header stays, and a message stays with the new bytes at the end of the buffer.
pub next_frame-append :
    (p q : Bytes) → (next_frame p ≡ wait) ⊎ (next_frame (p ++ q) ≡ extend q (next_frame p))
unfolding next_frame
next_frame-append p q = elim (dec_lt (length p) 20) [
  | yes short ↦ inl (ground arith)
  | no enough ↦
      let front : take 20 (p ++ q) ≡ take 20 p = take-append_le 20 p q (omega arith) in
      let longer : 20 ≤ length (p ++ q) = omega (arith, length-append p q) in
      rw (long_enough p (omega arith), long_enough (p ++ q) longer, front)
        (settle (behind_number p (cut_at 0 (take 20 p))) refl)
]
  where
    settle :
        (r : Round)
        → behind_number p (cut_at 0 (take 20 p)) ≡ r
        → (behind_number p (cut_at 0 (take 20 p)) ≡ wait)
          ⊎ (behind_number (p ++ q) (cut_at 0 (take 20 p))
              ≡ extend q (behind_number p (cut_at 0 (take 20 p))))
    settle wait e = inl e
    settle bad e = inr (behind_number-append p q _ refl (subst Settled (sym e) tt))
    settle (message m r) e = inr (behind_number-append p q _ refl (subst Settled (sym e) tt))
