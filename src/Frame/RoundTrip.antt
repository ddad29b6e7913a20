-- ===== src/Frame/RoundTrip.antt =====
-- A frame is read back as its body, however many bytes stand behind it.
use ichatd.Common.{
  ℕ, zero, suc, ◌+◌, ◌-◌, ◌≤◌, ◌≡◌, refl, sym, ap, ◌∙◌, true, false, [], ◌∷◌, ◌++◌, append_assoc,
  some, arith, Bytes, length, take, drop, length-append, ltb, pos, cut_at, cut_at-append, Lacks,
  drop-append_ge, drop-drop, take-append_le, take-length,
}
use ichatd.Decimal.{decimal}
use ichatd.Decimal.RoundTrip.{length-decimal, Lacks-decimal, strtol-decimal, number_len-le}
use ichatd.Frame.{frame, message, header_size, body_at, next_frame}

pub take-append_ge :
    (n : ℕ) (a b : Bytes) → length a ≤ n → take n (a ++ b) ≡ a ++ take (n - length a) b
take-append_ge n [] b h = ap (λ k. take k b) (let e : n ≡ n - 0 = omega arith in e)
take-append_ge zero (x ∷ a) b h = elim h [ ]
take-append_ge (suc n) (x ∷ a) b h =
    let e : n - length a ≡ suc n - suc (length a) = omega arith in
    ap (λ r. x ∷ r) (take-append_ge n a b (omega arith) ∙ ap (λ k. a ++ take k b) e)

-- The zero byte behind a number of at most 19 bytes is found.
pub cut_at-take :
    (a b : Bytes)
    → Lacks 0 a
    → length a ≤ 19
    → cut_at 0 (take 20 (a ++ 0 ∷ b)) ≡ some (a, take (19 - length a) b)
cut_at-take a b h fits =
    let e : 20 - length a ≡ suc (19 - length a) = omega arith in
    ap (cut_at 0) (take-append_ge 20 a (0 ∷ b) (omega arith) ∙ ap (λ k. a ++ take k (0 ∷ b)) e)
    ∙ cut_at-append 0 a (take (19 - length a) b) h

pub long_enough : (p : Bytes) → 20 ≤ length p → ltb (length p) 20 ≡ false
long_enough p h = ground arith

header_size-number :
    (n : ℕ)
    → 20 ≤ n
    → n ≤ 4192
    → header_size (record { value = pos n; used = true; erange = false }) ≡ some n
unfolding header_size
header_size-number n p q = ground arith

pub length-decimal_le : (n : ℕ) → n ≤ 4192 → length (decimal n) ≤ 4
length-decimal_le n h = omega (arith, length-decimal n, number_len-le n (omega arith))

-- The bytes behind a header, taken apart at the size in it.
pub body_at_lem :
    (a body rest : Bytes)
    → body_at (a ++ 0 ∷ (body ++ rest)) (length a + 1) (some (length body)) ≡ message body rest
body_at_lem a body rest =
    let all = a ++ 0 ∷ (body ++ rest) in
    let size = length-append a (0 ∷ (body ++ rest)) in
    let size' = length-append body rest in
    let behind : drop (length a + 1) all ≡ body ++ rest =
      drop-append_ge (length a + 1) a (0 ∷ (body ++ rest)) (omega arith)
      ∙ ap (λ k. drop k (0 ∷ (body ++ rest)))
          (let e : length a + 1 - length a ≡ 1 = omega arith in e) in
    let left : drop (length body + (length a + 1)) all ≡ rest =
      ap (λ k. drop k all)
        (let e : length body + (length a + 1) ≡ length a + 1 + length body = omega arith in e)
      ∙ sym (drop-drop (length body) (length a + 1) all)
      ∙ ap (drop (length body)) behind
      ∙ drop-append_ge (length body) body rest (omega arith)
      ∙ ap (λ k. drop k rest) (let e : length body - length body ≡ 0 = omega arith in e) in
    let first : take (length body) (drop (length a + 1) all) ≡ body =
      ap (take (length body)) behind
      ∙ take-append_le (length body) body rest (omega arith)
      ∙ take-length body (length body) refl in
    ground (arith, behind, left, first)

-- A message of 20 to 4192 bytes behind its length is found as it was sent, and what follows it is
-- left.
pub next_frame-frame :
    (body rest : Bytes)
    → 20 ≤ length body
    → length body ≤ 4192
    → next_frame (frame body ++ rest) ≡ message body rest
unfolding next_frame
next_frame-frame body rest p q =
    let n = length body in
    let small = length-decimal_le n q in
    let size = length-append (decimal n) (0 ∷ (body ++ rest)) in
    let size' = length-append body rest in
    let fits : 20 ≤ length (decimal n ++ 0 ∷ (body ++ rest)) = omega arith in
    let cut = cut_at-take (decimal n) (body ++ rest) (Lacks-decimal n) (omega arith) in
    let read = strtol-decimal n (0 ∷ (body ++ rest)) (omega arith) refl in
    rw (append_assoc (decimal n) (0 ∷ body) rest, long_enough _ fits, cut, read)
      (rw (header_size-number n p q) (body_at_lem (decimal n) body rest))
