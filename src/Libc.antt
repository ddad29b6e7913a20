-- ===== src/Libc.antt =====
-- What the code uses of <stdio.h>: formatted output into a block, with the text of the format
-- already put together.
use ichatd.Common.{
  ℕ, ◌+◌, ◌-◌, ◌≡◌, sym, ap, ◌∙◌, [], ◌∷◌, ◌++◌, append-nil, arith, Bytes, length, length-append,
  length-take, length-replicate, drop-length_le, ap₂, take, replicate, take-append_le, take-length,
}
use ichatd.Decimal.{number_len, decimal}
use ichatd.Decimal.RoundTrip.{length-decimal}
use ichatd.Buffer.{resized, write_at}

-- snprintf (p, size, …) at the front of a block: at most `size - 1` bytes, closed by a zero byte.
abbrev pub snprintf : ℕ → Bytes → Bytes → Bytes
snprintf size text block = write_at 0 (take (size - 1) text ++ 0 ∷ []) block

-- sprintf (p, …). It does not look at the block's size.
abbrev pub sprintf : Bytes → Bytes → Bytes
sprintf text block = write_at 0 (text ++ 0 ∷ []) block

length-fresh : (n : ℕ) → length (resized n []) ≡ n
length-fresh n = omega (
  arith,
  length-append (take {A = ℕ} n []) (replicate {A = ℕ} (n - 0) 0),
  length-take {A = ℕ} n [],
  length-replicate {A = ℕ} (n - 0) 0,
)

-- A fresh buffer with one byte more than the text takes all of it, and the closing zero byte.
pub sprintf_fits :
    (n : ℕ) (text : Bytes) → n ≡ length text → sprintf text (resized (n + 1) []) ≡ text ++ 0 ∷ []
sprintf_fits n text h =
    let all = length-append text (0 ∷ []) in
    let size = length-fresh (n + 1) in
    ap (λ r. text ++ 0 ∷ [] ++ r) (drop-length_le _ (resized (n + 1) []) (omega arith))
    ∙ append-nil (text ++ 0 ∷ [])

pub snprintf_fits :
    (n : ℕ) (text : Bytes)
    → n ≡ length text
    → snprintf (n + 1) text (resized (n + 1) []) ≡ text ++ 0 ∷ []
snprintf_fits n text h =
    let whole : take (n + 1 - 1) text ≡ text = take-length text (n + 1 - 1) (omega arith) in
    ap (λ t. sprintf t (resized (n + 1) [])) whole ∙ sprintf_fits n text h

-- Such a block without its last byte is the text.
pub resized-text : (n : ℕ) (text : Bytes) → n ≡ length text → resized n (text ++ 0 ∷ []) ≡ text
resized-text n text h =
    let all = length-append text (0 ∷ []) in
    let front : take n (text ++ 0 ∷ []) ≡ text =
      take-append_le n text (0 ∷ []) (omega arith) ∙ take-length text n h in
    let gap : n - length (text ++ 0 ∷ []) ≡ 0 = omega arith in
    ap₂ (λ t k. t ++ replicate k 0) front gap ∙ append-nil text

-- The head of a message: `number_len (n) + 1` bytes hold the decimal print and its zero byte.
pub sprintf-decimal :
    (n : ℕ) → sprintf (decimal n) (resized (number_len n + 1) []) ≡ decimal n ++ 0 ∷ []
sprintf-decimal n = sprintf_fits (number_len n) (decimal n) (sym (length-decimal n))
