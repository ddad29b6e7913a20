-- ===== src/Common/ByteStrings.antt =====
-- Byte strings: C memory as lists of numbers, with `memchr`, `memcmp` and the literals.
use Prim.Native.Nat.{ℕ}
use Prim.Native.Char.{code}
use Prim.Native.String.{String}
use mathlib.Core.Path.{◌≡◌, refl}
use mathlib.Core.Logic.{◌≢◌}
use mathlib.Core.Bool.{Bool, true, false, ◌&&◌}
use mathlib.Core.Option.{Option, none, some}
use mathlib.Core.List.{List, [], ◌∷◌, ◌++◌}
use native.Mathlib.Omega.{arith}
use ichatd.Common.Tests.{◌==◌, if◌then◌else◌}

abbrev pub Bytes : Type 0
Bytes = List ℕ

-- The bytes of an ASCII literal, without the closing zero.
abbrev pub codes : String → Bytes
codes String.[] = []
codes (String.◌∷◌ c s) = code c ∷ codes s

-- memcmp (a, b, n) == 0 for two strings of n bytes, and strcmp (a, b) == 0.
abbrev pub eq_bytes : Bytes → Bytes → Bool
eq_bytes [] [] = true
eq_bytes [] (y ∷ ys) = false
eq_bytes (x ∷ xs) [] = false
eq_bytes (x ∷ xs) (y ∷ ys) = x == y && eq_bytes xs ys

pub eq_bytes→eq : (a b : Bytes) → eq_bytes a b ≡ true → a ≡ b
eq_bytes→eq [] [] h = refl
eq_bytes→eq [] (y ∷ b) h = ground arith
eq_bytes→eq (x ∷ a) [] h = ground arith
eq_bytes→eq (x ∷ a) (y ∷ b) h = ground (arith, eq_bytes→eq a b)

pub eq_bytes_refl : (a : Bytes) → eq_bytes a a ≡ true
eq_bytes_refl [] = refl
eq_bytes_refl (x ∷ a) = ground (arith, eq_bytes_refl a)

abbrev add_front : ℕ → Option (Bytes × Bytes) → Option (Bytes × Bytes)
add_front x none = none
add_front x (some (a, b)) = some (x ∷ a, b)

-- memchr (p, c, n): what stands before the first `c`, and what stands behind it.
unfoldable pub cut_at : ℕ → Bytes → Option (Bytes × Bytes)
cut_at c [] = none
cut_at c (x ∷ xs) = if x == c then some ([], xs) else add_front x (cut_at c xs)

-- No byte of the string is `c`.
abbrev pub Lacks : ℕ → Bytes → Type 0
Lacks c [] = Unit {0}
Lacks c (x ∷ xs) = (x ≢ c) × Lacks c xs

pub cut_at-append : (c : ℕ) (a b : Bytes) → Lacks c a → cut_at c (a ++ c ∷ b) ≡ some (a, b)
unfolding cut_at
cut_at-append c [] b h = ground arith
cut_at-append c (x ∷ a) b h = ground (arith, cut_at-append c a b h.1)

pub cut_at_inv : (c : ℕ) (s a b : Bytes) → cut_at c s ≡ some (a, b) → (s ≡ a ++ c ∷ b) × Lacks c a
unfolding cut_at
cut_at_inv c [] a b h = cc
cut_at_inv c (x ∷ s) [] b h = ground arith
cut_at_inv c (x ∷ s) (y ∷ a) b h = ground (arith, cut_at_inv c s a b)

pub cut_at-none : (c : ℕ) (s : Bytes) → Lacks c s → cut_at c s ≡ none
unfolding cut_at
cut_at-none c [] h = refl
cut_at-none c (x ∷ s) h = ground (arith, cut_at-none c s h.1)

pub Lacks-append : (c : ℕ) (a b : Bytes) → Lacks c a → Lacks c b → Lacks c (a ++ b)
Lacks-append c [] b ha hb = hb
Lacks-append c (x ∷ a) b ha hb = (ha.0, Lacks-append c a b ha.1 hb)
