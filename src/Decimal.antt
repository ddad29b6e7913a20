-- ===== src/Decimal.antt =====
-- Decimal numbers: `number_len` of src/misc.c, and what the code uses of the C library to print
-- ("%zu") and to read (`strtol (s, &end, 10)`) them.
pub mod RoundTrip
pub mod Local
use ichatd.Common.{
  ℕ, zero, suc, ◌+◌, ◌-◌, ◌*◌, ◌/◌, ◌%◌, ◌^◌, ◌≡◌, refl, Bool, true, false, ◌&&◌, ◌||◌, List, [],
  ◌∷◌, ◌++◌, Bytes, codes, ltb, leb, ◌==◌, if◌then◌else◌, ℤ, pos, negsuc, negate,
}

-- `size_t number_len (size_t number)`, on fuel: each call divides the number by ten.
number_len_fuel : ℕ → ℕ → ℕ
number_len_fuel zero n = 1
number_len_fuel (suc f) n = elim (ltb n 10) [ true ↦ 1 | false ↦ 1 + number_len_fuel f (n / 10) ]

unfoldable pub number_len : ℕ → ℕ
unfolding number_len_fuel
number_len n = number_len_fuel n n

digits_fuel : ℕ → ℕ → Bytes
digits_fuel zero n = (b'0' + n % 10) ∷ []
digits_fuel (suc f) n = elim (ltb n 10) [
  | true ↦ (b'0' + n) ∷ []
  | false ↦ digits_fuel f (n / 10) ++ (b'0' + n % 10) ∷ []
]

-- What `sprintf (p, "%zu", n)` writes, without the closing zero.
unfoldable pub decimal : ℕ → Bytes
unfolding digits_fuel
decimal n = digits_fuel n n

abbrev pub is_digit : ℕ → Bool
is_digit c = leb b'0' c && leb c b'9'

-- isspace of the C locale.
abbrev pub is_space : ℕ → Bool
is_space c = c == b' ' || (leb 9 c && leb c 13)

skip_space : Bytes → Bytes
skip_space [] = []
skip_space (c ∷ s) = if is_space c then skip_space s else c ∷ s

-- The digits at the front, read on from `acc`; the flag tells whether there was one.
scan_digits : ℕ → Bool → Bytes → ℕ × Bool
scan_digits acc any [] = (acc, any)
scan_digits acc any (c ∷ s) =
    let more = scan_digits (acc * 10 + (c - b'0')) true s in if is_digit c then more else (acc, any)

abbrev pub long_max : ℕ
long_max = 2 ^ 63 - 1

-- What `strtol` gives: `value`; `end_ptr != s` is `used`; `errno == ERANGE` is `erange`.
pub record Strtol : Type 0 where
  pub value : ℤ
  pub used : Bool
  pub erange : Bool

abbrev positive : ℕ × Bool → Strtol
positive (n, any) =
    if leb n long_max
    then record { value = pos n; used = any; erange = false }
    else record { value = pos long_max; used = any; erange = true }

abbrev negative : ℕ × Bool → Strtol
negative (n, any) =
    if leb n (long_max + 1)
    then record { value = negate n; used = any; erange = false }
    else record { value = negsuc long_max; used = any; erange = true }

abbrev signed : Bytes → Strtol
signed [] = record { value = pos 0; used = false; erange = false }
signed (c ∷ s) =
    if c == b'-'
    then negative (scan_digits 0 false s)
    else if c == b'+'
    then positive (scan_digits 0 false s)
    else positive (scan_digits 0 false (c ∷ s))

-- The text ends at its first byte that is no part of the number, at latest at its zero byte.
unfoldable pub strtol : Bytes → Strtol
unfolding skip_space scan_digits
strtol s = signed (skip_space s)

strtol_reads : strtol (codes " 42x") ≡ record { value = pos 42; used = true; erange = false }
unfolding strtol
strtol_reads = refl

strtol_negative : strtol (codes "-7") ≡ record { value = negsuc 6; used = true; erange = false }
unfolding strtol
strtol_negative = refl

strtol_nothing : (strtol (codes "abc")).used ≡ false
unfolding strtol
strtol_nothing = refl

strtol_clamps : (strtol (codes "9999999999999999999")).value ≡ pos long_max
unfolding strtol
strtol_clamps = refl

decimal_prints : decimal 4192 ≡ codes "4192"
unfolding decimal
decimal_prints = refl
