-- ===== src/Decimal/RoundTrip.antt =====
-- A printed number takes `number_len` bytes, and `strtol` reads it back.
use native.Mathlib.Nat.{pow-suc}
use ichatd.Common.{
  ℕ, zero, suc, ◌+◌, ◌*◌, ◌/◌, ◌%◌, ◌^◌, ◌≤◌, ◌<◌, ◌≡◌, ◌≢◌, refl, Bool, true, false, [], ◌∷◌, ◌++◌,
  append_assoc, arith, Bytes, length, length-append, leb, if◌then◌else◌, pos, Lacks, Lacks-append,
}
use ichatd.Decimal.{
  number_len_fuel, number_len, digits_fuel, decimal, is_digit, scan_digits, long_max, strtol,
}

length-digits_fuel : (f n : ℕ) → length (digits_fuel f n) ≡ number_len_fuel f n
unfolding digits_fuel number_len_fuel
length-digits_fuel zero n = refl
length-digits_fuel (suc f) n = ground (
  arith,
  length-digits_fuel f (n / 10),
  length-append (digits_fuel f (n / 10)) ((b'0' + n % 10) ∷ []),
)

-- `number_len` counts the bytes that "%zu" prints, for every number.
pub length-decimal : (n : ℕ) → length (decimal n) ≡ number_len n
unfolding decimal number_len
length-decimal n = length-digits_fuel n n

scan_digit :
    (acc : ℕ) (any : Bool) (d : ℕ) (s : Bytes)
    → d < 10
    → scan_digits acc any ((b'0' + d) ∷ s) ≡ scan_digits (acc * 10 + d) true s
unfolding scan_digits
scan_digit acc any d s h = ground arith

scan-digits_fuel :
    (f n : ℕ) (any : Bool) (s : Bytes)
    → n ≤ f
    → scan_digits 0 any (digits_fuel f n ++ s) ≡ scan_digits n true s
unfolding digits_fuel
scan-digits_fuel zero n any s h = ground (arith, scan_digit 0 any (n % 10) s)
scan-digits_fuel (suc f) n any s h = ground (
  arith,
  scan_digit 0 any n s,
  append_assoc (digits_fuel f (n / 10)) ((b'0' + n % 10) ∷ []) s,
  scan-digits_fuel f (n / 10) any ((b'0' + n % 10) ∷ s),
  scan_digit (n / 10) true (n % 10) s,
)

-- What stands in front of a printed number is a digit.
abbrev StartsWithDigit : Bytes → Type 0
StartsWithDigit [] = ⊥
StartsWithDigit (c ∷ s) = (b'0' ≤ c) × (c ≤ b'9')

StartsWithDigit-append : (a b : Bytes) → StartsWithDigit a → StartsWithDigit (a ++ b)
StartsWithDigit-append [] b h = absurd h
StartsWithDigit-append (c ∷ a) b h = h

StartsWithDigit-digits_fuel : (f n : ℕ) → StartsWithDigit (digits_fuel f n)
unfolding digits_fuel
StartsWithDigit-digits_fuel zero n = omega arith
StartsWithDigit-digits_fuel (suc f) n =
    let last = (b'0' + n % 10) ∷ [] in
    ground (
      arith,
      StartsWithDigit-append (digits_fuel f (n / 10)) last (StartsWithDigit-digits_fuel f (n / 10)),
    )

strtol_digits :
    (s : Bytes)
    → StartsWithDigit s
    → strtol s ≡ (
        let (n, any) = scan_digits 0 false s in
        if leb n long_max
        then record { value = pos n; used = any; erange = false }
        else record { value = pos long_max; used = any; erange = true })
unfolding strtol
strtol_digits [] h = absurd h
strtol_digits (c ∷ s) h = ground arith

-- No digit stands in front.
abbrev pub EndsNumber : Bytes → Type 0
EndsNumber [] = Unit {0}
EndsNumber (c ∷ s) = is_digit c ≡ false

scan-EndsNumber : (n : ℕ) (s : Bytes) → EndsNumber s → scan_digits n true s ≡ (n, true)
unfolding scan_digits
scan-EndsNumber n [] h = refl
scan-EndsNumber n (c ∷ s) h = ground arith

-- A printed number that fits a `long`, with no digit behind it, is read back by `strtol`.
pub strtol-decimal :
    (n : ℕ) (s : Bytes)
    → n ≤ long_max
    → EndsNumber s
    → strtol (decimal n ++ s) ≡ record { value = pos n; used = true; erange = false }
unfolding decimal
strtol-decimal n s h ends =
    let d = StartsWithDigit-append (digits_fuel n n) s (StartsWithDigit-digits_fuel n n) in
    rw (strtol_digits _ d, scan-digits_fuel n n false s (omega arith), scan-EndsNumber n s ends)
      (ground arith)

Lacks-digits_fuel : (f n : ℕ) → Lacks 0 (digits_fuel f n)
unfolding digits_fuel
Lacks-digits_fuel zero n = (omega arith, tt)
Lacks-digits_fuel (suc f) n = ground (
  arith,
  Lacks-digits_fuel f (n / 10),
  Lacks-append 0 (digits_fuel f (n / 10)) ((b'0' + n % 10) ∷ []) (Lacks-digits_fuel f (n / 10)),
)

pub Lacks-decimal : (n : ℕ) → Lacks 0 (decimal n)
unfolding decimal
Lacks-decimal n = Lacks-digits_fuel n n

-- No digit is a blank.
Lacks-digits_fuel_low : (k f n : ℕ) → k < b'0' → Lacks k (digits_fuel f n)
unfolding digits_fuel
Lacks-digits_fuel_low k zero n h = (omega arith, tt)
Lacks-digits_fuel_low k (suc f) n h = ground (
  arith,
  Lacks-append k (digits_fuel f (n / 10)) ((b'0' + n % 10) ∷ [])
      (Lacks-digits_fuel_low k f (n / 10) h),
)

pub Lacks-decimal_low : (k n : ℕ) → k < b'0' → Lacks k (decimal n)
unfolding decimal
Lacks-decimal_low k n h = Lacks-digits_fuel_low k n n h

StartsWithDigit-ne-nil : (s : Bytes) → StartsWithDigit s → s ≢ []
StartsWithDigit-ne-nil [] h = absurd h
StartsWithDigit-ne-nil (c ∷ s) h = ground arith

pub decimal-ne-nil : (n : ℕ) → decimal n ≢ []
unfolding decimal
decimal-ne-nil n = StartsWithDigit-ne-nil (digits_fuel n n) (StartsWithDigit-digits_fuel n n)

number_len_fuel-le : (k f n : ℕ) → n < 10 ^ suc k → number_len_fuel f n ≤ suc k
unfolding number_len_fuel
number_len_fuel-le k zero n h = omega arith
number_len_fuel-le zero (suc f) n h = ground arith
number_len_fuel-le (suc k) (suc f) n h =
    ground (arith, pow-suc 10 (suc k), number_len_fuel-le k f (n / 10))

-- The length of a message takes four digits.
pub number_len-le : (n : ℕ) → n < 10000 → number_len n ≤ 4
unfolding number_len
number_len-le n h = number_len_fuel-le 3 n n h
