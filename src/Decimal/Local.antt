-- ===== src/Decimal/Local.antt =====
-- `strtol` looks no further than the zero byte that ends its string.
use ichatd.Common.{ℕ, ◌+◌, ◌-◌, ◌*◌, ◌≡◌, refl, Bool, true, false, [], ◌∷◌, ◌++◌, arith, Bytes}
use ichatd.Decimal.{scan_digits, strtol, signed}

scan_digits_local :
    (acc : ℕ) (any : Bool) (a b c : Bytes)
    → scan_digits acc any (a ++ 0 ∷ b) ≡ scan_digits acc any (a ++ 0 ∷ c)
unfolding scan_digits
scan_digits_local acc any [] b c = refl
scan_digits_local acc any (x ∷ a) b c =
    ground (arith, scan_digits_local (acc * 10 + (x - b'0')) true a b c)

signed_local : (x : ℕ) (a b c : Bytes) → signed (x ∷ (a ++ 0 ∷ b)) ≡ signed (x ∷ (a ++ 0 ∷ c))
signed_local x a b c = rw (scan_digits_local 0 false a b c, scan_digits_local 0 false (x ∷ a) b c)

-- What stands behind a zero byte does not change what `strtol` reads before it.
pub strtol_local : (a b c : Bytes) → strtol (a ++ 0 ∷ b) ≡ strtol (a ++ 0 ∷ c)
unfolding strtol
strtol_local [] b c = refl
strtol_local (x ∷ a) b c = ground (arith, strtol_local a b c, signed_local x a b c)
