-- ===== src/Config/File/Laws.antt =====
-- `parse_config` of src/config.c over whole files.
use ichatd.Common.{
  ℕ, zero, suc, ◌+◌, ◌≤◌, ◌≡◌, refl, Bool, true, false, List, [], ◌∷◌, Option, none, some, arith,
  Bytes, ◌==◌, if◌then◌else◌, length,
}
use ichatd.Config.{Config}
use ichatd.Config.Option.{word}
use ichatd.Config.Option.Laws.{IsValid, parse_option-IsValid}
use ichatd.Config.File.{
  Complaint, fgets, c_str, trim_eol, skip_blanks, is_comment, option_line, parse_line, lines,
  parse_config, value_of,
}

option_line-IsValid :
    (behind : Bytes) (c : Config) (n : ℕ) (start : Bytes)
    → IsValid c
    → IsValid (option_line behind c n start).0
unfolding option_line
option_line-IsValid behind c n start v =
    parse_option-IsValid behind c (word start).0 (value_of (word start).1) v

if-IsValid :
    (b : Bool) (x y : Config × List Complaint)
    → IsValid x.0
    → IsValid y.0
    → IsValid (if b then x else y).0
if-IsValid true x y hx hy = hx
if-IsValid false x y hx hy = hy

parse_line-IsValid :
    (stale : Bytes) (c : Config) (n : ℕ) (line : Bytes)
    → IsValid c
    → IsValid (parse_line stale c n line).0
unfolding parse_line
parse_line-IsValid stale c n line v =
    let text = trim_eol (c_str line) in
    let behind = if length text == length (c_str line) then stale else [] in
    if-IsValid (is_comment (skip_blanks text)) (c, []) (option_line behind c n (skip_blanks text)) v
      (option_line-IsValid behind c n (skip_blanks text) v)

lines-IsValid :
    (fuel : ℕ) (stale : ℕ → Bytes) (c : Config) (n : ℕ) (file : Bytes)
    → IsValid c
    → IsValid (lines fuel stale c n file).0
unfolding lines
lines-IsValid zero stale c n file v = v
lines-IsValid (suc fuel) stale c n [] v = v
lines-IsValid (suc fuel) stale c n (b ∷ file) v =
    lines-IsValid fuel stale _ (n + 1) _ (parse_line-IsValid (stale (n + 1)) c (n + 1) _ v)

-- Whatever stands in the file, or if there is none, `parse_config` leaves every port below 65536,
-- if every port was before.
pub parse_config-IsValid :
    (stale : ℕ → Bytes) (c : Config) (file : Option Bytes)
    → IsValid c
    → IsValid (parse_config stale c file).1
unfolding parse_config
parse_config-IsValid stale c none v = v
parse_config-IsValid stale c (some file) v = lines-IsValid (length file) stale c 0 file v

-- `fgets` takes at least one byte of a file that is not at its end.
fgets_shorter : (n : ℕ) (c : ℕ) (file : Bytes) → length (fgets (suc n) (c ∷ file)).1 ≤ length file
unfolding fgets
fgets_shorter zero c file = ground arith
fgets_shorter (suc n) c [] = ground arith
fgets_shorter (suc n) c (d ∷ file) = ground (arith, fgets_shorter n d file)

-- The file's length is enough fuel: more gives the same configuration and messages.
lines_fuel :
    (f g : ℕ) (stale : ℕ → Bytes) (c : Config) (n : ℕ) (file : Bytes)
    → length file ≤ f
    → length file ≤ g
    → lines f stale c n file ≡ lines g stale c n file
unfolding lines
lines_fuel zero zero stale c n file p q = refl
lines_fuel zero (suc g) stale c n [] p q = refl
lines_fuel zero (suc g) stale c n (b ∷ file) p q = absurd (omega arith)
lines_fuel (suc f) zero stale c n [] p q = refl
lines_fuel (suc f) zero stale c n (b ∷ file) p q = absurd (omega arith)
lines_fuel (suc f) (suc g) stale c n [] p q = refl
lines_fuel (suc f) (suc g) stale c n (b ∷ file) p q =
    let short = fgets_shorter 1022 b file in
    rw (lines_fuel f g stale _ (n + 1) (fgets 1023 (b ∷ file)).1 (omega arith) (omega arith))
