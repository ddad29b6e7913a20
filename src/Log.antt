-- ===== src/Log.antt =====
-- `log_print_array` of src/log.c: bytes made readable for the log, and safe in a format string.
pub mod Escape
pub mod Writer
use ichatd.Common.{
  ℕ, ◌+◌, ◌-◌, ◌/◌, ◌%◌, ◌≡◌, refl, Bool, true, false, ◌&&◌, List, [], ◌∷◌, ◌++◌, Option, none,
  some, Bytes, codes, leb, ltb, ◌==◌, if◌then◌else◌,
}

-- `isprint` of the C locale.
abbrev pub isprint : ℕ → Bool
isprint c = leb 32 c && ltb c 127

-- hex[n], for a number below 16.
abbrev pub hex_char : ℕ → ℕ
hex_char n = if ltb n 10 then b'0' + n else b'A' + (n - 10)

-- What one byte becomes.
unfoldable pub escaped : ℕ → Bytes
escaped c =
    if c == 0
    then codes "\\0"
    else if c == b'%'
    then codes "%%"
    else if isprint c
    then c ∷ []
    else if c == 13
    then codes "\\r"
    else if c == 10
    then codes "\\n"
    else if c == 9
    then codes "\\t"
    else b'\\' ∷ b'x' ∷ hex_char (c / 16) ∷ hex_char (c % 16) ∷ []

-- The loop of `log_print_array`: what stands in `q` before its zero byte.
unfoldable pub log_print_array : Bytes → Bytes
log_print_array [] = []
log_print_array (c ∷ p) = escaped c ++ log_print_array p

a_line : log_print_array (b'5' ∷ b'%' ∷ 0 ∷ 255 ∷ 10 ∷ []) ≡ codes "5%%\\0\\xFF\\n"
unfolding log_print_array escaped
a_line = refl
