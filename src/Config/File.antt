-- ===== src/Config/File.antt =====
-- `parse_config` of src/config.c: the lines of a configuration file.
pub mod Laws
use ichatd.Common.{
  ℕ, zero, suc, ◌+◌, ◌-◌, ◌≡◌, refl, Bool, true, false, ◌&&◌, ◌||◌, List, [], ◌∷◌, ◌++◌, Option,
  none, some, Bytes, codes, ltb, ◌==◌, if◌then◌else◌, length, take, drop, cut_at,
}
use mathlib.Core.List.{reverse}
use ichatd.Decimal.{strtol}
use ichatd.Config.{Config, config_alloc}
use ichatd.Config.Option.{
  is_blank, OptParse, opt_parsed, opt_unknown, opt_bad_val, parse_option, word, read_port,
  parse_s2s,
}

-- The message on stderr: the line's number and the option's name.
pub data Complaint : Type 0 where
  bad_value unknown_option : ℕ → Bytes → Complaint

-- fgets (line, 1024, conf): at most 1023 bytes, up to a newline and with it; and what is left.
fgets : ℕ → Bytes → Bytes × Bytes
fgets zero file = ([], file)
fgets (suc n) [] = ([], [])
fgets (suc n) (c ∷ file) =
    let (line, rest) = fgets n file in if c == b'\n' then (c ∷ [], file) else (c ∷ line, rest)

-- The string up to its first zero byte.
abbrev up_to_zero : Option (Bytes × Bytes) → Bytes → Bytes
up_to_zero none s = s
up_to_zero (some (a, b)) s = a

unfoldable pub c_str : Bytes → Bytes
unfolding cut_at
c_str s = up_to_zero (cut_at 0 s) s

-- The bytes without the `\r` and `\n` at their end.
drop_eol : Bytes → Bytes
drop_eol [] = []
drop_eol (c ∷ s) = if c == b'\n' || c == b'\r' then drop_eol s else c ∷ s

unfoldable pub trim_eol : Bytes → Bytes
unfolding drop_eol
trim_eol s = reverse (drop_eol (reverse s))

unfoldable pub skip_blanks : Bytes → Bytes
skip_blanks [] = []
skip_blanks (c ∷ s) = if is_blank c then skip_blanks s else c ∷ s

abbrev value_of : Option Bytes → Bytes
value_of none = []
value_of (some rest) = skip_blanks rest

abbrev report : ℕ → Bytes → OptParse → List Complaint
report line_no name opt_parsed = []
report line_no name opt_unknown = unknown_option line_no name ∷ []
report line_no name opt_bad_val = bad_value line_no name ∷ []

abbrev is_comment : Bytes → Bool
is_comment [] = true
is_comment (c ∷ s) = c == b'#'

unfoldable pub option_line : Bytes → Config → ℕ → Bytes → Config × List Complaint
option_line behind config line_no start =
    let (name, rest) = word start in
    let (result, config') = parse_option behind config name (value_of rest) in
    (config', report line_no name result)

-- One round of the loop. `stale` is what the line buffer holds behind the line's end; it can be
-- reached only where no newline was cut off.
unfoldable pub parse_line : Bytes → Config → ℕ → Bytes → Config × List Complaint
parse_line stale config line_no line =
    let text = trim_eol (c_str line) in
    let behind = if length text == length (c_str line) then stale else [] in
    let start = skip_blanks text in
    if is_comment start then (config, []) else option_line behind config line_no start

-- The loop over the lines; `stale` gives the buffer's old bytes for each line.
lines : ℕ → (ℕ → Bytes) → Config → ℕ → Bytes → Config × List Complaint
lines zero stale config line_no file = (config, [])
lines (suc fuel) stale config line_no [] = (config, [])
lines (suc fuel) stale config line_no (c ∷ file) =
    let (line, rest) = fgets 1023 (c ∷ file) in
    let (config', said) = parse_line (stale (line_no + 1)) config (line_no + 1) line in
    let (config'', more) = lines fuel stale config' (line_no + 1) rest in (config'', said ++ more)

-- `enum CONFIG_STATUS`, as far as `parse_config` returns it.
pub data ConfigStatus : Type 0 where
  config_ok config_file_not_found : ConfigStatus

-- `parse_config`: `none` stands for a file that `fopen` does not open. Every line takes at least a
-- byte of the file, so its length is enough fuel.
unfoldable pub parse_config :
    (ℕ → Bytes) → Config → Option Bytes → ConfigStatus × Config × List Complaint
unfolding lines fgets
parse_config stale config none = (config_file_not_found, config, [])
parse_config stale config (some file) =
    let (config', said) = lines (length file) stale config 0 file in (config_ok, config', said)

abbrev sample : Bytes
sample = codes "# me\n\nport 7000\nloglevel loud\nserver 10.0.0.1 6767\nfoo bar"

sample_complaints :
    (parse_config (λ n. codes "junk") config_alloc (some sample)).2
    ≡ bad_value 4 (codes "loglevel") ∷ unknown_option 6 (codes "foo") ∷ []
unfolding parse_config parse_line c_str trim_eol skip_blanks option_line word parse_option read_port
    parse_s2s strtol
sample_complaints = refl
