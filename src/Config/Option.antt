-- ===== src/Config/Option.antt =====
-- One option of the configuration: `is_port`, `parse_bool`, `parse_s2s` and `parse_option` of
-- src/config.c.
pub mod Laws
pub mod Server
use ichatd.Common.{
  ℕ, zero, suc, ◌+◌, ◌-◌, ◌%◌, ◌^◌, ◌≡◌, refl, Bool, true, false, ◌&&◌, ◌||◌, List, [], ◌∷◌, ◌++◌,
  Option, none, some, Bytes, codes, ltb, ◌==◌, if◌then◌else◌, ◌>>=◌, eq_bytes, ℤ, pos, negsuc,
}
use ichatd.Decimal.{Strtol, strtol}
use ichatd.Config.{
  LogLevel, fatal_level, warn_level, note_level, debug_level, S2sBlock, Config, config_alloc,
}

-- The conversion of a `long` to a 32-bit `int`.
abbrev int_bits : ℕ → ℤ
int_bits w = if ltb w (2 ^ 31) then pos w else negsuc (2 ^ 32 - 1 - w)

abbrev pub to_int : ℤ → ℤ
to_int (pos n) = int_bits (n % 2 ^ 32)
to_int (negsuc n) = int_bits (2 ^ 32 - 1 - n % 2 ^ 32)

-- `is_port`, with the port that passes.
abbrev pub is_port : ℤ → Option ℕ
is_port (pos n) = if ltb n 65536 then some n else none
is_port (negsuc n) = none

-- int port = strtol (value, NULL, 10); is_port (port)
unfoldable pub read_port : Bytes → Option ℕ
read_port value = is_port (to_int (strtol value).value)

-- `enum BOOL_PARSE_RESULT`.
pub data BoolParse : Type 0 where
  bool_error bool_false bool_true : BoolParse

-- `parse_bool`.
unfoldable pub parse_bool : Bytes → BoolParse
parse_bool value =
    if eq_bytes value (codes "no") || eq_bytes value (codes "0")
    then bool_false
    else if eq_bytes value (codes "yes") || eq_bytes value (codes "1")
    then bool_true
    else bool_error

abbrev pub is_blank : ℕ → Bool
is_blank c = c == b' ' || c == 9

-- The bytes up to the first blank, and what stands behind that blank; `none` at the end of the
-- string.
unfoldable pub word : Bytes → Bytes × Option Bytes
word [] = ([], none)
word (c ∷ s) = let (w, rest) = word s in if is_blank c then ([], some s) else (c ∷ w, rest)

abbrev pub block_of : Bytes → Bytes → Option ℕ → Option S2sBlock
block_of ip pass none = none
block_of ip pass (some port) = some (record { host = ip; port = port; pass = pass })

-- Where no blank closes the port, `port_end + 1` lies behind the string's end: `behind` is the
-- string that stands there.
abbrev pub password : Bytes → Option Bytes → Bytes
password behind none = behind
password behind (some pass) = pass

abbrev pub port_and_pass : Bytes → Bytes → Option Bytes → Option S2sBlock
port_and_pass behind ip none = none
port_and_pass behind ip (some []) = none
port_and_pass behind ip (some (c ∷ s)) =
    let (port, rest) = word (c ∷ s) in block_of ip (password behind rest) (read_port port)

-- `parse_s2s`: host, port and password with one blank between them. (The loops that should skip
-- further blanks test `' '` and `'\t'` at once, so they make no round.)
unfoldable pub parse_s2s : Bytes → Bytes → Option S2sBlock
unfolding word read_port
parse_s2s behind value = let (ip, rest) = word value in port_and_pass behind ip rest

-- `enum OPT_PARSE_RESULT`.
pub data OptParse : Type 0 where
  opt_parsed opt_unknown opt_bad_val : OptParse

-- What `parse_option` does with its config, and what it returns.
abbrev pub Parsed : Type 0
Parsed = OptParse × Config

abbrev pub set_user_port : Config → ℕ → Config
set_user_port config port = record config { user_port = port }

abbrev pub set_ctl_port : Config → ℕ → Config
set_ctl_port config port = record config { ctl_port = port }

abbrev pub set_me_port : Config → ℕ → Config
set_me_port config port = record config { s2s_me = record config.s2s_me { port = port } }

abbrev pub with_port : Config → (ℕ → Config) → Option ℕ → Parsed
with_port config set none = (opt_bad_val, config)
with_port config set (some port) = (opt_parsed, set port)

abbrev pub level_of : Bytes → Option LogLevel
level_of value =
    if eq_bytes value (codes "fatal")
    then some fatal_level
    else if eq_bytes value (codes "warn")
    then some warn_level
    else if eq_bytes value (codes "note")
    then some note_level
    else if eq_bytes value (codes "debug")
    then some debug_level
    else none

abbrev pub with_level : Config → Option LogLevel → Parsed
with_level config none = (opt_bad_val, config)
with_level config (some level) = (opt_parsed, record config { log_level = level })

abbrev pub with_bool : Config → BoolParse → Parsed
with_bool config bool_true = (opt_parsed, record config { null_clients = true })
with_bool config bool_false = (opt_parsed, record config { null_clients = false })
with_bool config bool_error = (opt_bad_val, config)

abbrev pub with_block : Config → Option S2sBlock → Parsed
with_block config none = (opt_bad_val, config)
with_block config (some b) = (opt_parsed, record config { s2s_queue = b ∷ config.s2s_queue })

-- `parse_option`.
unfoldable pub parse_option : Bytes → Config → Bytes → Bytes → Parsed
parse_option behind config name value =
    if eq_bytes name (codes "port")
    then with_port config (set_user_port config) (read_port value)
    else if eq_bytes name (codes "serverport")
    then with_port config (set_me_port config) (read_port value)
    else if eq_bytes name (codes "controlport")
    then with_port config (set_ctl_port config) (read_port value)
    else if eq_bytes name (codes "servername")
    then (opt_parsed, record config { s2s_me = record config.s2s_me { host = value } })
    else if eq_bytes name (codes "serverpassword")
    then (opt_parsed, record config { s2s_me = record config.s2s_me { pass = value } })
    else if eq_bytes name (codes "logfile")
    then (opt_parsed, record config { log_file = value })
    else if eq_bytes name (codes "pidfile")
    then (opt_parsed, record config { pid_file = value })
    else if eq_bytes name (codes "loglevel")
    then with_level config (level_of value)
    else if eq_bytes name (codes "nullclients")
    then with_bool config (parse_bool value)
    else if eq_bytes name (codes "server")
    then with_block config (parse_s2s behind value)
    else (opt_unknown, config)

reads_port : (parse_option [] config_alloc (codes "port") (codes "7000")).1.user_port ≡ 7000
unfolding parse_option read_port strtol config_alloc
reads_port = refl

reads_server :
    parse_s2s [] (codes "10.0.0.1 6767 secret")
    ≡ some (record { host = codes "10.0.0.1"; port = 6767; pass = codes "secret" })
unfolding parse_s2s strtol
reads_server = refl
