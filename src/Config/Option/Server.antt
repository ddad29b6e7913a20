-- ===== src/Config/Option/Server.antt =====
-- The `server` lines that `parse_s2s` of src/config.c reads.
use ichatd.Common.{ℕ, ◌<◌, ◌≡◌, ◌≢◌, refl, [], ◌∷◌, ◌++◌, none, some, arith, Bytes, Lacks}
use ichatd.Decimal.{decimal, strtol}
use ichatd.Decimal.RoundTrip.{Lacks-decimal_low, decimal-ne-nil}
use ichatd.Config.Option.{word, port_and_pass, password, block_of, read_port, parse_s2s}
use ichatd.Config.Option.Laws.{read_port-decimal}

-- No byte is a blank.
abbrev pub Solid : Bytes → Type 0
Solid [] = Unit {0}
Solid (c ∷ s) = (c ≢ b' ') × (c ≢ 9) × Solid s

word-append : (w rest : Bytes) → Solid w → word (w ++ b' ' ∷ rest) ≡ (w, some rest)
unfolding word
word-append [] rest h = refl
word-append (c ∷ w) rest h = ground (arith, word-append w rest h.2)

word_all : (w : Bytes) → Solid w → word w ≡ (w, none)
unfolding word
word_all [] h = refl
word_all (c ∷ w) h = ground (arith, word_all w h.2)

Solid-Lacks : (s : Bytes) → Lacks b' ' s → Lacks 9 s → Solid s
Solid-Lacks [] p q = tt
Solid-Lacks (c ∷ s) p q = (p.0, q.0, Solid-Lacks s p.1 q.1)

Solid-decimal : (n : ℕ) → Solid (decimal n)
Solid-decimal n =
    Solid-Lacks (decimal n) (Lacks-decimal_low b' ' n (omega arith))
      (Lacks-decimal_low 9 n (omega arith))

append-ne-nil : (a b : Bytes) → a ≢ [] → a ++ b ≢ []
append-ne-nil [] b h = absurd (h refl)
append-ne-nil (c ∷ a) b h = ground arith

port_and_pass_lem :
    (behind ip s : Bytes)
    → s ≢ []
    → port_and_pass behind ip (some s)
      ≡ block_of ip (password behind (word s).1) (read_port (word s).0)
port_and_pass_lem behind ip [] h = absurd (h refl)
port_and_pass_lem behind ip (c ∷ s) h = refl

-- A `server` line of a host without blanks, a port below 65536 and a password, with one blank
-- between them, is read as these three, whatever blanks the password holds and whatever stands in
-- the memory behind the line.
pub parse_s2s_lem :
    (behind host : Bytes) (port : ℕ) (pass : Bytes)
    → Solid host
    → port < 65536
    → parse_s2s behind (host ++ b' ' ∷ (decimal port ++ b' ' ∷ pass))
      ≡ some (record { host = host; port = port; pass = pass })
unfolding parse_s2s
parse_s2s_lem behind host port pass h p = rw (
  word-append host (decimal port ++ b' ' ∷ pass) h,
  port_and_pass_lem behind host _
      (append-ne-nil (decimal port) (b' ' ∷ pass) (decimal-ne-nil port)),
  word-append (decimal port) pass (Solid-decimal port),
  read_port-decimal port p,
)

-- For a host without blanks, one blank and a port below 65536 with nothing behind it, the password
-- that is stored is the string in the memory behind the line.
pub parse_s2s_no_pass :
    (behind host : Bytes) (port : ℕ)
    → Solid host
    → port < 65536
    → parse_s2s behind (host ++ b' ' ∷ decimal port)
      ≡ some (record { host = host; port = port; pass = behind })
unfolding parse_s2s
parse_s2s_no_pass behind host port h p = rw (
  word-append host (decimal port) h,
  port_and_pass_lem behind host _ (decimal-ne-nil port),
  word_all (decimal port) (Solid-decimal port),
  read_port-decimal port p,
)

-- For a host without blanks and two blanks behind it the port is read as 0, and the rest of the
-- line as the password.
pub parse_s2s_two_blanks :
    (behind host rest : Bytes)
    → Solid host
    → parse_s2s behind (host ++ b' ' ∷ b' ' ∷ rest)
      ≡ some (record { host = host; port = 0; pass = rest })
unfolding parse_s2s word read_port strtol
parse_s2s_two_blanks behind host rest h = rw (word-append host (b' ' ∷ rest) h)
