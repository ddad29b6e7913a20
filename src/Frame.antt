-- ===== src/Frame.antt =====
-- The framing that `ichat_client_read_op` (src/ichat/client/ichat_client_ops.c) and
-- `ichat_s2s_client_read_op` (src/ichat/s2s_client/ichat_s2s_client_ops.c) share: a message is its
-- length in decimal, a zero byte, and its body.
pub mod RoundTrip
pub mod Chunks
use ichatd.Common.{
  ℕ, zero, suc, ◌+◌, ◌-◌, ◌≡◌, refl, Bool, true, false, ◌&&◌, ◌||◌, List, [], ◌∷◌, ◌++◌, Option,
  none, some, Bytes, codes, length, take, drop, ltb, leb, ◌==◌, if◌then◌else◌, ℤ, pos, negsuc,
  cut_at,
}
use ichatd.Decimal.{Strtol, strtol, decimal, long_max, number_len}

-- The constants of src/ichat/proto/icmisc.h, and `MAX_NUMBER_LEN` of the two functions.
abbrev pub min_ichat_message_len : ℕ
min_ichat_message_len = 20

abbrev pub max_ichat_message_len : ℕ
max_ichat_message_len = 4192

abbrev pub max_number_len : ℕ
max_number_len = 20

-- A body behind its length.
abbrev pub frame : Bytes → Bytes
frame body = decimal (length body) ++ 0 ∷ body

-- What one round of the loop finds in the input buffer: not enough bytes, a header that corrupts
-- the client, or a message and the bytes behind it.
pub data Round : Type 0 where
  wait : Round
  bad : Round
  message : Bytes → Bytes → Round

-- errno == ERANGE && (msg_size == LONG_MAX || msg_size == LONG_MIN)
abbrev at_limit : ℤ → Bool
at_limit (pos n) = n == long_max
at_limit (negsuc n) = n == long_max

abbrev is_zero : ℤ → Bool
is_zero (pos n) = n == 0
is_zero (negsuc n) = false

-- The length in a header, where it is accepted.
abbrev in_range : ℤ → Option ℕ
in_range (pos n) =
    if ltb n min_ichat_message_len || ltb max_ichat_message_len n then none else some n
in_range (negsuc n) = none

unfoldable pub header_size : Strtol → Option ℕ
header_size r =
    if not_a_number
    then none
    else if r.erange && at_limit r.value || r.erange && is_zero r.value
    then none
    else in_range r.value
  where
    not_a_number : Bool
    not_a_number = if r.used then false else true

-- The message of `msg_size` bytes from `start` on, if it is there as a whole.
abbrev pub body_at : Bytes → ℕ → Option ℕ → Round
body_at p start none = bad
body_at p start (some msg_size) =
    if ltb (length p) (msg_size + start)
    then wait
    else message (take msg_size (drop start p)) (drop (msg_size + start) p)

abbrev pub behind_number : Bytes → Option (Bytes × Bytes) → Round
behind_number p none = wait
behind_number p (some (number, _)) = body_at p (length number + 1) (header_size (strtol p))

-- One round of `for (;;)` up to the message: `p` is the whole input buffer.
unfoldable pub next_frame : Bytes → Round
next_frame p =
    if ltb (length p) max_number_len
    then wait
    else behind_number p (cut_at 0 (take max_number_len p))

two_messages :
    next_frame (codes "20" ++ 0 ∷ codes "abcdefghijklmnopqrstuvwx")
    ≡ message (codes "abcdefghijklmnopqrst") (codes "uvwx")
unfolding next_frame cut_at header_size strtol
two_messages = refl

short_length : next_frame (codes "19" ++ 0 ∷ codes "abcdefghijklmnopqrstuvwx") ≡ bad
unfolding next_frame cut_at header_size strtol
short_length = refl
