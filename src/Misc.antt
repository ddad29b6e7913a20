-- ===== src/Misc.antt =====
-- `IC_strdup` and `GetTimerMS` of src/misc.c. The block that `malloc` gives and the time of
-- `gettimeofday` are arguments.
use ichatd.Common.{
  suc, ◌-◌, ltb, if◌then◌else◌, refl, ℕ, ◌+◌, ◌*◌, ◌/◌, ◌%◌, ◌^◌, ◌≤◌, ◌<◌, ◌≡◌, sym, ◌∙◌, ap, [],
  ◌∷◌, ◌++◌, Option, none, some, arith, Bytes, length, take-length,
}
use native.Mathlib.Nat.{mod-eq_of_lt}
use ichatd.Buffer.{write_at}
use ichatd.Buffer.Laws.{take-write_at, length-write_at}

-- `IC_strdup` of the string in front of a zero byte.
unfoldable pub ic_strdup : Option Bytes → Bytes → Option Bytes
ic_strdup none str = none
ic_strdup (some block) str = some (write_at (length str) (0 ∷ []) (write_at 0 str block))

-- What a `long` of `bits + 1` bits is as an `unsigned long long`: a negative one is extended.
abbrev from_long : ℕ → ℕ → ℕ
from_long bits x = if ltb x (2 ^ bits) then x else x + (2 ^ 64 - 2 ^ suc bits)

-- `GetTimerMS`. The sum is computed in `long`, which has one bit more than `bits`: on a machine where
-- these are 31 it wraps around, and the time that is returned leaps.
unfoldable pub get_timer_ms : ℕ → ℕ → ℕ → ℕ
get_timer_ms bits tv_sec tv_usec = from_long bits ((tv_sec * 1000 + tv_usec / 1000) % 2 ^ suc bits)

-- A copy is the string with its zero byte, whatever was in the block.
pub ic_strdup_lem :
    (block str : Bytes)
    → length block ≡ length str + 1
    → ic_strdup (some block) str ≡ some (str ++ 0 ∷ [])
unfolding ic_strdup
ic_strdup_lem block str e =
    let n = length str in
    let copied = write_at 0 str block in
    let size : length copied ≡ n + 1 = length-write_at 0 str block (omega arith) ∙ e in
    let whole : length (write_at n (0 ∷ []) copied) ≡ n + 1 =
      length-write_at n (0 ∷ []) copied (omega (arith, size)) ∙ size in
    ap some (
      sym (take-length (write_at n (0 ∷ []) copied) (n + 1) (sym whole))
      ∙ take-write_at n (n + 1) (0 ∷ []) copied (omega (arith, size)) (omega arith)
      ∙ ap (λ r. r ++ 0 ∷ []) (take-write_at 0 n str block (omega arith) (omega arith)))

get_timer_ms_small :
    (bits s u : ℕ) → s * 1000 + u / 1000 < 2 ^ bits → get_timer_ms bits s u ≡ s * 1000 + u / 1000
unfolding get_timer_ms
get_timer_ms_small bits s u small =
    let n = s * 1000 + u / 1000 in
    let whole : n % 2 ^ suc bits ≡ n = mod-eq_of_lt (omega (arith, small)) in
    rw whole (ground (arith, small))

-- The clock goes forward as long as the time does, and fits into a `long`.
pub get_timer_ms_mono :
    (bits s u s' u' : ℕ)
    → u < 1000000
    → u' < 1000000
    → s * 1000000 + u ≤ s' * 1000000 + u'
    → s' * 1000 + u' / 1000 < 2 ^ bits
    → get_timer_ms bits s u ≤ get_timer_ms bits s' u'
get_timer_ms_mono bits s u s' u' a b le fits =
    rw (get_timer_ms_small bits s u (omega arith), get_timer_ms_small bits s' u' fits) (omega arith)

-- With 31 bits one millisecond makes the time leap from below 2 ^ 31 to nearly 2 ^ 64.
get_timer_ms_leaps :
    (get_timer_ms 31 2147483 647000 ≡ 2147483647)
    × (get_timer_ms 31 2147483 648000 ≡ 18446744071562067968)
unfolding get_timer_ms
get_timer_ms_leaps = (refl, refl)
