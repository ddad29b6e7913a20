-- ===== src/Ctl/Lines.antt =====
-- Which lines the loop of `ctl_client_read_op` processes.
use ichatd.Common.{
  ℕ, zero, suc, ◌+◌, ◌-◌, ◌≤◌, ◌<◌, ◌≡◌, refl, ap, [], ◌∷◌, ◌++◌, arith, Bytes, length,
  length-append, take, replicate, cut_at-append, cut_at-none, Lacks, take-append_le,
}
use ichatd.Queue.Stream.{join}
use ichatd.Server.{Server, find_client, at_client}
use ichatd.Input.{got, input_at, set_input}
use ichatd.Ctl.{read_lines, process_all, ctl_client_read_op}

take-line :
    (n : ℕ) (line rest : Bytes)
    → length line < n
    → (rest' : Bytes) × (take n (line ++ 10 ∷ rest) ≡ line ++ 10 ∷ rest')
take-line (suc n) [] rest h = (take n rest, refl)
take-line (suc n) (x ∷ line) rest h =
    let (rest', e) = take-line n line rest (omega arith) in (rest', ap (λ t. x ∷ t) e)
take-line zero line rest h = elim h [ ]

Lacks-take : (n : ℕ) (line : Bytes) → Lacks 10 line → Lacks 10 (take n line)
Lacks-take zero line h = tt
Lacks-take (suc n) [] h = tt
Lacks-take (suc n) (x ∷ line) h = (h.0, Lacks-take n line h.1)

-- Where the buffer starts with a line, the loop processes this line as often as it goes into the
-- number of bytes there are, whatever stands behind it.
read_lines_lem :
    (fuel k r : ℕ) (line rest : Bytes)
    → let full = line ++ 10 ∷ [] in
      Lacks 10 line
      → r ≤ length line
      → (s : ℕ) → s ≡ length (join (replicate k full)) + r
      → s < fuel
      → read_lines fuel (line ++ 10 ∷ rest) s ≡ (replicate k full, r)
unfolding read_lines
read_lines_lem zero k r line rest ok small s e h = elim h [ ]
read_lines_lem (suc f) zero r line rest ok small s e h =
    let short : take s (line ++ 10 ∷ rest) ≡ take s line =
      take-append_le s line (10 ∷ rest) (omega arith) in
    let same : s ≡ r = omega arith in
    rw (read_lines, short, cut_at-none 10 (take s line) (Lacks-take s line ok))
      (ap (λ n. ([], n)) same)
read_lines_lem (suc f) (suc k) r line rest ok small s e h =
    let full = line ++ 10 ∷ [] in
    let size = length-append line (10 ∷ []) in
    let more = length-append full (join (replicate k full)) in
    let (rest', cut) = take-line s line rest (omega arith) in
    let others =
      read_lines_lem f k r line rest ok small (s - length full) (omega arith) (omega arith) in
    rw (read_lines, cut, cut_at-append 10 line rest' ok, others) refl

-- When the control client's input is a line without a line end, a line end, and any bytes,
-- `ctl_client_read_op` processes only this first line, as many times (`k`) as its length goes into
-- the length of the input, and keeps the first `r` bytes of that line for the next time, where `r`
-- is the remainder: what stood behind the first line is lost.
pub ctl_client_read_op_lem :
    (s : Server) (ptr k r : ℕ) (bytes line rest : Bytes)
    → let full = line ++ 10 ∷ [] in
      let p = line ++ 10 ∷ rest in
      Lacks 10 line
      → r ≤ length line
      → input_at (find_client ptr s.clist) ++ bytes ≡ p
      → length p ≡ length (join (replicate k full)) + r
      → ctl_client_read_op s ptr (got bytes)
        ≡ at_client ptr
            (set_input (take r line))
            (process_all (at_client ptr (set_input p) s) ptr (replicate k full))
unfolding ctl_client_read_op
ctl_client_read_op_lem s ptr k r bytes line rest ok small whole size =
    let p = line ++ 10 ∷ rest in
    let read = read_lines_lem (length p + 1) k r line rest ok small (length p) size (omega arith) in
    let kept : take r p ≡ take r line = take-append_le r line (10 ∷ rest) small in
    rw (whole, read, kept) refl
