-- ===== src/Input/Messages.antt =====
-- The messages that the loop finds in its input, and that they do not depend on how it arrived.
use ichatd.Common.{
  ℕ, zero, suc, ◌+◌, ◌≤◌, ◌<◌, ◌≡◌, refl, List, [], ◌∷◌, ◌++◌, Option, none, some, arith, Bytes,
  length, take, length-drop, cut_at, Option-cases, inl, inr, ◌>>=◌,
}
use ichatd.Frame.{Round, wait, bad, message, next_frame, body_at, behind_number, header_size, frame}
use ichatd.Decimal.{strtol}
use ichatd.Frame.RoundTrip.{next_frame-frame}
use ichatd.Server.{Server, find_client, at_client}
use ichatd.Input.{read_loop, read_op, set_input, input_at, got}

body_at_shorter :
    (p : Bytes) (start : ℕ) (size : Option ℕ) (m r : Bytes)
    → 0 < start
    → body_at p start size ≡ message m r
    → length r < length p
body_at_shorter p start none m r pos h = ground arith
body_at_shorter p start (some n) m r pos h = ground (arith, length-drop (n + start) p)

behind_number_shorter :
    (p : Bytes) (cut : Option (Bytes × Bytes)) (m r : Bytes)
    → behind_number p cut ≡ message m r
    → length r < length p
behind_number_shorter p none m r h = ground arith
behind_number_shorter p (some (number, rest)) m r h =
    body_at_shorter p (length number + 1) (header_size (strtol p)) m r (omega arith) h

-- Every message takes something off the input.
pub next_frame_shorter : (p m r : Bytes) → next_frame p ≡ message m r → length r < length p
unfolding next_frame
next_frame_shorter p m r h = behind_number_shorter p (cut_at 0 (take 20 p)) m r (ground arith)

-- Any two amounts of fuel above the length of the input give the same result: the loop ends by
-- itself.
pub read_loop_fuel :
    (process : Server → ℕ → Bytes → Option Server) (f g : ℕ) (s : Server) (ptr : ℕ) (p : Bytes)
    → length p < f
    → length p < g
    → read_loop process f s ptr p ≡ read_loop process g s ptr p
unfolding read_loop
read_loop_fuel process zero g s ptr p hf hg = elim hf [ ]
read_loop_fuel process (suc f) zero s ptr p hf hg = elim hg [ ]
read_loop_fuel process (suc f) (suc g) s ptr p hf hg =
    by_round (λ s' rest. read_loop_fuel process f g s' ptr rest) (next_frame p) refl
  where
    go_on :
        ((s' : Server) (rest : Bytes)
          → length rest < f
          → length rest < g
          → read_loop process f s' ptr rest ≡ read_loop process g s' ptr rest)
        → (rest : Bytes) → length rest < length p
        → (o : Option Server)
        → (do s' ← o; read_loop process f (at_client ptr (set_input rest) s') ptr rest)
          ≡ (do s' ← o; read_loop process g (at_client ptr (set_input rest) s') ptr rest)
    go_on ih rest h none = refl
    go_on ih rest h (some s') =
        ih (at_client ptr (set_input rest) s') rest (omega arith) (omega arith)

    by_round :
        ((s' : Server) (rest : Bytes)
          → length rest < f
          → length rest < g
          → read_loop process f s' ptr rest ≡ read_loop process g s' ptr rest)
        → (r : Round) → next_frame p ≡ r
        → read_loop process (suc f) s ptr p ≡ read_loop process (suc g) s ptr p
    by_round ih wait e = rw (read_loop, e) refl
    by_round ih bad e = rw (read_loop, e) refl
    by_round ih (message msg rest) e =
        rw (read_loop, e) (go_on ih rest (next_frame_shorter p msg rest e) (process s ptr msg))

-- The messages in this order, each followed by what the loop does to the input buffer; `rest` is
-- left in it.
abbrev pub join_frames : List Bytes → Bytes → Bytes
join_frames [] rest = rest
join_frames (msg ∷ msgs) rest = frame msg ++ join_frames msgs rest

unfoldable pub in_turn :
    (Server → ℕ → Bytes → Option Server) → Server → ℕ → List Bytes → Bytes → Option Server
in_turn process s ptr [] rest = some s
in_turn process s ptr (msg ∷ msgs) rest = do
  s' ← process s ptr msg
  in_turn process (at_client ptr (set_input (join_frames msgs rest)) s') ptr msgs rest

abbrev pub AllFit : List Bytes → Type 0
AllFit [] = Unit {0}
AllFit (msg ∷ msgs) = (20 ≤ length msg) × (length msg ≤ 4192) × AllFit msgs

read_loop-frames :
    (process : Server → ℕ → Bytes → Option Server) (fuel : ℕ) (s : Server) (ptr : ℕ)
    (msgs : List Bytes) (rest : Bytes)
    → AllFit msgs
    → next_frame rest ≡ wait
    → length (join_frames msgs rest) < fuel
    → read_loop process fuel s ptr (join_frames msgs rest) ≡ in_turn process s ptr msgs rest
unfolding read_loop in_turn
read_loop-frames process zero s ptr msgs rest ok e h = elim h [ ]
read_loop-frames process (suc f) s ptr [] rest ok e h = rw (read_loop, e) refl
read_loop-frames process (suc f) s ptr (msg ∷ msgs) rest (low, high, ok) e h =
    let found = next_frame-frame msg (join_frames msgs rest) low high in
    let shorter =
      next_frame_shorter (frame msg ++ join_frames msgs rest) msg (join_frames msgs rest) found in
    let fuel : length (join_frames msgs rest) < f = omega arith in
    rw (read_loop, found)
      (elim (Option-cases (process s ptr msg)) [
        | inl n ↦ rw n refl
        | inr (s', n) ↦ rw n (
            read_loop-frames process f (at_client ptr (set_input (join_frames msgs rest)) s') ptr
              msgs rest ok e fuel)
      ])

-- Input that is any number of messages of 20 to 4192 bytes behind their lengths, with behind them
-- bytes that make the loop wait, makes it run the client's function on exactly these messages, in
-- order, the bytes behind each left in the input buffer.
pub read_op_frames :
    (process : Server → ℕ → Bytes → Option Server) (s : Server) (ptr : ℕ) (bytes : Bytes)
    (msgs : List Bytes) (rest : Bytes)
    → AllFit msgs
    → next_frame rest ≡ wait
    → input_at (find_client ptr s.clist) ++ bytes ≡ join_frames msgs rest
    → read_op process s ptr (got bytes)
      ≡ in_turn process (at_client ptr (set_input (join_frames msgs rest)) s) ptr msgs rest
unfolding read_op
read_op_frames process s ptr bytes msgs rest ok e h = rw h (
    read_loop-frames process (length (join_frames msgs rest) + 1)
      (at_client ptr (set_input (join_frames msgs rest)) s) ptr msgs rest ok e (omega arith))
