-- ===== src/Memory/Control.antt =====
-- A line on the control port over shared buffers: `ctl_client_read_op` and
-- `ctl_client_process_message` of src/ctl/client/ctl_client_ops.c.
use ichatd.Common.{
  as_list, ℕ, ◌≡◌, refl, sym, List, [], ◌∷◌, ◌++◌, Option, none, some, arith, Bytes, codes, length,
  if◌then◌else◌, ◌>>=◌,
}
use ichatd.Queue.{buffer_queue_append}
use ichatd.Ctl.{is_kw, help_text, unknown_text}
use ichatd.Memory.{Memory, unref_at, text, count, Counted, Kept}
use ichatd.Memory.Counts.{count-append, Counted-reorder, unref_at_lem}
use ichatd.Memory.Queue.{Pointers}
use ichatd.Memory.Fill.{new_buffer, new_buffer_lem}
use ichatd.Memory.Messages.{ctl_respond, ctl_echo}
use ichatd.Memory.Sharing.{ctl_respond_lem, ctl_echo_lem}
use ichatd.Memory.Impl.{Buffers, owned}
use ichatd.Memory.Deliver.{requeued}
use ichatd.Memory.Sent.{queued, in_held}

-- The text of the response to a command; `none` is the command itself, for `echo`.
abbrev pub response_text : Bytes → Option Bytes
response_text msg =
    if is_kw msg (codes "echo")
    then none
    else if is_kw msg (codes "help")
    then some help_text
    else if is_kw msg (codes "exit")
    then some []
    else if is_kw msg (codes "stop")
    then some []
    else some unknown_text

-- The response is made and put into the queue.
abbrev pub respond : (ℕ → Bytes) → ℕ → Option Bytes → Pointers → Memory → Option (Pointers × Memory)
respond junk msg none q m = ctl_echo msg q m
respond junk msg (some response) q m = ctl_respond junk response q m

-- A line of `ctl_client_read_op`: a buffer with its bytes, `ctl_client_process_message`, and the buffer
-- given up.
unfoldable pub ctl_read : (ℕ → Bytes) → Bytes → Buffers → Memory → Option (Buffers × Memory)
ctl_read junk line i m = do
  (b, m₁) ← new_buffer junk line m
  (i', m₂) ← requeued i (respond junk b (response_text line) i.bo m₁)
  m₃ ← unref_at b m₂
  some (i', m₃)

-- A list of references with one of them in the middle or at the front.
pub shifted : (q p : ℕ) (xs ys : List ℕ) → count q (xs ++ (p ∷ ys)) ≡ count q (p ∷ (xs ++ ys))
shifted q p xs ys = omega (arith, count-append q xs (p ∷ ys), count-append q xs ys)

module _ (junk : ℕ → Bytes) (enough : (n : ℕ) → length (junk n) ≡ n) where
  respond_lem :
      (b : ℕ) (line : Bytes) (response : Option Bytes) (i : Buffers) (held : List ℕ) (m : Memory)
      → Counted m (owned i ++ (b ∷ held))
      → text m b ≡ some line
      → (i' : Buffers) × (m' : Memory) × (requeued i (respond junk b response i.bo m)
          ≡ some (i', m'))
        × Counted m' (owned i' ++ (b ∷ held))
        × Kept m m' (b ∷ held)
  respond_lem b line none i held m c read =
      queued i (b ∷ held) m _ (λ v. buffer_queue_append v line) c
        λ v c₁ r.
          ctl_echo_lem b line i.bo v (i.bi ∷ (as_list i.sig ++ (b ∷ held))) m c₁ r
            (in_held b i.bi (as_list i.sig) (b ∷ held) (ground arith)) read
  respond_lem b line (some response) i held m c read =
      queued i (b ∷ held) m _ (λ v. buffer_queue_append v response) c
        λ v c₁ r.
          ctl_respond_lem junk enough response i.bo v (i.bi ∷ (as_list i.sig ++ (b ∷ held))) m c₁ r

  -- A line is read, answered and given up without a fault; the references of the client and all others
  -- are counted behind it.
  pub ctl_read_lem :
      (line : Bytes) (i : Buffers) (held : List ℕ) (m : Memory)
      → Counted m (owned i ++ held)
      → (i' : Buffers) × (m' : Memory) × (ctl_read junk line i m ≡ some (i', m'))
        × Counted m' (owned i' ++ held)
  unfolding ctl_read
  ctl_read_lem line i held m c =
      let (b, m₁, e₁, f) = new_buffer_lem junk enough line (owned i ++ held) m c in
      let c₁ =
        Counted-reorder m₁ (b ∷ (owned i ++ held)) (owned i ++ (b ∷ held))
          (λ q. shifted q b (owned i) held) f.counted in
      let (i', m₂, e₂, c₂, k₂) = respond_lem b line (response_text line) i held m₁ c₁ f.reads in
      let c₂' =
        Counted-reorder m₂ (owned i' ++ (b ∷ held)) (b ∷ (owned i' ++ held))
          (λ q. sym (shifted q b (owned i') held)) c₂ in
      let (m₃, e₃, c₃, k₃) = unref_at_lem b m₂ (owned i' ++ held) c₂' in
      (i', m₃, rw (e₁, ◌>>=◌, e₂, e₃) refl, c₃)
