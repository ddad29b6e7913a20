-- ===== src/Memory/Forwarding.antt =====
-- A message from another server over shared buffers: `ichat_s2s_client_read_op` and
-- `ichat_s2s_client_process_message` of src/ichat/s2s_client/ichat_s2s_client_ops.c.
use ichatd.Common.{
  ℕ, Bool, List, [], ◌∷◌, Option, none, some, Bytes, codes, length, eq_bytes, cut_at, if◌then◌else◌,
  ◌>>=◌,
}
use ichatd.Proto.Icc2s.{Icc2s, ichat_buffer_to_icc2s}
use ichatd.Proto.Ics2s.{Ics2s, ichat_buffer_to_ics2s, ics2s_sender, ics2s_command, ics2s_data}
use ichatd.Input.S2s.{stripped}
use ichatd.Memory.{Memory, ref_at, unref_at, text}
use ichatd.Memory.Queue.{free_entries}
use ichatd.Memory.Fill.{new_buffer}
use ichatd.Memory.Impl.{Buffers}
use ichatd.Memory.Deliver.{Way, register, dispatch_rest}

-- What of a message from an authenticated server is dispatched: what FORWARD brings, without the
-- size before it.
unfoldable pub forwarded_part : Bool → Ics2s → Option Bytes
forwarded_part authenticated icmsg =
    let clnt_msg = ics2s_data icmsg in
    if eq_bytes (ics2s_command icmsg) (codes "FORWARD")
    then if authenticated then stripped (length clnt_msg) (cut_at 0 clnt_msg) else none
    else none

abbrev pub dispatched :
    (ℕ → Bytes)
    → List Way
    → ℕ
    → List Buffers
    → Memory
    → Option Icc2s
    → Option (List Buffers × Memory)
dispatched junk ways msg is m none = do m' ← unref_at msg m; some (is, m')
dispatched junk ways msg is m (some icmsg) = dispatch_rest junk ways msg icmsg is m

-- `ichat_dispatch` of a message that may be malformed.
unfoldable pub dispatch_any :
    (ℕ → Bytes) → List Way → ℕ → List Buffers → Memory → Option (List Buffers × Memory)
dispatch_any junk ways msg is m = do
  bytes ← text m msg
  m₁ ← ref_at msg m
  dispatched junk ways msg is m₁ (ichat_buffer_to_icc2s bytes)

-- The new buffer with what is forwarded, dispatched and given up.
unfoldable pub forward_on :
    (ℕ → Bytes) → List Way → Option Bytes → List Buffers → Memory → Option (List Buffers × Memory)
unfolding dispatch_any
forward_on junk ways none is m = some (is, m)
forward_on junk ways (some bytes) is m = do
  (b, m₁) ← new_buffer junk bytes m
  (is', m₂) ← dispatch_any junk ways b is m₁
  m₃ ← unref_at b m₂
  some (is', m₃)

-- The command, and the end of `ichat_s2s_client_process_message`.
unfoldable pub run_and_free :
    (ℕ → Bytes)
    → List Way
    → Option Bytes
    → ℕ
    → ℕ
    → ℕ
    → List Buffers
    → Memory
    → Option (List Buffers × Memory)
unfolding forward_on
run_and_free junk ways inner cmd clnt_msg msg is m = do
  (is', m₁) ← forward_on junk ways inner is m
  m₂ ← free_entries (cmd ∷ clnt_msg ∷ msg ∷ []) m₁
  some (is', m₂)

-- The buffers for the data and for the command.
unfoldable pub with_parts :
    (ℕ → Bytes)
    → List Way
    → Bool
    → ℕ
    → Ics2s
    → List Buffers
    → Memory
    → Option (List Buffers × Memory)
unfolding run_and_free
with_parts junk ways authenticated msg icmsg is m = do
  (clnt_msg, m₁) ← new_buffer junk (ics2s_data icmsg) m
  (cmd, m₂) ← new_buffer junk (ics2s_command icmsg) m₁
  run_and_free junk ways (forwarded_part authenticated icmsg) cmd clnt_msg msg is m₂

-- `ichat_s2s_client_process_message` for a message that can be read.
abbrev pub s2s_processed :
    (ℕ → Bytes)
    → List Way
    → Bool
    → Bool
    → ℕ
    → Buffers
    → List Buffers
    → Memory
    → Option Ics2s
    → Option (List Buffers × Memory)
s2s_processed junk ways changed authenticated msg self others m none = do
  m' ← unref_at msg m
  some (self ∷ others, m')
s2s_processed junk ways changed authenticated msg self others m (some icmsg) = do
  (sig, m₁) ← new_buffer junk (ics2s_sender icmsg) m
  (self', m₂) ← register changed sig self m₁
  with_parts junk ways authenticated msg icmsg (self' ∷ others) m₂

-- `ichat_s2s_client_process_message`.
unfoldable pub s2s_process_message :
    (ℕ → Bytes)
    → List Way
    → Bool
    → Bool
    → ℕ
    → Buffers
    → List Buffers
    → Memory
    → Option (List Buffers × Memory)
unfolding with_parts
s2s_process_message junk ways changed authenticated msg self others m = do
  bytes ← text m msg
  m₁ ← ref_at msg m
  s2s_processed junk ways changed authenticated msg self others m₁ (ichat_buffer_to_ics2s bytes)

-- A message of `ichat_s2s_client_read_op`.
unfoldable pub s2s_read_message :
    (ℕ → Bytes)
    → List Way
    → Bool
    → Bool
    → Bytes
    → Buffers
    → List Buffers
    → Memory
    → Option (List Buffers × Memory)
unfolding s2s_process_message
s2s_read_message junk ways changed authenticated bytes self others m = do
  (b, m₁) ← new_buffer junk bytes m
  (is, m₂) ← s2s_process_message junk ways changed authenticated b self others m₁
  m₃ ← unref_at b m₂
  some (is, m₃)
