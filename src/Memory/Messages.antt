-- ===== src/Memory/Messages.antt =====
-- The `add_message` operations of src/ichat/client/ichat_client_ops.c and
-- src/ichat/s2s_client/ichat_s2s_client_ops.c over shared buffers: the pieces of a message are made,
-- put into the queue and given up again. `malloc` is taken to succeed.
use ichatd.Common.{ℕ, ◌+◌, true, List, [], ◌∷◌, Option, some, Bytes, length, ◌>>=◌, ◌>>◌, assert}
use ichatd.Decimal.{number_len, decimal}
use ichatd.Buffer.{resized}
use ichatd.Libc.{sprintf}
use ichatd.Proto.Icc2s.{Icc2s, ichat_buffer_to_icc2s, icc2s_command, icc2s_data}
use ichatd.Memory.{Memory, alloc_at, ref_at, unref_at, text}
use ichatd.Memory.Queue.{Pointers, append_entry, free_entries}
use ichatd.Memory.Fill.{new_buffer}
use ichatd.Client.Chat.{size_ok}
use ichatd.Client.S2s.{forward_cmd}

-- One `buffer_queue_append` behind the other.
unfoldable pub append_entries : List ℕ → Pointers → Memory → Option (Pointers × Memory)
append_entries [] q m = some (q, m)
append_entries (p ∷ ps) q m = do (q', m') ← append_entry true p q m; append_entries ps q' m'

-- The end of an `add_message`: the pieces go into the queue, and the function's own references are
-- given up.
unfoldable pub send : List ℕ → List ℕ → Pointers → Memory → Option (Pointers × Memory)
unfolding append_entries
send pieces own q m = do
  (q', m') ← append_entries pieces q m
  m'' ← free_entries own m'
  some (q', m'')

-- [len]\0 before so many bytes.
abbrev pub head_text : ℕ → Bytes
head_text n = sprintf (decimal n) (resized (number_len n + 1) [])

-- The pieces of a message for a chat client: [len]\0, [cmd], \0 and [data]. The last reference that
-- is given up is the one of `icc2s_unref`.
unfoldable pub chat_pieces :
    (ℕ → Bytes) → Icc2s → ℕ → Pointers → Memory → Option (Pointers × Memory)
unfolding send
chat_pieces junk icmsg msg q m₁ = do
  (cmd, m₂) ← new_buffer junk (icc2s_command icmsg) m₁
  (z, m₃) ← new_buffer junk (0 ∷ []) m₂
  (data_, m₄) ← new_buffer junk (icc2s_data icmsg) m₃
  (msg_head, m₅) ←
      new_buffer junk (head_text (length (icc2s_command icmsg) + 1 + length (icc2s_data icmsg))) m₄
  send (msg_head ∷ cmd ∷ z ∷ data_ ∷ []) (msg_head ∷ data_ ∷ z ∷ cmd ∷ msg ∷ []) q m₅

-- `ichat_client_add_message`: `ichat_buffer_to_icc2s` keeps a reference to the message.
unfoldable pub chat_add_message : (ℕ → Bytes) → ℕ → Pointers → Memory → Option (Pointers × Memory)
unfolding chat_pieces
chat_add_message junk msg q m = do
  bytes ← text m msg
  assert (size_ok bytes)
  m₁ ← ref_at msg m
  icmsg ← ichat_buffer_to_icc2s bytes
  chat_pieces junk icmsg msg q m₁

-- The pieces of a message for another server: [len]\0, [server]\0[timestamp]\0[command]\0[size]\0,
-- and the message itself.
unfoldable pub s2s_pieces :
    (ℕ → Bytes) → Bytes → Bytes → Bytes → ℕ → Pointers → Memory → Option (Pointers × Memory)
unfolding send
s2s_pieces junk my_name timestamp bytes msg q m = do
  (cmd, m₁) ← new_buffer junk (forward_cmd my_name timestamp (length bytes)) m
  (msg_head, m₂) ←
      new_buffer junk
        (head_text (length (forward_cmd my_name timestamp (length bytes)) + length bytes)) m₁
  send (msg_head ∷ cmd ∷ msg ∷ []) (msg_head ∷ cmd ∷ []) q m₂

-- `ichat_s2s_client_add_message`.
unfoldable pub s2s_add_message :
    (ℕ → Bytes) → Bytes → Bytes → ℕ → Pointers → Memory → Option (Pointers × Memory)
unfolding s2s_pieces
s2s_add_message junk my_name timestamp msg q m = do
  bytes ← text m msg
  assert (size_ok bytes)
  s2s_pieces junk my_name timestamp bytes msg q m

-- The initial banner of `ctl_client_create`, and the answer to a command of
-- `ctl_client_process_message` that has a text of its own: put into the queue and given up.
unfoldable pub ctl_respond : (ℕ → Bytes) → Bytes → Pointers → Memory → Option (Pointers × Memory)
unfolding send
ctl_respond junk response q m = do (b, m₁) ← new_buffer junk response m; send (b ∷ []) (b ∷ []) q m₁

-- The answer to `echo`: the new buffer is given up, and the message itself is the response.
unfoldable pub ctl_echo : ℕ → Pointers → Memory → Option (Pointers × Memory)
unfolding send
ctl_echo msg q m =
    let (response, m₁) = alloc_at m in
    do m₂ ← unref_at response m₁; m₃ ← ref_at msg m₂; send (msg ∷ []) (msg ∷ []) q m₃
