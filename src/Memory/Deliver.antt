-- ===== src/Memory/Deliver.antt =====
-- A message on its ways from a chat client to all that get it, over shared buffers:
-- `ichat_client_read_op` and `ichat_client_process_message` of src/ichat/client/ichat_client_ops.c, with
-- `ichat_dispatch` of src/ichat/proto/ichat_dispatch.c. Which clients get the message is a parameter.
use ichatd.Common.{as_list, ℕ, Bool, true, false, List, [], ◌∷◌, Option, none, some, Bytes, ◌>>=◌}
use ichatd.Proto.Icc2s.{Icc2s, ichat_buffer_to_icc2s, icc2s_sender, icc2s_receiver}
use ichatd.Memory.{Memory, ref_at, unref_at, text}
use ichatd.Memory.Queue.{Pointers, free_entries}
use ichatd.Memory.Fill.{new_buffer}
use ichatd.Memory.Messages.{chat_add_message, s2s_add_message}
use ichatd.Memory.Impl.{Buffers}

-- How a client is sent a message: `op.add_message` of a chat client, or of a link to another server
-- with the server's name and the time; or it does not get it.
pub data Way : Type 0 where
  chat skip : Way
  link : Bytes → Bytes → Way

abbrev pub requeued : Buffers → Option (Pointers × Memory) → Option (Buffers × Memory)
requeued i r = do (q, m) ← r; some (record i { bo = q }, m)

unfoldable pub add_message : (ℕ → Bytes) → Way → ℕ → Buffers → Memory → Option (Buffers × Memory)
add_message junk chat msg i m = requeued i (chat_add_message junk msg i.bo m)
add_message junk skip msg i m = some (i, m)
add_message junk (link my_name timestamp) msg i m =
    requeued i (s2s_add_message junk my_name timestamp msg i.bo m)

-- The loops of `ichat_broadcast` and `ichat_unicast`: each client is sent the message in its way.
unfoldable pub deliver :
    (ℕ → Bytes) → List Way → ℕ → List Buffers → Memory → Option (List Buffers × Memory)
unfolding add_message
deliver junk ways msg [] m = some ([], m)
deliver junk [] msg (i ∷ is) m = some (i ∷ is, m)
deliver junk (way ∷ ways) msg (i ∷ is) m = do
  (i', m') ← add_message junk way msg i m
  (is', m'') ← deliver junk ways msg is m'
  some (i' ∷ is', m'')

-- The sender is registered with a new signature in place of the old one, or the new one is given up.
unfoldable pub register : Bool → ℕ → Buffers → Memory → Option (Buffers × Memory)
register false sig i m = do m' ← unref_at sig m; some (i, m')
register true sig i m = do
  m' ← free_entries (as_list i.sig) m
  some (record i { sig = some sig }, m')

-- `ichat_dispatch` from the loops on: then the receiver and `icc2s_unref`.
unfoldable pub deliver_and_free :
    (ℕ → Bytes) → List Way → ℕ → ℕ → List Buffers → Memory → Option (List Buffers × Memory)
unfolding deliver
deliver_and_free junk ways receiver msg is m = do
  (is', m') ← deliver junk ways msg is m
  m'' ← free_entries (receiver ∷ msg ∷ []) m'
  some (is', m'')

-- `ichat_dispatch` behind `ichat_buffer_to_icc2s`: a buffer with the receiver.
unfoldable pub dispatch_rest :
    (ℕ → Bytes) → List Way → ℕ → Icc2s → List Buffers → Memory → Option (List Buffers × Memory)
unfolding deliver_and_free
dispatch_rest junk ways msg icmsg is m = do
  (receiver, m') ← new_buffer junk (icc2s_receiver icmsg) m
  deliver_and_free junk ways receiver msg is m'

-- `ichat_dispatch`: `ichat_buffer_to_icc2s` keeps a reference to the message.
unfoldable pub dispatch :
    (ℕ → Bytes) → List Way → ℕ → Icc2s → List Buffers → Memory → Option (List Buffers × Memory)
unfolding dispatch_rest
dispatch junk ways msg icmsg is m = do m' ← ref_at msg m; dispatch_rest junk ways msg icmsg is m'

-- `ichat_client_process_message` with the new signature at hand: registering, dispatching, and
-- `icc2s_unref`. `changed` is the answer of `ichat_sig_cmp`.
unfoldable pub register_and_dispatch :
    (ℕ → Bytes)
    → List Way
    → Bool
    → ℕ
    → ℕ
    → Icc2s
    → Buffers
    → List Buffers
    → Memory
    → Option (List Buffers × Memory)
unfolding register dispatch
register_and_dispatch junk ways changed sig msg icmsg self others m = do
  (self', m₁) ← register changed sig self m
  (is, m₂) ← dispatch junk ways msg icmsg (self' ∷ others) m₁
  m₃ ← unref_at msg m₂
  some (is, m₃)

-- `ichat_client_process_message` for a message that can be read.
unfoldable pub process_read :
    (ℕ → Bytes)
    → List Way
    → Bool
    → ℕ
    → Icc2s
    → Buffers
    → List Buffers
    → Memory
    → Option (List Buffers × Memory)
unfolding register_and_dispatch
process_read junk ways changed msg icmsg self others m = do
  (sig, m') ← new_buffer junk (icc2s_sender icmsg) m
  register_and_dispatch junk ways changed sig msg icmsg self others m'

-- A message that cannot be read is given up by `icc2s_destroy`.
abbrev pub processed :
    (ℕ → Bytes)
    → List Way
    → Bool
    → ℕ
    → Buffers
    → List Buffers
    → Memory
    → Option Icc2s
    → Option (List Buffers × Memory)
processed junk ways changed msg self others m none = do
  m' ← unref_at msg m
  some (self ∷ others, m')
processed junk ways changed msg self others m (some icmsg) =
    process_read junk ways changed msg icmsg self others m

-- `ichat_client_process_message`.
unfoldable pub process_message :
    (ℕ → Bytes)
    → List Way
    → Bool
    → ℕ
    → Buffers
    → List Buffers
    → Memory
    → Option (List Buffers × Memory)
unfolding process_read
process_message junk ways changed msg self others m = do
  bytes ← text m msg
  m₁ ← ref_at msg m
  processed junk ways changed msg self others m₁ (ichat_buffer_to_icc2s bytes)

-- A message of `ichat_client_read_op`: a new buffer with its bytes, given up when it is processed.
unfoldable pub read_message :
    (ℕ → Bytes)
    → List Way
    → Bool
    → Bytes
    → Buffers
    → List Buffers
    → Memory
    → Option (List Buffers × Memory)
unfolding process_message
read_message junk ways changed bytes self others m = do
  (b, m₁) ← new_buffer junk bytes m
  (is, m₂) ← process_message junk ways changed b self others m₁
  m₃ ← unref_at b m₂
  some (is, m₃)
