-- ===== src/Client/Chat.antt =====
-- `ichat_client_add_message` of src/ichat/client/ichat_client_ops.c.
use ichatd.Common.{
  ◌+◌, ◌≤◌, ◌<◌, ◌≡◌, refl, ap, ap₂, append-nil, ◌∙◌, Bool, ◌&&◌, [], ◌∷◌, ◌++◌, append_assoc,
  Option, none, some, arith, Bytes, length, length-append, ltb, ◌>>=◌, ◌>>◌, assert, ◌↔◌, ◌⊎◌,
}
use ichatd.Decimal.{number_len, decimal}
use ichatd.Buffer.{resized}
use ichatd.Libc.{sprintf, sprintf-decimal}
use ichatd.Proto.Icc2s.{Icc2s, ichat_buffer_to_icc2s, icc2s_command, icc2s_data}
use ichatd.Frame.{frame, min_ichat_message_len, max_ichat_message_len}
use ichatd.Queue.{Queue, buffer_queue_append}
use ichatd.Queue.Stream.{stream, IsValid, join, stream-append_all}
use ichatd.Client.{ChatImpl}

-- assert (msg_size > MIN_ICHAT_MESSAGE_LEN && msg_size < MAX_ICHAT_MESSAGE_LEN)
abbrev pub size_ok : Bytes → Bool
size_ok msg = ltb min_ichat_message_len (length msg) && ltb (length msg) max_ichat_message_len

-- The four buffers that go into the queue: [len]\0, [cmd], \0 and [data].
unfoldable pub enqueue : Icc2s → Queue → Queue
enqueue m q =
    let cmd = icc2s_command m in
    let rest = icc2s_data m in
    let new_msg_size = length cmd + 1 + length rest in
    let msg_head = sprintf (decimal new_msg_size) (resized (number_len new_msg_size + 1) []) in
    buffer_queue_append
      (buffer_queue_append (buffer_queue_append (buffer_queue_append q msg_head) cmd) (0 ∷ [])) rest

-- `ichat_client_add_message`: [sender][cmd][recver][data] becomes [cmd][data]. `none` is a failed
-- assertion.
unfoldable pub ichat_client_add_message : Bytes → ChatImpl → Option ChatImpl
ichat_client_add_message msg impl = do
  assert (size_ok msg)
  icmsg ← ichat_buffer_to_icc2s msg
  some (record impl { bo = enqueue icmsg impl.bo })

-- The body that a chat client is sent for a message.
abbrev pub chat_body : Icc2s → Bytes
chat_body m = m.command ++ 0 ∷ m.msg_data

pub enqueue_lem :
    (m : Icc2s) (q : Queue)
    → IsValid q
    → (stream (enqueue m q) ≡ stream q ++ frame (chat_body m)) × IsValid (enqueue m q)
unfolding enqueue
enqueue_lem m q v =
    let n = length m.command + 1 + length m.msg_data in
    let head = sprintf (decimal n) (resized (number_len n + 1) []) in
    let (sent, w) = stream-append_all q (head ∷ m.command ∷ (0 ∷ []) ∷ m.msg_data ∷ []) v in
    let size : n ≡ length (chat_body m) = omega (arith, length-append m.command (0 ∷ m.msg_data)) in
    let text : join (head ∷ m.command ∷ (0 ∷ []) ∷ m.msg_data ∷ []) ≡ frame (chat_body m) =
      ap₂ (λ h r. h ++ (m.command ++ 0 ∷ r)) (sprintf-decimal n) (append-nil m.msg_data)
      ∙ append_assoc (decimal n) (0 ∷ []) (chat_body m)
      ∙ ap (λ k. decimal k ++ 0 ∷ chat_body m) size in
    (sent ∙ ap (λ r. stream q ++ r) text, w)

-- A message that can be read and has a size strictly between the limits is put behind what waits in
-- a valid queue for the client, as one frame with its command and its data; the queue stays valid,
-- and the signature and the input stay.
pub ichat_client_add_message_lem :
    (msg : Bytes) (m : Icc2s) (impl : ChatImpl)
    → ichat_buffer_to_icc2s msg ≡ some m
    → 20 < length msg
    → length msg < 4192
    → IsValid impl.bo
    → (impl' : ChatImpl) × (ichat_client_add_message msg impl ≡ some impl')
      × (stream impl'.bo ≡ stream impl.bo ++ frame (chat_body m))
      × IsValid impl'.bo
      × (impl'.sig ≡ impl.sig)
      × (impl'.bi ≡ impl.bi)
unfolding ichat_client_add_message
ichat_client_add_message_lem msg m impl parsed low high v =
    let (sent, w) = enqueue_lem m impl.bo v in
    (record impl { bo = enqueue m impl.bo }, ground (arith, parsed), sent, w, refl, refl)

-- The assertions of `ichat_client_add_message` fail for exactly the messages that cannot be read or
-- have a size of at most 20 or at least 4192 bytes.
pub ichat_client_add_message_aborts :
    (msg : Bytes) (impl : ChatImpl)
    → (ichat_client_add_message msg impl ≡ none)
      ↔ ((ichat_buffer_to_icc2s msg ≡ none) ⊎ ((length msg ≤ 20) ⊎ (4192 ≤ length msg)))
unfolding ichat_client_add_message
ichat_client_add_message_aborts msg impl = (λ h. ground arith, λ h. ground arith)
