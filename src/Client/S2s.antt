-- ===== src/Client/S2s.antt =====
-- `ichat_s2s_client_add_message` of src/ichat/s2s_client/ichat_s2s_client_ops.c, and
-- `ichat_s2s_client_create_impl` of ichat_s2s_client_impl.c.
use ichatd.Common.{
  ℕ, ◌+◌, ◌<◌, ◌≡◌, refl, sym, ap, ap₂, ◌∙◌, Bool, true, false, [], ◌∷◌, ◌++◌, append-nil,
  append_assoc, Option, some, arith, Bytes, codes, length, length-append, ◌>>◌, assert,
}
use ichatd.Decimal.{number_len, decimal}
use ichatd.Decimal.RoundTrip.{length-decimal}
use ichatd.Buffer.{resized}
use ichatd.Libc.{sprintf, snprintf, snprintf_fits, sprintf-decimal}
use ichatd.Proto.Ics2s.{Ics2s, ics2s_bytes}
use ichatd.Proto.Login.{s2s_make_login_msg, s2s_make_login_msg_lem, login_body}
use ichatd.Frame.{frame}
use ichatd.Queue.{Queue, buffer_queue_append, buffer_queue_alloc}
use ichatd.Queue.Stream.{stream, join, IsValid, stream-append_all}
use ichatd.Config.{S2sBlock}
use ichatd.Client.{S2sImpl, AuthDir, in_auth, out_auth}
use ichatd.Client.Chat.{size_ok}

abbrev pub forward : Bytes
forward = codes "FORWARD"

-- [server]\0[timestamp]\0FORWARD\0[size]\0, in a buffer of `cmd_size` bytes.
abbrev pub forward_cmd : Bytes → Bytes → ℕ → Bytes
forward_cmd my_name timestamp msg_size =
    let cmd_size = length my_name + 1 + 17 + 1 + length forward + 1 + number_len msg_size + 1 in
    snprintf cmd_size (my_name ++ 0 ∷ (timestamp ++ 0 ∷ (forward ++ 0 ∷ decimal msg_size)))
      (resized cmd_size [])

-- The three buffers that go into the queue: [len]\0, the command, and the message itself.
unfoldable pub enqueue : Bytes → Bytes → Bytes → Queue → Queue
enqueue my_name timestamp msg q =
    let cmd = forward_cmd my_name timestamp (length msg) in
    let new_msg_size = length cmd + length msg in
    let msg_head = sprintf (decimal new_msg_size) (resized (number_len new_msg_size + 1) []) in
    buffer_queue_append (buffer_queue_append (buffer_queue_append q msg_head) cmd) msg

-- `ichat_s2s_client_add_message`, with the server's name and what `make_timestamp` wrote. `none`
-- is a failed assertion.
unfoldable pub ichat_s2s_client_add_message : Bytes → Bytes → Bytes → S2sImpl → Option S2sImpl
ichat_s2s_client_add_message my_name timestamp msg impl = do
  assert (size_ok msg)
  some (record impl { bo = enqueue my_name timestamp msg impl.bo })

abbrev initial : AuthDir → Bytes → Bytes → S2sBlock → Queue × Bool
initial in_auth my_name timestamp b = (buffer_queue_alloc, false)
initial out_auth my_name timestamp b =
    (buffer_queue_append buffer_queue_alloc (s2s_make_login_msg my_name timestamp b.pass), true)

-- `ichat_s2s_client_create_impl`: an outgoing link sends its login message at once and takes the
-- other side as authenticated.
unfoldable pub ichat_s2s_client_create_impl : AuthDir → Bytes → Bytes → S2sBlock → S2sImpl
ichat_s2s_client_create_impl auth_dir my_name timestamp b =
    let (bo, authenticated) = initial auth_dir my_name timestamp b in
    record {
      bi = [];
      bo = bo;
      sig = [];
      auth_dir = auth_dir;
      is_authenticated = authenticated;
      my_name = my_name;
      link_block = b;
    }

-- The message that another server is sent.
abbrev pub forwarded : Bytes → Bytes → Bytes → Ics2s
forwarded my_name timestamp msg = record {
  sender = my_name;
  timestamp = timestamp;
  command = forward;
  msg_data = decimal (length msg) ++ 0 ∷ msg;
}

forward_cmd_lem :
    (name stamp : Bytes) (n : ℕ)
    → length stamp ≡ 17
    → forward_cmd name stamp n ≡ name ++ 0 ∷ (stamp ++ 0 ∷ (forward ++ 0 ∷ decimal n)) ++ 0 ∷ []
forward_cmd_lem name stamp n h =
    let text = name ++ 0 ∷ (stamp ++ 0 ∷ (forward ++ 0 ∷ decimal n)) in
    snprintf_fits (length name + 1 + 17 + 1 + length forward + 1 + number_len n) text (
      omega (
        arith,
        length-append name (0 ∷ (stamp ++ 0 ∷ (forward ++ 0 ∷ decimal n))),
        length-append stamp (0 ∷ (forward ++ 0 ∷ decimal n)),
        length-decimal n,
      ))

forward_cmd-append :
    (name stamp msg : Bytes)
    → length stamp ≡ 17
    → forward_cmd name stamp (length msg) ++ msg ≡ ics2s_bytes (forwarded name stamp msg)
forward_cmd-append name stamp msg h =
    ap (λ c. c ++ msg) (forward_cmd_lem name stamp (length msg) h)
    ∙ append_assoc (name ++ 0 ∷ (stamp ++ 0 ∷ (forward ++ 0 ∷ decimal (length msg)))) (0 ∷ []) msg
    ∙ append_assoc name (0 ∷ (stamp ++ 0 ∷ (forward ++ 0 ∷ decimal (length msg)))) (0 ∷ msg)
    ∙ ap (λ r. name ++ 0 ∷ r)
        (append_assoc stamp (0 ∷ (forward ++ 0 ∷ decimal (length msg))) (0 ∷ msg))

-- With a time of 17 characters a message of a size strictly between the limits is put behind what
-- waits in a valid queue for the other server, as one frame that holds the server's name, the time,
-- FORWARD, the message's size and the message; the queue stays valid, and nothing else of the
-- client changes.
pub ichat_s2s_client_add_message_lem :
    (name stamp msg : Bytes) (impl : S2sImpl)
    → length stamp ≡ 17
    → 20 < length msg
    → length msg < 4192
    → IsValid impl.bo
    → (impl' : S2sImpl) × (ichat_s2s_client_add_message name stamp msg impl ≡ some impl')
      × (stream impl'.bo ≡ stream impl.bo ++ frame (ics2s_bytes (forwarded name stamp msg)))
      × IsValid impl'.bo
      × (impl' ≡ record impl { bo = impl'.bo })
unfolding ichat_s2s_client_add_message enqueue
ichat_s2s_client_add_message_lem name stamp msg impl h low high v =
    let cmd = forward_cmd name stamp (length msg) in
    let n = length cmd + length msg in
    let head = sprintf (decimal n) (resized (number_len n + 1) []) in
    let (sent, w) = stream-append_all impl.bo (head ∷ cmd ∷ msg ∷ []) v in
    let whole = forward_cmd-append name stamp msg h in
    let body = ics2s_bytes (forwarded name stamp msg) in
    let size : n ≡ length body = sym (length-append cmd msg) ∙ ap length whole in
    let text : join (head ∷ cmd ∷ msg ∷ []) ≡ frame body =
      ap₂ (λ x r. x ++ (cmd ++ r)) (sprintf-decimal n) (append-nil msg)
      ∙ append_assoc (decimal n) (0 ∷ []) (cmd ++ msg)
      ∙ ap₂ (λ k r. decimal k ++ 0 ∷ r) size whole in
    (
      record impl { bo = enqueue name stamp msg impl.bo },
      ground arith,
      sent ∙ ap (λ r. stream impl.bo ++ r) text,
      w,
      refl,
    )

-- A new incoming link sends nothing and is not authenticated; a new outgoing link has exactly the
-- login message waiting, framed, and counts as authenticated.
pub ichat_s2s_client_create_impl_lem :
    (name stamp : Bytes) (b : S2sBlock)
    → let incoming = ichat_s2s_client_create_impl in_auth name stamp b in
      let outgoing = ichat_s2s_client_create_impl out_auth name stamp b in
      (stream incoming.bo ≡ [])
      × (incoming.is_authenticated ≡ false)
      × (stream outgoing.bo ≡ frame (login_body name stamp b.pass))
      × (outgoing.is_authenticated ≡ true)
unfolding ichat_s2s_client_create_impl
ichat_s2s_client_create_impl_lem name stamp b =
    (refl, refl, append-nil _ ∙ s2s_make_login_msg_lem name stamp b.pass, refl)
