-- ===== src/Input/Chat.antt =====
-- `ichat_client_process_message` and `ichat_client_read_op` of src/ichat/client/ichat_client_ops.c.
use ichatd.Common.{
  ℕ, ◌+◌, ◌≡◌, refl, List, [], ◌∷◌, ◌++◌, Option, none, some, Bytes, length, ◌==◌, Bool-cases, inl,
  inr, subst, sym, arith, ◌∙◌,
}
use ichatd.Proto.Icc2s.{Icc2s, ichat_buffer_to_icc2s, icc2s_sender}
use ichatd.Frame.{frame, next_frame, wait}
use ichatd.Queue.Stream
use ichatd.Client.{Client, Impl, ctl_client, ichat_client, s2s_client}
use ichatd.Server.{Server, find_client, update_client, at_client, corrupted}
use ichatd.Dispatch.{ichat_dispatch, same_sig}
use ichatd.Dispatch.Delivery.{Sendable, Delivered, QueuesValid, queue}
use ichatd.Dispatch.Routing.{dispatch_due, ichat_dispatch_lem}
use ichatd.Input.{Read, got, read_op, registered, set_input, input_at}
use ichatd.Input.Messages.{read_op_frames, AllFit, in_turn}

abbrev process_parsed : (ℕ → ℕ → Bytes) → Server → ℕ → Bytes → Option Icc2s → Option Server
process_parsed stamp s ptr msg none = some (at_client ptr corrupted s)
process_parsed stamp s ptr msg (some m) =
    ichat_dispatch stamp (at_client ptr (registered (icc2s_sender m)) s) ptr msg

-- `ichat_client_process_message`.
unfoldable pub ichat_client_process_message : (ℕ → ℕ → Bytes) → Server → ℕ → Bytes → Option Server
ichat_client_process_message stamp s ptr msg =
    process_parsed stamp s ptr msg (ichat_buffer_to_icc2s msg)

-- `ichat_client_read_op`.
abbrev pub ichat_client_read_op : (ℕ → ℕ → Bytes) → Server → ℕ → Read → Option Server
ichat_client_read_op stamp = read_op (ichat_client_process_message stamp)

-- The clients when the sender's signature is registered.
abbrev pub with_sender : Server → ℕ → Icc2s → List Client
with_sender s ptr m = update_client ptr (registered m.sender) s.clist

pub queue-registered : (sig : Bytes) (c : Client) → queue (registered sig c) ≡ queue c
queue-registered sig c = by_impl c.impl
  where
    by_impl :
        (impl : Impl)
        → let d : Client = record c { impl = impl } in queue (registered sig d) ≡ queue d
    by_impl (s2s_client i) = elim (Bool-cases (same_sig sig i.sig)) [
      | inl e ↦ rw e refl
      | inr e ↦ rw e refl
    ]
    by_impl (ichat_client i) = elim (Bool-cases (same_sig sig i.sig)) [
      | inl e ↦ rw e refl
      | inr e ↦ rw e refl
    ]
    by_impl impl = refl

QueuesValid-update :
    (f : Client → Client) (ptr : ℕ) (cs : List Client)
    → ((c : Client) → queue (f c) ≡ queue c)
    → QueuesValid cs
    → QueuesValid (update_client ptr f cs)
unfolding update_client
QueuesValid-update f ptr [] same v = v
QueuesValid-update f ptr (c ∷ cs) same (here, v) = elim (Bool-cases (c.ptr == ptr)) [
  | inl e ↦ rw e (subst Stream.IsValid (sym (same c)) here, v)
  | inr e ↦ rw e (here, QueuesValid-update f ptr cs same v)
]

-- For clients with valid queues and times of 17 characters, a readable message with a size strictly
-- between the limits from a client: its sender becomes the client's signature, and then every
-- client gets what it is due, the sender itself by its new signature.
pub ichat_client_process_message_lem :
    (stamp : ℕ → ℕ → Bytes) (s : Server) (ptr : ℕ) (msg : Bytes) (m : Icc2s)
    → Sendable msg m
    → ((n p : ℕ) → length (stamp n p) ≡ 17)
    → QueuesValid s.clist
    → let cs = with_sender s ptr m in
      (cs' : List Client) × (ichat_client_process_message stamp s ptr msg
        ≡ some (record s { clist = cs'; ticks = s.ticks + 1 }))
      × Delivered (dispatch_due s.config.s2s_me.host (stamp s.ticks) ptr msg m cs) cs cs'
unfolding ichat_client_process_message
ichat_client_process_message_lem stamp s ptr msg m ok stamped v =
    let (cs', e, all) =
      ichat_dispatch_lem stamp (at_client ptr (registered m.sender) s) ptr msg m ok stamped
        (QueuesValid-update (registered m.sender) ptr s.clist (queue-registered m.sender) v) in
    (cs', rw (ok.parsed, e), all)

pub queue-set_input : (bytes : Bytes) (c : Client) → queue (set_input bytes c) ≡ queue c
queue-set_input bytes c = by_impl c.impl
  where
    by_impl :
        (impl : Impl)
        → let d : Client = record c { impl = impl } in queue (set_input bytes d) ≡ queue d
    by_impl (ctl_client i) = refl
    by_impl (ichat_client i) = refl
    by_impl (s2s_client i) = refl
    by_impl impl = refl

-- For clients with valid queues and times of 17 characters: bytes that complete one readable
-- message of a size strictly between the limits, with behind it bytes that are not yet a message,
-- make `ichat_client_read_op` register the sender, deliver the message to all who are due it (of a
-- broadcast, also to the chat clients that have not identified themselves, whatever the option
-- `nullclients` says), and leave those bytes in the input buffer.
pub ichat_client_read_op_lem :
    (stamp : ℕ → ℕ → Bytes) (s : Server) (ptr : ℕ) (bytes msg : Bytes) (m : Icc2s) (rest : Bytes)
    → Sendable msg m
    → ((n p : ℕ) → length (stamp n p) ≡ 17)
    → QueuesValid s.clist
    → next_frame rest ≡ wait
    → input_at (find_client ptr s.clist) ++ bytes ≡ frame msg ++ rest
    → let s0 = at_client ptr (set_input (frame msg ++ rest)) s in
      let cs = with_sender s0 ptr m in
      (cs' : List Client) × (ichat_client_read_op stamp s ptr (got bytes)
        ≡ some (at_client ptr (set_input rest) (record s { clist = cs'; ticks = s.ticks + 1 })))
      × Delivered (dispatch_due s.config.s2s_me.host (stamp s.ticks) ptr msg m cs) cs cs'
unfolding in_turn
ichat_client_read_op_lem stamp s ptr bytes msg m rest ok stamped v none_left whole =
    let s0 = at_client ptr (set_input (frame msg ++ rest)) s in
    let v0 =
      QueuesValid-update (set_input (frame msg ++ rest)) ptr s.clist
        (queue-set_input (frame msg ++ rest)) v in
    let (cs', e, all) = ichat_client_process_message_lem stamp s0 ptr msg m ok stamped v0 in
    let fits : AllFit (msg ∷ []) = (omega (arith, ok.above), omega (arith, ok.below), tt) in
    let read =
      read_op_frames (ichat_client_process_message stamp) s ptr bytes (msg ∷ []) rest fits none_left
        whole in
    (cs', read ∙ rw e refl, all)
