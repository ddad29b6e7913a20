-- ===== src/Dispatch/Delivery.antt =====
-- Who gets a message, and as what.
use ichatd.Common.{
  ℕ, ◌<◌, ◌≡◌, refl, sym, ap, Bool, List, [], ◌∷◌, ◌++◌, append-nil, Option, some, arith, Bytes,
  length, if◌then◌else◌, Bool-cases, inl, inr,
}
use ichatd.Proto.Icc2s.{Icc2s, ichat_buffer_to_icc2s}
use ichatd.Proto.Ics2s.{ics2s_bytes}
use ichatd.Frame.{frame}
use ichatd.Queue.{Queue, buffer_queue_alloc}
use ichatd.Queue.Stream
use ichatd.Queue.Stream.{stream}
use ichatd.Client.{
  Client, Impl, ctl_server, ichat_server, s2s_server, ctl_client, ichat_client, s2s_client,
  ChatImpl, S2sImpl,
}
use ichatd.Client.Chat.{ichat_client_add_message_lem, chat_body}
use ichatd.Client.S2s.{ichat_s2s_client_add_message_lem, forwarded}
use ichatd.Dispatch.{
  same_sig, to_chat, is_peer, to_peer, broadcast_one, ichat_broadcast, remote_one, unicast_remote,
  is_receiver,
}

-- The queue of what waits for a client; a listening socket has none.
abbrev pub queue : Client → Queue
queue c = elim c.impl [
  | ctl_server ↦ buffer_queue_alloc
  | ichat_server ↦ buffer_queue_alloc
  | s2s_server ↦ buffer_queue_alloc
  | ctl_client i ↦ i.bo
  | ichat_client i ↦ i.bo
  | s2s_client i ↦ i.bo
]

-- The data of a client apart from its queue.
abbrev pub without_queue : Impl → Impl
without_queue ctl_server = ctl_server
without_queue ichat_server = ichat_server
without_queue s2s_server = s2s_server
without_queue (ctl_client i) = ctl_client (record i { bo = buffer_queue_alloc })
without_queue (ichat_client i) = ichat_client (record i { bo = buffer_queue_alloc })
without_queue (s2s_client i) = s2s_client (record i { bo = buffer_queue_alloc })

-- The client got these bytes behind what waited, and nothing else of it changed.
pub record Got (bytes : Bytes) (c c' : Client) : Type 0 where
  pub waiting : stream (queue c') ≡ stream (queue c) ++ bytes
  pub valid : Stream.IsValid (queue c')
  pub same_ptr : c'.ptr ≡ c.ptr
  pub same_fd : c'.fd ≡ c.fd
  pub same_corrupt : c'.corrupt ≡ c.corrupt
  pub same_rest : without_queue c'.impl ≡ without_queue c.impl

-- Each client of the list got what is due to it, and the list is otherwise the same.
abbrev pub Delivered : (Client → Bytes) → List Client → List Client → Type 0
Delivered due [] [] = Unit {0}
Delivered due [] (c' ∷ cs') = ⊥
Delivered due (c ∷ cs) [] = ⊥
Delivered due (c ∷ cs) (c' ∷ cs') = Got (due c) c c' × Delivered due cs cs'

abbrev pub QueuesValid : List Client → Type 0
QueuesValid [] = Unit {0}
QueuesValid (c ∷ cs) = Stream.IsValid (queue c) × QueuesValid cs

pub Got-nothing : (c : Client) → Stream.IsValid (queue c) → Got [] c c
Got-nothing c v = record {
  waiting = sym (append-nil (stream (queue c)));
  valid = v;
  same_ptr = refl;
  same_fd = refl;
  same_corrupt = refl;
  same_rest = refl;
}

-- A message that can be read, with a size strictly between the limits.
pub record Sendable (msg : Bytes) (m : Icc2s) : Type 0 where
  pub parsed : ichat_buffer_to_icc2s msg ≡ some m
  pub above : 20 < length msg
  pub below : length msg < 4192

module _ (name : Bytes) (stamp : ℕ → Bytes) (origin : ℕ) (msg : Bytes) (m : Icc2s) where
  -- What another server is due.
  abbrev pub peer_due : Client → Bytes
  peer_due c = elim c.impl [
    | ctl_server ↦ []
    | ichat_server ↦ []
    | s2s_server ↦ []
    | ctl_client i ↦ []
    | ichat_client i ↦ []
    | s2s_client i ↦
        if is_peer name stamp origin c i
        then frame (ics2s_bytes (forwarded name (stamp c.ptr) msg))
        else []
  ]

  -- What a client is due from a broadcast.
  abbrev pub broadcast_due : Client → Bytes
  broadcast_due c = elim c.impl [
    | ctl_server ↦ []
    | ichat_server ↦ []
    | s2s_server ↦ []
    | ctl_client i ↦ []
    | ichat_client i ↦ frame (chat_body m)
    | s2s_client i ↦ peer_due c
  ]

  -- What the receivers on this server are due.
  abbrev pub local_due : Bytes → Client → Bytes
  local_due receiver c = if is_receiver receiver c then frame (chat_body m) else []

  module _ (ok : Sendable msg m) (stamped : (p : ℕ) → length (stamp p) ≡ 17) where
    pub to_chat_lem :
        (ptr : ℕ) (fd : Option ℕ) (bad : Bool) (i : ChatImpl)
        → Stream.IsValid i.bo
        → let c : Client = record { ptr = ptr; fd = fd; corrupt = bad; impl = ichat_client i } in
          (c' : Client) × (to_chat msg c i ≡ some c') × Got (frame (chat_body m)) c c'
    to_chat_lem ptr fd bad i v =
        let (i', e, sent, w, same_sig, same_bi) =
          ichat_client_add_message_lem msg m i ok.parsed ok.above ok.below v in
        (
          record { ptr = ptr; fd = fd; corrupt = bad; impl = ichat_client i' },
          ground (arith, e),
          record {
            waiting = sent;
            valid = w;
            same_ptr = refl;
            same_fd = refl;
            same_corrupt = refl;
            same_rest = ground (arith, same_sig, same_bi);
          },
        )

    to_peer_lem :
        (ptr : ℕ) (fd : Option ℕ) (bad : Bool) (i : S2sImpl)
        → Stream.IsValid i.bo
        → let c : Client = record { ptr = ptr; fd = fd; corrupt = bad; impl = s2s_client i } in
          (c' : Client) × (to_peer name stamp origin msg c i ≡ some c')
          × Got (frame (ics2s_bytes (forwarded name (stamp ptr) msg))) c c'
    to_peer_lem ptr fd bad i v =
        let (i', e, sent, w, rest) =
          ichat_s2s_client_add_message_lem name (stamp ptr) msg i (stamped ptr) ok.above ok.below
            v in
        (
          record { ptr = ptr; fd = fd; corrupt = bad; impl = s2s_client i' },
          ground (arith, e),
          record {
            waiting = sent;
            valid = w;
            same_ptr = refl;
            same_fd = refl;
            same_corrupt = refl;
            same_rest = ap (λ (x : S2sImpl). without_queue (s2s_client x)) rest;
          },
        )

    remote_one_lem :
        (c : Client)
        → Stream.IsValid (queue c)
        → (c' : Client) × (remote_one name stamp origin msg c ≡ some c') × Got (peer_due c) c c'
    remote_one_lem c v = by_impl c.impl v
      where
        by_impl :
            (impl : Impl)
            → let d : Client = record c { impl = impl } in
              Stream.IsValid (queue d)
              → (c' : Client) × (remote_one name stamp origin msg d ≡ some c')
                × Got (peer_due d) d c'
        by_impl (s2s_client i) w =
            elim (Bool-cases (is_peer name stamp origin (record c { impl = s2s_client i }) i)) [
              | inl e ↦ rw e (to_peer_lem c.ptr c.fd c.corrupt i w)
              | inr e ↦ rw e (record c { impl = s2s_client i }, refl, Got-nothing _ w)
            ]
        by_impl impl w = (record c { impl = impl }, refl, Got-nothing _ w)

    broadcast_one_lem :
        (c : Client)
        → Stream.IsValid (queue c)
        → (c' : Client) × (broadcast_one name stamp origin msg c ≡ some c')
          × Got (broadcast_due c) c c'
    broadcast_one_lem c v = by_impl c.impl v
      where
        by_impl :
            (impl : Impl)
            → let d : Client = record c { impl = impl } in
              Stream.IsValid (queue d)
              → (c' : Client) × (broadcast_one name stamp origin msg d ≡ some c')
                × Got (broadcast_due d) d c'
        by_impl (ichat_client i) w = to_chat_lem c.ptr c.fd c.corrupt i w
        by_impl impl w = remote_one_lem (record c { impl = impl }) w

    -- `ichat_broadcast` never meets an assertion, and every client gets what it is due.
    pub ichat_broadcast_lem :
        (cs : List Client)
        → QueuesValid cs
        → (cs' : List Client) × (ichat_broadcast name stamp origin msg cs ≡ some cs')
          × Delivered broadcast_due cs cs'
    unfolding ichat_broadcast
    ichat_broadcast_lem [] v = ([], refl, tt)
    ichat_broadcast_lem (c ∷ cs) v =
        let (c', e, got) = broadcast_one_lem c v.0 in
        let (cs', es, all) = ichat_broadcast_lem cs v.1 in (c' ∷ cs', rw (e, es), (got, all))

    pub unicast_remote_lem :
        (cs : List Client)
        → QueuesValid cs
        → (cs' : List Client) × (unicast_remote name stamp origin msg cs ≡ some cs')
          × Delivered peer_due cs cs'
    unfolding unicast_remote
    unicast_remote_lem [] v = ([], refl, tt)
    unicast_remote_lem (c ∷ cs) v =
        let (c', e, got) = remote_one_lem c v.0 in
        let (cs', es, all) = unicast_remote_lem cs v.1 in (c' ∷ cs', rw (e, es), (got, all))
