-- ===== src/Dispatch/Routing.antt =====
-- `ichat_unicast` and `ichat_dispatch` as a whole: the receivers of a message, and what they get.
use ichatd.Common.{
  ℕ, ◌+◌, ◌≡◌, refl, ap, Bool, true, false, ◌||◌, List, [], ◌∷◌, none, some, arith, Bytes, length,
  if◌then◌else◌, Bool-cases, inl, inr,
}
use ichatd.Proto.Icc2s.{Icc2s, ichat_buffer_to_icc2s}
use ichatd.Proto.Signature.{ichat_sig_is_broadcast}
use ichatd.Queue.Stream
use ichatd.Queue.Stream.{stream}
use ichatd.Client.{Client, Impl, ichat_client}
use ichatd.Server.{Server}
use ichatd.Dispatch.{
  same_sig, is_receiver, local_one, unicast_local, ichat_unicast, route, ichat_dispatch,
  ichat_broadcast,
}
use ichatd.Dispatch.Delivery.{
  queue, Got, Delivered, QueuesValid, Got-nothing, Sendable, peer_due, broadcast_due, local_due,
  to_chat_lem, ichat_broadcast_lem, unicast_remote_lem,
}

-- Whether a client of this server has the signature.
abbrev pub anyone : Bytes → List Client → Bool
anyone receiver [] = false
anyone receiver (c ∷ cs) = is_receiver receiver c || anyone receiver cs

due_then :
    (b : Bool) (f g : Client → Bytes) (cs cs' : List Client)
    → b ≡ true
    → Delivered f cs cs'
    → Delivered (λ c. if b then f c else g c) cs cs'
due_then true f g cs cs' e d = d
due_then false f g cs cs' e d = cc

due_else :
    (b : Bool) (f g : Client → Bytes) (cs cs' : List Client)
    → b ≡ false
    → Delivered g cs cs'
    → Delivered (λ c. if b then f c else g c) cs cs'
due_else true f g cs cs' e d = cc
due_else false f g cs cs' e d = d

module _ (name : Bytes) (stamp : ℕ → Bytes) (origin : ℕ) (msg : Bytes) (m : Icc2s) where
  module _ (ok : Sendable msg m) (stamped : (p : ℕ) → length (stamp p) ≡ 17) where
    local_one_lem :
        (receiver : Bytes) (c : Client)
        → Stream.IsValid (queue c)
        → (c' : Client) × (local_one receiver msg c ≡ some c')
          × Got (local_due name stamp origin msg m receiver c) c c'
    local_one_lem receiver c v = by_impl c.impl v
      where
        by_impl :
            (impl : Impl)
            → let d : Client = record c { impl = impl } in
              Stream.IsValid (queue d)
              → (c' : Client) × (local_one receiver msg d ≡ some c')
                × Got (local_due name stamp origin msg m receiver d) d c'
        by_impl (ichat_client i) w = elim (Bool-cases (same_sig receiver i.sig)) [
          | inl e ↦ rw e (to_chat_lem name stamp origin msg m ok stamped c.ptr c.fd c.corrupt i w)
          | inr e ↦ rw e (record c { impl = ichat_client i }, refl, Got-nothing _ w)
        ]
        by_impl impl w = (record c { impl = impl }, refl, Got-nothing _ w)

    unicast_local_lem :
        (receiver : Bytes) (cs : List Client)
        → QueuesValid cs
        → (cs' : List Client) × (unicast_local receiver msg cs ≡ some (cs', anyone receiver cs))
          × Delivered (local_due name stamp origin msg m receiver) cs cs'
    unfolding unicast_local
    unicast_local_lem receiver [] v = ([], refl, tt)
    unicast_local_lem receiver (c ∷ cs) v =
        let (c', e, got) = local_one_lem receiver c v.0 in
        let (cs', es, all) = unicast_local_lem receiver cs v.1 in (c' ∷ cs', rw (e, es), (got, all))

  local_one_other :
      (receiver : Bytes) (c : Client)
      → is_receiver receiver c ≡ false
      → local_one receiver msg c ≡ some c
  local_one_other receiver c h = by_impl c.impl h
    where
      by_impl :
          (impl : Impl)
          → let d : Client = record c { impl = impl } in
            is_receiver receiver d ≡ false → local_one receiver msg d ≡ some d
      by_impl (ichat_client i) w = rw w
      by_impl impl w = refl

  unicast_local_nobody :
      (receiver : Bytes) (cs : List Client)
      → anyone receiver cs ≡ false
      → unicast_local receiver msg cs ≡ some (cs, false)
  unfolding unicast_local
  unicast_local_nobody receiver [] h = refl
  unicast_local_nobody receiver (c ∷ cs) h =
      let here : is_receiver receiver c ≡ false = ground arith in
      let there : anyone receiver cs ≡ false = ground arith in
      rw (local_one_other receiver c here, unicast_local_nobody receiver cs there)
        (ap (λ b. some (c ∷ cs, b || false)) here)

  -- What a client is due from a message to one receiver, in a server with these clients: the
  -- clients with the signature if there are any, else the other servers.
  abbrev pub unicast_due : Bytes → List Client → Client → Bytes
  unicast_due receiver cs c =
      if anyone receiver cs
      then local_due name stamp origin msg m receiver c
      else peer_due name stamp origin msg m c

  -- What a client is due from a message.
  abbrev pub dispatch_due : List Client → Client → Bytes
  dispatch_due cs c =
      if ichat_sig_is_broadcast m.receiver
      then broadcast_due name stamp origin msg m c
      else unicast_due m.receiver cs c

  module _ (ok : Sendable msg m) (stamped : (p : ℕ) → length (stamp p) ≡ 17) where
    ichat_unicast_lem :
        (receiver : Bytes) (cs : List Client)
        → QueuesValid cs
        → (cs' : List Client) × (ichat_unicast name stamp origin receiver msg cs ≡ some cs')
          × Delivered (unicast_due receiver cs) cs cs'
    unfolding ichat_unicast
    ichat_unicast_lem receiver cs v = elim (Bool-cases (anyone receiver cs)) [
      | inl e ↦
          let (cs', es, all) = unicast_local_lem ok stamped receiver cs v in
          (cs', rw (es, e), due_then (anyone receiver cs) _ _ cs cs' e all)
      | inr e ↦
          let (cs', es, all) = unicast_remote_lem name stamp origin msg m ok stamped cs v in
          (
            cs',
            rw (unicast_local_nobody receiver cs e) es,
            due_else (anyone receiver cs) _ _ cs cs' e all,
          )
    ]

    pub receivers_lem :
        (cs : List Client)
        → QueuesValid cs
        → (cs' : List Client) × ((if ichat_sig_is_broadcast m.receiver
              then ichat_broadcast name stamp origin msg cs
              else ichat_unicast name stamp origin m.receiver msg cs)
            ≡ some cs')
          × Delivered (dispatch_due cs) cs cs'
    receivers_lem cs v = elim (Bool-cases (ichat_sig_is_broadcast m.receiver)) [
      | inl e ↦
          let (cs', es, all) = ichat_broadcast_lem name stamp origin msg m ok stamped cs v in
          (cs', rw e es, due_then (ichat_sig_is_broadcast m.receiver) _ _ cs cs' e all)
      | inr e ↦
          let (cs', es, all) = ichat_unicast_lem m.receiver cs v in
          (cs', rw e es, due_else (ichat_sig_is_broadcast m.receiver) _ _ cs cs' e all)
    ]

-- For clients with valid queues and times of 17 characters, `ichat_dispatch` of a readable message
-- whose size is strictly between the limits meets no assertion. To a broadcast signature it goes to
-- every chat client, the sender included, whether or not the client has ever identified itself and
-- whatever the option `nullclients` says, and to every authenticated server but the one that it
-- came from; to another signature it goes to the chat clients that have it, or, if there is none,
-- to those servers. All else of the clients stays, and of the server all but the count of
-- dispatched messages.
pub ichat_dispatch_lem :
    (stamp : ℕ → ℕ → Bytes) (s : Server) (origin : ℕ) (msg : Bytes) (m : Icc2s)
    → Sendable msg m
    → ((n p : ℕ) → length (stamp n p) ≡ 17)
    → QueuesValid s.clist
    → (cs' : List Client) × (ichat_dispatch stamp s origin msg
        ≡ some (record s { clist = cs'; ticks = s.ticks + 1 }))
      × Delivered
          (dispatch_due s.config.s2s_me.host (stamp s.ticks) origin msg m s.clist)
          s.clist
          cs'
unfolding ichat_dispatch route
ichat_dispatch_lem stamp s origin msg m ok stamped v =
    let (cs', e, all) =
      receivers_lem s.config.s2s_me.host (stamp s.ticks) origin msg m ok (stamped s.ticks) s.clist
        v in
    (cs', rw (ok.parsed, e), all)

-- A message that cannot be read is dropped without a trace.
pub ichat_dispatch_malformed :
    (stamp : ℕ → ℕ → Bytes) (s : Server) (origin : ℕ) (msg : Bytes)
    → ichat_buffer_to_icc2s msg ≡ none
    → ichat_dispatch stamp s origin msg ≡ some s
unfolding ichat_dispatch
ichat_dispatch_malformed stamp s origin msg h = rw h
