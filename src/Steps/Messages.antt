-- ===== src/Steps/Messages.antt =====
-- Dispatching a message keeps all clients (src/ichat/proto/ichat_dispatch.c).
use mathlib.Core.Option
use ichatd.Common.{
  ℕ, ◌+◌, ◌≡◌, refl, subst, Bool, List, [], ◌∷◌, Option, none, some, Bytes, if◌then◌else◌,
  Bool-cases, Option-cases, inl, inr, assert, >>=-eq-some, eq_of_some,
}
use ichatd.Proto.Icc2s.{Icc2s, ichat_buffer_to_icc2s}
use ichatd.Proto.Signature.{ichat_sig_is_broadcast}
use ichatd.Queue.Stream
use ichatd.Queue.Stream.{stream-append_all}
use ichatd.Client.{Client, Impl, ichat_client, s2s_client, ChatImpl, S2sImpl}
use ichatd.Client.Chat
use ichatd.Client.Chat.{ichat_client_add_message, size_ok, enqueue_lem}
use ichatd.Client.S2s
use ichatd.Client.S2s.{ichat_s2s_client_add_message}
use ichatd.Server.{Server}
use ichatd.Dispatch.{
  same_sig, is_peer, to_chat, to_peer, broadcast_one, remote_one, local_one, ichat_broadcast,
  unicast_remote, unicast_local, ichat_unicast, route, ichat_dispatch,
}
use ichatd.Steps.{Kept, AllKept, Touched}
use ichatd.Steps.Clients.{Kept-refl, AllKept-trans, Touched-refl, Touched-clients}

to_chat-Kept :
    (msg : Bytes) (c : Client) (i : ChatImpl) (c' : Client)
    → to_chat msg (record c { impl = ichat_client i }) i ≡ some c'
    → Kept (record c { impl = ichat_client i }) c'
unfolding ichat_client_add_message
to_chat-Kept msg c i c' h =
    let (i', e, last) = >>=-eq-some (ichat_client_add_message msg i) _ h in
    let (t, fits, e') = >>=-eq-some (assert (size_ok msg)) _ e in
    let (m, parsed, e'') = >>=-eq-some (ichat_buffer_to_icc2s msg) _ e' in
    let same : record i { bo = Chat.enqueue m i.bo } ≡ i' = eq_of_some e'' in
    subst (λ d. Kept (record c { impl = ichat_client i }) d) (eq_of_some last)
      (subst (λ j. Kept (record c { impl = ichat_client i }) (record c { impl = ichat_client j }))
        same
        (record {
          same_ptr = refl;
          same_fd = refl;
          same_link = refl;
          stays_corrupt = λ x. x;
          keeps_queue = λ v. (enqueue_lem m i.bo v).1;
        }))

enqueue-IsValid :
    (name stamp msg : Bytes) (i : S2sImpl)
    → Stream.IsValid i.bo
    → Stream.IsValid (S2s.enqueue name stamp msg i.bo)
unfolding S2s.enqueue
enqueue-IsValid name stamp msg i v = (stream-append_all i.bo (_ ∷ _ ∷ msg ∷ []) v).1

module _ (name : Bytes) (stamp : ℕ → Bytes) (origin : ℕ) (msg : Bytes) where
  to_peer-Kept :
      (c : Client) (i : S2sImpl) (c' : Client)
      → to_peer name stamp origin msg (record c { impl = s2s_client i }) i ≡ some c'
      → Kept (record c { impl = s2s_client i }) c'
  unfolding ichat_s2s_client_add_message
  to_peer-Kept c i c' h =
      let (i', e, last) = >>=-eq-some (ichat_s2s_client_add_message name (stamp c.ptr) msg i) _ h in
      let (t, fits, e') = >>=-eq-some (assert (size_ok msg)) _ e in
      let same : record i { bo = S2s.enqueue name (stamp c.ptr) msg i.bo } ≡ i' = eq_of_some e' in
      subst (λ d. Kept (record c { impl = s2s_client i }) d) (eq_of_some last)
        (subst (λ j. Kept (record c { impl = s2s_client i }) (record c { impl = s2s_client j }))
          same
          (record {
            same_ptr = refl;
            same_fd = refl;
            same_link = refl;
            stays_corrupt = λ x. x;
            keeps_queue = enqueue-IsValid name (stamp c.ptr) msg i;
          }))

  same_client : (c c' : Client) → some c ≡ some c' → Kept c c'
  same_client c c' h = subst (λ d. Kept c d) (eq_of_some h) (Kept-refl c)

  remote_one-Kept : (c c' : Client) → remote_one name stamp origin msg c ≡ some c' → Kept c c'
  remote_one-Kept c c' h = by_impl c.impl h
    where
      by_impl :
          (impl : Impl)
          → let d : Client = record c { impl = impl } in
            remote_one name stamp origin msg d ≡ some c' → Kept d c'
      by_impl (s2s_client i) e =
          elim (Bool-cases (is_peer name stamp origin (record c { impl = s2s_client i }) i)) [
            | inl b ↦ to_peer-Kept c i c' (rw b at e)
            | inr b ↦ same_client (record c { impl = s2s_client i }) c' (rw b at e)
          ]
      by_impl impl e = same_client (record c { impl = impl }) c' e

  broadcast_one-Kept : (c c' : Client) → broadcast_one name stamp origin msg c ≡ some c' → Kept c c'
  broadcast_one-Kept c c' h = by_impl c.impl h
    where
      by_impl :
          (impl : Impl)
          → let d : Client = record c { impl = impl } in
            broadcast_one name stamp origin msg d ≡ some c' → Kept d c'
      by_impl (ichat_client i) e = to_chat-Kept msg c i c' e
      by_impl impl e = remote_one-Kept (record c { impl = impl }) c' e

  local_one-Kept :
      (receiver : Bytes) (c c' : Client) → local_one receiver msg c ≡ some c' → Kept c c'
  local_one-Kept receiver c c' h = by_impl c.impl h
    where
      by_impl :
          (impl : Impl)
          → let d : Client = record c { impl = impl } in
            local_one receiver msg d ≡ some c' → Kept d c'
      by_impl (ichat_client i) e = elim (Bool-cases (same_sig receiver i.sig)) [
        | inl b ↦ to_chat-Kept msg c i c' (rw b at e)
        | inr b ↦ same_client (record c { impl = ichat_client i }) c' (rw b at e)
      ]
      by_impl impl e = same_client (record c { impl = impl }) c' e

  ichat_broadcast-AllKept :
      (cs cs' : List Client) → ichat_broadcast name stamp origin msg cs ≡ some cs' → AllKept cs cs'
  unfolding ichat_broadcast
  ichat_broadcast-AllKept [] cs' h = subst (AllKept []) (eq_of_some h) tt
  ichat_broadcast-AllKept (c ∷ cs) cs' h =
      let (d, e, h') = >>=-eq-some (broadcast_one name stamp origin msg c) _ h in
      let (ds, es, last) = >>=-eq-some (ichat_broadcast name stamp origin msg cs) _ h' in
      subst (AllKept (c ∷ cs)) (eq_of_some last)
        (broadcast_one-Kept c d e, ichat_broadcast-AllKept cs ds es)

  unicast_remote-AllKept :
      (cs cs' : List Client) → unicast_remote name stamp origin msg cs ≡ some cs' → AllKept cs cs'
  unfolding unicast_remote
  unicast_remote-AllKept [] cs' h = subst (AllKept []) (eq_of_some h) tt
  unicast_remote-AllKept (c ∷ cs) cs' h =
      let (d, e, h') = >>=-eq-some (remote_one name stamp origin msg c) _ h in
      let (ds, es, last) = >>=-eq-some (unicast_remote name stamp origin msg cs) _ h' in
      subst (AllKept (c ∷ cs)) (eq_of_some last)
        (remote_one-Kept c d e, unicast_remote-AllKept cs ds es)

  unicast_local-AllKept :
      (receiver : Bytes) (cs : List Client) (r : List Client × Bool)
      → unicast_local receiver msg cs ≡ some r
      → AllKept cs r.0
  unfolding unicast_local
  unicast_local-AllKept receiver [] r h = subst (λ x. AllKept [] x.0) (eq_of_some h) tt
  unicast_local-AllKept receiver (c ∷ cs) r h =
      let (d, e, h') = >>=-eq-some (local_one receiver msg c) _ h in
      let (rs, es, last) = >>=-eq-some (unicast_local receiver msg cs) _ h' in
      subst (λ x. AllKept (c ∷ cs) x.0) (eq_of_some last)
        (local_one-Kept receiver c d e, unicast_local-AllKept receiver cs rs es)

  ichat_unicast-AllKept :
      (receiver : Bytes) (cs cs' : List Client)
      → ichat_unicast name stamp origin receiver msg cs ≡ some cs'
      → AllKept cs cs'
  unfolding ichat_unicast
  ichat_unicast-AllKept receiver cs cs' h =
      let (r, e, h') = >>=-eq-some (unicast_local receiver msg cs) _ h in
      let first = unicast_local-AllKept receiver cs r e in
      elim (Bool-cases r.1) [
        | inl b ↦ subst (AllKept cs) (eq_of_some (rw b at h')) first
        | inr b ↦ AllKept-trans cs r.0 cs' first (unicast_remote-AllKept r.0 cs' (rw b at h'))
      ]

map-eq-some :
    (s s' : Server) (o : Option (List Client))
    → Option.map (λ cs. record s { clist = cs; ticks = s.ticks + 1 }) o ≡ some s'
    → (cs : List Client) × (o ≡ some cs) × (record s { clist = cs; ticks = s.ticks + 1 } ≡ s')
map-eq-some s s' none h = cc
map-eq-some s s' (some cs) h = (cs, refl, eq_of_some h)

-- A message that is dispatched without a failed assertion touches the clients only.
pub ichat_dispatch-Touched :
    (stamp : ℕ → ℕ → Bytes) (s : Server) (origin : ℕ) (msg : Bytes) (s' : Server)
    → ichat_dispatch stamp s origin msg ≡ some s'
    → Touched s s'
unfolding ichat_dispatch route
ichat_dispatch-Touched stamp s origin msg s' h = elim (Option-cases (ichat_buffer_to_icc2s msg)) [
  | inl e ↦ subst (Touched s) (eq_of_some (rw e at h)) (Touched-refl s)
  | inr (m, e) ↦
      let (cs, sent, same) = map-eq-some s s' _ (rw e at h) in
      subst (Touched s) same (Touched-clients s cs (s.ticks + 1) (receivers m cs sent))
]
  where
    receivers :
        (m : Icc2s) (cs : List Client)
        → (if ichat_sig_is_broadcast m.receiver
            then ichat_broadcast s.config.s2s_me.host (stamp s.ticks) origin msg s.clist
            else ichat_unicast s.config.s2s_me.host (stamp s.ticks) origin m.receiver msg s.clist)
          ≡ some cs
        → AllKept s.clist cs
    receivers m cs e = elim (Bool-cases (ichat_sig_is_broadcast m.receiver)) [
      | inl b ↦
          ichat_broadcast-AllKept s.config.s2s_me.host (stamp s.ticks) origin msg s.clist cs
            (rw b at e)
      | inr b ↦
          ichat_unicast-AllKept s.config.s2s_me.host (stamp s.ticks) origin msg m.receiver s.clist
            cs (rw b at e)
    ]
