-- ===== src/Steps/Total.antt =====
-- Where the code meets no assertion: dispatching, and reading from a chat client
-- (src/ichat/proto/ichat_dispatch.c, src/ichat/client/ichat_client_ops.c).
use mathlib.Core.Option
use ichatd.Common.{
  ℕ, zero, suc, ◌+◌, ◌≡◌, refl, true, false, List, [], ◌∷◌, ◌++◌, Option, none, some, Bytes, length,
  ◌>>=◌, Bool-cases, Option-cases, inl, inr,
}
use ichatd.Proto.Icc2s.{Icc2s, ichat_buffer_to_icc2s}
use ichatd.Proto.Signature.{ichat_sig_is_broadcast}
use ichatd.Frame.{wait, bad, message, next_frame}
use ichatd.Client.{Client, Impl, ichat_client, s2s_client}
use ichatd.Client.Chat.{ichat_client_add_message, size_ok}
use ichatd.Client.S2s.{ichat_s2s_client_add_message}
use ichatd.Server.{Server, find_client, at_client}
use ichatd.Dispatch.{
  same_sig, is_peer, broadcast_one, remote_one, local_one, ichat_broadcast, unicast_remote,
  unicast_local, ichat_unicast, route, ichat_dispatch,
}
use ichatd.Input.{got, read_loop, read_op, set_input, input_at, registered}
use ichatd.Input.Chat.{ichat_client_process_message, ichat_client_read_op}
use ichatd.Steps.Reading.{read_op-Touched, chat-Touches}
use ichatd.Steps.Invariant.{IsValid, Touched-IsValid}

-- The computation meets no assertion.
abbrev pub Returns : {A : Type 0} → Option A → Type 0
Returns {A} o = (x : A) × (o ≡ some x)

pub bind-Returns :
    {A B : Type 0} (o : Option A) (k : A → Option B)
    → Returns o
    → ((x : A) → Returns (k x))
    → Returns (do x ← o; k x)
bind-Returns none k (x, e) r = cc
bind-Returns (some y) k (x, e) r = r y

module _ (msg : Bytes) (m : Icc2s) (sized : size_ok msg ≡ true)
    (parsed : ichat_buffer_to_icc2s msg ≡ some m) where
  module _ (name : Bytes) (stamp : ℕ → Bytes) (origin : ℕ) where
    remote_one-Returns : (c : Client) → Returns (remote_one name stamp origin msg c)
    unfolding ichat_s2s_client_add_message
    remote_one-Returns c = by_impl c.impl
      where
        by_impl :
            (impl : Impl) → Returns (remote_one name stamp origin msg (record c { impl = impl }))
        by_impl (s2s_client i) =
            elim (Bool-cases (is_peer name stamp origin (record c { impl = s2s_client i }) i)) [
              | inl b ↦ rw (b, sized) (_, refl)
              | inr b ↦ rw b (_, refl)
            ]
        by_impl impl = (record c { impl = impl }, refl)

    broadcast_one-Returns : (c : Client) → Returns (broadcast_one name stamp origin msg c)
    unfolding ichat_client_add_message
    broadcast_one-Returns c = by_impl c.impl
      where
        by_impl :
            (impl : Impl) → Returns (broadcast_one name stamp origin msg (record c { impl = impl }))
        by_impl (ichat_client i) = rw (sized, parsed) (_, refl)
        by_impl impl = remote_one-Returns (record c { impl = impl })

    ichat_broadcast-Returns :
        (cs : List Client) → Returns (ichat_broadcast name stamp origin msg cs)
    unfolding ichat_broadcast
    ichat_broadcast-Returns [] = ([], refl)
    ichat_broadcast-Returns (c ∷ cs) =
        bind-Returns (broadcast_one name stamp origin msg c) _ (broadcast_one-Returns c) (λ c'.
          bind-Returns (ichat_broadcast name stamp origin msg cs) _ (ichat_broadcast-Returns cs)
            (λ cs'. (c' ∷ cs', refl)))

    unicast_remote-Returns : (cs : List Client) → Returns (unicast_remote name stamp origin msg cs)
    unfolding unicast_remote
    unicast_remote-Returns [] = ([], refl)
    unicast_remote-Returns (c ∷ cs) =
        bind-Returns (remote_one name stamp origin msg c) _ (remote_one-Returns c) (λ c'.
          bind-Returns (unicast_remote name stamp origin msg cs) _ (unicast_remote-Returns cs)
            (λ cs'. (c' ∷ cs', refl)))

  local_one-Returns : (receiver : Bytes) (c : Client) → Returns (local_one receiver msg c)
  unfolding ichat_client_add_message
  local_one-Returns receiver c = by_impl c.impl
    where
      by_impl : (impl : Impl) → Returns (local_one receiver msg (record c { impl = impl }))
      by_impl (ichat_client i) = elim (Bool-cases (same_sig receiver i.sig)) [
        | inl b ↦ rw (b, sized, parsed) (_, refl)
        | inr b ↦ rw b (_, refl)
      ]
      by_impl impl = (record c { impl = impl }, refl)

  unicast_local-Returns :
      (receiver : Bytes) (cs : List Client) → Returns (unicast_local receiver msg cs)
  unfolding unicast_local
  unicast_local-Returns receiver [] = (([], false), refl)
  unicast_local-Returns receiver (c ∷ cs) =
      bind-Returns (local_one receiver msg c) _ (local_one-Returns receiver c) (λ c'.
        bind-Returns (unicast_local receiver msg cs) _ (unicast_local-Returns receiver cs)
          (λ r. (_, refl)))

  ichat_unicast-Returns :
      (name : Bytes) (stamp : ℕ → Bytes) (origin : ℕ) (receiver : Bytes) (cs : List Client)
      → Returns (ichat_unicast name stamp origin receiver msg cs)
  unfolding ichat_unicast
  ichat_unicast-Returns name stamp origin receiver cs =
      bind-Returns (unicast_local receiver msg cs) _ (unicast_local-Returns receiver cs) (λ r.
        elim (Bool-cases r.1) [
          | inl b ↦ rw b (_, refl)
          | inr b ↦ rw b (unicast_remote-Returns name stamp origin r.0)
        ])

map-Returns : {A B : Type 0} (f : A → B) (o : Option A) → Returns o → Returns (Option.map f o)
map-Returns f none (x, e) = cc
map-Returns f (some y) r = (f y, refl)

-- A message of a size strictly between the limits is dispatched without a failed assertion.
pub ichat_dispatch-Returns :
    (stamp : ℕ → ℕ → Bytes) (s : Server) (origin : ℕ) (msg : Bytes)
    → size_ok msg ≡ true
    → Returns (ichat_dispatch stamp s origin msg)
unfolding ichat_dispatch route
ichat_dispatch-Returns stamp s origin msg sized = elim (Option-cases (ichat_buffer_to_icc2s msg)) [
  | inl e ↦ rw e (s, refl)
  | inr (m, e) ↦ elim (Bool-cases (ichat_sig_is_broadcast m.receiver)) [
    | inl b ↦
        rw (e, b)
          (map-Returns _ _ (
            ichat_broadcast-Returns msg m sized e s.config.s2s_me.host (stamp s.ticks) origin
              s.clist))
    | inr b ↦
        rw (e, b)
          (map-Returns _ _ (
            ichat_unicast-Returns msg m sized e s.config.s2s_me.host (stamp s.ticks) origin
              m.receiver s.clist))
  ]
]

-- Input in which the loop finds messages of sizes strictly between the limits only, before it waits
-- for more or meets a bad header.
pub data Tame : Bytes → Type 0 where
  waits : {p : Bytes} → next_frame p ≡ wait → Tame p
  breaks : {p : Bytes} → next_frame p ≡ bad → Tame p
  sends :
      {p : Bytes} (msg rest : Bytes)
      → next_frame p ≡ message msg rest
      → size_ok msg ≡ true
      → Tame rest
      → Tame p

process-Returns :
    (stamp : ℕ → ℕ → Bytes) (s : Server) (ptr : ℕ) (msg : Bytes)
    → size_ok msg ≡ true
    → Returns (ichat_client_process_message stamp s ptr msg)
unfolding ichat_client_process_message
process-Returns stamp s ptr msg sized = elim (Option-cases (ichat_buffer_to_icc2s msg)) [
  | inl e ↦ rw e (_, refl)
  | inr (m, e) ↦
      rw e (ichat_dispatch-Returns stamp (at_client ptr (registered m.sender) s) ptr msg sized)
]

read_loop-Returns :
    (stamp : ℕ → ℕ → Bytes) (fuel : ℕ) (s : Server) (ptr : ℕ) (p : Bytes)
    → Tame p
    → Returns (read_loop (ichat_client_process_message stamp) fuel s ptr p)
unfolding read_loop
read_loop-Returns stamp zero s ptr p t = (s, refl)
read_loop-Returns stamp (suc fuel) s ptr p (waits e) = rw (read_loop, e) (_, refl)
read_loop-Returns stamp (suc fuel) s ptr p (breaks e) = rw (read_loop, e) (_, refl)
read_loop-Returns stamp (suc fuel) s ptr p (sends msg rest e sized t) =
    rw (read_loop, e)
      (bind-Returns (ichat_client_process_message stamp s ptr msg) _
        (process-Returns stamp s ptr msg sized)
        (λ s'. read_loop-Returns stamp fuel (at_client ptr (set_input rest) s') ptr rest t))

-- When the input of a chat client, with the bytes that arrive, has only messages of sizes strictly
-- between the limits before it waits or meets a bad header, whether they can be read or not and
-- whoever they are for, `ichat_client_read_op` meets no assertion, and a valid server stays valid.
pub ichat_client_read_op-IsValid :
    (stamp : ℕ → ℕ → Bytes) (s : Server) (ptr : ℕ) (bytes : Bytes)
    → Tame (input_at (find_client ptr s.clist) ++ bytes)
    → IsValid s
    → (s' : Server) × (ichat_client_read_op stamp s ptr (got bytes) ≡ some s') × IsValid s'
unfolding read_op
ichat_client_read_op-IsValid stamp s ptr bytes t v =
    let p = input_at (find_client ptr s.clist) ++ bytes in
    let (s', e) = read_loop-Returns stamp (length p + 1) (at_client ptr (set_input p) s) ptr p t in
    let touched =
      read_op-Touched (ichat_client_process_message stamp) (chat-Touches stamp) s ptr (got bytes) s'
        e in
    (s', e, Touched-IsValid s s' touched v)
