-- ===== src/Dispatch.antt =====
-- src/ichat/proto/ichat_dispatch.c: to whom a message goes. A message changes only the queues of
-- its receivers, so the walk over the list of clients gives the list with the new queues. `stamp`
-- gives the time that `make_timestamp` writes for the message to the server at an address. `none`
-- is a failed assertion.
pub mod Delivery
pub mod Routing
use ichatd.Common.{
  ℕ, ◌+◌, Bool, true, false, ◌&&◌, ◌||◌, not, List, [], ◌∷◌, Option, none, some, Bytes, ◌==◌,
  if◌then◌else◌, ◌>>=◌, ℤ, pos, negsuc, ltb,
}
use mathlib.Core.Option
use ichatd.Config.{Config}
use ichatd.Proto.Icc2s.{Icc2s, ichat_buffer_to_icc2s, icc2s_receiver}
use ichatd.Proto.Signature.{ichat_sig_cmp, ichat_sig_is_broadcast}
use ichatd.Client.{
  Client, Impl, ctl_server, ichat_server, s2s_server, ctl_client, ichat_client, s2s_client,
  ChatImpl, S2sImpl,
}
use ichatd.Client.Chat.{ichat_client_add_message}
use ichatd.Client.S2s.{ichat_s2s_client_add_message}
use ichatd.Server.{Server}

abbrev is_zero : ℤ → Bool
is_zero (pos n) = n == 0
is_zero (negsuc n) = false

-- ichat_sig_cmp (receiver, sig) == 0
abbrev pub same_sig : Bytes → Bytes → Bool
same_sig receiver sig = is_zero (ichat_sig_cmp receiver sig)

abbrev pub to_chat : Bytes → Client → ChatImpl → Option Client
to_chat msg c i = do i' ← ichat_client_add_message msg i; some (record c { impl = ichat_client i' })

module _ (my_name : Bytes) (stamp : ℕ → Bytes) (origin : ℕ) where
  -- A server that is authenticated and did not send the message.
  abbrev pub is_peer : Client → S2sImpl → Bool
  is_peer c i = not (c.ptr == origin) && i.is_authenticated

  abbrev pub to_peer : Bytes → Client → S2sImpl → Option Client
  to_peer msg c i = do
    i' ← ichat_s2s_client_add_message my_name (stamp c.ptr) msg i
    some (record c { impl = s2s_client i' })

  -- The body of the loop of `ichat_broadcast`.
  abbrev pub broadcast_one : Bytes → Client → Option Client
  broadcast_one msg c = elim c.impl [
    | ctl_server ↦ some c
    | ichat_server ↦ some c
    | s2s_server ↦ some c
    | ctl_client i ↦ some c
    | ichat_client i ↦ to_chat msg c i
    | s2s_client i ↦ if is_peer c i then to_peer msg c i else some c
  ]

  -- `ichat_broadcast`.
  unfoldable pub ichat_broadcast : Bytes → List Client → Option (List Client)
  ichat_broadcast msg [] = some []
  ichat_broadcast msg (c ∷ cs) = do
    c' ← broadcast_one msg c
    cs' ← ichat_broadcast msg cs
    some (c' ∷ cs')

  -- The body of the second loop of `ichat_unicast`.
  abbrev pub remote_one : Bytes → Client → Option Client
  remote_one msg c = elim c.impl [
    | ctl_server ↦ some c
    | ichat_server ↦ some c
    | s2s_server ↦ some c
    | ctl_client i ↦ some c
    | ichat_client i ↦ some c
    | s2s_client i ↦ if is_peer c i then to_peer msg c i else some c
  ]

  unfoldable pub unicast_remote : Bytes → List Client → Option (List Client)
  unicast_remote msg [] = some []
  unicast_remote msg (c ∷ cs) = do
    c' ← remote_one msg c
    cs' ← unicast_remote msg cs
    some (c' ∷ cs')

-- Whether the first loop of `ichat_unicast` sends to this client.
abbrev pub is_receiver : Bytes → Client → Bool
is_receiver receiver c = elim c.impl [
  | ctl_server ↦ false
  | ichat_server ↦ false
  | s2s_server ↦ false
  | ctl_client i ↦ false
  | ichat_client i ↦ same_sig receiver i.sig
  | s2s_client i ↦ false
]

-- The body of the first loop of `ichat_unicast`.
abbrev pub local_one : Bytes → Bytes → Client → Option Client
local_one receiver msg c = elim c.impl [
  | ctl_server ↦ some c
  | ichat_server ↦ some c
  | s2s_server ↦ some c
  | ctl_client i ↦ some c
  | ichat_client i ↦ if same_sig receiver i.sig then to_chat msg c i else some c
  | s2s_client i ↦ some c
]

-- The first loop of `ichat_unicast`, with `locally_delivered`.
unfoldable pub unicast_local : Bytes → Bytes → List Client → Option (List Client × Bool)
unicast_local receiver msg [] = some ([], false)
unicast_local receiver msg (c ∷ cs) = do
  c' ← local_one receiver msg c
  (cs', delivered) ← unicast_local receiver msg cs
  some (c' ∷ cs', is_receiver receiver c || delivered)

-- `ichat_unicast`.
unfoldable pub ichat_unicast :
    Bytes → (ℕ → Bytes) → ℕ → Bytes → Bytes → List Client → Option (List Client)
ichat_unicast my_name stamp origin receiver msg cs = do
  (cs', locally_delivered) ← unicast_local receiver msg cs
  if locally_delivered then some cs' else unicast_remote my_name stamp origin msg cs'

abbrev with_clients : Server → List Client → Server
with_clients s cs = record s { clist = cs; ticks = s.ticks + 1 }

-- What `ichat_dispatch` does with a message that could be read.
unfoldable pub route : (ℕ → ℕ → Bytes) → Server → ℕ → Bytes → Icc2s → Option Server
route stamp s origin msg m =
    let my_name = s.config.s2s_me.host in
    let everybody = ichat_broadcast my_name (stamp s.ticks) origin msg s.clist in
    let receiver = icc2s_receiver m in
    let one = ichat_unicast my_name (stamp s.ticks) origin receiver msg s.clist in
    Option.map (with_clients s) (if ichat_sig_is_broadcast receiver then everybody else one)

abbrev pub route_parsed : (ℕ → ℕ → Bytes) → Server → ℕ → Bytes → Option Icc2s → Option Server
route_parsed stamp s origin msg none = some s
route_parsed stamp s origin msg (some m) = route stamp s origin msg m

-- `ichat_dispatch` for a message from the client at `origin`.
unfoldable pub ichat_dispatch : (ℕ → ℕ → Bytes) → Server → ℕ → Bytes → Option Server
ichat_dispatch stamp s origin msg = route_parsed stamp s origin msg (ichat_buffer_to_icc2s msg)
